-- ===== src/Work/Kept.antt =====
-- What every operation of CapabilityWork of src/capabilities/work.ts keeps of an execution that is
-- finished.
use sema_core.Prelude.{ℕ, ◌≡◌, true, Option, some, [], ◌∷◌, Text, lookup, Result, ok, err}
use sema_core.Core.Exec.{Exec}
use sema_core.Core.Rules.{IsLeft}
use sema_core.Core.Stays.{
  Stays, Stays-bind, Stays-pure, Stays-read, Stays-throw_if, Stays-need, Stays-call,
}
use sema_core.Core.Types.{Json, Command, CoreError, Lifecycle}
use sema_core.Core.Store.{CoreStore, update_command}
use sema_core.Capabilities.Records.{Records, ServiceInstance, InstanceChange, update_instance}
use sema_core.Work.Types.{Execution}
use sema_core.Work.Store.{is_finished}
use sema_core.Work.Calls.{Call, on_claim, on_reply, Reply, call_on, calls_on}
use sema_core.Work.Life.{IsKeyed}
use sema_core.Work.Became.{call_on-IsKeyed}
use sema_core.Work.Ended.{AddsOther, calls_on-finished}
use sema_core.Work.Reasons.{WorkError}
use sema_core.Work.Passing.{State, with_core, set_command, on_work}
use sema_core.Work.Answering.{
  own_instance, reply_on, claim_on, checked_in, as_work_error, check_in_on, execution_on,
}

-- The store is keyed, and the finished execution `e` stands under `k`.
pub record HasEnded {W : Type 0} (k : Text) (e : Execution) (s : State W) : Type 0 where
  pub keyed : IsKeyed s.work
  pub there : lookup k s.work.executions ≡ some e
  pub ended : is_finished e.status ≡ true

module _ {W : Type 0} (k : Text) (e : Execution) where
  abbrev pub Keeps : {A : Type 0} → Exec (State W) WorkError A → Type 0
  Keeps m = Stays (HasEnded k e) m

  HasEnded-call :
      (c : Call) (s : State W)
      → AddsOther k c
      → HasEnded k e s
      → HasEnded k e (record s { work = call_on c s.work })
  unfolding calls_on
  HasEnded-call c s other h = record {
    keyed = call_on-IsKeyed c s.work h.keyed;
    there = calls_on-finished (c ∷ []) s.work k e h.keyed (other, tt) h.there h.ended;
    ended = h.ended;
  }

  HasEnded-core :
      (s : State W) (core : CoreStore) → HasEnded k e s → HasEnded k e (record s { core = core })
  HasEnded-core s core h = record { keyed = h.keyed; there = h.there; ended = h.ended }

  pub HasEnded-world :
      (s : State W) (world : W) → HasEnded k e s → HasEnded k e (record s { world = world })
  HasEnded-world s world h = record { keyed = h.keyed; there = h.there; ended = h.ended }

  HasEnded-records :
      (s : State W) (records : Records)
      → HasEnded k e s
      → HasEnded k e (record s { records = records })
  HasEnded-records s records h = record { keyed = h.keyed; there = h.there; ended = h.ended }

  pub Keeps-on_work : (c : Call) → AddsOther k c → Keeps (on_work c)
  unfolding on_work
  Keeps-on_work c other = record { run = λ s h. HasEnded-call c s other h }

  pub Keeps-reply_on :
      (id instance_id : Text) (reply : Reply) → Keeps (reply_on id instance_id reply)
  unfolding reply_on
  Keeps-reply_on id instance_id reply = record {
    run = λ s h. HasEnded-call (on_reply id instance_id reply) s tt h;
  }

  pub Keeps-claim_on :
      (service instance_id : Text) (now stale : ℕ) → Keeps (claim_on service instance_id now stale)
  unfolding claim_on
  Keeps-claim_on service instance_id now stale = record {
    run = λ s h. HasEnded-call (on_claim service instance_id now stale) s tt h;
  }

  core_left :
      (s : State W) (left : Result CoreError Command × CoreStore)
      → HasEnded k e s
      → IsLeft (λ (a : Unit {0}). HasEnded k e) (HasEnded k e) (with_core s left)
  core_left s (ok command, core) h = HasEnded-core s core h
  core_left s (err x, core) h = HasEnded-core s core h

  pub Keeps-set_command : (id : Text) (status : Lifecycle) → Keeps (set_command id status)
  unfolding set_command
  Keeps-set_command id status = record {
    run = λ s h. core_left s (update_command id status s.core) h;
  }

  records_left :
      (s : State W) (left : Result WorkError (ServiceInstance × Records))
      → HasEnded k e s
      → IsLeft (λ (a : Unit {0}). HasEnded k e) (HasEnded k e) (checked_in s left)
  records_left s (ok (i, records)) h = HasEnded-records s records h
  records_left s (err x) h = h

  pub Keeps-check_in_on : (id : Text) (c : InstanceChange) → Keeps (check_in_on id c)
  unfolding check_in_on
  Keeps-check_in_on id c = record {
    run = λ s h. records_left s (as_work_error (update_instance id c s.records)) h;
  }

  pub Keeps-execution_on : (id : Text) → Keeps (execution_on id)
  unfolding execution_on
  Keeps-execution_on id = Stays-bind _ (Stays-read _) (λ s. Stays-need _ _ _)

  pub Keeps-own_instance :
      (caller : Option Text) (id : Option Json) → Keeps (own_instance caller id)
  unfolding own_instance
  Keeps-own_instance caller id = Stays-bind _ (Stays-call _ _ _) (λ given.
      Stays-bind _ (Stays-read _) (λ s. Stays-bind _ (Stays-need _ _ _) (λ found.
        Stays-bind _ (Stays-throw_if _ _ _) (λ u. Stays-bind _ (Stays-need _ _ _) (λ key.
          Stays-bind _ (Stays-throw_if _ _ _)
            (λ v. Stays-bind _ (Stays-need _ _ _) (λ installation. Stays-pure _ _)))))))
