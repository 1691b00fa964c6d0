-- ===== src/Work/Settling.antt =====
-- What settles a command at the end of an execution, as afterFinish of src/capabilities/work.ts
-- does it.
use sema_core.Prelude.{
  ℕ, ◌≡◌, ◌≢◌, ◌⊎◌, ◌↔◌, ◌<◌, ◌≤◌, refl, sym, ap, ◌∙◌, inl, inr, arith, ◌==◌, leb, ◌&&◌, not, Bool,
  true, false, Bool-cases, some, List, [], ◌∷◌, Text, text_eq, text_eq_iff, text_eq_refl, Dict,
  lookup, insert, lookup-insert, all, ok, if◌then◌else◌,
}
use sema_core.Core.Exec.{◌>>=◌}
use sema_core.Core.Types.{Command, Lifecycle, success, failed, pending, cancelled, JsonObject}
use sema_core.Core.Store.{update_command}
use sema_core.Capabilities.Registry.{Issue}
use sema_core.Capabilities.Entries.{IsIn}
use sema_core.Work.Types.{Execution}
use sema_core.Work.Store.{
  Work, is_finished, list_executions, status_eq, cancel_each, cancel_pending, is_cancelled_by,
  cancel_one, cancelled_at,
}
use sema_core.Work.Passing.{State, set_command, settle, is_dynamic, enough_of, succeeded}
use sema_core.Work.Listed.{IsOf, list_executions-IsOf, all-IsAmong, none_succeeded, some_succeeded}

-- No execution of the command is open.
abbrev pub AllEnded : Text → Work → Type 0
AllEnded command_id w = (e : Execution) → IsOf command_id w e → is_finished e.status ≡ true

-- Success where an execution of the command has succeeded, failure where none has.
abbrev pub EndedAs : Text → Work → Lifecycle → Type 0
EndedAs command_id w status =
    ((e : Execution) × IsOf command_id w e × (e.status ≡ success) × (status ≡ success))
    ⊎ (((e : Execution) → IsOf command_id w e → e.status ≢ success) × (status ≡ failed))

-- The command says how many are enough, and as many have succeeded.
abbrev pub HasEnough : Command → Work → Type 0
HasEnough c w = (0 < enough_of c) × (enough_of c ≤ succeeded (list_executions c.id w))

abbrev pub NonePending : Text → Work → Type 0
NonePending command_id w = (e : Execution) → IsOf command_id w e → e.status ≢ pending

cancel_each-pending :
    (command_id : Text) (now : ℕ) (m : Dict Execution) (k : Text) (e : Execution)
    → IsIn k e (cancel_each command_id now m)
    → e.command_id ≡ command_id
    → e.status ≢ pending
unfolding cancel_each
cancel_each-pending id now [] k e there ours waits = absurd there
cancel_each-pending id now ((j, f) ∷ m) k e there ours waits = elim there [
  | inl (_, same) ↦ elim (Bool-cases (is_cancelled_by id f)) [
    | inl t ↦
        let made : cancel_one id now f ≡ cancelled_at now f = rw t refl in
        let over : cancelled ≡ e.status = ap (λ (x : Execution). x.status) (sym made ∙ same) in cc
    | inr t ↦
        let kept : f ≡ e = rw t at same in
        let is_ours : text_eq f.command_id id ≡ true =
          (text_eq_iff f.command_id id).1 (ap (λ (x : Execution). x.command_id) kept ∙ ours) in
        let is_pending : status_eq f.status pending ≡ true =
          ap (λ (x : Execution). status_eq x.status pending) kept
          ∙ ap (λ q. status_eq q pending) waits in
        ground arith
  ]
  | inr more ↦ cancel_each-pending id now m k e more ours waits
]

pub cancel_pending-NonePending :
    (command_id : Text) (now : ℕ) (w : Work)
    → NonePending command_id (cancel_pending command_id now w)
cancel_pending-NonePending id now w e (k, there, ours) waits =
    cancel_each-pending id now w.executions k e there ours waits

-- What issues the IDs never refuses one.
abbrev pub AlwaysIssues : {W : Type 0} → Issue W → Type 0
AlwaysIssues {W} issue =
    (type_code : Text) (metadata : JsonObject) (world : W)
    → (id : Text) × (next : W) × (issue type_code metadata world ≡ (ok id, next))

module _ (c : Command) (w : Work) where
  abbrev listed : List Execution
  listed = list_executions c.id w

  abbrev has_enough : Bool
  has_enough = not (enough_of c == 0) && leb (enough_of c) (succeeded listed)

  abbrev all_ended : Bool
  all_ended = all (λ (e : Execution). is_finished e.status) listed

  all_ended-AllEnded : (all_ended ≡ true) ↔ AllEnded c.id w
  all_ended-AllEnded =
      let of_all = all-IsAmong (λ (e : Execution). is_finished e.status) listed in
      (
        (λ h e ours. of_all.0 h e ((list_executions-IsOf c.id w e).1 ours)),
        (λ h. of_all.1 (λ e among. h e ((list_executions-IsOf c.id w e).0 among))),
      )

  some-EndedAs : succeeded listed == 0 ≡ false → EndedAs c.id w success
  some-EndedAs h =
      let (e, among, done) = some_succeeded listed h in
      inl (e, (list_executions-IsOf c.id w e).0 among, done, refl)

  outcome-EndedAs : EndedAs c.id w (if succeeded listed == 0 then failed else success)
  outcome-EndedAs = elim (Bool-cases (succeeded listed == 0)) [
    | inl t ↦
        rw t (
          inr
            ((λ e ours. none_succeeded listed t e ((list_executions-IsOf c.id w e).1 ours)), refl))
    | inr t ↦ rw t (some-EndedAs t)
  ]

  outcome-is_finished : is_finished (if succeeded listed == 0 then failed else success) ≡ true
  outcome-is_finished = elim (Bool-cases (succeeded listed == 0)) [
    | inl t ↦ rw t refl
    | inr t ↦ rw t refl
  ]

  has_enough-HasEnough : (has_enough ≡ true) ↔ HasEnough c w
  has_enough-HasEnough = ground arith

  has_enough-some : has_enough ≡ true → succeeded listed == 0 ≡ false
  has_enough-some h = ground arith

module _ {W : Type 0} where
  -- The command stands in what is left with a status of its own, and the other commands as before.
  pub record IsSettled (c : Command) (s t : State W) : Type 0 where
    pub status : Lifecycle
    pub stands : lookup c.id t.core.commands ≡ some (record c { status = status })
    pub others : (k : Text) → k ≢ c.id → lookup k t.core.commands ≡ lookup k s.core.commands
    pub settled : AllEnded c.id t.work → EndedAs c.id t.work status
    pub enough : is_dynamic c ≡ false → HasEnough c t.work → is_finished status ≡ true
    pub moved :
        (status ≡ c.status)
        ⊎ (AllEnded c.id t.work ⊎ (HasEnough c t.work × (is_finished c.status ≡ false)))

  abbrev with_status : Command → Lifecycle → State W → State W
  with_status c status s = record s {
    core = record s.core { commands = insert c.id (record c { status = status }) s.core.commands };
  }

  set_command-held :
      (c : Command) (status : Lifecycle) (s : State W)
      → lookup c.id s.core.commands ≡ some c
      → set_command c.id status s ≡ (ok tt, with_status c status s)
  unfolding set_command update_command ◌>>=◌
  set_command-held c status s held = rw held refl

  stands-with_status :
      (c : Command) (status : Lifecycle) (s : State W)
      → lookup c.id (with_status c status s).core.commands ≡ some (record c { status = status })
  stands-with_status c status s =
      rw (lookup-insert c.id c.id (record c { status = status }) s.core.commands, text_eq_refl c.id)
        refl

  others-with_status :
      (c : Command) (status : Lifecycle) (s : State W) (k : Text)
      → k ≢ c.id
      → lookup k (with_status c status s).core.commands ≡ lookup k s.core.commands
  others-with_status c status s k other = elim (Bool-cases (text_eq c.id k)) [
    | inl t ↦ absurd (other (sym ((text_eq_iff c.id k).0 t)))
    | inr t ↦ rw (lookup-insert c.id k (record c { status = status }) s.core.commands, t) refl
  ]

  module _ (issue : Issue W) (time : ℕ) where
    -- What settle leaves where it writes a status, and where it writes none.
    written :
        (c : Command) (status : Lifecycle) (s : State W)
        → lookup c.id s.core.commands ≡ some c
        → EndedAs c.id s.work status
        → is_finished status ≡ true
        → AllEnded c.id s.work ⊎ (HasEnough c s.work × (is_finished c.status ≡ false))
        → IsSettled c s (with_status c status s)
    written c status s held ended over why = record {
      status = status;
      stands = stands-with_status c status s;
      others = others-with_status c status s;
      settled = λ all_over. ended;
      enough = λ fixed many. over;
      moved = inr why;
    }

    left :
        (c : Command) (s : State W)
        → lookup c.id s.core.commands ≡ some c
        → (has_enough c s.work && not (is_finished c.status)) ≡ false
        → all_ended c s.work ≡ false
        → IsSettled c s s
    left c s held not_enough open_ = record {
      status = c.status;
      stands = held;
      others = λ k other. refl;
      settled = λ all_over.
          let e : all_ended c s.work ≡ true = (all_ended-AllEnded c s.work).1 all_over in cc;
      enough = λ fixed many.
          let e : has_enough c s.work ≡ true = (has_enough-HasEnough c s.work).1 many in
          ground arith;
      moved = inl refl;
    }

    pub settle-IsSettled :
        (c : Command) (s : State W)
        → lookup c.id s.core.commands ≡ some c
        → (t : State W) × (settle issue time c (list_executions c.id s.work) s ≡ (ok tt, t))
          × (t.work ≡ s.work)
          × IsSettled c s t
    settle-IsSettled c s held =
        elim (Bool-cases (has_enough c s.work && not (is_finished c.status))) [
          | inl many ↦
              let enough_ : has_enough c s.work ≡ true = ground arith in
              let unfinished : is_finished c.status ≡ false = ground arith in
              (
                with_status c success s,
                rw many (set_command-held c success s held),
                refl,
                written c success s held (some-EndedAs c s.work (has_enough-some c s.work enough_))
                    refl (inr ((has_enough-HasEnough c s.work).0 enough_, unfinished)),
              )
          | inr few ↦ elim (Bool-cases (all_ended c s.work)) [
            | inl over ↦ (
              with_status c _ s,
              rw (few, over) (set_command-held c _ s held),
              refl,
              written c _ s held (outcome-EndedAs c s.work) (outcome-is_finished c s.work)
                  (inl ((all_ended-AllEnded c s.work).0 over)),
            )
            | inr open_ ↦ (s, rw (few, open_) refl, refl, left c s held few open_)
          ]
        ]
