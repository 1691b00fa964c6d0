-- ===== src/Work/Ended.antt =====
-- How an execution of src/capabilities/work.ts moves, and that its end and a command's result stay.
use mathlib.Core.Path.{subst}
use sema_core.Prelude.{
  ℕ, ◌≡◌, ◌≢◌, ◌⊎◌, inl, inr, refl, sym, ap, ◌∙◌, arith, true, Bool-cases, and_left, and_right,
  some, List, [], ◌∷◌, All, Text, lookup,
}
use sema_core.Core.Types.{Lifecycle, pending, waiting, running, success, failed, cancelled}
use sema_core.Work.Types.{Execution}
use sema_core.Work.Store.{Work, status_eq, is_finished, is_open, is_stale, assigned}
use sema_core.Work.Calls.{
  Call, on_add, on_claim, on_reply, on_cancel, on_answer, on_result, Reply, accepts, declines,
  defers, refuses, progresses, succeeds, fails, expects, writes, call_on, calls_on,
}
use sema_core.Work.Life.{IsKeyed}
use sema_core.Work.Became.{Became, call_on-Became, call_on-IsKeyed}

-- The moves of an execution: offered, and again to another; taken, put off or refused; reported on,
-- and brought to an end; cancelled before it is offered.
pub data Moves : Lifecycle → Lifecycle → Type 0 where
  is_offered : Moves pending waiting
  is_offered_again : Moves waiting waiting
  is_taken : Moves waiting running
  is_put_off : Moves waiting pending
  is_refused : Moves waiting failed
  is_reported_on : Moves running running
  is_done : Moves running success
  is_broken_off : Moves running failed
  is_cancelled : Moves pending cancelled

is_pending : (s : Lifecycle) → status_eq s pending ≡ true → s ≡ pending
is_pending pending h = refl
is_pending waiting h = cc
is_pending running h = cc
is_pending success h = cc
is_pending failed h = cc
is_pending cancelled h = cc

pub is_waiting : (s : Lifecycle) → status_eq s waiting ≡ true → s ≡ waiting
is_waiting waiting h = refl
is_waiting pending h = cc
is_waiting running h = cc
is_waiting success h = cc
is_waiting failed h = cc
is_waiting cancelled h = cc

is_under_way : (s : Lifecycle) → status_eq s running ≡ true → s ≡ running
is_under_way running h = refl
is_under_way waiting h = cc
is_under_way pending h = cc
is_under_way success h = cc
is_under_way failed h = cc
is_under_way cancelled h = cc

-- An open execution is pending and due, or waiting and stale.
pub open-status :
    (service_version_id : Text) (now stale : ℕ) (e : Execution)
    → is_open service_version_id now stale e ≡ true
    → (e.status ≡ pending) ⊎ ((e.status ≡ waiting) × (is_stale stale e.offered_at ≡ true))
open-status sv now stale e h = elim (Bool-cases (status_eq e.status pending)) [
  | inl t ↦ inl (is_pending e.status t)
  | inr t ↦ inr (is_waiting e.status (ground (arith)), ground (arith))
]

claimed-Moves : (s : Lifecycle) → (s ≡ pending) ⊎ (s ≡ waiting) → Moves s waiting
claimed-Moves s (inl p) = subst (λ x. Moves x waiting) (sym p) is_offered
claimed-Moves s (inr p) = subst (λ x. Moves x waiting) (sym p) is_offered_again

-- What a reply makes of the status that it expects.
reply-Moves :
    (reply : Reply) (e : Execution)
    → e.status ≡ expects reply
    → Moves e.status (assigned (writes reply) e).status
reply-Moves (accepts now) e p = subst (λ x. Moves x running) (sym p) is_taken
reply-Moves (declines now reason) e p = subst (λ x. Moves x failed) (sym p) is_refused
reply-Moves (defers until reason) e p = subst (λ x. Moves x pending) (sym p) is_put_off
reply-Moves (refuses now reason reasons) e p = subst (λ x. Moves x failed) (sym p) is_refused
reply-Moves (progresses progress) e p = subst (λ x. Moves x x) (sym p) is_reported_on
reply-Moves (succeeds now) e p = subst (λ x. Moves x success) (sym p) is_done
reply-Moves (fails now error) e p = subst (λ x. Moves x failed) (sym p) is_broken_off

expected-status :
    (reply : Reply) (e : Execution)
    → status_eq e.status (expects reply) ≡ true
    → e.status ≡ expects reply
expected-status (accepts now) e h = is_waiting e.status h
expected-status (declines now reason) e h = is_waiting e.status h
expected-status (defers until reason) e h = is_waiting e.status h
expected-status (refuses now reason reasons) e h = is_waiting e.status h
expected-status (progresses progress) e h = is_under_way e.status h
expected-status (succeeds now) e h = is_under_way e.status h
expected-status (fails now error) e h = is_under_way e.status h

-- The call adds no execution under the key.
abbrev pub AddsOther : Text → Call → Type 0
AddsOther k (on_add e) = e.id ≢ k
AddsOther k _ = Unit

Became-Moves :
    (k : Text) (c : Call) (e f : Execution)
    → AddsOther k c
    → Became k c e f
    → Moves e.status f.status
Became-Moves k (on_add x) e f other (here, same) = absurd (other here)
Became-Moves k (on_claim sv inst now stale) e f other (open_, same) =
    subst (λ (x : Execution). Moves e.status x.status) same
      (claimed-Moves e.status
        (elim (open-status sv now stale e open_) [ inl p ↦ inl p | inr (p, _) ↦ inr p ]))
Became-Moves k (on_reply id inst reply) e f other (here, held, same) =
    subst (λ (x : Execution). Moves e.status x.status) same
      (reply-Moves reply e (expected-status reply e (and_left _ _ held)))
Became-Moves k (on_cancel command_id now) e f other (is_ours, same) =
    subst (λ (x : Execution). Moves e.status x.status) same
      (subst (λ x. Moves x cancelled) (sym (is_pending e.status (and_right _ _ is_ours)))
        is_cancelled)
Became-Moves k (on_answer a) e f other h = absurd h
Became-Moves k (on_result r) e f other h = absurd h

-- An execution that stands under its key is still there after a call that adds none under that key,
-- unchanged or with its status moved: from pending to waiting or cancelled; from waiting to waiting,
-- running, pending or failed; from running to running, success or failed.
pub call_on-Moves :
    (c : Call) (w : Work) (k : Text) (e : Execution)
    → IsKeyed w
    → AddsOther k c
    → lookup k w.executions ≡ some e
    → (f : Execution) × (lookup k (call_on c w).executions ≡ some f)
      × ((e ≡ f) ⊎ Moves e.status f.status)
call_on-Moves c w k e keyed other found =
    let (f, later, how) = call_on-Became c w k e keyed found in
    (
      f,
      later,
      elim how [ inl same ↦ inl same | inr became ↦ inr (Became-Moves k c e f other became) ],
    )

ended-stays : (s t : Lifecycle) → is_finished s ≡ true → Moves s t → ⊥
ended-stays s t h is_offered = cc
ended-stays s t h is_offered_again = cc
ended-stays s t h is_taken = cc
ended-stays s t h is_put_off = cc
ended-stays s t h is_refused = cc
ended-stays s t h is_reported_on = cc
ended-stays s t h is_done = cc
ended-stays s t h is_broken_off = cc
ended-stays s t h is_cancelled = cc

-- An execution that has succeeded, failed or been cancelled is never changed by calls that add none
-- under its key.
pub calls_on-finished :
    (cs : List Call) (w : Work) (k : Text) (e : Execution)
    → IsKeyed w
    → All (AddsOther k) cs
    → lookup k w.executions ≡ some e
    → is_finished e.status ≡ true
    → lookup k (calls_on cs w).executions ≡ some e
unfolding calls_on
calls_on-finished [] w k e keyed others found ended = found
calls_on-finished (c ∷ cs) w k e keyed (other, others) found ended =
    let (f, later, how) = call_on-Moves c w k e keyed other found in
    let same : e ≡ f = elim how [
      | inl p ↦ p
      | inr moved ↦ absurd (ended-stays e.status f.status ended moved)
    ] in
    calls_on-finished cs (call_on c w) k e (call_on-IsKeyed c w keyed) others
      (later ∙ ap some (sym same)) ended
