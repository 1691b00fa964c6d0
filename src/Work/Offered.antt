-- ===== src/Work/Offered.antt =====
-- Who may answer an execution of src/capabilities/work.ts while its offer stands, and the one result
-- of a command.
use sema_core.Prelude.{
  ℕ, ◌≡◌, ◌≢◌, ◌≤◌, inl, inr, refl, sym, ap, ◌∙◌, arith, true, Bool-cases, and_right, Option, none,
  some, List, [], ◌∷◌, All, Text, text_eq, text_eq_iff, lookup, lookup-insert_new, has,
}
use sema_core.Core.Types.{pending, waiting}
use sema_core.Work.Types.{Execution, CommandResult}
use sema_core.Work.Store.{
  Work, status_eq, is_stale, is_held_by, claim, change, change_found, offer, add_result,
  is_expected,
}
use sema_core.Work.Calls.{
  Call, on_add, on_claim, on_reply, on_cancel, on_answer, on_result, Reply, expects, writes,
  call_on, calls_on,
}
use sema_core.Work.Life.{IsKeyed}
use sema_core.Work.Became.{Became, call_on-Became, call_on-IsKeyed}
use sema_core.Work.Ended.{open-status}

-- The call neither adds the execution `k` nor replies for `instance_id` on it, and a claim counts as
-- stale only offers made before `at`.
abbrev pub LeavesOffer : Text → Text → ℕ → Call → Type 0
LeavesOffer k instance_id at (on_add e) = e.id ≢ k
LeavesOffer k instance_id at (on_claim service_version_id other now stale) = stale ≤ at
LeavesOffer k instance_id at (on_reply id other reply) = id ≡ k → other ≢ instance_id
LeavesOffer k instance_id at _ = Unit

pub record IsOffered (instance_id : Text) (at : ℕ) (e : Execution) : Type 0 where
  pub status : e.status ≡ waiting
  pub holder : e.instance_id ≡ some instance_id
  pub since : e.offered_at ≡ some at

left_alone :
    (k instance_id : Text) (at : ℕ) (c : Call) (e f : Execution)
    → IsOffered instance_id at e
    → LeavesOffer k instance_id at c
    → Became k c e f
    → ⊥
left_alone k i at (on_add x) e f offered leaves (here, same) = leaves here
left_alone k i at (on_claim sv other now stale) e f offered leaves (open_, same) =
    elim (open-status sv now stale e open_) [
      | inl p ↦ let q : waiting ≡ pending = sym offered.status ∙ p in cc
      | inr (p, old) ↦
          let q : is_stale stale (some at) ≡ true = ap (is_stale stale) (sym offered.since) ∙ old in
          ground (arith)
    ]
left_alone k i at (on_reply id other reply) e f offered leaves (here, held, same) =
    let q : is_held_by other (some i) ≡ true =
      ap (is_held_by other) (sym offered.holder) ∙ and_right _ _ held in
    leaves here (sym ((text_eq_iff i other).0 q))
left_alone k i at (on_cancel command_id now) e f offered leaves (is_ours, same) =
    let q : status_eq waiting pending ≡ true =
      ap (λ s. status_eq s pending) (sym offered.status)
      ∙ and_right (text_eq e.command_id command_id) (status_eq e.status pending) is_ours in
    cc
left_alone k i at (on_answer a) e f offered leaves h = h
left_alone k i at (on_result r) e f offered leaves h = h

-- While an execution is offered to an instance, no call changes it but a reply of that instance, a
-- claim that takes its offer as stale, or the adding of an execution under its key: no claim offers
-- it to another, no other instance's reply and no cancelling reach it.
pub calls_on-IsOffered :
    (cs : List Call) (w : Work) (k instance_id : Text) (at : ℕ) (e : Execution)
    → IsKeyed w
    → All (LeavesOffer k instance_id at) cs
    → lookup k w.executions ≡ some e
    → IsOffered instance_id at e
    → lookup k (calls_on cs w).executions ≡ some e
unfolding calls_on
calls_on-IsOffered [] w k i at e keyed leaves found offered = found
calls_on-IsOffered (c ∷ cs) w k i at e keyed (leaves, rest) found offered =
    let (f, later, how) = call_on-Became c w k e keyed found in
    let same : e ≡ f = elim how [
      | inl p ↦ p
      | inr became ↦ absurd (left_alone k i at c e f offered leaves became)
    ] in
    calls_on-IsOffered cs (call_on c w) k i at e (call_on-IsKeyed c w keyed) rest
      (later ∙ ap some (sym same)) offered

kept_result :
    (r : CommandResult) (w : Work) (command_id : Text) (s : CommandResult)
    → lookup command_id w.results ≡ some s
    → lookup command_id (add_result r w).1.results ≡ some s
kept_result r w command_id s found = elim (Bool-cases (has r.command_id w.results)) [
  | inl t ↦ rw t found
  | inr t ↦ rw t (lookup-insert_new r.command_id command_id r s w.results t found)
]

offer-results :
    (instance_id : Text) (now : ℕ) (w : Work) (o : Option Execution)
    → (offer instance_id now w o).1.results ≡ w.results
offer-results instance_id now w none = refl
offer-results instance_id now w (some e) = refl

change-results :
    (id instance_id : Text) (reply : Reply) (w : Work) (o : Option Execution)
    → (change_found id (expects reply) instance_id (writes reply) w o).1.results ≡ w.results
change-results id instance_id reply w none = refl
change-results id instance_id reply w (some e) =
    elim (Bool-cases (is_expected (expects reply) instance_id e)) [
      | inl t ↦ rw t refl
      | inr t ↦ rw t refl
    ]

call_on-result :
    (c : Call) (w : Work) (command_id : Text) (s : CommandResult)
    → lookup command_id w.results ≡ some s
    → lookup command_id (call_on c w).results ≡ some s
unfolding call_on claim change
call_on-result (on_add e) w command_id s found = found
call_on-result (on_claim sv inst now stale) w command_id s found =
    ap (lookup command_id) (offer-results inst now w _) ∙ found
call_on-result (on_reply id inst reply) w command_id s found =
    ap (lookup command_id) (change-results id inst reply w (lookup id w.executions)) ∙ found
call_on-result (on_cancel c now) w command_id s found = found
call_on-result (on_answer a) w command_id s found = found
call_on-result (on_result r) w command_id s found = kept_result r w command_id s found

-- The result that a command has is its result ever after, whatever calls come.
pub calls_on-result :
    (cs : List Call) (w : Work) (command_id : Text) (s : CommandResult)
    → lookup command_id w.results ≡ some s
    → lookup command_id (calls_on cs w).results ≡ some s
unfolding calls_on
calls_on-result [] w command_id s found = found
calls_on-result (c ∷ cs) w command_id s found =
    calls_on-result cs (call_on c w) command_id s (call_on-result c w command_id s found)
