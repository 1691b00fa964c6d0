-- ===== src/Work/Became.antt =====
-- What each call of the work store of src/capabilities/work.ts may make of an execution.
use mathlib.Core.Path.{subst}
use sema_core.Prelude.{
  ℕ, ◌≡◌, ◌⊎◌, inl, inr, refl, sym, ap, ◌∙◌, true, false, Bool-cases, Option, none, some,
  Option-cases, [], ◌∷◌, Text, text_eq, text_eq_iff, Dict, lookup, lookup-insert, insert, has,
  if◌then◌else◌,
}
use sema_core.Capabilities.Entries.{IsMap, Named, Named-insert, IsMap-insert, IsIn-lookup}
use sema_core.Work.Types.{Execution, CommandResult}
use sema_core.Work.Store.{
  Work, is_open, offered_to, assigned, is_expected, change, change_found, cancel_one, cancel_each,
  cancelled_at, is_cancelled_by, add_result,
}
use sema_core.Work.Calls.{
  Call, on_add, on_claim, on_reply, on_cancel, on_answer, on_result, Reply, expects, writes,
  call_on,
}
use sema_core.Work.Life.{IsKeyed, claim_lem}

-- The execution under the key `k` is added anew, offered, changed as its reply says, or cancelled.
abbrev pub Became : Text → Call → Execution → Execution → Type 0
Became k (on_add x) e f = (x.id ≡ k) × (x ≡ f)
Became k (on_claim service_version_id instance_id now stale) e f =
    (is_open service_version_id now stale e ≡ true) × (offered_to instance_id now e ≡ f)
Became k (on_reply id instance_id reply) e f =
    (id ≡ k) × (is_expected (expects reply) instance_id e ≡ true) × (assigned (writes reply) e ≡ f)
Became k (on_cancel command_id now) e f =
    (is_cancelled_by command_id e ≡ true) × (cancelled_at now e ≡ f)
Became k _ e f = ⊥

-- What stands under a key after a write.
written :
    (id : Text) (v : Execution) (m : Dict Execution) (k : Text) (e : Execution)
    → lookup k m ≡ some e
    → (f : Execution) × (lookup k (insert id v m) ≡ some f) × ((e ≡ f) ⊎ ((id ≡ k) × (v ≡ f)))
written id v m k e found = elim (Bool-cases (text_eq id k)) [
  | inl t ↦ (
    v,
    lookup-insert id k v m ∙ ap (λ b. if b then some v else lookup k m) t,
    inr ((text_eq_iff id k).0 t, refl),
  )
  | inr t ↦
      (e, lookup-insert id k v m ∙ ap (λ b. if b then some v else lookup k m) t ∙ found, inl refl)
]

cancel_one-Became :
    (k command_id : Text) (now : ℕ) (e : Execution)
    → (e ≡ cancel_one command_id now e)
      ⊎ Became k (on_cancel command_id now) e (cancel_one command_id now e)
cancel_one-Became k command_id now e = elim (Bool-cases (is_cancelled_by command_id e)) [
  | inl t ↦ rw t (inr (refl, refl))
  | inr t ↦ rw t (inl refl)
]

lookup-cancel_each :
    (command_id : Text) (now : ℕ) (m : Dict Execution) (k : Text) (e : Execution)
    → lookup k m ≡ some e
    → lookup k (cancel_each command_id now m) ≡ some (cancel_one command_id now e)
unfolding lookup cancel_each
lookup-cancel_each command_id now [] k e h = cc
lookup-cancel_each command_id now ((j, f) ∷ m) k e h = elim (Bool-cases (text_eq j k)) [
  | inl t ↦
      let same : some f ≡ some e = rw t at h in
      let p : f ≡ e = cc in rw t (ap (λ x. some (cancel_one command_id now x)) p)
  | inr t ↦ rw t (lookup-cancel_each command_id now m k e (rw t at h))
]

module _ (id instance_id : Text) (reply : Reply) (w : Work) where
  change-Became :
      (o : Option Execution)
      → lookup id w.executions ≡ o
      → (k : Text) (e : Execution) → lookup k w.executions ≡ some e
      → (f : Execution) × (lookup k
            (change_found id (expects reply) instance_id (writes reply) w o).1.executions
          ≡ some f)
        × ((e ≡ f) ⊎ Became k (on_reply id instance_id reply) e f)
  change-Became none p k e found = (e, found, inl refl)
  change-Became (some d) p k e found =
      elim (Bool-cases (is_expected (expects reply) instance_id d)) [
        | inl t ↦
            let (f, later, how) = written id (assigned (writes reply) d) w.executions k e found in
            (
              f,
              rw t later,
              elim how [
                | inl same ↦ inl same
                | inr (here, new) ↦
                    let both : some d ≡ some e =
                      sym p ∙ ap (λ x. lookup x w.executions) here ∙ found in
                    let one : d ≡ e = cc in
                    inr (
                      here,
                      subst (λ x. is_expected (expects reply) instance_id x ≡ true) one t,
                      subst (λ x. assigned (writes reply) x ≡ f) one new,
                    )
              ],
            )
        | inr t ↦ (e, rw t found, inl refl)
      ]

add_result-executions :
    (r : CommandResult) (w : Work) → (add_result r w).1.executions ≡ w.executions
add_result-executions r w = elim (Bool-cases (has r.command_id w.results)) [
  | inl t ↦ rw t refl
  | inr t ↦ rw t refl
]

-- Whatever is called, an execution is still there, as it was or as the call may make it.
pub call_on-Became :
    (c : Call) (w : Work) (k : Text) (e : Execution)
    → IsKeyed w
    → lookup k w.executions ≡ some e
    → (f : Execution) × (lookup k (call_on c w).executions ≡ some f) × ((e ≡ f) ⊎ Became k c e f)
unfolding call_on change
call_on-Became (on_add x) w k e keyed found = written x.id x w.executions k e found
call_on-Became (on_claim sv inst now stale) w k e keyed found =
    elim (claim_lem sv inst now stale w keyed) [
      | inl (none_open, p) ↦
          (e, subst (λ x. lookup k x.1.executions ≡ some e) (sym p) found, inl refl)
      | inr (d, at_d, open_, oldest, p) ↦
          let (f, later, how) = written d.id (offered_to inst now d) w.executions k e found in
          (
            f,
            subst (λ x. lookup k x.1.executions ≡ some f) (sym p) later,
            elim how [
              | inl same ↦ inl same
              | inr (here, new) ↦
                  let both : some d ≡ some e =
                    sym at_d ∙ ap (λ x. lookup x w.executions) here ∙ found in
                  let one : d ≡ e = cc in
                  inr (
                    subst (λ x. is_open sv now stale x ≡ true) one open_,
                    subst (λ x. offered_to inst now x ≡ f) one new,
                  )
            ],
          )
    ]
call_on-Became (on_reply id inst reply) w k e keyed found =
    change-Became id inst reply w (lookup id w.executions) refl k e found
call_on-Became (on_cancel command_id now) w k e keyed found = (
  cancel_one command_id now e,
  lookup-cancel_each command_id now w.executions k e found,
  cancel_one-Became k command_id now e,
)
call_on-Became (on_answer a) w k e keyed found = (e, found, inl refl)
call_on-Became (on_result r) w k e keyed found =
    (e, subst (λ m. lookup k m ≡ some e) (sym (add_result-executions r w)) found, inl refl)

IsKeyed-insert :
    (e : Execution) (w : Work)
    → IsKeyed w
    → IsKeyed (record w { executions = insert e.id e w.executions })
IsKeyed-insert e w keyed = record {
  once = IsMap-insert e.id e w.executions keyed.once;
  named = Named-insert (λ (x : Execution). x.id) e w.executions keyed.named;
}

has-cancel_each :
    (command_id : Text) (now : ℕ) (k : Text) (m : Dict Execution)
    → has k m ≡ false
    → has k (cancel_each command_id now m) ≡ false
unfolding lookup cancel_each
has-cancel_each command_id now k [] h = h
has-cancel_each command_id now k ((j, e) ∷ m) h = elim (Bool-cases (text_eq j k)) [
  | inl t ↦ let no : true ≡ false = rw t at h in cc
  | inr t ↦ rw t (has-cancel_each command_id now k m (rw t at h))
]

cancel_one-id :
    (command_id : Text) (now : ℕ) (e : Execution) → (cancel_one command_id now e).id ≡ e.id
cancel_one-id command_id now e = elim (Bool-cases (is_cancelled_by command_id e)) [
  | inl t ↦ rw t refl
  | inr t ↦ rw t refl
]

IsKeyed-cancelled :
    (command_id : Text) (now : ℕ) (m : Dict Execution)
    → IsMap m
    → Named (λ (e : Execution). e.id) m
    → IsMap (cancel_each command_id now m)
      × Named (λ (e : Execution). e.id) (cancel_each command_id now m)
unfolding cancel_each
IsKeyed-cancelled command_id now [] once named = (tt, named)
IsKeyed-cancelled command_id now ((j, e) ∷ m) (absent, once) named =
    let (rest, rest_named) =
      IsKeyed-cancelled command_id now m once (λ k f there. named k f (inr there)) in
    (
      (has-cancel_each command_id now j m absent, rest),
      λ k f there. elim there [
        | inl (here, same) ↦
            ap (λ (x : Execution). x.id) (sym same)
            ∙ cancel_one-id command_id now e
            ∙ named k e (inl (here, refl))
        | inr later ↦ rest_named k f later
      ],
    )

-- Every call keeps the executions under their IDs.
pub call_on-IsKeyed : (c : Call) (w : Work) → IsKeyed w → IsKeyed (call_on c w)
unfolding call_on change
call_on-IsKeyed (on_add e) w keyed = IsKeyed-insert e w keyed
call_on-IsKeyed (on_claim sv inst now stale) w keyed = elim (claim_lem sv inst now stale w keyed) [
  | inl (none_open, p) ↦ subst (λ x. IsKeyed x.1) (sym p) keyed
  | inr (e, at_e, open_, oldest, p) ↦
      subst (λ x. IsKeyed x.1) (sym p) (IsKeyed-insert (offered_to inst now e) w keyed)
]
call_on-IsKeyed (on_reply id inst reply) w keyed = elim (Option-cases (lookup id w.executions)) [
  | inl p ↦
      subst (λ o. IsKeyed (change_found id (expects reply) inst (writes reply) w o).1) (sym p) keyed
  | inr (e, p) ↦
      subst (λ o. IsKeyed (change_found id (expects reply) inst (writes reply) w o).1) (sym p)
        (elim (Bool-cases (is_expected (expects reply) inst e)) [
          | inl t ↦ rw t (
              subst
                (λ k.
                  IsKeyed
                    (record w { executions = insert k (assigned (writes reply) e) w.executions }))
                (keyed.named id e (IsIn-lookup id e w.executions p))
                (IsKeyed-insert (assigned (writes reply) e) w keyed))
          | inr t ↦ rw t keyed
        ])
]
call_on-IsKeyed (on_cancel command_id now) w keyed =
    let (once, named) = IsKeyed-cancelled command_id now w.executions keyed.once keyed.named in
    record { once = once; named = named }
call_on-IsKeyed (on_answer a) w keyed = record { once = keyed.once; named = keyed.named }
call_on-IsKeyed (on_result r) w keyed = record {
  once = subst IsMap (sym (add_result-executions r w)) keyed.once;
  named = subst (Named (λ (e : Execution). e.id)) (sym (add_result-executions r w)) keyed.named;
}
