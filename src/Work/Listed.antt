-- ===== src/Work/Listed.antt =====
-- What listExecutions of src/capabilities/work.ts lists, and what is counted in the list.
use sema_core.Prelude.{
  ◌≡◌, ◌≢◌, ◌⊎◌, ◌↔◌, inl, inr, refl, sym, ap, ◌∙◌, arith, Bool, true, false, Bool-cases, List, [],
  ◌∷◌, Text, text_eq_iff, filter, length, all, leb, values, ◌==◌,
}
use sema_core.Core.Types.{Lifecycle, success, pending, waiting, running, failed, cancelled}
use sema_core.Capabilities.Entries.{IsIn}
use sema_core.Work.Types.{Execution}
use sema_core.Work.Store.{Work, place, by_creation, of_command, list_executions, status_eq}
use sema_core.Work.Life.{IsAmong, IsAmong-values, values-IsAmong}
use sema_core.Work.Passing.{succeeded}

-- An execution of the command that the store holds.
abbrev pub IsOf : Text → Work → Execution → Type 0
IsOf command_id w e = (k : Text) × IsIn k e w.executions × (e.command_id ≡ command_id)

place-IsAmong :
    (g e : Execution) (es : List Execution) → IsAmong g (place e es) ↔ ((e ≡ g) ⊎ IsAmong g es)
unfolding place
place-IsAmong g e [] = ((λ h. h), (λ h. h))
place-IsAmong g e (f ∷ es) = elim (Bool-cases (leb e.created_at f.created_at)) [
  | inl t ↦ rw t ((λ h. h), (λ h. h))
  | inr t ↦
      let later = place-IsAmong g e es in
      rw t (
        (λ h. elim h [
          | inl here ↦ inr (inl here)
          | inr more ↦ elim (later.0 more) [ inl same ↦ inl same | inr among ↦ inr (inr among) ]
        ]),
        (λ h. elim h [
          | inl same ↦ inr (later.1 (inl same))
          | inr among ↦ elim among [ inl here ↦ inl here | inr more ↦ inr (later.1 (inr more)) ]
        ]),
      )
]

by_creation-IsAmong :
    (g : Execution) (es : List Execution) → IsAmong g (by_creation es) ↔ IsAmong g es
unfolding by_creation
by_creation-IsAmong g [] = ((λ h. h), (λ h. h))
by_creation-IsAmong g (e ∷ es) =
    let first = place-IsAmong g e (by_creation es) in
    let later = by_creation-IsAmong g es in
    (
      (λ h. elim (first.0 h) [ inl same ↦ inl same | inr among ↦ inr (later.0 among) ]),
      (λ h. first.1 (elim h [ inl same ↦ inl same | inr among ↦ inr (later.1 among) ])),
    )

-- The list has the executions of the command and no other.
pub list_executions-IsOf :
    (command_id : Text) (w : Work) (e : Execution)
    → IsAmong e (list_executions command_id w) ↔ IsOf command_id w e
list_executions-IsOf id w e =
    let sorted = by_creation-IsAmong e (filter (of_command id) (values w.executions)) in
    (
      (λ h.
          let (k, there, ours) = IsAmong-values (of_command id) e w.executions (sorted.0 h) in
          (k, there, (text_eq_iff e.command_id id).0 ours)),
      (λ (k, there, ours). sorted.1 (
          values-IsAmong (of_command id) k e w.executions there
            ((text_eq_iff e.command_id id).1 ours))),
    )

pub all-IsAmong :
    (p : Execution → Bool) (es : List Execution)
    → (all p es ≡ true) ↔ ((e : Execution) → IsAmong e es → p e ≡ true)
all-IsAmong p [] = ((λ h e among. absurd among), (λ h. refl))
all-IsAmong p (f ∷ es) =
    let later = all-IsAmong p es in
    (
      (λ h e among. elim among [
        | inl same ↦ let first : p f ≡ true = ground arith in ap p (sym same) ∙ first
        | inr more ↦ later.0 (ground arith) e more
      ]),
      (λ h.
          let first : p f ≡ true = h f (inl refl) in
          let rest : all p es ≡ true = later.1 (λ e among. h e (inr among)) in ground arith),
    )

status_eq-success : (s : Lifecycle) → (status_eq s success ≡ true) ↔ (s ≡ success)
status_eq-success success = ((λ h. refl), (λ h. refl))
status_eq-success pending = ((λ h. cc), (λ h. cc))
status_eq-success waiting = ((λ h. cc), (λ h. cc))
status_eq-success running = ((λ h. cc), (λ h. cc))
status_eq-success failed = ((λ h. cc), (λ h. cc))
status_eq-success cancelled = ((λ h. cc), (λ h. cc))

pub none_succeeded :
    (es : List Execution)
    → succeeded es == 0 ≡ true
    → (e : Execution) → IsAmong e es
    → e.status ≢ success
none_succeeded [] h e among done = absurd among
none_succeeded (f ∷ es) h e among done = elim (Bool-cases (status_eq f.status success)) [
  | inl t ↦
      let no : length (f ∷ filter (λ (x : Execution). status_eq x.status success) es) == 0 ≡ true =
        rw t at h in
      ground arith
  | inr t ↦ elim among [
    | inl same ↦
        let is_done : status_eq f.status success ≡ true =
          (status_eq-success f.status).1 (ap (λ (x : Execution). x.status) same ∙ done) in
        cc
    | inr more ↦ none_succeeded es (rw t at h) e more done
  ]
]

pub some_succeeded :
    (es : List Execution)
    → succeeded es == 0 ≡ false
    → (e : Execution) × IsAmong e es × (e.status ≡ success)
some_succeeded [] h = cc
some_succeeded (f ∷ es) h = elim (Bool-cases (status_eq f.status success)) [
  | inl t ↦ (f, inl refl, (status_eq-success f.status).0 t)
  | inr t ↦ let (e, among, done) = some_succeeded es (rw t at h) in (e, inr among, done)
]
