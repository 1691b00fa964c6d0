-- ===== src/Work/Life.antt =====
-- What a call of the work store of src/capabilities/work.ts does to an execution.
use mathlib.Core.Path.{subst}
use sema_core.Prelude.{
  ℕ, ◌≡◌, ◌⊎◌, ◌≤◌, inl, inr, refl, sym, ap, ◌∙◌, arith, Bool, true, false, Bool-cases, none, some,
  Option-cases, List, [], ◌∷◌, Text, Dict, lookup, insert, values, filter, leb, if◌then◌else◌,
}
use sema_core.Capabilities.Entries.{IsIn, IsMap, Named, IsIn-lookup, lookup-IsIn}
use sema_core.Work.Types.{Execution}
use sema_core.Work.Store.{Work, place, by_creation, first_of, is_open, offered_to, offer, claim}

-- Every execution stands once, under its ID.
pub record IsKeyed (w : Work) : Type 0 where
  pub once : IsMap w.executions
  pub named : Named (λ (e : Execution). e.id) w.executions

abbrev pub IsAmong : Execution → List Execution → Type 0
IsAmong e [] = ⊥
IsAmong e (f ∷ fs) = (f ≡ e) ⊎ IsAmong e fs

pub IsAmong-values :
    (test : Execution → Bool) (e : Execution) (m : Dict Execution)
    → IsAmong e (filter test (values m))
    → (k : Text) × IsIn k e m × (test e ≡ true)
IsAmong-values test e [] among = absurd among
IsAmong-values test e ((k, f) ∷ m) among = elim (Bool-cases (test f)) [
  | inl t ↦
      elim (subst (IsAmong e)
        (ap (λ b. if b then f ∷ filter test (values m) else filter test (values m)) t) among) [
          | inl same ↦ (k, inl (refl, same), ap test (sym same) ∙ t)
          | inr more ↦
              let (l, there, passed) = IsAmong-values test e m more in (l, inr there, passed)
        ]
  | inr t ↦
      let more =
        subst (IsAmong e)
          (ap (λ b. if b then f ∷ filter test (values m) else filter test (values m)) t) among in
      let (l, there, passed) = IsAmong-values test e m more in (l, inr there, passed)
]

pub values-IsAmong :
    (test : Execution → Bool) (k : Text) (e : Execution) (m : Dict Execution)
    → IsIn k e m
    → test e ≡ true
    → IsAmong e (filter test (values m))
values-IsAmong test k e [] there passed = absurd there
values-IsAmong test k e ((j, f) ∷ m) there passed = elim there [
  | inl (_, same) ↦ rw (ap test same ∙ passed) (inl same)
  | inr later ↦ elim (Bool-cases (test f)) [
    | inl t ↦ rw t (inr (values-IsAmong test k e m later passed))
    | inr t ↦ rw t (values-IsAmong test k e m later passed)
  ]
]

-- The first of those placed is the one placed, or the first of the others.
place-first :
    (e f : Execution) (es : List Execution)
    → first_of (place e es) ≡ some f
    → ((f ≡ e) × ((g : Execution) → first_of es ≡ some g → e.created_at ≤ g.created_at))
      ⊎ ((first_of es ≡ some f) × (f.created_at ≤ e.created_at))
unfolding place
place-first e f [] h = inl (cc, λ g p. cc)
place-first e f (g ∷ es) h = elim (Bool-cases (leb e.created_at g.created_at)) [
  | inl t ↦
      let same : some e ≡ some f = rw t at h in
      inl (
        cc,
        λ x p.
            let other : g ≡ x = cc in
            subst (λ y. e.created_at ≤ y.created_at) other (ground (arith)),
      )
  | inr t ↦
      let same : some g ≡ some f = rw t at h in
      let other : g ≡ f = cc in
      inr (same, subst (λ y. y.created_at ≤ e.created_at) other (ground (arith)))
]

place-some : (e : Execution) (es : List Execution) → first_of (place e es) ≡ none → ⊥
unfolding place
place-some e [] h = cc
place-some e (f ∷ es) h = ground (arith)

none-nil : (es : List Execution) → first_of (by_creation es) ≡ none → es ≡ []
unfolding by_creation
none-nil [] h = refl
none-nil (e ∷ es) h = absurd (place-some e (by_creation es) h)

-- The first by creation is among them and as old as any.
first-oldest :
    (f : Execution) (es : List Execution)
    → first_of (by_creation es) ≡ some f
    → IsAmong f es × ((g : Execution) → IsAmong g es → f.created_at ≤ g.created_at)
unfolding by_creation
first-oldest f [] h = cc
first-oldest f (e ∷ es) h = elim (place-first e f (by_creation es) h) [
  | inl (same, low) ↦ (
    inl (sym same),
    λ g among. elim among [
      | inl here ↦
          let p : f ≡ g = same ∙ here in subst (λ y. f.created_at ≤ y.created_at) p (omega arith)
      | inr more ↦ elim (Option-cases (first_of (by_creation es))) [
        | inl p ↦ absurd (subst (IsAmong g) (none-nil es p) more)
        | inr (x, p) ↦
            let x_low = (first-oldest x es p).1 g more in
            let f_low = subst (λ y. y.created_at ≤ x.created_at) (sym same) (low x p) in
            omega (arith, x_low, f_low)
      ]
    ],
  )
  | inr (p, low) ↦
      let (among_rest, oldest) = first-oldest f es p in
      (
        inr among_rest,
        λ g among. elim among [
          | inl here ↦ subst (λ y. f.created_at ≤ y.created_at) here low
          | inr more ↦ oldest g more
        ],
      )
]

-- A claim that finds no open execution leaves the store; one that finds some offers an open one, as
-- old as any that is open, and leaves the others.
pub claim_lem :
    (service_version_id instance_id : Text) (now stale : ℕ) (w : Work)
    → IsKeyed w
    → (((k : Text) (e : Execution)
          → lookup k w.executions ≡ some e
          → is_open service_version_id now stale e ≡ false)
        × (claim service_version_id instance_id now stale w ≡ (none, w)))
      ⊎ ((e : Execution) × (lookup e.id w.executions ≡ some e)
          × (is_open service_version_id now stale e ≡ true)
          × ((k : Text) (f : Execution)
              → lookup k w.executions ≡ some f
              → is_open service_version_id now stale f ≡ true
              → e.created_at ≤ f.created_at)
          × (claim service_version_id instance_id now stale w ≡ (
            some (offered_to instance_id now e),
            record w { executions = insert e.id (offered_to instance_id now e) w.executions },
          )))
unfolding claim
claim_lem sv inst now stale w keyed =
    let open_ones = filter (is_open sv now stale) (values w.executions) in
    elim (Option-cases (first_of (by_creation open_ones))) [
      | inl p ↦ inl (
        λ k e found. elim (Bool-cases (is_open sv now stale e)) [
          | inl up ↦ absurd (
              subst (IsAmong e) (none-nil open_ones p) (
                values-IsAmong (is_open sv now stale) k e w.executions
                  (IsIn-lookup k e w.executions found) up))
          | inr down ↦ down
        ],
        ap (offer inst now w) p,
      )
      | inr (e, p) ↦
          let (among, oldest) = first-oldest e open_ones p in
          let (k, there, up) = IsAmong-values (is_open sv now stale) e w.executions among in
          inr (
            e,
            ap (λ x. lookup x w.executions) (keyed.named k e there)
                ∙ lookup-IsIn k e w.executions keyed.once there,
            up,
            λ l f found open_. oldest f (
                values-IsAmong (is_open sv now stale) l f w.executions
                  (IsIn-lookup l f w.executions found) open_),
            ap (offer inst now w) p,
          )
    ]
