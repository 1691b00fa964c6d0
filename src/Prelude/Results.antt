-- ===== src/Prelude/Results.antt =====
-- An operation that may throw returns a `Result`. An error is named for its message.
use mathlib.Core.Path.{◌≡◌, refl, ap}
use mathlib.Core.Logic.{◌⊎◌, inl, inr}
use mathlib.Core.Bool.{Bool, true, false}
use mathlib.Core.Option.{Option, none, some}

pub data Result {ℓ} (E : Type 0) (A : Type ℓ) : Type ℓ where
  ok : A → Result E A
  err : E → Result E A

module _ {ℓ κ} {E : Type 0} {A : Type ℓ} {B : Type κ} where
  infixl 5 ◌>>=◌
  abbrev pub ◌>>=◌ : Result E A → (A → Result E B) → Result E B
  err thrown >>= next = err thrown
  ok value >>= next = next value

  -- A bind that returns has run both of its parts.
  pub >>=-eq-ok :
      (first : Result E A) (next : A → Result E B) {b : B}
      → (first >>= next) ≡ ok b
      → (a : A) × (first ≡ ok a) × (next a ≡ ok b)
  >>=-eq-ok (err thrown) next h = cc
  >>=-eq-ok (ok value) next h = (value, refl, h)

  pub >>=-of-ok :
      {first : Result E A} {a : A} (next : A → Result E B)
      → first ≡ ok a
      → (first >>= next) ≡ next a
  >>=-of-ok next e = ap (λ r. r >>= next) e

module _ {ℓ} {E : Type 0} {B : Type ℓ} where
  infixl 5 ◌>>◌
  abbrev pub ◌>>◌ : Result E (Unit {0}) → Result E B → Result E B
  check >> rest = check >>= λ _. rest

-- `if (test) throw new Error(e)`
abbrev pub refuse_if : {E : Type 0} → Bool → E → Result E (Unit {0})
refuse_if true e = err e
refuse_if false e = ok tt

-- `if (value === undefined) throw new Error(e)`
abbrev pub require {ℓ} : {E : Type 0} {A : Type ℓ} → Option A → E → Result E A
require none e = err e
require (some a) e = ok a

pub ok-injective {ℓ} :
    {E : Type 0} {A : Type ℓ} {a b : A} → ◌≡◌ {A = Result E A} (ok a) (ok b) → a ≡ b
ok-injective h = cc

pub Result-cases {ℓ} :
    {E : Type 0} {A : Type ℓ} (r : Result E A) → ((a : A) × (r ≡ ok a)) ⊎ ((e : E) × (r ≡ err e))
Result-cases (ok a) = inl (a, refl)
Result-cases (err e) = inr (e, refl)
