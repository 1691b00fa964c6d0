-- ===== src/Core/Exec.antt =====
-- A method of a store or of SEMA Core: it reads and writes the state and may throw, and what it has
-- written before it throws stays written.
use sema_core.Prelude.{◌≡◌, refl, Bool, true, false, Option, none, some, Result, ok, err}

abbrev pub Exec {ℓ} : (S : Type 0) (E : Type 0) → Type ℓ → Type ℓ
Exec S E A = S → Result E A × S

module _ {S E : Type 0} where
  abbrev pub continue {ℓ κ} :
      {A : Type ℓ} {B : Type κ} → (A → Exec S E B) → Result E A × S → Result E B × S
  continue next (ok value, s) = next value s
  continue next (err thrown, s) = (err thrown, s)

  infixl 5 ◌>>=◌
  unfoldable pub ◌>>=◌ {ℓ κ} :
      {A : Type ℓ} {B : Type κ} → Exec S E A → (A → Exec S E B) → Exec S E B
  first >>= next = λ s. continue next (first s)

  infixl 5 ◌>>◌
  abbrev pub ◌>>◌ {κ} : {B : Type κ} → Exec S E (Unit {0}) → Exec S E B → Exec S E B
  first >> rest = first >>= λ _. rest

  abbrev pub pure {ℓ} : {A : Type ℓ} → A → Exec S E A
  pure value s = (ok value, s)

  -- `this`, as it stands
  abbrev pub read : Exec S E S
  read s = (ok s, s)

  abbrev pub write : (S → S) → Exec S E (Unit {0})
  write change s = (ok tt, change s)

  -- `if (test) throw e`
  abbrev pub throw_if : Bool → E → Exec S E (Unit {0})
  throw_if true e s = (err e, s)
  throw_if false e s = (ok tt, s)

  -- `if (!value) throw e`
  abbrev pub need {ℓ} : {A : Type ℓ} → Option A → E → Exec S E A
  need none e s = (err e, s)
  need (some value) e s = (ok value, s)

  -- A function that does not touch the state, its errors passed on.
  abbrev pub call {ℓ} : {A : Type ℓ} {F : Type 0} → (F → E) → Result F A → Exec S E A
  call thrown (ok value) s = (ok value, s)
  call thrown (err f) s = (err (thrown f), s)

  -- Two tests at the end of a method change nothing more.
  pub throw_if-state {ℓ} :
      {A : Type ℓ} (b c : Bool) (e f : E) (a : A) (s : S)
      → ((throw_if b e >> (throw_if c f >> pure a)) s).1 ≡ s
  unfolding ◌>>=◌
  throw_if-state true c e f a s = refl
  throw_if-state false true e f a s = refl
  throw_if-state false false e f a s = refl
