-- ===== src/Core/Rules.antt =====
-- What a method leaves, proved along its do block: from states of which `P` holds, a method that
-- returns leaves one of which `Q` holds with its value, and one that throws leaves one of which `R`
-- holds.
use sema_core.Prelude.{◌≡◌, refl, Bool, true, false, Option, none, some, Result, ok, err}
use sema_core.Core.Exec.{Exec, ◌>>=◌, continue, pure, read, throw_if, need, call}

module _ {S E : Type 0} where
  abbrev pub IsLeft : {A : Type 0} → (A → S → Type 0) → (S → Type 0) → Result E A × S → Type 0
  IsLeft Q R (ok a, s) = Q a s
  IsLeft Q R (err e, s) = R s

  pub record Ensures {A : Type 0} (P : S → Type 0) (m : Exec S E A) (Q : A → S → Type 0)
      (R : S → Type 0) : Type 0 where
    pub run : (s : S) → P s → IsLeft Q R (m s)

  IsLeft-weaken :
      {A : Type 0} {Q T : A → S → Type 0} {R U : S → Type 0}
      → ((a : A) (s : S) → Q a s → T a s)
      → ((s : S) → R s → U s)
      → (left : Result E A × S) → IsLeft Q R left
      → IsLeft T U left
  IsLeft-weaken returned thrown (ok a, s) h = returned a s h
  IsLeft-weaken returned thrown (err e, s) h = thrown s h

  pub Ensures-weaken :
      {A : Type 0} {P : S → Type 0} {m : Exec S E A} {Q T : A → S → Type 0} {R U : S → Type 0}
      → ((a : A) (s : S) → Q a s → T a s)
      → ((s : S) → R s → U s)
      → Ensures P m Q R
      → Ensures P m T U
  Ensures-weaken {m = m} returned thrown rule = record {
    run = λ s h. IsLeft-weaken returned thrown (m s) (rule.run s h);
  }

  continued :
      {A B : Type 0} {M : A → S → Type 0} {Q : B → S → Type 0} {R : S → Type 0} (f : A → Exec S E B)
      (left : Result E A × S)
      → IsLeft M R left
      → ((a : A) → Ensures (M a) (f a) Q R)
      → IsLeft Q R (continue f left)
  continued f (ok a, s) h rest = (rest a).run s h
  continued f (err e, s) h rest = h

  pub Ensures-bind :
      {A B : Type 0} {P : S → Type 0} {m : Exec S E A} (M : A → S → Type 0) {f : A → Exec S E B}
      {Q : B → S → Type 0} {R : S → Type 0}
      → Ensures P m M R
      → ((a : A) → Ensures (M a) (f a) Q R)
      → Ensures P (m >>= f) Q R
  unfolding ◌>>=◌
  Ensures-bind {m = m} M {f} first rest = record {
    run = λ s h. continued f (m s) (first.run s h) rest;
  }

  module _ {B : Type 0} {P : S → Type 0} {Q : B → S → Type 0} {R : S → Type 0} where
    pub Ensures-pure : {b : B} → ((s : S) → P s → Q b s) → Ensures P (pure b) Q R
    Ensures-pure h = record { run = h }

    pub Ensures-read :
        (f : S → Exec S E B)
        → ((s : S) → Ensures (λ t. (s ≡ t) × P t) (f s) Q R)
        → Ensures P (read >>= f) Q R
    unfolding ◌>>=◌
    Ensures-read f rest = record { run = λ s h. (rest s).run s (refl, h) }

    pub Ensures-throw_if :
        (b : Bool) (e : E) (f : Unit {0} → Exec S E B)
        → ((s : S) → P s → R s)
        → (b ≡ false → Ensures P (f tt) Q R)
        → Ensures P (throw_if b e >>= f) Q R
    unfolding ◌>>=◌
    Ensures-throw_if true e f thrown rest = record { run = thrown }
    Ensures-throw_if false e f thrown rest = record { run = (rest refl).run }

    pub Ensures-need :
        {A : Type 0} (o : Option A) (e : E) (f : A → Exec S E B)
        → ((s : S) → P s → R s)
        → ((a : A) → o ≡ some a → Ensures P (f a) Q R)
        → Ensures P (need o e >>= f) Q R
    unfolding ◌>>=◌
    Ensures-need none e f thrown rest = record { run = thrown }
    Ensures-need (some a) e f thrown rest = record { run = (rest a refl).run }

    pub Ensures-call :
        {A F : Type 0} (g : F → E) (r : Result F A) (f : A → Exec S E B)
        → ((s : S) → P s → R s)
        → ((a : A) → r ≡ ok a → Ensures P (f a) Q R)
        → Ensures P (call g r >>= f) Q R
    unfolding ◌>>=◌
    Ensures-call g (err x) f thrown rest = record { run = thrown }
    Ensures-call g (ok a) f thrown rest = record { run = (rest a refl).run }
