-- ===== src/Core/Stays.antt =====
-- What a method keeps of its state at every step, whether it returns or throws.
use sema_core.Prelude.{Bool, true, false, Option, none, some, Result, ok, err, if◌then◌else◌}
use sema_core.Core.Exec.{Exec, ◌>>=◌, pure, read, throw_if, need, call}
use sema_core.Core.Rules.{Ensures, Ensures-bind, Ensures-pure}

module _ {S E : Type 0} (P : S → Type 0) where
  abbrev pub Stays : {A : Type 0} → Exec S E A → Type 0
  Stays m = Ensures P m (λ a. P) P

  pub Stays-bind :
      {A B : Type 0} {m : Exec S E A} {f : A → Exec S E B}
      → Stays m
      → ((a : A) → Stays (f a))
      → Stays (m >>= f)
  Stays-bind first rest = Ensures-bind (λ a. P) first rest

  pub Stays-pure : {A : Type 0} (a : A) → Stays (pure a)
  Stays-pure a = Ensures-pure (λ s h. h)

  pub Stays-read : Stays read
  Stays-read = record { run = λ s h. h }

  pub Stays-throw_if : (b : Bool) (e : E) → Stays (throw_if b e)
  Stays-throw_if true e = record { run = λ s h. h }
  Stays-throw_if false e = record { run = λ s h. h }

  pub Stays-need : {A : Type 0} (o : Option A) (e : E) → Stays (need o e)
  Stays-need none e = record { run = λ s h. h }
  Stays-need (some a) e = record { run = λ s h. h }

  pub Stays-call : {A F : Type 0} (g : F → E) (r : Result F A) → Stays (call g r)
  Stays-call g (ok a) = record { run = λ s h. h }
  Stays-call g (err f) = record { run = λ s h. h }

  pub Stays-if :
      {A : Type 0} (b : Bool) {m n : Exec S E A} → Stays m → Stays n → Stays (if b then m else n)
  Stays-if true first second = first
  Stays-if false first second = second
