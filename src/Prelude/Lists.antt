-- ===== src/Prelude/Lists.antt =====
-- Lists measured and indexed by native numbers, under the library's names.
use Prim.Native.Nat.{ℕ, zero, suc, ◌+◌, ◌≤◌}
use mathlib.Core.Path.{◌≡◌, refl, ap, ◌∙◌}
use mathlib.Core.Logic.{◌≢◌}
use mathlib.Core.Bool.{Bool, true, false, ◌&&◌, ◌||◌}
use mathlib.Core.List.{List, [], ◌∷◌, ◌++◌, reverse, reverse_aux}
use native.Mathlib.Omega.{arith}
use sema_core.Prelude.Tests.{if◌then◌else◌}

module _ {ℓ} {A : Type ℓ} where
  abbrev pub length : List A → ℕ
  length [] = 0
  length (x ∷ xs) = suc (length xs)

  abbrev pub get_or : List A → ℕ → A → A
  get_or [] i d = d
  get_or (x ∷ xs) zero d = x
  get_or (x ∷ xs) (suc i) d = get_or xs i d

  -- `xs.slice(0, n)`
  abbrev pub take : ℕ → List A → List A
  take zero xs = []
  take (suc n) [] = []
  take (suc n) (x ∷ xs) = x ∷ take n xs

  -- `xs.some(p)`
  abbrev pub any : (A → Bool) → List A → Bool
  any p [] = false
  any p (x ∷ xs) = p x || any p xs

  abbrev pub all : (A → Bool) → List A → Bool
  all p [] = true
  all p (x ∷ xs) = p x && all p xs

  -- `xs.filter(p)`
  abbrev pub filter : (A → Bool) → List A → List A
  filter p [] = []
  filter p (x ∷ xs) = let rest = filter p xs in if p x then x ∷ rest else rest

  pub length-append : (xs ys : List A) → length (xs ++ ys) ≡ length xs + length ys
  length-append [] ys = omega arith
  length-append (x ∷ xs) ys = omega (arith, length-append xs ys)

module _ {ℓ κ} {A : Type ℓ} (P : A → Type κ) where
  abbrev pub All : List A → Type κ
  All [] = Unit
  All (x ∷ xs) = P x × All xs

  pub All-append : (xs ys : List A) → All xs → All ys → All (xs ++ ys)
  All-append [] ys h k = k
  All-append (x ∷ xs) ys (p, h) k = (p, All-append xs ys h k)

  All-reverse_aux : (xs ys : List A) → All xs → All ys → All (reverse_aux xs ys)
  All-reverse_aux [] ys h k = k
  All-reverse_aux (x ∷ xs) ys (p, h) k = All-reverse_aux xs (x ∷ ys) h (p, k)

  pub All-reverse : (xs : List A) → All xs → All (reverse xs)
  All-reverse xs h = All-reverse_aux xs [] h tt

module _ {ℓ} {A : Type ℓ} where
  abbrev pub AllDistinct : List A → Type ℓ
  AllDistinct [] = Unit
  AllDistinct (x ∷ xs) = All (λ y. x ≢ y) xs × AllDistinct xs

  -- A list as long as what is taken hides what follows it.
  pub take-append_long : (n : ℕ) (xs ys : List A) → n ≤ length xs → take n (xs ++ ys) ≡ take n xs
  take-append_long zero xs ys h = refl
  take-append_long (suc n) [] ys h = absurd (omega (arith, h))
  take-append_long (suc n) (x ∷ xs) ys h =
      ap (λ l. x ∷ l) (take-append_long n xs ys (omega (arith, h)))

  -- Lists that begin alike do with the same list behind them.
  pub take-append :
      (n : ℕ) (xs ys zs : List A) → take n xs ≡ take n ys → take n (xs ++ zs) ≡ take n (ys ++ zs)
  take-append zero xs ys zs h = refl
  take-append (suc n) [] [] zs h = refl
  take-append (suc n) [] (y ∷ ys) zs h = cc
  take-append (suc n) (x ∷ xs) [] zs h = cc
  take-append (suc n) (x ∷ xs) (y ∷ ys) zs h =
      let rest : take n xs ≡ take n ys = cc in
      let first : x ≡ y = cc in
      ap (λ z. z ∷ take n (xs ++ zs)) first ∙ ap (λ l. y ∷ l) (take-append n xs ys zs rest)
