-- ===== src/Identity/Digits.antt =====
-- The digits of encodeBase56 and decodeBase56.
use Prim.Native.Nat.{◌≤◌, ◌<◌}
use mathlib.Core.Path.{ap₂}
use sema_core.Prelude.{
  ℕ, zero, suc, ◌+◌, ◌*◌, ◌/◌, ◌%◌, ◌≡◌, ◌≢◌, refl, ◌∙◌, ap, Bool, true, false, ◌&&◌, [], ◌∷◌, ◌++◌,
  Text, all, all-elem, holds_below, holds_below-lt, ◌==◌, inl, inr, ltb, Bool-cases, arith,
}
use sema_core.Identity.{alphabet, symbol, in_alphabet, index_of, encode_loop, encode, total_of}

-- What the two tables say of each other, checked at the 56 digits and the 56 characters.
abbrev is_digit : ℕ → Bool
is_digit d = (index_of (symbol d) == d) && in_alphabet (symbol d)

digits_table : holds_below is_digit 56 ≡ true
unfolding holds_below index_of symbol in_alphabet
digits_table = refl

characters_table : all (λ c. ltb (index_of c) 56 && (symbol (index_of c) == c)) alphabet ≡ true
unfolding index_of symbol
characters_table = refl

pub index_of-symbol : (d : ℕ) → d < 56 → index_of (symbol d) ≡ d
index_of-symbol d h = let both = holds_below-lt is_digit 56 d h digits_table in ground (arith, both)

pub in_alphabet-symbol : (d : ℕ) → d < 56 → in_alphabet (symbol d) ≡ true
in_alphabet-symbol d h =
    let both = holds_below-lt is_digit 56 d h digits_table in ground (arith, both)

abbrev is_fixed : ℕ → Bool
is_fixed c = ltb (index_of c) 56 && (symbol (index_of c) == c)

fixed : (c : ℕ) → in_alphabet c ≡ true → is_fixed c ≡ true
unfolding in_alphabet
fixed c h = all-elem is_fixed alphabet c characters_table h

pub index_of-lt : (c : ℕ) → in_alphabet c ≡ true → index_of c < 56
index_of-lt c h = ground (arith, fixed c h)

pub symbol-index_of : (c : ℕ) → in_alphabet c ≡ true → symbol (index_of c) ≡ c
symbol-index_of c h = ground (arith, fixed c h)

-- Decoding what the loop has written gives the number that the loop was given.
total_of-encode_loop :
    (rounds remaining : ℕ) (encoded : Text)
    → remaining ≤ rounds
    → total_of 0 (encode_loop rounds remaining encoded) ≡ total_of remaining encoded
unfolding encode_loop total_of
total_of-encode_loop zero remaining encoded h = let e : remaining ≡ 0 = omega arith in rw e
total_of-encode_loop (suc rounds) remaining encoded h = elim (Bool-cases (remaining == 0)) [
  | inl done ↦ let e : remaining ≡ 0 = ground arith in rw (done, e)
  | inr more ↦ rw more (
      total_of-encode_loop rounds (remaining / 56) (symbol (remaining % 56) ∷ encoded)
        (ground arith)
      ∙ rw (index_of-symbol (remaining % 56) (omega arith))
          (ap (λ n. total_of n encoded) (omega arith)))
]

pub total_of-encode : (n : ℕ) → total_of 0 (encode n) ≡ n
unfolding encode total_of
total_of-encode n = elim (Bool-cases (n == 0)) [
  | inl zero_value ↦
      let e : n ≡ 0 = ground arith in
      rw (zero_value, e) (omega (arith, index_of-symbol 0 (omega arith)))
  | inr other ↦ rw other (total_of-encode_loop n n [] (omega arith))
]

pub encode_loop-zero : (a : ℕ) (t : Text) → encode_loop a 0 t ≡ t
unfolding encode_loop
encode_loop-zero zero t = refl
encode_loop-zero (suc a) t = refl

-- More rounds than `remaining` change nothing.
encode_loop_rounds :
    (a b remaining : ℕ) (encoded : Text)
    → remaining ≤ a
    → remaining ≤ b
    → encode_loop a remaining encoded ≡ encode_loop b remaining encoded
unfolding encode_loop
encode_loop_rounds zero zero r t h k = refl
encode_loop_rounds zero (suc b) r t h k = let e : r ≡ 0 = omega arith in rw e
encode_loop_rounds (suc a) zero r t h k = let e : r ≡ 0 = omega arith in rw e
encode_loop_rounds (suc a) (suc b) r t h k = elim (Bool-cases (r == 0)) [
  | inl done ↦ rw done
  | inr more ↦
      rw more (encode_loop_rounds a b (r / 56) (symbol (r % 56) ∷ t) (ground arith) (ground arith))
]

==-false : (n : ℕ) → 0 < n → (n == 0) ≡ false
==-false n h = ground arith

-- One round, written with as many rounds as the number wants.
pub encode_loop_step :
    (r : ℕ) (t : Text)
    → 0 < r
    → encode_loop r r t ≡ encode_loop (r / 56) (r / 56) (symbol (r % 56) ∷ t)
unfolding encode_loop
encode_loop_step zero t h = absurd (omega arith)
encode_loop_step (suc n) t h = rw ((==-false (suc n) (omega arith))) (
    encode_loop_rounds n (suc n / 56) (suc n / 56) (symbol (suc n % 56) ∷ t) (omega arith)
      (omega arith))

abbrev pub InAlphabet : Text → Type 0
InAlphabet [] = Unit
InAlphabet (c ∷ s) = (in_alphabet c ≡ true) × InAlphabet s

-- The loop undoes the reduction, while the number so far is not zero.
pub encode_loop-total_of :
    (n : ℕ) (s t : Text)
    → 0 < n
    → InAlphabet s
    → encode_loop (total_of n s) (total_of n s) t ≡ encode_loop n n (s ++ t)
unfolding total_of
encode_loop-total_of n [] t h k = refl
encode_loop-total_of n (c ∷ s) t h (p, k) =
    let d = index_of c in
    encode_loop-total_of (n * 56 + d) s t (omega arith) k
    ∙ encode_loop_step (n * 56 + d) (s ++ t) (omega arith)
    ∙ ap₂ (λ (m d' : ℕ). encode_loop m m (d' ∷ (s ++ t))) (omega (arith, index_of-lt c p))
        (ap symbol (omega (arith, index_of-lt c p)) ∙ symbol-index_of c p)

-- The first character that the loop writes is not the zero.
abbrev pub StartsAboveZero : Text → Type 0
StartsAboveZero [] = ⊥
StartsAboveZero (c ∷ s) = c ≢ symbol 0

symbol-ne-zero : (d : ℕ) → 0 < d → d < 56 → symbol d ≢ symbol 0
symbol-ne-zero d h k e =
    absurd (omega (arith, index_of-symbol d k, index_of-symbol 0, ap index_of e))

pub encode_loop_starts : (a r : ℕ) (t : Text) → r ≤ a → 0 < r → StartsAboveZero (encode_loop a r t)
unfolding encode_loop
encode_loop_starts zero r t h k = absurd (omega arith)
encode_loop_starts (suc a) r t h k = rw (==-false r k) (elim (Bool-cases (r / 56 == 0)) [
  | inl last ↦
      let e : r / 56 ≡ 0 = ground arith in
      rw (e, encode_loop-zero a (symbol (r % 56) ∷ t))
        (symbol-ne-zero (r % 56) (omega arith) (omega arith))
  | inr more ↦ encode_loop_starts a (r / 56) (symbol (r % 56) ∷ t) (ground arith) (ground arith)
])

pub encode_loop-InAlphabet : (a r : ℕ) (t : Text) → InAlphabet t → InAlphabet (encode_loop a r t)
unfolding encode_loop
encode_loop-InAlphabet zero r t h = h
encode_loop-InAlphabet (suc a) r t h = elim (Bool-cases (r == 0)) [
  | inl done ↦ rw done h
  | inr more ↦ rw more (
      encode_loop-InAlphabet a (r / 56) (symbol (r % 56) ∷ t)
        (in_alphabet-symbol (r % 56) (omega arith), h))
]
