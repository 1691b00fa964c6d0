-- ===== src/Identity/RoundTrip.antt =====
-- encodeBase56 and decodeBase56 undo one another.
use Prim.Native.Nat.{◌<◌}
use mathlib.Core.Path.{ap₂}
use sema_core.Prelude.{
  ℕ, ◌+◌, ◌*◌, ◌≡◌, ◌≢◌, refl, sym, ◌∙◌, ap, true, false, [], ◌∷◌, Text, ◌==◌, ==_iff, inl, inr,
  Bool-cases, arith, ok, append-nil,
}
use sema_core.Identity.{in_alphabet, symbol, index_of, encode_loop, encode, total_of, decode_base56}
use sema_core.Identity.Digits.{
  InAlphabet, StartsAboveZero, total_of-encode, encode_loop-total_of, encode_loop_starts,
  encode_loop_step, encode_loop-zero, index_of-lt, encode_loop-InAlphabet, symbol-index_of,
  in_alphabet-symbol,
}
use sema_core.Identity.Segments.{IsCanonical, IsSegment, decode-ok, decode-segment}

canonical : (s : Text) → StartsAboveZero s → IsCanonical s
canonical [] h = absurd h
canonical (c ∷ []) h = tt
canonical (c ∷ d ∷ s) h = h

pub encode-IsSegment : (n : ℕ) → IsSegment (encode n)
unfolding encode
encode-IsSegment n = elim (Bool-cases (n == 0)) [
  | inl e ↦ rw e ((in_alphabet-symbol 0 (omega arith), tt), tt)
  | inr e ↦ rw e (
    encode_loop-InAlphabet n n [] tt,
    canonical _ (encode_loop_starts n n [] (omega arith) (ground arith)),
  )
]

-- Decoding an encoded number gives the number.
pub decode-encode : (n : ℕ) → decode_base56 (encode n) ≡ ok n
decode-encode n = decode-segment (encode n) (encode-IsSegment n) ∙ ap ok (total_of-encode n)

pub encode-injective : (m n : ℕ) → encode m ≡ encode n → m ≡ n
encode-injective m n e = sym (total_of-encode m) ∙ ap (total_of 0) e ∙ total_of-encode n

encode-zero : encode 0 ≡ symbol 0 ∷ []
unfolding encode
encode-zero = refl

total_of-nil : (n : ℕ) → total_of n [] ≡ n
unfolding total_of
total_of-nil n = refl

encode-pos : (n : ℕ) → 0 < n → encode n ≡ encode_loop n n []
unfolding encode
encode-pos n h = let e : (n == 0) ≡ false = ground arith in rw e

one_digit : (v : ℕ) (t : Text) → 0 < v → v < 56 → encode_loop v v t ≡ symbol v ∷ t
one_digit v t h k =
    encode_loop_step v t h
    ∙ ap₂ (λ (q r : ℕ). encode_loop q q (symbol r ∷ t)) (omega arith) (omega arith)
    ∙ encode_loop-zero 0 (symbol v ∷ t)

total_of-pos : (n : ℕ) (s : Text) → 0 < n → 0 < total_of n s
unfolding total_of
total_of-pos n [] h = h
total_of-pos n (c ∷ s) h = total_of-pos (n * 56 + index_of c) s (omega arith)

encode-index_of : (c : ℕ) → in_alphabet c ≡ true → encode (index_of c) ≡ c ∷ []
encode-index_of c h = elim (Bool-cases (index_of c == 0)) [
  | inl e ↦
      let none_left : index_of c ≡ 0 = ground arith in
      rw none_left
        (encode-zero ∙ ap (λ (x : ℕ). x ∷ []) (ap symbol (sym none_left) ∙ symbol-index_of c h))
  | inr e ↦
      let some_left : 0 < index_of c = ground arith in
      encode-pos (index_of c) some_left
      ∙ one_digit (index_of c) [] some_left (index_of-lt c h)
      ∙ ap (λ (x : ℕ). x ∷ []) (symbol-index_of c h)
]

index_of-pos : (c : ℕ) → in_alphabet c ≡ true → c ≢ symbol 0 → 0 < index_of c
index_of-pos c h k = elim (Bool-cases (index_of c == 0)) [
  | inl e ↦ absurd (k (sym (symbol-index_of c h) ∙ ap symbol ((==_iff (index_of c) 0).0 e)))
  | inr e ↦ ground arith
]

encode-long :
    (c d : ℕ) (s : Text)
    → in_alphabet c ≡ true
    → InAlphabet (d ∷ s)
    → c ≢ symbol 0
    → encode (total_of (index_of c) (d ∷ s)) ≡ c ∷ d ∷ s
encode-long c d s h hs k =
    let v = index_of c in
    let v_pos : 0 < v = index_of-pos c h k in
    encode-pos _ (total_of-pos v (d ∷ s) v_pos)
    ∙ encode_loop-total_of v (d ∷ s) [] v_pos hs
    ∙ ap (encode_loop v v) (append-nil (d ∷ s))
    ∙ one_digit v (d ∷ s) v_pos (index_of-lt c h)
    ∙ ap (λ (x : ℕ). x ∷ d ∷ s) (symbol-index_of c h)

total_of_first : (c : ℕ) (s : Text) → total_of 0 (c ∷ s) ≡ total_of (index_of c) s
unfolding total_of
total_of_first c s = ap (λ n. total_of n s) (omega arith)

pub encode-total_of : (s : Text) → IsSegment s → encode (total_of 0 s) ≡ s
encode-total_of [] (h, k) = absurd k
encode-total_of (c ∷ []) ((h, _), k) =
    ap encode (total_of_first c [] ∙ total_of-nil (index_of c)) ∙ encode-index_of c h
encode-total_of (c ∷ d ∷ s) ((h, hs), k) =
    ap encode (total_of_first c (d ∷ s)) ∙ encode-long c d s h hs k

-- A text that decodes is the encoding of its number: each number has one text.
pub encode-decode : (s : Text) (n : ℕ) → decode_base56 s ≡ ok n → encode n ≡ s
encode-decode s n h =
    let (segment, same) = decode-ok s n h in rw (← same) (encode-total_of s segment)
