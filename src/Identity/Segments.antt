-- ===== src/Identity/Segments.antt =====
-- What assertSegment accepts, and the segments of an InstallationID.
use sema_core.Prelude.{
  ℕ, ◌≡◌, ◌≢◌, refl, Bool, true, false, not, ◌&&◌, List, [], ◌∷◌, Text, any, is_empty, length, ltb,
  ◌==◌, arith, ok, >>=-eq-ok, refuse_if, or_left, or_right, All, All-append, all, split, join,
  Lacks, NoSpace, is_space, all-elem,
}
use sema_core.Identity.{
  alphabet, in_alphabet, symbol, starts_with_zero, assert_segment, decode_base56, total_of,
  zero_segment, check_segments, hyphen,
}
use sema_core.Identity.Digits.{InAlphabet}

abbrev pub IsCanonical : Text → Type 0
IsCanonical [] = ⊥
IsCanonical (c ∷ []) = Unit
IsCanonical (c ∷ d ∷ s) = c ≢ symbol 0

-- A Base56 number in its shortest form.
abbrev pub IsSegment : Text → Type 0
IsSegment s = InAlphabet s × IsCanonical s

InAlphabet-of-any : (s : Text) → any (λ c. not (in_alphabet c)) s ≡ false → InAlphabet s
InAlphabet-of-any [] h = tt
InAlphabet-of-any (c ∷ s) h = (
  not-eq-false (or_left _ (any (λ x. not (in_alphabet x)) s) h),
  InAlphabet-of-any s (or_right (not (in_alphabet c)) _ h),
)
  where
    not-eq-false : not (in_alphabet c) ≡ false → in_alphabet c ≡ true
    not-eq-false e = ground arith

any-of-InAlphabet : (s : Text) → InAlphabet s → any (λ c. not (in_alphabet c)) s ≡ false
any-of-InAlphabet [] h = refl
any-of-InAlphabet (c ∷ s) (p, h) = rw p (any-of-InAlphabet s h)

pub assert_segment-of-IsSegment : (s : Text) → IsSegment s → assert_segment s ≡ ok tt
unfolding assert_segment
assert_segment-of-IsSegment [] (h, k) = absurd k
assert_segment-of-IsSegment (c ∷ []) (h, k) = rw (any-of-InAlphabet (c ∷ []) h)
assert_segment-of-IsSegment (c ∷ d ∷ s) (h, k) = rw (any-of-InAlphabet (c ∷ d ∷ s) h) (ground arith)

abbrev has_other : Text → Bool
has_other s = any (λ c. not (in_alphabet c)) s

assert_segment_tests :
    (s : Text)
    → assert_segment s ≡ ok tt
    → (is_empty s ≡ false)
      × (has_other s ≡ false)
      × ((ltb 1 (length s) && starts_with_zero s) ≡ false)
unfolding assert_segment
assert_segment_tests s h = ground arith

pub IsSegment-of-assert_segment : (s : Text) → assert_segment s ≡ ok tt → IsSegment s
IsSegment-of-assert_segment s h =
    let (full, good, short) = assert_segment_tests s h in
    (InAlphabet-of-any s good, canonical s full short)
  where
    canonical :
        (t : Text)
        → is_empty t ≡ false
        → (ltb 1 (length t) && starts_with_zero t) ≡ false
        → IsCanonical t
    canonical [] e k = cc
    canonical (c ∷ []) e k = tt
    canonical (c ∷ d ∷ t) e k = ground arith

pub decode-ok : (s : Text) (n : ℕ) → decode_base56 s ≡ ok n → IsSegment s × (total_of 0 s ≡ n)
unfolding decode_base56
decode-ok s n h =
    let (u, checked, same) = >>=-eq-ok (assert_segment s) _ h in
    (IsSegment-of-assert_segment s checked, ground arith)

pub decode-segment : (s : Text) → IsSegment s → decode_base56 s ≡ ok (total_of 0 s)
unfolding decode_base56
decode-segment s h = rw (assert_segment-of-IsSegment s h)

-- A segment of an InstallationID: a Base56 number that is not zero.
abbrev pub IsObjectSegment : Text → Type 0
IsObjectSegment s = IsSegment s × (total_of 0 s ≢ 0)

pub check_segments-ok : (ps : List Text) → All IsObjectSegment ps → check_segments ps ≡ ok tt
unfolding check_segments
check_segments-ok [] h = refl
check_segments-ok (p ∷ ps) ((q, k), h) =
    let checked = assert_segment-of-IsSegment p q in
    let some_value : (total_of 0 p == 0) ≡ false = ground arith in
    rw checked (rw (decode-segment p q) (rw some_value (check_segments-ok ps h)))

pub check_segments-All : (ps : List Text) → check_segments ps ≡ ok tt → All IsObjectSegment ps
unfolding check_segments
check_segments-All [] h = tt
check_segments-All (p ∷ ps) h =
    let (u, checked, h₁) = >>=-eq-ok (assert_segment p) _ h in
    let (n, decoded, h₂) = >>=-eq-ok (decode_base56 p) _ h₁ in
    let (v, tested, h₃) = >>=-eq-ok (refuse_if (n == 0) zero_segment) _ h₂ in
    let (segment, same) = decode-ok p n decoded in
    ((segment, ground arith), check_segments-All ps h₃)

-- The segments are free of the separator and of spaces, so joining them can be undone.
char_table : all (λ c. not (c == hyphen) && not (is_space c)) alphabet ≡ true
unfolding is_space
char_table = refl

abbrev is_plain : ℕ → Bool
is_plain c = not (c == hyphen) && not (is_space c)

plain : (c : ℕ) → in_alphabet c ≡ true → is_plain c ≡ true
unfolding in_alphabet
plain c h = all-elem is_plain alphabet c char_table h

pub Lacks-InAlphabet : (s : Text) → InAlphabet s → Lacks hyphen s
Lacks-InAlphabet [] h = tt
Lacks-InAlphabet (c ∷ s) (p, h) = (ground (arith, plain c p), Lacks-InAlphabet s h)

pub NoSpace-InAlphabet : (s : Text) → InAlphabet s → NoSpace s
NoSpace-InAlphabet [] h = tt
NoSpace-InAlphabet (c ∷ s) (p, h) = (ground (arith, plain c p), NoSpace-InAlphabet s h)

pub All-Lacks : (ps : List Text) → All IsSegment ps → All (Lacks hyphen) ps
All-Lacks [] h = tt
All-Lacks (p ∷ ps) ((a, _), h) = (Lacks-InAlphabet p a, All-Lacks ps h)

pub NoSpace-join : (ps : List Text) → All IsSegment ps → NoSpace (join hyphen ps)
unfolding join is_space
NoSpace-join [] h = tt
NoSpace-join (p ∷ []) ((a, _), h) = NoSpace-InAlphabet p a
NoSpace-join (p ∷ q ∷ ps) ((a, _), h) =
    All-append (λ c. is_space c ≡ false) p (hyphen ∷ join hyphen (q ∷ ps)) (NoSpace-InAlphabet p a)
      (refl, NoSpace-join (q ∷ ps) h)

pub All-IsSegment : (ps : List Text) → All IsObjectSegment ps → All IsSegment ps
All-IsSegment [] h = tt
All-IsSegment (p ∷ ps) ((s, _), h) = (s, All-IsSegment ps h)

pub any_empty : (ps : List Text) → All IsSegment ps → any is_empty ps ≡ false
any_empty [] h = refl
any_empty ([] ∷ ps) ((_, k), h) = absurd k
any_empty ((c ∷ p) ∷ ps) (_, h) = any_empty ps h

-- What parseInstallationId accepts, after the trim.
abbrev pub IsInstallationId : Text → Type 0
IsInstallationId s = All IsObjectSegment (split hyphen s)
