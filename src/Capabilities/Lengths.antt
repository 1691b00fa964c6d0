-- ===== src/Capabilities/Lengths.antt =====
-- The length of a text in characters, as `[...value].length` of src/capabilities/schema.ts counts it.
use sema_core.Prelude.{
  ℕ, suc, ◌≡◌, ◌≤◌, refl, ap, arith, true, ◌&&◌, Bool-cases, inl, inr, [], ◌∷◌, Text,
}
use sema_core.Capabilities.Answers.{characters, is_leading, is_trailing}

-- The two halves of a surrogate pair.
abbrev pub IsPair : ℕ → ℕ → Type 0
IsPair c d = (55296 ≤ c) × (c ≤ 56319) × (56320 ≤ d) × (d ≤ 57343)

abbrev pub StartsPair : ℕ → Text → Type 0
StartsPair c [] = ⊥
StartsPair c (d ∷ t) = IsPair c d

-- A text read from its start, a pair as one character and any other unit as one.
pub data IsLong : Text → ℕ → Type 0 where
  no_text : IsLong [] 0
  pair : (c d : ℕ) (t : Text) (n : ℕ) → IsPair c d → IsLong t n → IsLong (c ∷ d ∷ t) (suc n)
  single : (c : ℕ) (t : Text) (n : ℕ) → ¬ (StartsPair c t) → IsLong t n → IsLong (c ∷ t) (suc n)

IsPair-test : (c d : ℕ) → IsPair c d → (is_leading c && is_trailing d) ≡ true
IsPair-test c d h = ground arith

test-IsPair : (c d : ℕ) → (is_leading c && is_trailing d) ≡ true → IsPair c d
test-IsPair c d h = ground arith

pub characters-IsLong : (t : Text) → IsLong t (characters t)
unfolding characters
characters-IsLong [] = no_text
characters-IsLong (c ∷ []) = single c [] 0 (λ h. h) no_text
characters-IsLong (c ∷ d ∷ rest) =
    let deep = characters-IsLong rest in
    let next = characters-IsLong (d ∷ rest) in
    elim (Bool-cases (is_leading c && is_trailing d)) [
      | inl t ↦ rw t (pair c d rest _ (test-IsPair c d t) deep)
      | inr t ↦ rw t (
          single c (d ∷ rest) _
            (λ h. let u : (is_leading c && is_trailing d) ≡ true = IsPair-test c d h in cc) next)
    ]

pub IsLong-characters : (t : Text) (n : ℕ) → IsLong t n → n ≡ characters t
unfolding characters
IsLong-characters t n no_text = refl
IsLong-characters t n (pair c d rest m is_pair deep) =
    let same = IsLong-characters rest m deep in rw (IsPair-test c d is_pair) (ap suc same)
IsLong-characters t n (single c [] m lone rest) = ap suc (IsLong-characters [] m rest)
IsLong-characters t n (single c (d ∷ rest) m lone next) =
    let same = IsLong-characters (d ∷ rest) m next in
    elim (Bool-cases (is_leading c && is_trailing d)) [
      | inl u ↦ absurd (lone (test-IsPair c d u))
      | inr u ↦ rw u (ap suc same)
    ]
