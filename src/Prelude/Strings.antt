-- ===== src/Prelude/Strings.antt =====
-- Text as the list of its UTF-16 code units, with the string operations that the program uses.
use Prim.Native.Char.{code}
use Prim.Native.Nat.{ℕ}
use Prim.Native.String.{String}
use mathlib.Core.Path.{◌≡◌, refl}
use mathlib.Core.Logic.{◌↔◌, inl, inr}
use mathlib.Core.Bool.{Bool, true, false, ◌||◌, ◌&&◌}
use mathlib.Core.Option.{Option, none, some}
use mathlib.Core.List.{List, [], ◌∷◌, ◌++◌, reverse}
use native.Mathlib.Omega.{arith}
use sema_core.Prelude.Tests.{and_left, and_right, Bool-cases, ==_iff, ◌==◌, leb, if◌then◌else◌}
use sema_core.Prelude.Lists.{any, all}

abbrev pub Text : Type 0
Text = List ℕ

-- A literal of the source; all of them are ASCII, so a code point is a code unit.
abbrev pub codes : String → Text
codes String.[] = []
codes (String.◌∷◌ c s) = code c ∷ codes s

-- `a === b`
unfoldable pub text_eq : Text → Text → Bool
text_eq [] [] = true
text_eq (a ∷ s) (b ∷ t) = a == b && text_eq s t
text_eq _ _ = false

pub text_eq_iff : (s t : Text) → (text_eq s t ≡ true) ↔ (s ≡ t)
unfolding text_eq
text_eq_iff [] [] = ground arith
text_eq_iff (a ∷ s) (b ∷ t) = ground (arith, text_eq_iff s t)
text_eq_iff [] (b ∷ t) = ground arith
text_eq_iff (a ∷ s) [] = ground arith

pub text_eq_refl : (s : Text) → text_eq s s ≡ true
text_eq_refl s = (text_eq_iff s s).1 refl

-- `!value`: the empty text is false.
abbrev pub is_empty : Text → Bool
is_empty [] = true
is_empty (c ∷ s) = false

-- `value ? value : undefined`
abbrev pub truthy : Option Text → Option Text
truthy none = none
truthy (some s) = if is_empty s then none else some s

abbrev pub elem : ℕ → Text → Bool
elem c s = any (λ x. x == c) s

-- `value.startsWith(prefix)`
unfoldable pub starts_with : Text → Text → Bool
starts_with s [] = true
starts_with [] (p ∷ ps) = false
starts_with (c ∷ s) (p ∷ ps) = c == p && starts_with s ps

-- The characters that `trim` takes away.
unfoldable pub is_space : ℕ → Bool
is_space c =
    (leb 9 c && leb c 13)
    || c == 32
    || c == 0xa0
    || c == 0x1680
    || (leb 0x2000 c && leb c 0x200a)
    || c == 0x2028
    || c == 0x2029
    || c == 0x202f
    || c == 0x205f
    || c == 0x3000
    || c == 0xfeff

unfoldable pub trim_start : Text → Text
trim_start [] = []
trim_start (c ∷ s) = let rest = trim_start s in if is_space c then rest else c ∷ s

-- `value.trim()`
unfoldable pub trim : Text → Text
unfolding trim_start is_space
trim s = reverse (trim_start (reverse (trim_start s)))

-- `value.split(sep)`, for a separator of one character.
unfoldable pub split_from : ℕ → Text → Text → List Text
split_from sep cur [] = cur ∷ []
split_from sep cur (c ∷ s) =
    let closed = cur ∷ split_from sep [] s in
    let longer = split_from sep (cur ++ c ∷ []) s in if c == sep then closed else longer

unfoldable pub split : ℕ → Text → List Text
unfolding split_from
split sep s = split_from sep [] s

-- `parts.join(sep)`
unfoldable pub join : ℕ → List Text → Text
join sep [] = []
join sep (p ∷ []) = p
join sep (p ∷ q ∷ ps) = p ++ sep ∷ join sep (q ∷ ps)

-- What a test says of every character of a text, it says of one that is there.
pub all-elem : (p : ℕ → Bool) (s : Text) (c : ℕ) → all p s ≡ true → elem c s ≡ true → p c ≡ true
all-elem p [] c h k = cc
all-elem p (x ∷ s) c h k = elim (Bool-cases (x == c)) [
  | inl same ↦ let e : x ≡ c = (==_iff x c).0 same in rw e at (and_left (p x) (all p s) h)
  | inr other ↦ all-elem p s c (and_right (p x) (all p s) h) (rw other at k)
]
