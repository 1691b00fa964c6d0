-- ===== src/Prelude/Splitting.antt =====
-- Splitting a text at a separator and joining it again, and trimming.
use Prim.Native.Nat.{ℕ}
use mathlib.Core.Path.{◌≡◌, refl, ap, ◌∙◌}
use mathlib.Core.Logic.{◌≢◌, inl, inr}
use mathlib.Core.Bool.{false}
use mathlib.Core.List.{List, [], ◌∷◌, ◌++◌, append_assoc, append-nil, reverse, reverse-reverse}
use native.Mathlib.Omega.{arith}
use sema_core.Prelude.Tests.{Bool-cases, ==_iff, ◌==◌}
use sema_core.Prelude.Lists.{All, All-reverse}
use sema_core.Prelude.Strings.{Text, split_from, split, join, trim_start, trim, is_space}

module _ (sep : ℕ) where
  abbrev pub Lacks : Text → Type 0
  Lacks [] = Unit
  Lacks (c ∷ s) = (c ≢ sep) × Lacks s

  Lacks-append : (s t : Text) → Lacks s → Lacks t → Lacks (s ++ t)
  Lacks-append [] t h k = k
  Lacks-append (c ∷ s) t (p, h) k = (p, Lacks-append s t h k)

  join-cons :
      (p cur s : Text)
      → join sep (p ∷ split_from sep cur s) ≡ p ++ sep ∷ join sep (split_from sep cur s)
  unfolding split_from join
  join-cons p cur [] = refl
  join-cons p cur (c ∷ s) = elim (Bool-cases (c == sep)) [
    | inl e ↦ rw e
    | inr e ↦ rw e (join-cons p (cur ++ c ∷ []) s)
  ]

  join-split_from : (cur s : Text) → join sep (split_from sep cur s) ≡ cur ++ s
  unfolding split_from
  join-split_from cur [] = unfold join in rw append-nil
  join-split_from cur (c ∷ s) = elim (Bool-cases (c == sep)) [
    | inl e ↦
        let same : c ≡ sep = (==_iff c sep).0 e in
        rw e (rw join-cons (rw (join-split_from [] s, same)))
    | inr e ↦ rw e (join-split_from (cur ++ c ∷ []) s ∙ append_assoc cur (c ∷ []) s)
  ]

  pub join-split : (s : Text) → join sep (split sep s) ≡ s
  unfolding split
  join-split s = join-split_from [] s

  split_from-append :
      (cur s t : Text) → Lacks s → split_from sep cur (s ++ t) ≡ split_from sep (cur ++ s) t
  unfolding split_from
  split_from-append cur [] t h = rw append-nil
  split_from-append cur (c ∷ s) t (p, h) =
      let other : (c == sep) ≡ false = ground arith in
      rw other (
        split_from-append (cur ++ c ∷ []) s t h
        ∙ ap (λ u. split_from sep u t) (append_assoc cur (c ∷ []) s))

  split_from-end : (cur s : Text) → Lacks s → split_from sep cur s ≡ (cur ++ s) ∷ []
  unfolding split_from
  split_from-end cur [] h = rw append-nil
  split_from-end cur (c ∷ s) (p, h) =
      let other : (c == sep) ≡ false = ground arith in
      rw other (split_from-end (cur ++ c ∷ []) s h ∙ rw append_assoc)

  pub split-join :
      (p : Text) (ps : List Text) → All Lacks (p ∷ ps) → split sep (join sep (p ∷ ps)) ≡ p ∷ ps
  unfolding split join
  split-join p [] (h, _) = split_from-end [] p h
  split-join p (q ∷ ps) (h, k) =
      split_from-append [] p (sep ∷ join sep (q ∷ ps)) h
      ∙ rw ((==_iff sep sep).1 refl) (ap (λ r. p ∷ r) (split-join q ps k))

  split_from-ne-nil : (cur s : Text) → split_from sep cur s ≢ []
  unfolding split_from
  split_from-ne-nil cur [] = cc
  split_from-ne-nil cur (c ∷ s) = elim (Bool-cases (c == sep)) [
    | inl e ↦ rw e (cc)
    | inr e ↦ rw e (split_from-ne-nil (cur ++ c ∷ []) s)
  ]

  pub split-ne-nil : (s : Text) → split sep s ≢ []
  unfolding split
  split-ne-nil s = split_from-ne-nil [] s

  split_from-Lacks : (cur s : Text) → Lacks cur → All Lacks (split_from sep cur s)
  unfolding split_from
  split_from-Lacks cur [] h = (h, tt)
  split_from-Lacks cur (c ∷ s) h = elim (Bool-cases (c == sep)) [
    | inl e ↦ rw e (h, split_from-Lacks [] s tt)
    | inr e ↦
        rw e (split_from-Lacks (cur ++ c ∷ []) s (Lacks-append cur (c ∷ []) h (ground arith, tt)))
  ]

  pub split-Lacks : (s : Text) → All Lacks (split sep s)
  unfolding split
  split-Lacks s = split_from-Lacks [] s tt

module _ (sep : ℕ) where
  append-not-Lacks : (b e : Text) → Lacks sep (b ++ sep ∷ e) → ⊥
  append-not-Lacks [] e (p, h) = p refl
  append-not-Lacks (c ∷ b) e (p, h) = append-not-Lacks b e h

  -- A text is cut at its last separator in one way.
  pub cut_unique :
      (b b' e e' : Text)
      → Lacks sep e
      → Lacks sep e'
      → b ++ sep ∷ e ≡ b' ++ sep ∷ e'
      → (b ≡ b') × (e ≡ e')
  cut_unique [] [] e e' h h' q = (refl, cc)
  cut_unique [] (c ∷ b') e e' h h' q =
      let same : e ≡ b' ++ sep ∷ e' = cc in absurd (append-not-Lacks b' e' (rw same at h))
  cut_unique (c ∷ b) [] e e' h h' q =
      let same : b ++ sep ∷ e ≡ e' = cc in absurd (append-not-Lacks b e (rw (← same) at h'))
  cut_unique (c ∷ b) (c' ∷ b') e e' h h' q =
      let rest : b ++ sep ∷ e ≡ b' ++ sep ∷ e' = cc in
      let (same, own) = cut_unique b b' e e' h h' rest in (cc, own)

abbrev pub NoSpace : Text → Type 0
NoSpace = All (λ c. is_space c ≡ false)

trim_start-NoSpace : (s : Text) → NoSpace s → trim_start s ≡ s
unfolding trim_start
trim_start-NoSpace [] h = refl
trim_start-NoSpace (c ∷ s) (p, h) = rw p

pub trim-NoSpace : (s : Text) → NoSpace s → trim s ≡ s
unfolding trim
trim-NoSpace s h = rw (
  trim_start-NoSpace s h,
  trim_start-NoSpace (reverse s) (All-reverse (λ c. is_space c ≡ false) s h),
  reverse-reverse,
)
