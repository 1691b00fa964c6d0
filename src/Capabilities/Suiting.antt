-- ===== src/Capabilities/Suiting.antt =====
-- What valueProblems of src/capabilities/schema.ts holds against a value itself.
use mathlib.Core.Path.{subst}
use sema_core.Prelude.{
  ℕ, ◌≡◌, Option, none, some, inl, inr, refl, sym, ap, ◌∙◌, Bool, true, false, not, Bool-cases,
  List, [], ◌∷◌, ◌++◌, append-nil, Text, codes, length,
}
use sema_core.Identity.{ℤ, pos}
use sema_core.Core.Types.{
  Json, json_null, json_boolean, json_number, json_text, json_array, json_object, Fields,
}
use sema_core.Capabilities.Values.{items_of}
use sema_core.Capabilities.Answers.{
  Place, Mismatch, MismatchKind, wrong_type, field_of, array_in, fits, has_field, in_enum, is_under,
  is_over, characters, when_, missing_name, missing_in, bounds, own,
}
use sema_core.Capabilities.Capped.{typed}
use sema_core.Capabilities.Fitting.{
  IsAmong, HasName, NoneMissing, NotUnder, NotOver, Listed, Within, Suits,
}
use sema_core.Capabilities.Lengths.{characters-IsLong, IsLong-characters}
use sema_core.Capabilities.Fitted.{
  fits-Typed, in_enum-Listed, has_field-HasName, is_under-NotUnder, is_over-NotOver,
}

module _ (stringify : Json → Text) where
  pub nil_both : {A : Type 0} (xs ys : List A) → xs ++ ys ≡ [] → (xs ≡ []) × (ys ≡ [])
  nil_both [] ys h = (refl, h)
  nil_both (x ∷ xs) ys h = cc

  pub when_-nil :
      (b : Bool) (at : List Place) (kind : MismatchKind) → when_ b at kind ≡ [] → b ≡ false
  when_-nil false at kind h = refl
  when_-nil true at kind h = cc

  not-false : (b : Bool) → not b ≡ false → b ≡ true
  not-false true h = refl
  not-false false h = cc

  missing_in-nil :
      (parts : Fields) (at : List Place) (names : List Json)
      → missing_in parts at names ≡ []
      → (name : Text) → IsAmong (json_text name) names
      → HasName name parts
  unfolding missing_in
  missing_in-nil parts at [] h name among = absurd among
  missing_in-nil parts at (j ∷ names) h name among =
      let (first, rest) = nil_both (missing_name parts at j) (missing_in parts at names) h in
      elim among [
        | inl e ↦ (has_field-HasName name parts).0 (
            not-false (has_field parts name)
              (when_-nil _ _ _ (subst (λ k. missing_name parts at k ≡ []) e first)))
        | inr more ↦ missing_in-nil parts at names rest name more
      ]

  missing_in-of :
      (parts : Fields) (at : List Place) (names : List Json)
      → ((name : Text) → IsAmong (json_text name) names → HasName name parts)
      → missing_in parts at names ≡ []
  unfolding missing_in
  missing_in-of parts at [] h = refl
  missing_in-of parts at (j ∷ names) h =
      ap (λ l. l ++ missing_in parts at names) (missing_name-of j (λ name e. h name (inl e)))
      ∙ missing_in-of parts at names (λ name more. h name (inr more))
    where
      missing_name-of :
          (k : Json)
          → ((name : Text) → k ≡ json_text name → HasName name parts)
          → missing_name parts at k ≡ []
      missing_name-of (json_text t) there = rw ((has_field-HasName t parts).1 (there t refl)) refl
      missing_name-of json_null there = refl
      missing_name-of (json_boolean b) there = refl
      missing_name-of (json_number m scale) there = refl
      missing_name-of (json_array items) there = refl
      missing_name-of (json_object l) there = refl

  two-nil :
      (b c : Bool) (at : List Place) (k l : MismatchKind)
      → when_ b at k ++ when_ c at l ≡ []
      → (b ≡ false) × (c ≡ false)
  two-nil false false at k l h = (refl, refl)
  two-nil false true at k l h = cc
  two-nil true c at k l h = cc

  required-nil :
      (o : Option Json) (parts : Fields) (at : List Place)
      → missing_in parts at (array_in o) ≡ []
      → NoneMissing o parts
  required-nil none parts at h = tt
  required-nil (some (json_array names)) parts at h = missing_in-nil parts at (items_of names) h
  required-nil (some json_null) parts at h = tt
  required-nil (some (json_boolean b)) parts at h = tt
  required-nil (some (json_number m scale)) parts at h = tt
  required-nil (some (json_text t)) parts at h = tt
  required-nil (some (json_object l)) parts at h = tt

  required-of :
      (o : Option Json) (parts : Fields) (at : List Place)
      → NoneMissing o parts
      → missing_in parts at (array_in o) ≡ []
  unfolding missing_in
  required-of none parts at h = refl
  required-of (some (json_array names)) parts at h = missing_in-of parts at (items_of names) h
  required-of (some json_null) parts at h = refl
  required-of (some (json_boolean b)) parts at h = refl
  required-of (some (json_number m scale)) parts at h = refl
  required-of (some (json_text t)) parts at h = refl
  required-of (some (json_object l)) parts at h = refl

  -- A lower and an upper bound on one number.
  between-nil :
      (a : ℤ) (scale : ℕ) (low high : Option Json) (at : List Place) (k l : MismatchKind)
      → when_ (is_under a scale low) at k ++ when_ (is_over a scale high) at l ≡ []
      → NotUnder a scale low × NotOver a scale high
  between-nil a scale low high at k l h =
      let (under, over) = two-nil _ _ at k l h in
      ((is_under-NotUnder a scale low).0 under, (is_over-NotOver a scale high).0 over)

  between-of :
      (a : ℤ) (scale : ℕ) (low high : Option Json) (at : List Place) (k l : MismatchKind)
      → NotUnder a scale low × NotOver a scale high
      → when_ (is_under a scale low) at k ++ when_ (is_over a scale high) at l ≡ []
  between-of a scale low high at k l (under, over) =
      rw ((is_under-NotUnder a scale low).1 under, (is_over-NotOver a scale high).1 over) refl

  bounds-nil :
      (s : Fields) (value : Json) (at : List Place)
      → bounds stringify s value at ≡ []
      → Within s value
  bounds-nil s (json_text t) at h =
      let (low, high) = between-nil (pos (characters t)) 0 _ _ at _ _ h in
      (characters t, characters-IsLong t, low, high)
  bounds-nil s (json_number m scale) at h = between-nil m scale _ _ at _ _ h
  bounds-nil s (json_array items) at h = between-nil (pos (length (items_of items))) 0 _ _ at _ _ h
  bounds-nil s (json_object parts) at h = required-nil (field_of s (codes "required")) parts at h
  bounds-nil s json_null at h = tt
  bounds-nil s (json_boolean b) at h = tt

  bounds-of :
      (s : Fields) (value : Json) (at : List Place)
      → Within s value
      → bounds stringify s value at ≡ []
  bounds-of s (json_text t) at (n, long, low, high) =
      between-of (pos (characters t)) 0 (field_of s (codes "minLength"))
        (field_of s (codes "maxLength")) at _ _
        (subst
          (λ k.
            NotUnder (pos k) 0 (field_of s (codes "minLength"))
            × NotOver (pos k) 0 (field_of s (codes "maxLength")))
          (IsLong-characters t n long) (low, high))
  bounds-of s (json_number m scale) at h =
      between-of m scale (field_of s (codes "minimum")) (field_of s (codes "maximum")) at _ _ h
  bounds-of s (json_array items) at h =
      between-of (pos (length (items_of items))) 0 (field_of s (codes "minItems"))
        (field_of s (codes "maxItems")) at _ _ h
  bounds-of s (json_object parts) at h = required-of (field_of s (codes "required")) parts at h
  bounds-of s json_null at h = refl
  bounds-of s (json_boolean b) at h = refl

  own-nil :
      (s : Fields) (value : Json) (at : List Place)
      → own stringify s value at ≡ []
      → Listed stringify (field_of s (codes "enum")) value × Within s value
  own-nil s value at h =
      let (first, rest) =
        nil_both (when_ (not (in_enum stringify s value)) at _) (bounds stringify s value at) h in
      (
        (in_enum-Listed stringify s value).0 (not-false _ (when_-nil _ _ _ first)),
        bounds-nil s value at rest,
      )

  own-of :
      (s : Fields) (value : Json) (at : List Place)
      → Listed stringify (field_of s (codes "enum")) value
      → Within s value
      → own stringify s value at ≡ []
  own-of s value at listed within =
      rw ((in_enum-Listed stringify s value).1 listed, bounds-of s value at within) refl

  pub typed-nil :
      (s : Fields) (value : Json) (at : List Place) (inside : List Mismatch)
      → typed stringify s value at (own stringify s value at ++ inside) ≡ []
      → Suits stringify s value × (inside ≡ [])
  typed-nil s value at inside h = elim (Bool-cases (fits s value)) [
    | inl e ↦
        let (first, rest) = nil_both (own stringify s value at) inside (rw e at h) in
        let (listed, within) = own-nil s value at first in
        (((fits-Typed s value).0 e, listed, within), rest)
    | inr e ↦
        let no : ◌≡◌ {A = List Mismatch} (record { at = at; kind = wrong_type } ∷ []) [] =
          rw e at h in
        cc
  ]

  pub typed-of :
      (s : Fields) (value : Json) (at : List Place) (inside : List Mismatch)
      → Suits stringify s value
      → inside ≡ []
      → typed stringify s value at (own stringify s value at ++ inside) ≡ []
  typed-of s value at inside (type, listed, within) h =
      rw ((fits-Typed s value).1 type, own-of s value at listed within) h

  pub leaf-nil :
      (s : Fields) (value : Json) (at : List Place)
      → typed stringify s value at (own stringify s value at) ≡ []
      → Suits stringify s value
  leaf-nil s value at h =
      (typed-nil s value at []
        (ap (typed stringify s value at) (append-nil (own stringify s value at)) ∙ h)).0

  pub leaf-of :
      (s : Fields) (value : Json) (at : List Place)
      → Suits stringify s value
      → typed stringify s value at (own stringify s value at) ≡ []
  leaf-of s value at h =
      ap (typed stringify s value at) (sym (append-nil (own stringify s value at)))
      ∙ typed-of s value at [] h refl
