-- ===== src/Capabilities/Matching.antt =====
-- What it means that a value matches a schema of the subset of src/capabilities/schema.ts, said
-- without the tests of the checker.
use sema_core.Prelude.{
  ℕ, suc, ◌≡◌, inl, inr, ◌↔◌, refl, sym, ap, ◌∙◌, true, false, Option, none, some, Option-cases,
  List, [], ◌∷◌, ◌++◌, Text, codes, take,
}
use sema_core.Core.Types.{
  Json, json_null, json_boolean, json_number, json_text, json_array, json_object, Items, no_items,
  json_item, Fields, no_fields, json_field,
}
use sema_core.Capabilities.Answers.{
  Place, in_field, in_item, field_of, object_in, schema_of, property, is_closed, value_problems,
}
use sema_core.Capabilities.Capped.{mismatches, in_items, in_fields, value_problems-mismatches}
use sema_core.Capabilities.Fitting.{Suits, ChildSchema, Closed}
use sema_core.Capabilities.Naming.{property-ChildSchema, is_closed-Closed, no_child, not-Closed}
use sema_core.Capabilities.Suiting.{nil_both, when_-nil, typed-nil, typed-of, leaf-nil, leaf-of}

module _ (stringify : Json → Text) where
  -- A value that suits the schema itself, with every item and every field in it matching its own
  -- schema, and no field but the properties where the schema allows no other.
  unfoldable mutual
    pub Matches : Json → Fields → Type 0
    Matches (json_array items) s =
        Suits stringify s (json_array items)
        × ((inner : Fields)
            → field_of s (codes "items") ≡ some (json_object inner)
            → AllMatch items inner)
    Matches (json_object parts) s = Suits stringify s (json_object parts) × EachMatches parts s
    Matches value s = Suits stringify s value

    pub AllMatch : Items → Fields → Type 0
    AllMatch no_items s = Unit
    AllMatch (json_item value rest) s = Matches value s × AllMatch rest s

    pub EachMatches : Fields → Fields → Type 0
    EachMatches no_fields s = Unit
    EachMatches (json_field name value rest) s =
        ((schema : Json) → ChildSchema s name schema → Matches value (schema_of schema))
        × (((schema : Json) → ¬ (ChildSchema s name schema)) → ¬ (Closed s))
        × EachMatches rest s

  in_items-none :
      (items : Items) (at : List Place) (index : ℕ) → in_items stringify items none at index ≡ []
  unfolding mismatches
  in_items-none no_items at index = refl
  in_items-none (json_item value rest) at index = refl

  given_items :
      (items : Items) (o : Option Json) (at : List Place)
      → ((inner : Fields)
          → o ≡ some (json_object inner)
          → in_items stringify items (some inner) at 0 ≡ [])
      → in_items stringify items (object_in o) at 0 ≡ []
  unfolding mismatches
  given_items items (some (json_object inner)) at h = h inner refl
  given_items items none at h = in_items-none items at 0
  given_items items (some json_null) at h = in_items-none items at 0
  given_items items (some (json_boolean b)) at h = in_items-none items at 0
  given_items items (some (json_number m scale)) at h = in_items-none items at 0
  given_items items (some (json_text t)) at h = in_items-none items at 0
  given_items items (some (json_array l)) at h = in_items-none items at 0

  mutual
    unfolding Matches mismatches

    mismatches-nil :
        (value : Json) (s : Fields) (at : List Place)
        → mismatches stringify value s at ≡ []
        → Matches value s
    mismatches-nil json_null s at h = leaf-nil stringify s json_null at h
    mismatches-nil (json_boolean b) s at h = leaf-nil stringify s (json_boolean b) at h
    mismatches-nil (json_number m scale) s at h = leaf-nil stringify s (json_number m scale) at h
    mismatches-nil (json_text t) s at h = leaf-nil stringify s (json_text t) at h
    mismatches-nil (json_array items) s at h =
        let (suits, rest) = typed-nil stringify s (json_array items) at _ h in
        (
          suits,
          (λ inner e.
              in_items-nil items inner at 0
                (ap (λ o. in_items stringify items (object_in o) at 0) (sym e) ∙ rest)),
        )
    mismatches-nil (json_object parts) s at h =
        let (suits, rest) = typed-nil stringify s (json_object parts) at _ h in
        (suits, in_fields-nil parts s at rest)

    in_items-nil :
        (items : Items) (s : Fields) (at : List Place) (index : ℕ)
        → in_items stringify items (some s) at index ≡ []
        → AllMatch items s
    in_items-nil no_items s at index h = tt
    in_items-nil (json_item value rest) s at index h =
        let (first, later) =
          nil_both stringify (mismatches stringify value s (at ++ in_item index ∷ [])) _ h in
        (mismatches-nil value s _ first, in_items-nil rest s at (suc index) later)

    in_fields-nil :
        (parts s : Fields) (at : List Place)
        → in_fields stringify parts s at ≡ []
        → EachMatches parts s
    in_fields-nil no_fields s at h = tt
    in_fields-nil (json_field name value rest) s at h =
        let (first, later) = nil_both stringify _ (in_fields stringify rest s at) h in
        (
          (λ schema child.
              let e : property s name ≡ some schema =
                (property-ChildSchema s name schema).1 child in
              mismatches-nil value (schema_of schema) (at ++ in_field name ∷ []) (rw e at first)),
          (λ none_ closed.
              let e : property s name ≡ none = no_child s name none_ in
              let open_ : is_closed s ≡ false =
                when_-nil stringify (is_closed s) _ _ (rw e at first) in
              let shut : is_closed s ≡ true = (is_closed-Closed s).1 closed in cc),
          in_fields-nil rest s at later,
        )

  mutual
    unfolding Matches mismatches

    mismatches-of :
        (value : Json) (s : Fields) (at : List Place)
        → Matches value s
        → mismatches stringify value s at ≡ []
    mismatches-of json_null s at h = leaf-of stringify s json_null at h
    mismatches-of (json_boolean b) s at h = leaf-of stringify s (json_boolean b) at h
    mismatches-of (json_number m scale) s at h = leaf-of stringify s (json_number m scale) at h
    mismatches-of (json_text t) s at h = leaf-of stringify s (json_text t) at h
    mismatches-of (json_array items) s at (suits, rest) =
        typed-of stringify s (json_array items) at _ suits (
          given_items items (field_of s (codes "items")) at
            (λ inner e. in_items-of items inner at 0 (rest inner e)))
    mismatches-of (json_object parts) s at (suits, rest) =
        typed-of stringify s (json_object parts) at _ suits (in_fields-of parts s at rest)

    in_items-of :
        (items : Items) (s : Fields) (at : List Place) (index : ℕ)
        → AllMatch items s
        → in_items stringify items (some s) at index ≡ []
    in_items-of no_items s at index h = refl
    in_items-of (json_item value rest) s at index (first, later) =
        ap (λ l. l ++ in_items stringify rest (some s) at (suc index))
          (mismatches-of value s (at ++ in_item index ∷ []) first)
        ∙ in_items-of rest s at (suc index) later

    in_fields-of :
        (parts s : Fields) (at : List Place)
        → EachMatches parts s
        → in_fields stringify parts s at ≡ []
    in_fields-of no_fields s at h = refl
    in_fields-of (json_field name value rest) s at (inside, outside, later) =
        elim (Option-cases (property s name)) [
          | inl e ↦
              let open_ : is_closed s ≡ false = not-Closed s name e outside in
              rw (e, open_) (in_fields-of rest s at later)
          | inr (schema, e) ↦
              rw
                (
                  e,
                  mismatches-of value (schema_of schema) (at ++ in_field name ∷ [])
                      (inside schema ((property-ChildSchema s name schema).0 e)),
                )
                (in_fields-of rest s at later)
        ]

  take-nil : {A : Type 0} (xs : List A) → take 20 xs ≡ [] → xs ≡ []
  take-nil [] h = refl
  take-nil (x ∷ xs) h = cc

  -- A check against a schema that keeps to the subset says nothing exactly when the value matches. It
  -- is of one of the types named, where an integer is a multiple of its power of ten; it is written
  -- as one of those listed; its length in characters, its amount or its number of items keeps to the
  -- bounds; every required name is one of its names; every item matches the schema for items; every
  -- field for which the schema gives a schema matches it; and a closed schema gives one for every
  -- field. Two values are written the same where `JSON.stringify` answers the same.
  pub value_problems-Matches :
      (s : Fields) (value : Json) → (value_problems stringify s value ≡ []) ↔ Matches value s
  value_problems-Matches s value = (
    (λ h.
        mismatches-nil value s []
          (take-nil _ (sym (value_problems-mismatches stringify s value) ∙ h))),
    (λ h. value_problems-mismatches stringify s value ∙ ap (take 20) (mismatches-of value s [] h)),
  )
