-- ===== src/Capabilities/Capped.antt =====
-- valueProblems of src/capabilities/schema.ts against the list of every mismatch.
use sema_core.Prelude.{
  ℕ, suc, ◌≡◌, inl, inr, refl, sym, ap, ◌∙◌, Bool-cases, Option, none, some, Option-cases, List, [],
  ◌∷◌, ◌++◌, append_assoc, append-nil, Text, codes, length, leb, if◌then◌else◌, take, take-append,
  take-append_long, arith,
}
use sema_core.Core.Types.{
  Json, json_null, json_boolean, json_number, json_text, json_array, json_object, Items, no_items,
  json_item, Fields, no_fields, json_field,
}
use sema_core.Capabilities.Answers.{
  Place, in_field, in_item, Mismatch, wrong_type, field_of, object_in, schema_of, fits, property,
  own, closed, guarded, check, check_items, check_fields, value_problems,
}

module _ (stringify : Json → Text) where
  abbrev pub typed : Fields → Json → List Place → List Mismatch → List Mismatch
  typed s value at inside =
      if fits s value then inside else record { at = at; kind = wrong_type } ∷ []

  -- Every mismatch, none left out: where the type fits, those of the value itself and then those of
  -- the values in it.
  unfoldable mutual
    pub mismatches : Json → Fields → List Place → List Mismatch
    mismatches (json_array items) s at =
        let inside = in_items items (object_in (field_of s (codes "items"))) at 0 in
        typed s (json_array items) at (own stringify s (json_array items) at ++ inside)
    mismatches (json_object parts) s at =
        let inside = in_fields parts s at in
        typed s (json_object parts) at (own stringify s (json_object parts) at ++ inside)
    mismatches value s at = typed s value at (own stringify s value at)

    pub in_items : Items → Option Fields → List Place → ℕ → List Mismatch
    in_items no_items schema at index = []
    in_items (json_item value rest) none at index = []
    in_items (json_item value rest) (some s) at index =
        mismatches value s (at ++ in_item index ∷ []) ++ in_items rest (some s) at (suc index)

    pub in_fields : Fields → Fields → List Place → List Mismatch
    in_fields no_fields s at = []
    in_fields (json_field name value rest) s at =
        elim (property s name) [
          | some schema ↦ mismatches value (schema_of schema) (at ++ in_field name ∷ [])
          | none ↦ closed stringify s at name
        ]
        ++ in_fields rest s at

  guarded-take :
      (found : List Mismatch) (s : Fields) (value : Json) (at : List Place)
      (deep inside : List Mismatch)
      → take 20 deep ≡ take 20 (found ++ inside)
      → take 20 (guarded stringify found s value at deep)
        ≡ take 20 (found ++ typed s value at inside)
  guarded-take found s value at deep inside h = elim (Bool-cases (leb 20 (length found))) [
    | inl e ↦ rw e (sym (take-append_long 20 found (typed s value at inside) (ground (arith))))
    | inr e ↦ elim (Bool-cases (fits s value)) [ inl f ↦ rw (e, f) h | inr f ↦ rw (e, f) refl ]
  ]

  mutual
    unfolding check mismatches

    check-take :
        (value : Json) (s : Fields) (at : List Place) (found : List Mismatch)
        → take 20 (check stringify value s at found) ≡ take 20 (found ++ mismatches value s at)
    check-take json_null s at found =
        guarded-take found s json_null at (found ++ own stringify s json_null at)
          (own stringify s json_null at) refl
    check-take (json_boolean b) s at found =
        guarded-take found s (json_boolean b) at (found ++ own stringify s (json_boolean b) at)
          (own stringify s (json_boolean b) at) refl
    check-take (json_number m scale) s at found =
        guarded-take found s (json_number m scale) at
          (found ++ own stringify s (json_number m scale) at)
          (own stringify s (json_number m scale) at) refl
    check-take (json_text t) s at found =
        guarded-take found s (json_text t) at (found ++ own stringify s (json_text t) at)
          (own stringify s (json_text t) at) refl
    check-take (json_array items) s at found =
        guarded-take found s (json_array items) at
          (check_items stringify items (object_in (field_of s (codes "items"))) at 0
            (found ++ own stringify s (json_array items) at))
          (own stringify s (json_array items) at
            ++ in_items items (object_in (field_of s (codes "items"))) at 0)
          (check_items-take items (object_in (field_of s (codes "items"))) at 0
              (found ++ own stringify s (json_array items) at)
            ∙ ap (take 20) (append_assoc found _ _))
    check-take (json_object parts) s at found =
        guarded-take found s (json_object parts) at
          (check_fields stringify parts s at (found ++ own stringify s (json_object parts) at))
          (own stringify s (json_object parts) at ++ in_fields parts s at)
          (check_fields-take parts s at (found ++ own stringify s (json_object parts) at)
            ∙ ap (take 20) (append_assoc found _ _))

    check_items-take :
        (items : Items) (schema : Option Fields) (at : List Place) (index : ℕ)
        (found : List Mismatch)
        → take 20 (check_items stringify items schema at index found)
          ≡ take 20 (found ++ in_items items schema at index)
    check_items-take no_items schema at index found = ap (take 20) (sym (append-nil found))
    check_items-take (json_item value rest) none at index found =
        ap (take 20) (sym (append-nil found))
    check_items-take (json_item value rest) (some s) at index found =
        check_items-take rest (some s) at (suc index) _
        ∙ take-append 20 _ _ (in_items rest (some s) at (suc index))
            (check-take value s (at ++ in_item index ∷ []) found)
        ∙ ap (take 20) (append_assoc found _ _)

    check_fields-take :
        (parts s : Fields) (at : List Place) (found : List Mismatch)
        → take 20 (check_fields stringify parts s at found)
          ≡ take 20 (found ++ in_fields parts s at)
    check_fields-take no_fields s at found = ap (take 20) (sym (append-nil found))
    check_fields-take (json_field name value rest) s at found =
        check_fields-take rest s at _
        ∙ take-append 20 _ _ (in_fields rest s at) (elim (Option-cases (property s name)) [
          | inl e ↦ rw e refl
          | inr (schema, e) ↦
              rw e (check-take value (schema_of schema) (at ++ in_field name ∷ []) found)
        ])
        ∙ ap (take 20) (append_assoc found _ _)

  -- The check stops at 20 problems, and what it says is the first 20 of every mismatch, in order;
  -- whatever `JSON.stringify` answers.
  pub value_problems-mismatches :
      (s : Fields) (value : Json)
      → value_problems stringify s value ≡ take 20 (mismatches value s [])
  unfolding value_problems
  value_problems-mismatches s value = check-take value s [] []
