-- ===== src/Capabilities/Naming.antt =====
-- The fields that a schema gives a schema for, and the schemas that allow no others, of valueProblems
-- of src/capabilities/schema.ts.
use sema_core.Prelude.{
  ◌≡◌, ◌↔◌, inl, inr, refl, ap, ◌∙◌, true, false, Option, none, some, Text, codes, Bool-cases,
  Option-cases,
}
use sema_core.Core.Types.{
  Json, json_null, json_boolean, json_number, json_text, json_array, json_object, Fields,
}
use sema_core.Capabilities.Values.{get_field}
use sema_core.Capabilities.Answers.{field_of, property, property_in, object_in, false_in, is_closed}
use sema_core.Capabilities.Fitting.{ChildSchema, Closed}

child_in :
    (o : Option Json) (name : Text) (schema : Json)
    → (property_in (object_in o) name ≡ some schema) ↔ (
        (properties : Fields) × (o ≡ some (json_object properties))
        × (get_field name properties ≡ some schema))
child_in none name schema = ((λ h. cc), (λ (p, e, there). cc))
child_in (some json_null) name schema = ((λ h. cc), (λ (p, e, there). cc))
child_in (some (json_boolean b)) name schema = ((λ h. cc), (λ (p, e, there). cc))
child_in (some (json_number m scale)) name schema = ((λ h. cc), (λ (p, e, there). cc))
child_in (some (json_text t)) name schema = ((λ h. cc), (λ (p, e, there). cc))
child_in (some (json_array items)) name schema = ((λ h. cc), (λ (p, e, there). cc))
child_in (some (json_object l)) name schema = (
  (λ h. (l, refl, h)),
  (λ (p, e, there). let same : l ≡ p = cc in ap (get_field name) same ∙ there),
)

pub property-ChildSchema :
    (s : Fields) (name : Text) (schema : Json)
    → (property s name ≡ some schema) ↔ ChildSchema s name schema
property-ChildSchema s name schema = child_in (field_of s (codes "properties")) name schema

false_in-closed : (o : Option Json) → (false_in o ≡ true) ↔ (o ≡ some (json_boolean false))
false_in-closed none = ((λ h. cc), (λ h. cc))
false_in-closed (some json_null) = ((λ h. cc), (λ h. cc))
false_in-closed (some (json_boolean true)) = ((λ h. cc), (λ h. cc))
false_in-closed (some (json_boolean false)) = ((λ h. refl), (λ h. refl))
false_in-closed (some (json_number m scale)) = ((λ h. cc), (λ h. cc))
false_in-closed (some (json_text t)) = ((λ h. cc), (λ h. cc))
false_in-closed (some (json_array items)) = ((λ h. cc), (λ h. cc))
false_in-closed (some (json_object l)) = ((λ h. cc), (λ h. cc))

pub is_closed-Closed : (s : Fields) → (is_closed s ≡ true) ↔ Closed s
is_closed-Closed s = false_in-closed (field_of s (codes "additionalProperties"))

pub no_child :
    (s : Fields) (name : Text)
    → ((schema : Json) → ¬ (ChildSchema s name schema))
    → property s name ≡ none
no_child s name none_ = elim (Option-cases (property s name)) [
  | inl e ↦ e
  | inr (schema, e) ↦ absurd (none_ schema ((property-ChildSchema s name schema).0 e))
]

pub not-Closed :
    (s : Fields) (name : Text)
    → property s name ≡ none
    → (((schema : Json) → ¬ (ChildSchema s name schema)) → ¬ (Closed s))
    → is_closed s ≡ false
not-Closed s name e outside = elim (Bool-cases (is_closed s)) [
  | inl shut ↦ absurd (
      outside
        (λ schema child.
          let there : property s name ≡ some schema =
            (property-ChildSchema s name schema).1 child in
          cc)
        ((is_closed-Closed s).0 shut))
  | inr open_ ↦ open_
]
