-- ===== src/Capabilities/Fitting.antt =====
-- What it means that a value suits a schema of src/capabilities/schema.ts, the values in it aside,
-- said without the tests of the checker.
use sema_core.Prelude.{
  ℕ, suc, ◌*◌, ◌^◌, ◌≤◌, ◌≡◌, ◌⊎◌, false, Option, none, some, List, [], ◌∷◌, Text, codes, length,
}
use sema_core.Identity.{ℤ, pos, negsuc}
use sema_core.Core.Types.{
  Json, json_null, json_boolean, json_number, json_text, json_array, json_object, Fields, no_fields,
  json_field,
}
use sema_core.Capabilities.Values.{items_of, get_field}
use sema_core.Capabilities.Answers.{field_of, magnitude}
use sema_core.Capabilities.Lengths.{IsLong}

abbrev pub IsAmong : Json → List Json → Type 0
IsAmong j [] = ⊥
IsAmong j (k ∷ ks) = (k ≡ j) ⊎ IsAmong j ks

-- `m / 10 ^ scale` is whole.
abbrev pub IsWhole : ℤ → ℕ → Type 0
IsWhole m scale = (q : ℕ) × (magnitude m ≡ q * 10 ^ scale)

-- The JSON types, and `integer`, which is a number that is whole.
abbrev pub IsOfType : Text → Json → Type 0
IsOfType name json_null = name ≡ codes "null"
IsOfType name (json_boolean b) = name ≡ codes "boolean"
IsOfType name (json_number m scale) =
    (name ≡ codes "number") ⊎ ((name ≡ codes "integer") × IsWhole m scale)
IsOfType name (json_text t) = name ≡ codes "string"
IsOfType name (json_array items) = name ≡ codes "array"
IsOfType name (json_object parts) = name ≡ codes "object"

-- One type, or a list of them.
abbrev pub TypeNamed : Json → Text → Type 0
TypeNamed (json_text t) name = t ≡ name
TypeNamed (json_array items) name = IsAmong (json_text name) (items_of items)
TypeNamed _ name = ⊥

-- A schema that names no type takes every value.
abbrev pub Typed : Option Json → Json → Type 0
Typed none value = Unit
Typed (some types) value = (name : Text) × TypeNamed types name × IsOfType name value

-- `a / 10 ^ s ≤ b / 10 ^ t`
abbrev pub AtMost : ℤ → ℕ → ℤ → ℕ → Type 0
AtMost (pos a) s (pos b) t = a * 10 ^ t ≤ b * 10 ^ s
AtMost (pos a) s (negsuc b) t = ⊥
AtMost (negsuc a) s (pos b) t = Unit
AtMost (negsuc a) s (negsuc b) t = suc b * 10 ^ s ≤ suc a * 10 ^ t

-- A bound that is not a number bounds nothing.
abbrev pub NotUnder : ℤ → ℕ → Option Json → Type 0
NotUnder a s (some (json_number b t)) = AtMost b t a s
NotUnder a s _ = Unit

abbrev pub NotOver : ℤ → ℕ → Option Json → Type 0
NotOver a s (some (json_number b t)) = AtMost a s b t
NotOver a s _ = Unit

abbrev pub HasName : Text → Fields → Type 0
HasName name no_fields = ⊥
HasName name (json_field key value rest) = (key ≡ name) ⊎ HasName name rest

-- One of a list of values, which are the same where their texts are.
abbrev pub Listed : (stringify : Json → Text) → Option Json → Json → Type 0
Listed stringify none value = Unit
Listed stringify (some (json_array items)) value =
    (allowed : Json) × IsAmong allowed (items_of items) × (stringify allowed ≡ stringify value)
Listed stringify (some _) value = ⊥

-- Every text among the required is a name of the value.
abbrev pub NoneMissing : Option Json → Fields → Type 0
NoneMissing (some (json_array names)) parts =
    (name : Text) → IsAmong (json_text name) (items_of names) → HasName name parts
NoneMissing _ parts = Unit

-- The lengths, amounts and names of the value itself.
abbrev pub Within : Fields → Json → Type 0
Within s (json_text t) =
    (n : ℕ) × IsLong t n
    × NotUnder (pos n) 0 (field_of s (codes "minLength"))
    × NotOver (pos n) 0 (field_of s (codes "maxLength"))
Within s (json_number m scale) =
    NotUnder m scale (field_of s (codes "minimum")) × NotOver m scale (field_of s (codes "maximum"))
Within s (json_array items) =
    NotUnder (pos (length (items_of items))) 0 (field_of s (codes "minItems"))
    × NotOver (pos (length (items_of items))) 0 (field_of s (codes "maxItems"))
Within s (json_object parts) = NoneMissing (field_of s (codes "required")) parts
Within s _ = Unit

abbrev pub Suits : (stringify : Json → Text) → Fields → Json → Type 0
Suits stringify s value =
    Typed (field_of s (codes "type")) value
    × Listed stringify (field_of s (codes "enum")) value
    × Within s value

-- The schema that a schema gives for the field of a name.
abbrev pub ChildSchema : Fields → Text → Json → Type 0
ChildSchema s name schema =
    (properties : Fields) × (field_of s (codes "properties") ≡ some (json_object properties))
    × (get_field name properties ≡ some schema)

-- A schema that allows no field but those it names.
abbrev pub Closed : Fields → Type 0
Closed s = field_of s (codes "additionalProperties") ≡ some (json_boolean false)
