-- ===== src/Capabilities/Answers.antt =====
-- valueProblems of src/capabilities/schema.ts: where a value does not match a schema. The schema
-- keeps to the subset (Schema.antt); a place is the path whose text the message shows.
use sema_core.Prelude.{
  ℕ, suc, ◌-◌, ◌*◌, ◌^◌, ◌%◌, Bool, true, false, not, ◌&&◌, ◌||◌, Option, none, some, List, [], ◌∷◌,
  ◌++◌, Text, is_some, codes, text_eq, length, any, ltb, leb, ◌==◌, if◌then◌else◌, take,
}
use sema_core.Identity.{ℤ, pos, negsuc}
use sema_core.Core.Types.{
  Json, json_null, json_boolean, json_number, json_text, json_array, json_object, Items, no_items,
  json_item, Fields, no_fields, json_field,
}
use sema_core.Capabilities.Values.{get_field, items_of}
use sema_core.Capabilities.Schema.{types_of}

pub data Place : Type 0 where
  in_field : (name : Text) → Place
  in_item : (index : ℕ) → Place

pub data MismatchKind : Type 0 where
  wrong_type not_in_enum too_short too_long below above too_few too_many missing not_allowed :
      MismatchKind

pub record Mismatch : Type 0 where
  pub at : List Place
  pub kind : MismatchKind

-- `typeOf`
abbrev pub type_of : Json → Text
type_of json_null = codes "null"
type_of (json_boolean b) = codes "boolean"
type_of (json_number m scale) = codes "number"
type_of (json_text t) = codes "string"
type_of (json_array items) = codes "array"
type_of (json_object parts) = codes "object"

abbrev pub magnitude : ℤ → ℕ
magnitude (pos n) = n
magnitude (negsuc n) = suc n

-- `Number.isInteger(v)`
abbrev pub is_integer : Json → Bool
is_integer (json_number m scale) = magnitude m % 10 ^ scale == 0
is_integer _ = false

-- One of the types that a schema names. Every number that JSON has is finite.
abbrev pub has_type : Json → Json → Bool
has_type value (json_text name) =
    text_eq name (type_of value) || (text_eq name (codes "integer") && is_integer value)
has_type value _ = false

-- `m * k`, where `k` is not 0.
abbrev pub scaled : ℤ → ℕ → ℤ
scaled (pos n) k = pos (n * k)
scaled (negsuc n) k = negsuc (suc n * k - 1)

abbrev pub lt_int : ℤ → ℤ → Bool
lt_int (pos m) (pos n) = ltb m n
lt_int (pos m) (negsuc n) = false
lt_int (negsuc m) (pos n) = true
lt_int (negsuc m) (negsuc n) = ltb n m

-- `a / 10 ^ s < b / 10 ^ t`
abbrev pub is_less : ℤ → ℕ → ℤ → ℕ → Bool
is_less a s b t = lt_int (scaled a (10 ^ t)) (scaled b (10 ^ s))

-- `typeof bound === 'number' && n < bound`, and the other way round.
abbrev pub is_under : ℤ → ℕ → Option Json → Bool
is_under a s (some (json_number b t)) = is_less a s b t
is_under a s _ = false

abbrev pub is_over : ℤ → ℕ → Option Json → Bool
is_over a s (some (json_number b t)) = is_less b t a s
is_over a s _ = false

abbrev pub is_leading : ℕ → Bool
is_leading c = leb 55296 c && leb c 56319

abbrev pub is_trailing : ℕ → Bool
is_trailing c = leb 56320 c && leb c 57343

-- `[...value].length`: the two halves of a pair count once.
unfoldable pub characters : Text → ℕ
characters [] = 0
characters (c ∷ []) = 1
characters (c ∷ d ∷ rest) =
    let pair = characters rest in
    let one = characters (d ∷ rest) in if is_leading c && is_trailing d then suc pair else suc one

abbrev pub when_ : Bool → List Place → MismatchKind → List Mismatch
when_ false at kind = []
when_ true at kind = record { at = at; kind = kind } ∷ []

abbrev pub field_of : Fields → Text → Option Json
field_of s name = get_field name s

abbrev pub array_in : Option Json → List Json
array_in (some (json_array items)) = items_of items
array_in _ = []

abbrev pub object_in : Option Json → Option Fields
object_in (some (json_object fields)) = some fields
object_in _ = none

-- A schema among the properties.
abbrev pub schema_of : Json → Fields
schema_of (json_object fields) = fields
schema_of _ = no_fields

abbrev pub fits_in : Json → Option Json → Bool
fits_in value none = true
fits_in value (some types) = any (has_type value) (types_of types)

-- `fits`, true when the schema names no type.
abbrev pub fits : Fields → Json → Bool
fits s value = fits_in value (field_of s (codes "type"))

abbrev pub property_in : Option Fields → Text → Option Json
property_in none name = none
property_in (some properties) name = get_field name properties

abbrev pub property : Fields → Text → Option Json
property s name = property_in (object_in (field_of s (codes "properties"))) name

abbrev pub false_in : Option Json → Bool
false_in (some (json_boolean false)) = true
false_in _ = false

abbrev pub is_closed : Fields → Bool
is_closed s = false_in (field_of s (codes "additionalProperties"))

abbrev pub has_field : Fields → Text → Bool
has_field parts name = is_some (get_field name parts)

abbrev pub missing_name : Fields → List Place → Json → List Mismatch
missing_name parts at (json_text name) =
    when_ (not (has_field parts name)) (at ++ in_field name ∷ []) missing
missing_name parts at _ = []

-- The names that a schema requires and a value has not.
unfoldable pub missing_in : Fields → List Place → List Json → List Mismatch
missing_in parts at [] = []
missing_in parts at (name ∷ names) = missing_name parts at name ++ missing_in parts at names

-- `stringify` is `JSON.stringify`.
module _ (stringify : Json → Text) where
  abbrev same : Json → Json → Bool
  same value allowed = text_eq (stringify allowed) (stringify value)

  abbrev pub enum_in : Json → Option Json → Bool
  enum_in value none = true
  enum_in value (some allowed) = any (same value) (array_in (some allowed))

  abbrev pub in_enum : Fields → Json → Bool
  in_enum s value = enum_in value (field_of s (codes "enum"))

  abbrev pub bounds : Fields → Json → List Place → List Mismatch
  bounds s (json_text t) at =
      when_ (is_under (pos (characters t)) 0 (field_of s (codes "minLength"))) at too_short
      ++ when_ (is_over (pos (characters t)) 0 (field_of s (codes "maxLength"))) at too_long
  bounds s (json_number m scale) at =
      when_ (is_under m scale (field_of s (codes "minimum"))) at below
      ++ when_ (is_over m scale (field_of s (codes "maximum"))) at above
  bounds s (json_array items) at =
      when_ (is_under (pos (length (items_of items))) 0 (field_of s (codes "minItems"))) at too_few
      ++ when_ (is_over (pos (length (items_of items))) 0 (field_of s (codes "maxItems"))) at
          too_many
  bounds s (json_object parts) at = missing_in parts at (array_in (field_of s (codes "required")))
  bounds s _ at = []

  -- What is wrong with the value itself, the values in it aside.
  abbrev pub own : Fields → Json → List Place → List Mismatch
  own s value at = when_ (not (in_enum s value)) at not_in_enum ++ bounds s value at

  -- `check` stops at 20 problems, and at a type that does not fit.
  abbrev pub guarded : List Mismatch → Fields → Json → List Place → List Mismatch → List Mismatch
  guarded found s value at deep =
      if leb 20 (length found)
      then found
      else if fits s value
      then deep
      else found ++ record { at = at; kind = wrong_type } ∷ []

  abbrev pub closed : Fields → List Place → Text → List Mismatch
  closed s at name = when_ (is_closed s) (at ++ in_field name ∷ []) not_allowed

  -- `check`. The problems found so far are passed on.
  unfoldable mutual
    pub check : Json → Fields → List Place → List Mismatch → List Mismatch
    check (json_array items) s at found =
        let deep =
          check_items items (object_in (field_of s (codes "items"))) at 0
            (found ++ own s (json_array items) at) in
        guarded found s (json_array items) at deep
    check (json_object parts) s at found =
        let deep = check_fields parts s at (found ++ own s (json_object parts) at) in
        guarded found s (json_object parts) at deep
    check value s at found = guarded found s value at (found ++ own s value at)

    pub check_items : Items → Option Fields → List Place → ℕ → List Mismatch → List Mismatch
    check_items no_items schema at index found = found
    check_items (json_item value rest) none at index found = found
    check_items (json_item value rest) (some s) at index found =
        check_items rest (some s) at (suc index) (check value s (at ++ in_item index ∷ []) found)

    pub check_fields : Fields → Fields → List Place → List Mismatch → List Mismatch
    check_fields no_fields s at found = found
    check_fields (json_field name value rest) s at found =
        check_fields rest s at (elim (property s name) [
          | some schema ↦ check value (schema_of schema) (at ++ in_field name ∷ []) found
          | none ↦ found ++ closed s at name
        ])

  -- `valueProblems`
  unfoldable pub value_problems : Fields → Json → List Mismatch
  value_problems s value = take 20 (check value s [] [])
