-- ===== src/Capabilities/Schema.antt =====
-- src/capabilities/schema.ts: which schemas keep to the supported subset.
use sema_core.Prelude.{
  ℕ, suc, ◌*◌, ◌^◌, ◌%◌, Bool, true, false, ◌&&◌, Option, none, some, List, [], ◌∷◌, ◌++◌, Text,
  codes, text_eq, all, ltb, ◌==◌, if◌then◌else◌,
}
use sema_core.Identity.{pos, negsuc}
use sema_core.Core.Types.{
  Json, json_boolean, json_number, json_text, json_array, json_object, Fields, no_fields,
  json_field,
}
use sema_core.Capabilities.Values.{get_field, items_of, includes}

pub data ProblemKind : Type 0 where
  too_deep not_an_object unsupported_keyword bad_type bad_required bad_properties : ProblemKind
  bad_additional not_a_count not_a_number bad_enum not_text : ProblemKind

-- Where a schema is wrong, and what is wrong there.
pub record Problem : Type 0 where
  pub at : Text
  pub kind : ProblemKind

-- `SCHEMA_KEYWORDS`
abbrev pub keywords : List Text
keywords =
    codes "type"
    ∷ codes "required"
    ∷ codes "properties"
    ∷ codes "additionalProperties"
    ∷ codes "items"
    ∷ codes "minLength"
    ∷ codes "maxLength"
    ∷ codes "minItems"
    ∷ codes "maxItems"
    ∷ codes "minimum"
    ∷ codes "maximum"
    ∷ codes "enum"
    ∷ codes "description"
    ∷ codes "title"
    ∷ codes "format"
    ∷ []

-- `TYPES`
abbrev pub type_names : List Text
type_names =
    codes "object"
    ∷ codes "array"
    ∷ codes "string"
    ∷ codes "number"
    ∷ codes "integer"
    ∷ codes "boolean"
    ∷ codes "null"
    ∷ []

-- `MAX_DEPTH`
abbrev pub max_depth : ℕ
max_depth = 32

abbrev pub is_text : Json → Bool
is_text (json_text _) = true
is_text _ = false

abbrev pub is_type_name : Json → Bool
is_type_name (json_text t) = includes t type_names
is_type_name _ = false

abbrev pub is_filled : List Json → Bool
is_filled [] = false
is_filled (j ∷ js) = true

-- `types`: a list, or the one value.
abbrev pub types_of : Json → List Json
types_of (json_array items) = items_of items
types_of value = value ∷ []

abbrev good_type : Json → Bool
good_type value = is_filled (types_of value) && all is_type_name (types_of value)

abbrev good_required : Json → Bool
good_required (json_array items) = all is_text (items_of items)
good_required _ = false

abbrev is_object : Json → Bool
is_object (json_object _) = true
is_object _ = false

abbrev good_additional : Json → Bool
good_additional (json_boolean false) = true
good_additional _ = false

-- `Number.isSafeInteger(value) && value >= 0`
abbrev pub is_count : Json → Bool
is_count (json_number (pos n) scale) = n % 10 ^ scale == 0 && ltb n (2 ^ 53 * 10 ^ scale)
is_count (json_number (negsuc n) scale) = false
is_count _ = false

abbrev pub is_number : Json → Bool
is_number (json_number _ _) = true
is_number _ = false

abbrev good_enum : Json → Bool
good_enum (json_array items) = is_filled (items_of items)
good_enum _ = false

abbrev passes : (Json → Bool) → Option Json → Bool
passes test none = true
passes test (some value) = test value

-- The test on the value of one keyword, when the schema has it.
abbrev keyword_problem : (Json → Bool) → ProblemKind → Text → Text → Fields → List Problem
keyword_problem test kind where_ keyword fields =
    if passes test (get_field keyword fields)
    then []
    else record { at = where_ ++ b'.' ∷ keyword; kind = kind } ∷ []

unfoldable pub unsupported : Text → Fields → List Problem
unsupported where_ no_fields = []
unsupported where_ (json_field key value rest) =
    let later = unsupported where_ rest in
    if includes key keywords
    then later
    else record { at = where_; kind = unsupported_keyword } ∷ later

abbrev before_children : Text → Fields → List Problem
before_children where_ fields =
    unsupported where_ fields
    ++ keyword_problem good_type bad_type where_ (codes "type") fields
    ++ keyword_problem good_required bad_required where_ (codes "required") fields
    ++ keyword_problem is_object bad_properties where_ (codes "properties") fields

abbrev after_items : Text → Fields → List Problem
after_items where_ fields =
    keyword_problem is_count not_a_count where_ (codes "minLength") fields
    ++ keyword_problem is_count not_a_count where_ (codes "maxLength") fields
    ++ keyword_problem is_count not_a_count where_ (codes "minItems") fields
    ++ keyword_problem is_count not_a_count where_ (codes "maxItems") fields
    ++ keyword_problem is_number not_a_number where_ (codes "minimum") fields
    ++ keyword_problem is_number not_a_number where_ (codes "maximum") fields
    ++ keyword_problem good_enum bad_enum where_ (codes "enum") fields
    ++ keyword_problem is_text not_text where_ (codes "description") fields
    ++ keyword_problem is_text not_text where_ (codes "title") fields
    ++ keyword_problem is_text not_text where_ (codes "format") fields

-- `schemaProblems`. The schemas inside are those under `properties` and the one under `items`.
unfoldable mutual
  pub schema_problems : Json → Text → ℕ → List Problem
  schema_problems (json_object fields) where_ depth =
      let properties = properties_problems fields (where_ ++ codes ".properties") depth in
      let items = items_problems fields (where_ ++ codes ".items") depth in
      if ltb max_depth depth
      then record { at = where_; kind = too_deep } ∷ []
      else before_children where_ fields
        ++ properties
        ++ keyword_problem good_additional bad_additional where_ (codes "additionalProperties")
            fields
        ++ items
        ++ after_items where_ fields
  schema_problems _ where_ depth =
      record { at = where_; kind = if ltb max_depth depth then too_deep else not_an_object } ∷ []

  -- The schemas under the first `properties`.
  pub properties_problems : Fields → Text → ℕ → List Problem
  properties_problems no_fields where_ depth = []
  properties_problems (json_field key value rest) where_ depth =
      let here = children_problems value where_ depth in
      let later = properties_problems rest where_ depth in
      if text_eq key (codes "properties") then here else later

  pub children_problems : Json → Text → ℕ → List Problem
  children_problems (json_object fields) where_ depth = each_problems fields where_ depth
  children_problems _ where_ depth = []

  pub each_problems : Fields → Text → ℕ → List Problem
  each_problems no_fields where_ depth = []
  each_problems (json_field key value rest) where_ depth =
      schema_problems value (where_ ++ b'.' ∷ key) (suc depth) ++ each_problems rest where_ depth

  -- The schema under the first `items`.
  pub items_problems : Fields → Text → ℕ → List Problem
  items_problems no_fields where_ depth = []
  items_problems (json_field key value rest) where_ depth =
      let here = schema_problems value where_ (suc depth) in
      let later = items_problems rest where_ depth in
      if text_eq key (codes "items") then here else later
