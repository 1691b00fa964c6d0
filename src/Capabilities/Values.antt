-- ===== src/Capabilities/Values.antt =====
-- The checks on single values in src/capabilities/registry.ts. A value that a caller gives is
-- `none` where the source reads `undefined`.
use sema_core.Prelude.{
  ℕ, Bool, true, false, not, ◌&&◌, ◌||◌, Option, none, some, List, [], ◌∷◌, Text, codes, text_eq,
  is_empty, starts_with, trim, split, length, all, any, ltb, leb, ◌==◌, if◌then◌else◌, Result, ok,
  err, ◌>>=◌, ◌>>◌, refuse_if,
}
use sema_core.Core.Types.{
  Json, json_boolean, json_text, json_array, json_object, Items, no_items, json_item, Fields,
  no_fields, json_field, CoreError,
}

-- The messages of CapabilityRecordError, and the other errors that pass through.
pub data RecordError : Type 0 where
  not_text too_long bad_key : (name : Text) → RecordError
  bad_version reserved_name : RecordError
  bad_operation_list bad_operation repeated_operation no_required_operation : RecordError
  bad_choosing repeated_choosing bad_declarations bad_needs bad_resources bad_offers : RecordError
  bad_schema : RecordError
  already_published not_registered not_active no_contract missing_operation : RecordError
  already_installed not_installed bad_capacity not_here stopped : RecordError
  exists_already : (what : Text) → RecordError
  core_error : CoreError → RecordError

abbrev pub Checked {ℓ} : Type ℓ → Type ℓ
Checked A = Result RecordError A

-- `Object.hasOwn(object, name)` and `object[name]`: `none` for a name that is not there.
unfoldable pub get_field : Text → Fields → Option Json
get_field name no_fields = none
get_field name (json_field key value rest) =
    let later = get_field name rest in if text_eq key name then some value else later

abbrev pub items_of : Items → List Json
items_of no_items = []
items_of (json_item value rest) = value ∷ items_of rest

abbrev pub fields_of : Fields → List (Text × Json)
fields_of no_fields = []
fields_of (json_field key value rest) = (key, value) ∷ fields_of rest

abbrev pub object_of : Option Json → Option Fields
object_of (some (json_object fields)) = some fields
object_of _ = none

abbrev pub array_of : Option Json → Option (List Json)
array_of (some (json_array items)) = some (items_of items)
array_of _ = none

abbrev pub text_of : Option Json → Option Text
text_of (some (json_text value)) = some value
text_of _ = none

abbrev pub boolean_of : Option Json → Option Bool
boolean_of (some (json_boolean value)) = some value
boolean_of _ = none

-- `text(value, name, max)`
abbrev text_within : Text → ℕ → Text → Checked Text
text_within name max value = do
  refuse_if (is_empty (trim value)) (not_text name)
  refuse_if (ltb max (length (trim value))) (too_long name)
  ok (trim value)

unfoldable pub checked_text : Option Json → Text → ℕ → Checked Text
checked_text (some (json_text value)) name max = text_within name max value
checked_text _ name max = err (not_text name)

abbrev pub is_lower : ℕ → Bool
is_lower c = leb b'a' c && leb c b'z'

abbrev pub is_digit : ℕ → Bool
is_digit c = leb b'0' c && leb c b'9'

abbrev pub is_upper : ℕ → Bool
is_upper c = leb b'A' c && leb c b'Z'

-- `[a-z0-9]+`
abbrev is_word : Text → Bool
is_word word = not (is_empty word) && all (λ c. is_lower c || is_digit c) word

-- Words joined by hyphens.
abbrev is_name : Text → Bool
is_name part = all is_word (split b'-' part)

-- `KEY`: at least two names, joined by dots.
unfoldable pub is_key : Text → Bool
is_key value = leb 2 (length (split b'.' value)) && all is_name (split b'.' value)

unfoldable pub checked_key : Option Json → Text → Checked Text
checked_key value name = do
  checked ← checked_text value name 120
  refuse_if (not (is_key checked)) (bad_key name)
  ok checked

-- The text before the first hyphen, and what follows it.
abbrev cut_hyphen : Text → Text × Option Text
cut_hyphen [] = ([], none)
cut_hyphen (c ∷ s) =
    let rest = cut_hyphen s in if c == b'-' then ([], some s) else (c ∷ rest.0, rest.1)

abbrev is_number : Text → Bool
is_number part = not (is_empty part) && all is_digit part

abbrev is_tail : Option Text → Bool
is_tail none = true
is_tail (some tail) =
    not (is_empty tail)
    && all (λ c. is_digit c || is_upper c || is_lower c || c == b'.' || c == b'-') tail

-- `VERSION`: three numbers joined by dots, and what may follow a hyphen.
unfoldable pub is_version : Text → Bool
is_version value =
    length (split b'.' (cut_hyphen value).0) == 3
    && all is_number (split b'.' (cut_hyphen value).0)
    && is_tail (cut_hyphen value).1

unfoldable pub checked_version : Option Json → Checked Text
checked_version value = do
  checked ← checked_text value (codes "version") 40
  refuse_if (not (is_version checked)) bad_version
  ok checked

-- `OPERATION`
unfoldable pub is_operation_key : Text → Bool
is_operation_key [] = false
is_operation_key (c ∷ s) = is_lower c && all (λ d. is_lower d || is_digit d || d == b'-') s

-- `isReservedKey`
unfoldable pub is_reserved_key : Text → Bool
is_reserved_key value = text_eq value (codes "sema") || starts_with value (codes "sema.")

-- `list.includes(name)`
unfoldable pub includes : Text → List Text → Bool
includes name names = any (text_eq name) names

-- `new Set(names).size !== names.length`
unfoldable pub repeats : List Text → Bool
repeats [] = false
repeats (name ∷ names) = includes name names || repeats names
