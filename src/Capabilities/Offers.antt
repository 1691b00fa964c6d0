-- ===== src/Capabilities/Offers.antt =====
-- offersOf of src/capabilities/registry.ts: the settings that a running copy offers.
use sema_core.Prelude.{
  ℕ, ◌*◌, ◌^◌, Bool, true, false, not, ◌&&◌, ◌||◌, Option, none, some, List, [], ◌∷◌, Text, codes,
  is_empty, trim, length, all, ltb, leb, map, ◌==◌, ok, err, ◌>>=◌, ◌>>◌, refuse_if,
}
use sema_core.Identity.{ℤ, pos, negsuc}
use sema_core.Core.Types.{Json, json_number, json_text, json_object, Fields}
use sema_core.Capabilities.Values.{
  Checked, bad_offers, get_field, fields_of, object_of, array_of, includes, repeats, is_lower,
  is_digit,
}

-- The decimal `mantissa / 10 ^ scale`.
pub record Decimal : Type 0 where
  pub mantissa : ℤ
  pub scale : ℕ

pub record Choice : Type 0 where
  pub value : Text
  pub label : Text
  pub input_per_million : Option Decimal
  pub output_per_million : Option Decimal
  pub currency : Option Text
  pub note : Option Text

pub record Setting : Type 0 where
  pub label : Text
  pub default : Option Text
  pub choices : List Choice

abbrev pub Offers : Type 0
Offers = List (Text × Setting)

-- `SETTING`
unfoldable pub is_setting_name : Text → Bool
is_setting_name [] = false
is_setting_name (c ∷ s) =
    is_lower c && all (λ d. is_lower d || is_digit d || d == b'-') s && leb (length s) 39

-- `value < 0 || value > 1_000_000`
abbrev out_of_range : ℤ → ℕ → Bool
out_of_range (negsuc n) scale = true
out_of_range (pos n) scale = ltb (1000000 * 10 ^ scale) n

unfoldable pub price : Option Json → Checked (Option Decimal)
price none = ok none
price (some (json_number mantissa scale)) = do
  refuse_if (out_of_range mantissa scale) bad_offers
  ok (some (record { mantissa = mantissa; scale = scale }))
price (some _) = err bad_offers

abbrev short_within : ℕ → Text → Checked Text
short_within max value = do
  refuse_if (is_empty (trim value) || ltb max (length value)) bad_offers
  ok (trim value)

unfoldable pub short : Option Json → ℕ → Checked Text
short (some (json_text value)) max = short_within max value
short _ max = err bad_offers

abbrev short_if_given : Option Json → ℕ → Checked (Option Text)
short_if_given none max = ok none
short_if_given (some value) max = do checked ← short (some value) max; ok (some checked)

-- `choice?.name`
abbrev part : Text → Option Fields → Option Json
part name none = none
part name (some fields) = get_field name fields

unfoldable pub checked_choice : Option Fields → Checked Choice
checked_choice choice = do
  input_price ← price (part (codes "inputPerMillion") choice)
  output_price ← price (part (codes "outputPerMillion") choice)
  value ← short (part (codes "value") choice) 100
  label ← short (part (codes "label") choice) 100
  currency ← short_if_given (part (codes "currency") choice) 10
  note ← short_if_given (part (codes "note") choice) 300
  ok (record {
    value = value;
    label = label;
    input_per_million = input_price;
    output_per_million = output_price;
    currency = currency;
    note = note;
  })

abbrev checked_choices : List Json → Checked (List Choice)
checked_choices [] = ok []
checked_choices (choice ∷ choices) = do
  first ← checked_choice (object_of (some choice))
  rest ← checked_choices choices
  ok (first ∷ rest)

abbrev choices_in : Option (List Json) → Checked (List Choice)
choices_in none = err bad_offers
choices_in (some choices) = do
  refuse_if (leb (length choices) 0 || ltb 50 (length choices)) bad_offers
  checked_choices choices

abbrev is_missing : Option Text → List Text → Bool
is_missing none values = false
is_missing (some value) values = not (includes value values)

abbrev setting_in : Option Fields → Checked Setting
setting_in none = err bad_offers
setting_in (some entry) = do
  choices ← choices_in (array_of (get_field (codes "choices") entry))
  refuse_if (repeats (map (λ (c : Choice). c.value) choices)) bad_offers
  fallback ← short_if_given (get_field (codes "default") entry) 100
  refuse_if (is_missing fallback (map (λ (c : Choice). c.value) choices)) bad_offers
  label ← short (get_field (codes "label") entry) 100
  ok (record { label = label; default = fallback; choices = choices })

unfoldable pub checked_settings : List (Text × Json) → Checked Offers
checked_settings [] = ok []
checked_settings ((name, setting) ∷ rest) = do
  refuse_if (not (is_setting_name name)) bad_offers
  first ← setting_in (object_of (some setting))
  others ← checked_settings rest
  ok ((name, first) ∷ others)

-- `stringify` is `JSON.stringify`; only the length of its text is read.
module _ (stringify : Json → Text) where
  unfoldable pub offers_of : Json → Checked Offers
  offers_of (json_object fields) = do
    refuse_if (ltb 16384 (length (stringify (json_object fields)))) bad_offers
    checked_settings (fields_of fields)
  offers_of _ = err bad_offers
