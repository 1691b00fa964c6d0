-- ===== src/Identity.antt =====
-- src/identity/base56.ts: Base56 numbers, InstallationIDs and KeyIDs. A `bigint` is an `ℤ` where a
-- caller may pass a negative one.
pub mod Digits
pub mod Segments
pub mod RoundTrip
pub mod KeyId
mod Tests
use sema_core.Prelude.{
  ℕ, zero, suc, ◌+◌, ◌-◌, ◌*◌, ◌/◌, ◌%◌, Bool, true, false, not, ◌&&◌, ◌||◌, Option, none, some,
  List, [], ◌∷◌, ◌++◌, Text, codes, is_empty, elem, trim, split, join, get_or, length, any, all,
  ltb, leb, ◌==◌, if◌then◌else◌, Result, ok, err, ◌>>=◌, ◌>>◌, refuse_if, get_or_else,
}

pub data ℤ : Type 0 where
  pos : ℕ → ℤ
  negsuc : ℕ → ℤ

-- The messages that this file throws.
pub data IdentityError : Type 0 where
  empty_value invalid_character not_canonical negative_value : IdentityError
  empty_segment zero_segment zero_local_id incomplete_key_id bad_type_code : IdentityError

abbrev pub alphabet : Text
alphabet = codes "234567890ABCDEFGHJKLMNPQRSTUVWXYZabcdefghjkmnpqrstuvwxyz"

abbrev pub base : ℕ
base = length alphabet

-- `SEMA_BASE56_ALPHABET.includes(character)`
unfoldable pub in_alphabet : ℕ → Bool
in_alphabet c = elem c alphabet

-- `SEMA_BASE56_ALPHABET[index]`
unfoldable pub symbol : ℕ → ℕ
symbol index = get_or alphabet index 0

abbrev position : ℕ → Text → ℕ → ℕ
position i [] c = 0
position i (a ∷ more) c = let rest = position (suc i) more c in if a == c then i else rest

-- `SEMA_BASE56_ALPHABET.indexOf(character)`, for a character that is there.
unfoldable pub index_of : ℕ → ℕ
index_of c = position 0 alphabet c

pub record KeyIdParts : Type 0 where
  pub installation_id : Text
  pub local_id : Text
  pub local_value : ℕ

abbrev starts_with_zero : Text → Bool
starts_with_zero [] = false
starts_with_zero (c ∷ s) = c == symbol 0

unfoldable pub assert_segment : Text → Result IdentityError (Unit {0})
assert_segment value = do
  refuse_if (is_empty value) empty_value
  refuse_if (any (λ c. not (in_alphabet c)) value) invalid_character
  refuse_if (ltb 1 (length value) && starts_with_zero value) not_canonical

-- The loop of `encodeBase56`. Every round divides `remaining`, so `remaining` rounds are enough.
unfoldable pub encode_loop : ℕ → ℕ → Text → Text
encode_loop zero remaining encoded = encoded
encode_loop (suc rounds) remaining encoded =
    let rest = encode_loop rounds (remaining / base) (symbol (remaining % base) ∷ encoded) in
    if remaining == 0 then encoded else rest

-- `encodeBase56` of a value that is not negative, such as a counter.
unfoldable pub encode : ℕ → Text
unfolding encode_loop
encode value = if value == 0 then symbol 0 ∷ [] else encode_loop value value []

unfoldable pub encode_base56 : ℤ → Result IdentityError Text
encode_base56 (negsuc n) = err negative_value
encode_base56 (pos n) = ok (encode n)

-- The `reduce` of `decodeBase56`.
unfoldable pub total_of : ℕ → Text → ℕ
total_of total [] = total
total_of total (c ∷ s) = total_of (total * base + index_of c) s

unfoldable pub decode_base56 : Text → Result IdentityError ℕ
decode_base56 value = do assert_segment value; ok (total_of 0 value)

abbrev pub hyphen : ℕ
hyphen = b'-'

-- The loop over the segments of an InstallationID.
unfoldable pub check_segments : List Text → Result IdentityError (Unit {0})
check_segments [] = ok tt
check_segments (segment ∷ rest) = do
  assert_segment segment
  value ← decode_base56 segment
  refuse_if (value == 0) zero_segment
  check_segments rest

unfoldable pub parse_installation_id : Text → Result IdentityError Text
parse_installation_id value = do
  let installation_id = trim value
  let segments = split hyphen installation_id
  refuse_if (is_empty installation_id || any is_empty segments) empty_segment
  check_segments segments
  ok installation_id

abbrev below_one : ℤ → Bool
below_one (negsuc n) = true
below_one (pos n) = ltb n 1

unfoldable pub format_key_id : Text → ℤ → Result IdentityError Text
format_key_id installation_id local_value = do
  refuse_if (below_one local_value) zero_local_id
  parent ← parse_installation_id installation_id
  own ← encode_base56 local_value
  ok (parent ++ hyphen ∷ own)

-- `segments.at(-1)` and `segments.slice(0, -1)`, of a list that is not empty.
abbrev pub last_of : List Text → Text
last_of [] = []
last_of (s ∷ []) = s
last_of (s ∷ t ∷ r) = last_of (t ∷ r)

abbrev pub but_last : List Text → List Text
but_last [] = []
but_last (s ∷ []) = []
but_last (s ∷ t ∷ r) = s ∷ but_last (t ∷ r)

unfoldable pub parse_key_id : Text → Result IdentityError KeyIdParts
parse_key_id value = do
  let segments = split hyphen (trim value)
  refuse_if (ltb (length segments) 2 || any is_empty segments) incomplete_key_id
  let local_id = last_of segments
  local_value ← decode_base56 local_id
  refuse_if (local_value == 0) zero_local_id
  installation_id ← parse_installation_id (join hyphen (but_last segments))
  ok (record { installation_id = installation_id; local_id = local_id; local_value = local_value })

-- `toUpperCase`. Beyond ASCII it shows the characters whose capitals are ASCII; each other one has
-- capitals that are not, and it stands for them, since every use refuses both.
unfoldable pub to_upper : ℕ → Text
to_upper c =
    if leb b'a' c && leb c b'z'
    then (c - 32) ∷ []
    else if c == 0xdf
    then codes "SS"
    else if c == 0x131
    then codes "I"
    else if c == 0x17f
    then codes "S"
    else if c == 0xfb00
    then codes "FF"
    else if c == 0xfb01
    then codes "FI"
    else if c == 0xfb02
    then codes "FL"
    else if c == 0xfb03
    then codes "FFI"
    else if c == 0xfb04
    then codes "FFL"
    else if c == 0xfb05 || c == 0xfb06
    then codes "ST"
    else c ∷ []

abbrev upper_text : Text → Text
upper_text [] = []
upper_text (c ∷ s) = to_upper c ++ upper_text s

abbrev is_capital : ℕ → Bool
is_capital c = leb b'A' c && leb c b'Z'

abbrev in_type_code : ℕ → Bool
in_type_code c = is_capital c || (leb b'0' c && leb c b'9') || c == b'_' || c == b'-'

-- `/^[A-Z][A-Z0-9_-]{0,31}$/`
unfoldable pub is_type_code : Text → Bool
is_type_code [] = false
is_type_code (c ∷ s) = is_capital c && all in_type_code s && leb (length s) 31

unfoldable pub normalize_type_code : Text → Result IdentityError Text
unfolding to_upper is_type_code trim
normalize_type_code value = do
  let type_code = upper_text (trim value)
  refuse_if (not (is_type_code type_code)) bad_type_code
  ok type_code
