-- ===== src/Identity/Tests.antt =====
-- Runs of the identity functions, and instances of their theorems.
use sema_core.Prelude.{◌≡◌, refl, Text, codes, ok, err, trim, split, join}
use sema_core.Identity.{
  pos, negsuc, encode, decode_base56, encode_base56, format_key_id, parse_key_id,
  normalize_type_code, parse_installation_id, symbol, index_of, in_alphabet, assert_segment,
  total_of, check_segments, not_canonical, invalid_character, zero_segment, zero_local_id,
  negative_value, bad_type_code,
}
use sema_core.Identity.RoundTrip.{decode-encode, encode-decode}
use sema_core.Identity.KeyId.{parse-format, format-parse}

runs : Unit {0}
unfolding encode decode_base56 encode_base56 format_key_id parse_key_id normalize_type_code
    parse_installation_id symbol index_of in_alphabet assert_segment total_of check_segments trim
    split join
runs = tt

encode_tests :
    (encode 0 ≡ codes "2")
    × (encode 55 ≡ codes "z")
    × (encode 56 ≡ codes "32")
    × (encode 550731775 ≡ codes "zzzzz")
unfolding runs
encode_tests = (refl, refl, refl, refl)

decode_tests :
    (decode_base56 (codes "32") ≡ ok 56)
    × (decode_base56 (codes "23") ≡ err not_canonical)
    × (decode_base56 (codes "1") ≡ err invalid_character)
    × (encode_base56 (negsuc 0) ≡ err negative_value)
unfolding runs
decode_tests = (refl, refl, refl, refl)

key_tests :
    (format_key_id (codes " 3-4 ") (pos 56) ≡ ok (codes "3-4-32"))
    × (format_key_id (codes "3-2") (pos 1) ≡ err zero_segment)
    × (format_key_id (codes "3") (pos 0) ≡ err zero_local_id)
    × (parse_key_id (codes "3-4-32")
        ≡ ok (record { installation_id = codes "3-4"; local_id = codes "32"; local_value = 56 }))
unfolding runs
key_tests = (refl, refl, refl, refl)

-- Spaces before the last hyphen are trimmed off with the InstallationID.
spaced_key_id : parse_key_id (codes "3 -4") ≡ parse_key_id (codes "3-4")
unfolding runs
spaced_key_id = refl

type_code_tests :
    (normalize_type_code (codes " command ") ≡ ok (codes "COMMAND"))
    × (normalize_type_code (codes "2x") ≡ err bad_type_code)
unfolding runs
type_code_tests = (refl, refl)

decode-encode_example : decode_base56 (encode 56) ≡ ok 56
decode-encode_example = decode-encode 56

encode-decode_example : encode 56 ≡ codes "32"
encode-decode_example = encode-decode (codes "32") 56 decode_tests.0

abbrev three_four : Text
three_four = codes "3-4"

parse-format_example :
    parse_key_id (codes "3-4-32")
    ≡ ok (record { installation_id = trim (codes " 3-4 "); local_id = encode 56; local_value = 56 })
parse-format_example = parse-format (codes " 3-4 ") (codes "3-4-32") 56 key_tests.0

format-parse_example :
    (k : Text) × (format_key_id (codes "3-4") (pos 56) ≡ ok k)
    × (parse_key_id k
        ≡ ok (record { installation_id = codes "3-4"; local_id = codes "32"; local_value = 56 }))
format-parse_example = format-parse (codes "3-4-32") _ key_tests.3
