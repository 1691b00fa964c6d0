-- ===== src/FirstIds.antt =====
-- src/host/install-code.ts, and the block of first IDs that src/host/in-memory-host-store.ts keeps.
pub mod Blocks
pub mod Issuing
pub mod Distinct
pub mod Codes
mod Tests
use sema_core.Prelude.{
  ℕ, zero, suc, ◌+◌, ◌-◌, ◌*◌, ◌/◌, ◌^◌, Bool, true, false, not, ◌||◌, Option, none, some, List, [],
  ◌∷◌, ◌++◌, Text, codes, text_eq, trim, split, ltb, leb, if◌then◌else◌, Result, ok, err, ◌>>=◌,
  ◌>>◌, refuse_if,
}
use sema_core.Identity.{ℤ, pos, negsuc, encode, decode_base56}
use sema_core.Topology.Types.{Number, whole, not_whole}

-- The messages that these files throw about first IDs.
pub data FirstIdError : Type 0 where
  bad_block not_a_code mistyped_code block_not_used_up : FirstIdError

-- `RESERVED_TOP_LEVEL_LIMIT`
abbrev pub reserved_limit : ℕ
reserved_limit = 56 ^ 5

-- `TOP_LEVEL_BLOCK_SIZE`
abbrev pub block_size : ℕ
block_size = 1000000

-- `TOP_LEVEL_BLOCK_COUNT`
abbrev pub block_count : ℕ
block_count = (reserved_limit + block_size - 1) / block_size

-- The values that a block may give out: from `start` up to, but not including, `end`.
pub record BlockRange : Type 0 where
  pub start : ℕ
  pub end : ℕ

abbrev pub range_of : ℕ → BlockRange
range_of block = record {
  start = if ltb (block * block_size) 2 then 2 else block * block_size;
  end =
      if ltb reserved_limit (block * block_size + block_size)
      then reserved_limit
      else block * block_size + block_size;
}

-- `topLevelBlockRange`. A whole number below the count is a safe integer.
unfoldable pub block_range : Number → Result FirstIdError BlockRange
block_range not_whole = err bad_block
block_range (whole (negsuc n)) = err bad_block
block_range (whole (pos n)) = do refuse_if (leb block_count n) bad_block; ok (range_of n)

-- What the Core holds: the last value given out, and the first one beyond the block.
pub record HeldBlock : Type 0 where
  pub block : Number
  pub issued : ℤ
  pub end : ℕ

-- `value + 1n`
abbrev pub next : ℤ → ℤ
next (pos n) = pos (suc n)
next (negsuc zero) = pos 0
next (negsuc (suc n)) = negsuc n

-- `value - 1n`, for a start that is not negative.
abbrev pub previous : ℕ → ℤ
previous zero = negsuc 0
previous (suc n) = pos n

-- `issued + 1n < end`
abbrev pub is_below : ℤ → ℕ → Bool
is_below (pos n) end = ltb n end
is_below (negsuc n) end = true

abbrev pub has_left : HeldBlock → Bool
has_left held = is_below (next held.issued) held.end

abbrev pub is_in_use : Option HeldBlock → Bool
is_in_use none = false
is_in_use (some held) = has_left held

-- `grantTopLevelBlock`
unfoldable pub grant_block :
    Number → BlockRange → Option HeldBlock → Result FirstIdError (Option HeldBlock)
grant_block block range held = do
  refuse_if (is_in_use held) block_not_used_up
  ok (some (record { block = block; issued = previous range.start; end = range.end }))

-- `issueTopLevelValue`: the value, when there is one, and what is held after it.
unfoldable pub issue_value : Option HeldBlock → Option ℤ × Option HeldBlock
issue_value none = (none, none)
issue_value (some held) =
    if has_left held
    then (some (next held.issued), some (record held { issued = next held.issued }))
    else (none, some held)

abbrev pub dot : ℕ
dot = b'.'

-- `VERSION`
abbrev pub version : Text
version = codes "S1"

-- `BigInt('0x…')` of hexadecimal digits, given by their values.
abbrev hex_value : ℕ → List ℕ → ℕ
hex_value total [] = total
hex_value total (d ∷ ds) = hex_value (total * 16 + d) ds

-- `slice(0, count)`
abbrev first : ℕ → List ℕ → List ℕ
first zero ds = []
first (suc n) [] = []
first (suc n) (d ∷ ds) = d ∷ first n ds

abbrev pub read_parts : List Text → Result FirstIdError (Text × Text)
read_parts (v ∷ id ∷ given ∷ []) = do refuse_if (not (text_eq v version)) not_a_code; ok (id, given)
read_parts _ = err not_a_code

-- `try { … } catch { throw … }`
abbrev pub read_value : Text → Result FirstIdError ℕ
read_value id = elim (decode_base56 id) [ ok value ↦ ok value | err e ↦ err not_a_code ]

-- `sha256` gives the values of the hexadecimal digits of a text's digest.
module _ (sha256 : Text → List ℕ) where
  -- `check`
  unfoldable pub check : Text → Text
  check id = encode (hex_value 0 (first 12 (sha256 (codes "sema-install-code-v1:" ++ id))))

  unfoldable pub format_install_code : Text → Text
  format_install_code id = version ++ dot ∷ id ++ dot ∷ check id

  unfoldable pub parse_install_code : Text → Result FirstIdError Text
  parse_install_code code = do
    (id, given) ← read_parts (split dot (trim code))
    value ← read_value id
    refuse_if (ltb value 1 || leb reserved_limit value || not (text_eq (encode value) id))
        not_a_code
    refuse_if (not (text_eq (check id) given)) mistyped_code
    ok id
