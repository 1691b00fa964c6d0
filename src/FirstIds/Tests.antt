-- ===== src/FirstIds/Tests.antt =====
-- Runs of the first IDs, and instances of the theorems about them.
use Prim.Native.Nat.{◌<◌, ◌≤◌}
use sema_core.Prelude.{
  ℕ, ◌≡◌, ◌≢◌, refl, arith, ok, List, [], ◌∷◌, Text, none, All, AllDistinct, trim, codes, split,
  text_eq, ◌++◌, ◌+◌, ◌*◌, ◌%◌, some, ◌>>=◌, is_space, trim_start,
}
use sema_core.Identity.{
  pos, encode, symbol, decode_base56, assert_segment, in_alphabet, index_of, total_of,
}
use sema_core.Topology.Types.{Number, whole}
use sema_core.FirstIds.{
  HeldBlock, block_range, reserved_limit, block_count, grant_block, issue_value, check,
  format_install_code, parse_install_code,
}
use sema_core.FirstIds.Blocks.{IsWithin, one_block}
use sema_core.FirstIds.Issuing.{Operation, grant, issue, grant_of, issued_values, granted, IsFrom}
use sema_core.FirstIds.Distinct.{issued_values-AllDistinct}
use sema_core.FirstIds.Codes.{parse_install_code-format, parse_install_code-ok}

number_of_blocks : block_count ≡ 551
number_of_blocks = refl

one_block_example :
    (block : Number) × IsWithin block 1500000
    × ((other : Number) → IsWithin other 1500000 → other ≡ block)
one_block_example = one_block 1500000 (omega arith) (omega arith)

abbrev block : ℕ → Number
block n = whole (pos n)

abbrev two_blocks : List Operation
two_blocks = issue ∷ grant (block 7) ∷ issue ∷ grant (block 0) ∷ issue ∷ []

two_values : issued_values two_blocks none ≡ pos 7000000 ∷ pos 7000001 ∷ []
unfolding issued_values grant_of grant_block block_range issue_value
two_values = refl

issued_values-AllDistinct_example :
    AllDistinct (issued_values two_blocks none)
    × All (IsFrom (granted two_blocks)) (issued_values two_blocks none)
issued_values-AllDistinct_example =
    issued_values-AllDistinct two_blocks (((λ e. absurd (different e)), tt), (tt, tt))
  where
    different : block 7 ≢ block 0
    different e = cc

-- A digest that depends on every character.
abbrev digest : Text → List ℕ
digest [] = 7 ∷ 1 ∷ []
digest (c ∷ s) = c % 16 ∷ digest s

parse_install_code-format_example :
    parse_install_code digest (format_install_code digest (encode 58)) ≡ ok (encode 58)
parse_install_code-format_example = parse_install_code-format digest 58 (omega arith) (omega arith)

abbrev company_code : Text
company_code = codes " " ++ format_install_code digest (codes "34")

company_read : parse_install_code digest company_code ≡ ok (codes "34")
unfolding parse_install_code format_install_code check encode symbol decode_base56 assert_segment
    in_alphabet index_of total_of split text_eq trim trim_start is_space
company_read = refl

parse_install_code-ok_example :
    (value : ℕ) × (1 ≤ value)
    × (value < reserved_limit)
    × (codes "34" ≡ encode value)
    × (trim company_code ≡ format_install_code digest (codes "34"))
parse_install_code-ok_example = parse_install_code-ok digest company_code (codes "34") company_read

-- A used-up block is granted again once another one has been, and its values come a second time.
abbrev used_up : ℕ → HeldBlock
used_up n = record {
  block = block n;
  issued = pos (n * 1000000 + 999999);
  end = n * 1000000 + 1000000;
}

given_again :
    (grant_of (block 7) (some (used_up 8)) >>= λ held. ok (issue_value held).0)
    ≡ ok (some (pos 7000000))
unfolding grant_of grant_block block_range issue_value
given_again = refl
