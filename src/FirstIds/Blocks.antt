-- ===== src/FirstIds/Blocks.antt =====
-- The blocks of first IDs split the reserve.
use Prim.Native.Nat.{◌<◌, ◌≤◌}
use sema_core.Prelude.{
  ℕ, suc, ◌-◌, ◌≡◌, ◌+◌, ◌*◌, ◌/◌, refl, ap, arith, ok, >>=-eq-ok, ok-injective, refuse_if, leb,
}
use sema_core.Identity.{pos, negsuc}
use sema_core.Topology.Types.{Number, whole, not_whole}
use sema_core.FirstIds.{
  BlockRange, block_range, range_of, block_count, block_size, reserved_limit, bad_block,
}

-- A value that a block may give out.
pub record IsWithin (block : Number) (value : ℕ) : Type 0 where
  pub range : BlockRange
  pub is_block : block_range block ≡ ok range
  pub from_start : range.start ≤ value
  pub before_end : value < range.end

range_of-bounds :
    (n value : ℕ) (r : BlockRange)
    → range_of n ≡ r
    → r.start ≤ value
    → value < r.end
    → (n * 1000000 ≤ value) × (value < n * 1000000 + 1000000)
range_of-bounds n value r same low high =
    let starts : (range_of n).start ≡ r.start = ap (λ (x : BlockRange). x.start) same in
    let ends : (range_of n).end ≡ r.end = ap (λ (x : BlockRange). x.end) same in ground arith

whole_block :
    (block : Number) (value : ℕ)
    → IsWithin block value
    → (n : ℕ) × (block ≡ whole (pos n)) × (n * 1000000 ≤ value) × (value < n * 1000000 + 1000000)
unfolding block_range
whole_block block value within = go block within.is_block
  where
    go :
        (b : Number)
        → block_range b ≡ ok within.range
        → (n : ℕ) × (b ≡ whole (pos n)) × (n * 1000000 ≤ value) × (value < n * 1000000 + 1000000)
    go not_whole h = cc
    go (whole (negsuc n)) h = cc
    go (whole (pos n)) h =
        let (u, small, same) = >>=-eq-ok (refuse_if (leb block_count n) bad_block) _ h in
        let (low, high) =
          range_of-bounds n value within.range (ok-injective same) within.from_start
            within.before_end in
        (n, refl, low, high)

-- No value is in two blocks.
pub same_block : (a b : Number) (value : ℕ) → IsWithin a value → IsWithin b value → a ≡ b
same_block a b value in_a in_b =
    let (m, a_whole, a_low, a_high) = whole_block a value in_a in
    let (n, b_whole, b_low, b_high) = whole_block b value in_b in
    let same : m ≡ n = omega arith in cc

-- The block of a value of the reserve.
own_block :
    (value : ℕ)
    → 2 ≤ value
    → value < reserved_limit
    → IsWithin (whole (pos (value / block_size))) value
unfolding block_range
own_block value low high = record {
  range = range_of (value / 1000000);
  is_block = ground arith;
  from_start = ground arith;
  before_end = ground arith;
}

-- Every value of the reserve but 0 and 1 is one that exactly one block may give out.
pub one_block :
    (value : ℕ)
    → 2 ≤ value
    → value < reserved_limit
    → (block : Number) × IsWithin block value
      × ((other : Number) → IsWithin other value → other ≡ block)
one_block value low high =
    let own = own_block value low high in
    (
      whole (pos (value / block_size)),
      own,
      λ other within. same_block other (whole (pos (value / block_size))) value within own,
    )

-- The first value of a block is above zero.
pub block_range-start :
    (block : Number) (r : BlockRange) → block_range block ≡ ok r → (n : ℕ) × (r.start ≡ suc n)
unfolding block_range
block_range-start not_whole r h = cc
block_range-start (whole (negsuc n)) r h = cc
block_range-start (whole (pos n)) r h =
    let (u, small, same) = >>=-eq-ok (refuse_if (leb block_count n) bad_block) _ h in
    let at : (range_of n).start ≡ r.start = ap (λ (x : BlockRange). x.start) (ok-injective same) in
    (r.start - 1, ground arith)
