-- ===== src/FirstIds/Issuing.antt =====
-- The first IDs that a Core gives out, over any grants of blocks and issues of values.
use Prim.Native.Nat.{◌<◌}
use mathlib.Core.Path.{subst}
use sema_core.Prelude.{
  ℕ, suc, ◌≡◌, ◌≢◌, ◌⊎◌, inl, inr, refl, sym, ◌∙◌, ap, arith, ok, err, Result, Option, none, some,
  List, [], ◌∷◌, All, Bool-cases, true, >>=-eq-ok, refuse_if, ◌>>=◌,
}
use sema_core.Identity.{ℤ, pos}
use sema_core.Topology.Types.{Number}
use sema_core.FirstIds.{
  FirstIdError, block_range, HeldBlock, grant_block, issue_value, has_left, is_below, is_in_use,
  next, previous, block_not_used_up,
}
use sema_core.FirstIds.Blocks.{IsWithin, block_range-start}

pub data Operation : Type 0 where
  grant : Number → Operation
  issue : Operation

-- `grantTopLevelBlock({ block, ...topLevelBlockRange(block) })`
unfoldable pub grant_of : Number → Option HeldBlock → Result FirstIdError (Option HeldBlock)
grant_of block held = do range ← block_range block; grant_block block range held

abbrev pub held_after : Result FirstIdError (Option HeldBlock) → Option HeldBlock → Option HeldBlock
held_after (ok held) before = held
held_after (err e) before = before

abbrev pub with_value : Option ℤ → List ℤ → List ℤ
with_value none values = values
with_value (some value) values = value ∷ values

-- The values that are given out, in order.
unfoldable pub issued_values : List Operation → Option HeldBlock → List ℤ
issued_values [] held = []
issued_values (grant block ∷ ops) held = issued_values ops (held_after (grant_of block held) held)
issued_values (issue ∷ ops) held =
    with_value (issue_value held).0 (issued_values ops (issue_value held).1)

abbrev pub granted : List Operation → List Number
granted [] = []
granted (grant block ∷ ops) = block ∷ granted ops
granted (issue ∷ ops) = granted ops

-- A value of one of the blocks.
abbrev pub IsFrom : List Number → ℤ → Type 0
IsFrom [] v = ⊥
IsFrom (b ∷ bs) v = ((n : ℕ) × (v ≡ pos n) × IsWithin b n) ⊎ IsFrom bs v

-- A block in use: the values up to `i` are given out.
pub record IsUsed (h : HeldBlock) (i : ℕ) : Type 0 where
  pub last : h.issued ≡ pos i
  pub later : (n : ℕ) → i < n → n < h.end → IsWithin h.block n

-- A value that the block in use, or one still to be granted, may give out.
abbrev pub IsAhead : Option HeldBlock → List Number → ℤ → Type 0
IsAhead none bs v = IsFrom bs v
IsAhead (some h) bs v =
    ((n : ℕ) × (i : ℕ) × (v ≡ pos n) × (h.issued ≡ pos i) × (i < n) × IsWithin h.block n)
    ⊎ IsFrom bs v

abbrev pub IsSoundHold : Option HeldBlock → Type 0
IsSoundHold none = Unit
IsSoundHold (some h) = (i : ℕ) × IsUsed h i

abbrev pub IsOther : Option HeldBlock → List Number → Type 0
IsOther none bs = Unit
IsOther (some h) bs = All (λ b. h.block ≢ b) bs

pub All-imp :
    {A : Type 0} {P Q : A → Type 0} (xs : List A) → ((x : A) → P x → Q x) → All P xs → All Q xs
All-imp [] f h = tt
All-imp (x ∷ xs) f (p, h) = (f x p, All-imp xs f h)

pub grant_of-IsSoundHold :
    (block : Number) (held later : Option HeldBlock)
    → grant_of block held ≡ ok later
    → (h : HeldBlock) × (later ≡ some h) × (h.block ≡ block) × IsSoundHold later
unfolding grant_of grant_block
grant_of-IsSoundHold block held later h =
    let (range, is_block, h₁) = >>=-eq-ok (block_range block) _ h in
    let (u, used_up, h₂) = >>=-eq-ok (refuse_if (is_in_use held) block_not_used_up) _ h₁ in
    let (s, at_start) = block_range-start block range is_block in
    let given : HeldBlock = record {
      block = block;
      issued = previous range.start;
      end = range.end;
    } in
    let same : some given ≡ later = cc in
    (
      given,
      sym same,
      refl,
      subst IsSoundHold same (
        s,
        record {
          last = ap previous at_start;
          later = λ n above below. record {
            range = range;
            is_block = is_block;
            from_start = omega (arith, at_start);
            before_end = below;
          };
        },
      ),
    )

IsFrom-new :
    (block : Number) (h : HeldBlock) (bs : List Number) (v : ℤ)
    → h.block ≡ block
    → IsAhead (some h) bs v
    → IsFrom (block ∷ bs) v
IsFrom-new block h bs v same (inl (n, i, is_n, _, _, within)) =
    inl (n, is_n, subst (λ b. IsWithin b n) same within)
IsFrom-new block h bs v same (inr from) = inr from

IsFrom-IsAhead :
    (held : Option HeldBlock) (bs : List Number) (v : ℤ) → IsFrom bs v → IsAhead held bs v
IsFrom-IsAhead none bs v from = from
IsFrom-IsAhead (some h) bs v from = inr from

IsAhead-more :
    (held : Option HeldBlock) (b : Number) (bs : List Number) (v : ℤ)
    → IsAhead held bs v
    → IsAhead held (b ∷ bs) v
IsAhead-more none b bs v from = inr from
IsAhead-more (some h) b bs v (inl own) = inl own
IsAhead-more (some h) b bs v (inr from) = inr (inr from)

abbrev pub after : HeldBlock → HeldBlock
after h = record h { issued = next h.issued }

pub IsUsed-after : (h : HeldBlock) (i : ℕ) → IsUsed h i → IsUsed (after h) (suc i)
IsUsed-after h i used = record {
  last = ap next used.last;
  later = λ n above below. used.later n (omega arith) below;
}

pub left_below : (h : HeldBlock) (i : ℕ) → h.issued ≡ pos i → has_left h ≡ true → suc i < h.end
left_below h i last left =
    let e : is_below (next (pos i)) h.end ≡ true =
      ap (λ x. is_below (next x) h.end) (sym last) ∙ left in
    ground arith

before_after :
    (h : HeldBlock) (i : ℕ) (bs : List Number) (v : ℤ)
    → h.issued ≡ pos i
    → IsAhead (some (after h)) bs v
    → IsAhead (some h) bs v
before_after h i bs v last (inr from) = inr from
before_after h i bs v last (inl (n, j, is_n, at, above, within)) =
    let e : pos (suc i) ≡ pos j = ap next (sym last) ∙ at in
    let same : suc i ≡ j = cc in inl (n, i, is_n, last, omega arith, within)

-- Every value to come is from the block in use or from a block still to be granted.
pub issued_values-IsAhead :
    (ops : List Operation) (held : Option HeldBlock)
    → IsSoundHold held
    → All (IsAhead held (granted ops)) (issued_values ops held)
unfolding issued_values issue_value
issued_values-IsAhead [] held sound = tt
issued_values-IsAhead (grant block ∷ ops) held sound =
    decided (issued_values-IsAhead ops) (grant_of block held) refl
  where
    decided :
        ((o : Option HeldBlock)
          → IsSoundHold o
          → All (IsAhead o (granted ops)) (issued_values ops o))
        → (r : Result FirstIdError (Option HeldBlock)) → grant_of block held ≡ r
        → All (IsAhead held (block ∷ granted ops)) (issued_values ops (held_after r held))
    decided all_ahead (err e) given =
        All-imp (issued_values ops held) (IsAhead-more held block (granted ops))
          (all_ahead held sound)
    decided all_ahead (ok later) given =
        let (h, is_h, same, still) = grant_of-IsSoundHold block held later given in
        let rest = all_ahead later still in
        All-imp (issued_values ops later)
          (λ v ahead. IsFrom-IsAhead held (block ∷ granted ops) v (
            IsFrom-new block h (granted ops) v same
              (subst (λ o. IsAhead o (granted ops) v) is_h ahead)))
          rest
issued_values-IsAhead (issue ∷ ops) none sound = issued_values-IsAhead ops none tt
issued_values-IsAhead (issue ∷ ops) (some h) (i, used) = elim (Bool-cases (has_left h)) [
  | inl left ↦ rw left (
    inl (
      suc i,
      i,
      ap next used.last,
      used.last,
      omega arith,
      used.later (suc i) (omega arith) (left_below h i used.last left),
    ),
    All-imp (issued_values ops (some (after h))) (λ v. before_after h i (granted ops) v used.last)
        (issued_values-IsAhead ops (some (after h)) (suc i, IsUsed-after h i used)),
  )
  | inr used_up ↦ rw used_up (issued_values-IsAhead ops (some h) (i, used))
]
