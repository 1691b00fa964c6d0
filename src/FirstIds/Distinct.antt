-- ===== src/FirstIds/Distinct.antt =====
-- No first ID is given out twice.
use mathlib.Core.Path.{subst}
use sema_core.Prelude.{
  ℕ, suc, ◌≡◌, ◌≢◌, inl, inr, refl, sym, ◌∙◌, ap, arith, ok, err, Result, Option, none, some, List,
  [], ◌∷◌, All, AllDistinct, Bool-cases,
}
use sema_core.Identity.{ℤ, pos}
use sema_core.Topology.Types.{Number}
use sema_core.FirstIds.{FirstIdError, HeldBlock, issue_value, has_left, next}
use sema_core.FirstIds.Blocks.{IsWithin, same_block}
use sema_core.FirstIds.Issuing.{
  Operation, grant, issue, grant_of, held_after, issued_values, granted, IsFrom, IsAhead,
  IsSoundHold, IsOther, after, grant_of-IsSoundHold, IsUsed-after, left_below,
  issued_values-IsAhead, All-imp,
}

-- A value of the block in use is in no block that is not that one.
not_from :
    (block : Number) (n : ℕ) (bs : List Number)
    → IsWithin block n
    → All (λ b. block ≢ b) bs
    → (v : ℤ) → IsFrom bs v
    → pos n ≢ v
not_from block n [] within others v from e = absurd from
not_from block n (b ∷ bs) within (other, others) v (inl (m, is_m, elsewhere)) e =
    let same : m ≡ n = cc in other (same_block block b n within (subst (IsWithin b) same elsewhere))
not_from block n (b ∷ bs) within (other, others) v (inr from) e =
    not_from block n bs within others v from e

new_value :
    (h : HeldBlock) (i : ℕ) (bs : List Number) (v : ℤ)
    → h.issued ≡ pos i
    → IsWithin h.block (suc i)
    → All (λ b. h.block ≢ b) bs
    → IsAhead (some (after h)) bs v
    → pos (suc i) ≢ v
new_value h i bs v last within others (inr from) e =
    not_from h.block (suc i) bs within others v from e
new_value h i bs v last within others (inl (n, j, is_n, at, above, _)) e =
    let e' : pos (suc i) ≡ pos j = ap next (sym last) ∙ at in
    let same : suc i ≡ j = cc in let same' : suc i ≡ n = cc in omega arith

distinct_values :
    (ops : List Operation) (held : Option HeldBlock)
    → IsSoundHold held
    → IsOther held (granted ops)
    → AllDistinct (granted ops)
    → AllDistinct (issued_values ops held)
unfolding issued_values issue_value
distinct_values [] held sound others once = tt
distinct_values (grant block ∷ ops) held sound others (fresh, once) =
    decided (distinct_values ops) (grant_of block held) refl
  where
    fewer : (o : Option HeldBlock) → IsOther o (block ∷ granted ops) → IsOther o (granted ops)
    fewer none other = tt
    fewer (some h) (other, more) = more

    decided :
        ((o : Option HeldBlock)
          → IsSoundHold o
          → IsOther o (granted ops)
          → AllDistinct (granted ops)
          → AllDistinct (issued_values ops o))
        → (r : Result FirstIdError (Option HeldBlock)) → grant_of block held ≡ r
        → AllDistinct (issued_values ops (held_after r held))
    decided all_distinct (err e) given = all_distinct held sound (fewer held others) once
    decided all_distinct (ok later) given =
        let (h, is_h, same, still) = grant_of-IsSoundHold block held later given in
        let other : IsOther (some h) (granted ops) =
          subst (λ b. All (λ x. b ≢ x) (granted ops)) (sym same) fresh in
        all_distinct later still (subst (λ o. IsOther o (granted ops)) (sym is_h) other) once
distinct_values (issue ∷ ops) none sound others once = distinct_values ops none tt tt once
distinct_values (issue ∷ ops) (some h) (i, used) others once = elim (Bool-cases (has_left h)) [
  | inl left ↦
      let within = used.later (suc i) (omega arith) (left_below h i used.last left) in
      let still = IsUsed-after h i used in
      rw left (
        All-imp (issued_values ops (some (after h)))
            (λ v ahead e.
              new_value h i (granted ops) v used.last within others ahead
                (ap next (sym used.last) ∙ e))
            (issued_values-IsAhead ops (some (after h)) (suc i, still)),
        distinct_values ops (some (after h)) (suc i, still) others once,
      )
  | inr used_up ↦ rw used_up (distinct_values ops (some h) (i, used) others once)
]

-- A Core that starts with no block, and is granted no block more than once, gives out no value
-- twice, and each value is from a block it was granted.
pub issued_values-AllDistinct :
    (ops : List Operation)
    → AllDistinct (granted ops)
    → AllDistinct (issued_values ops none) × All (IsFrom (granted ops)) (issued_values ops none)
issued_values-AllDistinct ops once =
    (distinct_values ops none tt tt once, issued_values-IsAhead ops none tt)
