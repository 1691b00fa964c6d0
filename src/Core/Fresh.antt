-- ===== src/Core/Fresh.antt =====
-- The identifiers that a reservation gives are new.
use Prim.Native.Nat.{◌<◌, ◌≤◌}
use sema_core.Prelude.{
  ℕ, zero, suc, ◌≡◌, ◌≢◌, inl, inr, refl, ap, arith, Option-cases, none, some, List, Text, Dict,
  lookup, insert, lookup-insert_self, ok, All, AllDistinct, length, map,
}
use sema_core.Identity.Segments.{IsInstallationId}
use sema_core.Core.Types.{IdentityState, Identifier, Reservation, reserved}
use sema_core.Core.Store.{CoreStore, NewIdentifiers, reserve_identifiers}
use sema_core.Core.Reserving.{
  key_of, key_of_eq, made, made_from, put_from, store_after, put_from-kept,
  reserve_identifiers-made, reservation_of,
}
use sema_core.Core.Sound.{IsSoundCore}
use sema_core.Core.Kept.{fresh_key}

module _ (i reservation_id : Text) (input : NewIdentifiers) (valid : IsInstallationId i) where
  length-made_from : (count v : ℕ) → length (made_from i reservation_id input count v) ≡ count
  length-made_from zero v = refl
  length-made_from (suc count) v = ap suc (length-made_from count (suc v))

  others_differ :
      (v count w : ℕ)
      → 0 < v
      → v < w
      → All
          (λ y. key_of i v ≢ y)
          (map (λ (x : Identifier). x.id) (made_from i reservation_id input count w))
  others_differ v zero w above below = tt
  others_differ v (suc count) w above below = (
    λ e. (let same = key_of_eq i v w valid above (omega arith) e in omega (arith, same)),
    others_differ v count (suc w) above (omega arith),
  )

  made_from-AllDistinct :
      (count v : ℕ)
      → 0 < v
      → AllDistinct (map (λ (x : Identifier). x.id) (made_from i reservation_id input count v))
  made_from-AllDistinct zero v above = tt
  made_from-AllDistinct (suc count) v above = (
    others_differ v count (suc v) above (omega arith),
    made_from-AllDistinct count (suc v) (omega arith),
  )

  made_from-put :
      (count v : ℕ) (m : Dict Identifier)
      → 0 < v
      → All
          (λ x. lookup x.id (put_from i reservation_id input count v m) ≡ some x)
          (made_from i reservation_id input count v)
  made_from-put zero v m above = tt
  made_from-put (suc count) v m above = (
    put_from-kept i reservation_id input count (suc v)
        (insert (key_of i v) (made i reservation_id input v) m) (key_of i v)
        (made i reservation_id input v)
        (λ n later e.
          (let same = key_of_eq i n v valid (omega arith) above e in omega (arith, same)))
        (lookup-insert_self (key_of i v) (made i reservation_id input v) m),
    made_from-put count (suc v) (insert (key_of i v) (made i reservation_id input v) m)
        (omega arith),
  )

  made_from-All :
      (P : Identifier → Type 0) (count v w : ℕ)
      → w ≤ v
      → ((n : ℕ) → w ≤ n → P (made i reservation_id input n))
      → All P (made_from i reservation_id input count v)
  made_from-All P zero v w low p = tt
  made_from-All P (suc count) v w low p = (p v low, made_from-All P count (suc v) w (omega arith) p)

pub lookup-none :
    (m : Dict Identifier) (id : Text)
    → ((x : Identifier) → lookup id m ≢ some x)
    → lookup id m ≡ none
lookup-none m id absent = elim (Option-cases (lookup id m)) [
  | inl e ↦ e
  | inr (x, e) ↦ absurd (absent x e)
]

-- What a reservation gives: as many reserved identifiers as were asked for, with distinct IDs, none
-- of which was held before and each of which is held after.
pub record IsGiven (s t : CoreStore) (count : ℕ) (xs : List Identifier) : Type 0 where
  pub as_many : length xs ≡ count
  pub distinct : AllDistinct (map (λ (x : Identifier). x.id) xs)
  pub were_new : All (λ x. lookup x.id s.identifiers ≡ none) xs
  pub are_held : All (λ x. lookup x.id t.identifiers ≡ some x) xs
  pub are_reserved : All (λ x. x.status ≡ reserved) xs

-- In a sound store that is initialised, a reservation returns: it gives as many reserved
-- identifiers as were asked for, with distinct IDs, none of which was held before and each of which
-- is held after.
pub reserve_identifiers-IsGiven :
    (s : CoreStore) (st : IdentityState) (input : NewIdentifiers) (time : ℕ)
    → IsSoundCore s
    → s.state ≡ some st
    → (r : Reservation) × (xs : List Identifier) × (t : CoreStore) × (reserve_identifiers input time
          s
        ≡ (ok (r, xs), t))
      × IsGiven s t input.count xs
reserve_identifiers-IsGiven s st input time sound there =
    let (valid, above) = sound.valid st there in
    let i = st.installation_id in
    let first = key_of i st.next_local_id in
    (
      reservation_of st input time,
      made_from i first input input.count st.next_local_id,
      store_after st input time s,
      reserve_identifiers-made s st input time there valid above,
      record {
        as_many = length-made_from i first input valid input.count st.next_local_id;
        distinct = made_from-AllDistinct i first input valid input.count st.next_local_id above;
        were_new =
            made_from-All i first input valid (λ x. lookup x.id s.identifiers ≡ none) input.count
              st.next_local_id st.next_local_id (omega arith)
              (λ n later.
                lookup-none s.identifiers (key_of i n)
                  (λ x held. fresh_key sound st (key_of i n) x n there held later refl));
        are_held =
            made_from-put i first input valid input.count st.next_local_id s.identifiers above;
        are_reserved =
            made_from-All i first input valid (λ x. x.status ≡ reserved) input.count
              st.next_local_id st.next_local_id (omega arith) (λ n later. refl);
      },
    )
