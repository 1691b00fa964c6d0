-- ===== src/Core/Reserving.antt =====
-- What reserving identifiers does.
use Prim.Native.Nat.{◌<◌, ◌≤◌}
use sema_core.Prelude.{
  ℕ, zero, suc, ◌+◌, ◌≡◌, ◌≢◌, ◌⊎◌, inl, inr, refl, sym, ◌∙◌, ap, arith, some, List, [], ◌∷◌, ◌++◌,
  Text, Dict, lookup, insert, lookup-insert_cases, lookup-insert, text_eq_iff, ok,
}
use sema_core.Identity.{encode, hyphen}
use sema_core.Identity.Segments.{IsInstallationId}
use sema_core.Identity.KeyId.{format_key_id-ok, format-injective}
use sema_core.Core.Exec.{◌>>=◌}
use sema_core.Core.Types.{IdentityState, Identifier, reserved, Reservation}
use sema_core.Core.Store.{CoreStore, NewIdentifiers, make_identifiers, reserve_identifiers}

abbrev pub key_of : Text → ℕ → Text
key_of installation_id n = installation_id ++ hyphen ∷ encode n

pub key_of_eq :
    (i : Text) (m n : ℕ) → IsInstallationId i → 0 < m → 0 < n → key_of i m ≡ key_of i n → m ≡ n
key_of_eq i m n valid a b e =
    (format-injective i i (key_of i n) m n (format_key_id-ok i m valid a ∙ ap ok e)
      (format_key_id-ok i n valid b)).1

module _ (i reservation_id : Text) (input : NewIdentifiers) where
  abbrev pub made : ℕ → Identifier
  made n = record {
    id = key_of i n;
    reservation_id = reservation_id;
    installation_id = i;
    local_value = n;
    local_code = encode n;
    type_code = input.type_code;
    status = reserved;
    metadata = input.metadata;
  }

  -- `count` identifiers, from a local value on.
  abbrev pub made_from : ℕ → ℕ → List Identifier
  made_from zero v = []
  made_from (suc count) v = made v ∷ made_from count (suc v)

  abbrev pub put_from : ℕ → ℕ → Dict Identifier → Dict Identifier
  put_from zero v m = m
  put_from (suc count) v m = put_from count (suc v) (insert (key_of i v) (made v) m)

  pub make_identifiers-made :
      (count v : ℕ) (s : CoreStore)
      → IsInstallationId i
      → 0 < v
      → make_identifiers i reservation_id input count v s
        ≡ (ok (made_from count v), record s { identifiers = put_from count v s.identifiers })
  unfolding ◌>>=◌ make_identifiers
  make_identifiers-made zero v s valid above = refl
  make_identifiers-made (suc count) v s valid above = rw (format_key_id-ok i v valid above) (
      rw
        (make_identifiers-made count (suc v)
          (record s { identifiers = insert (key_of i v) (made v) s.identifiers }) valid
          (omega arith))
        refl)

  pub lookup-put_from :
      (count v : ℕ) (m : Dict Identifier) (id : Text) (x : Identifier)
      → lookup id (put_from count v m) ≡ some x
      → ((n : ℕ) × (v ≤ n) × (n < v + count) × (id ≡ key_of i n) × (x ≡ made n))
        ⊎ (lookup id m ≡ some x)
  lookup-put_from zero v m id x h = inr h
  lookup-put_from (suc count) v m id x h =
      elim (lookup-put_from count (suc v) (insert (key_of i v) (made v) m) id x h) [
        | inl (n, low, high, is_n, is_made) ↦ inl (n, omega arith, omega arith, is_n, is_made)
        | inr before ↦ elim (lookup-insert_cases (key_of i v) id (made v) x m before) [
          | inl (here, same) ↦ inl (v, omega arith, omega arith, sym here, sym same)
          | inr (other, held) ↦ inr held
        ]
      ]

  pub put_from-kept :
      (count v : ℕ) (m : Dict Identifier) (id : Text) (x : Identifier)
      → ((n : ℕ) → v ≤ n → key_of i n ≢ id)
      → lookup id m ≡ some x
      → lookup id (put_from count v m) ≡ some x
  put_from-kept zero v m id x other h = h
  put_from-kept (suc count) v m id x other h =
      put_from-kept count (suc v) (insert (key_of i v) (made v) m) id x
        (λ n low. other n (omega arith))
        (lookup-insert (key_of i v) id (made v) m
          ∙ ground (arith, text_eq_iff (key_of i v) id, other v (omega arith)))

abbrev pub reservation_of : IdentityState → NewIdentifiers → ℕ → Reservation
reservation_of state input time = record {
  id = key_of state.installation_id state.next_local_id;
  installation_id = state.installation_id;
  first_local_value = state.next_local_id;
  count = input.count;
  type_code = input.type_code;
  metadata = input.metadata;
  created_at = time;
}

-- The store that a reservation leaves.
abbrev pub store_after : IdentityState → NewIdentifiers → ℕ → CoreStore → CoreStore
store_after state input time s = record s {
  state = some (record state { next_local_id = state.next_local_id + input.count });
  reservations =
      insert (key_of state.installation_id state.next_local_id) (reservation_of state input time)
        s.reservations;
  identifiers =
      put_from state.installation_id (key_of state.installation_id state.next_local_id) input
        input.count state.next_local_id s.identifiers;
}

pub reserve_identifiers-made :
    (s : CoreStore) (state : IdentityState) (input : NewIdentifiers) (time : ℕ)
    → s.state ≡ some state
    → IsInstallationId state.installation_id
    → 0 < state.next_local_id
    → reserve_identifiers input time s ≡ (
      ok (
        reservation_of state input time,
        made_from state.installation_id
            (key_of state.installation_id state.next_local_id)
            input
            input.count
            state.next_local_id,
      ),
      store_after state input time s,
    )
unfolding ◌>>=◌ reserve_identifiers
reserve_identifiers-made s state input time there valid above = rw there (
    rw (format_key_id-ok state.installation_id state.next_local_id valid above) (
      rw
        (make_identifiers-made state.installation_id
          (key_of state.installation_id state.next_local_id) input input.count state.next_local_id
          (record s { state = some state }) valid above)
        refl))
