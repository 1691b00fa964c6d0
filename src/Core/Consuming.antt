-- ===== src/Core/Consuming.antt =====
-- What each method of the store does to the identifiers.
use sema_core.Prelude.{
  ◌≡◌, ◌⊎◌, inl, inr, refl, sym, ◌∙◌, ap, Option, none, some, Option-cases, Text, lookup, insert,
  has, ok, not, text_eq, Bool-cases, true, Result-cases, get_or_else, err,
}
use sema_core.Identity.{parse_installation_id}
use sema_core.Core.Exec.{◌>>=◌, throw_if-state}
use sema_core.Core.Types.{
  IdentityState, Identifier, reserved, issued, merge, JsonObject, CoreError, no_reservation,
  not_in_reservation, already_consumed, other_installation, installation_suspended,
}
use sema_core.Core.Store.{
  CoreStore, consume_reserved_identifier, initialize_identity, first_state, is_active,
}

abbrev pub consumed : Identifier → JsonObject → Identifier
consumed x metadata = record x { status = issued; metadata = merge x.metadata metadata }

-- What a call that returns has found and written.
pub record IsConsumed (reservation_id id : Text) (metadata : JsonObject) (s : CoreStore)
    : Type 0 where
  pub identifier : Identifier
  pub held : lookup id s.identifiers ≡ some identifier
  pub is_reserved : identifier.status ≡ reserved
  pub returned : consume_reserved_identifier reservation_id id metadata s ≡ (
    ok (consumed identifier metadata),
    record s { identifiers = insert id (consumed identifier metadata) s.identifiers },
  )

-- A call that throws, and leaves the store as it was.
abbrev pub IsRefused : Text → Text → JsonObject → CoreStore → Type 0
IsRefused reservation_id id metadata s =
    (e : CoreError) × (consume_reserved_identifier reservation_id id metadata s ≡ (err e, s))

module _ (reservation_id id : Text) (metadata : JsonObject) (s : CoreStore) where
  with_found :
      (o : Option Identifier)
      → has reservation_id s.reservations ≡ true
      → lookup id s.identifiers ≡ o
      → IsRefused reservation_id id metadata s ⊎ IsConsumed reservation_id id metadata s
  unfolding ◌>>=◌ consume_reserved_identifier
  with_found none there found = inl (not_in_reservation, rw there (rw found refl))
  with_found (some x) there found = elim (Bool-cases (text_eq x.reservation_id reservation_id)) [
    | inr other ↦ inl (not_in_reservation, rw there (rw found (rw other refl)))
    | inl own ↦ with_status x there found own
  ]
    where
      with_status :
          (x : Identifier)
          → has reservation_id s.reservations ≡ true
          → lookup id s.identifiers ≡ some x
          → text_eq x.reservation_id reservation_id ≡ true
          → IsRefused reservation_id id metadata s ⊎ IsConsumed reservation_id id metadata s
      with_status x there found own = by_status x.status refl
        where
          by_status :
              (st : _)
              → x.status ≡ st
              → IsRefused reservation_id id metadata s ⊎ IsConsumed reservation_id id metadata s
          by_status issued at = inl (already_consumed, rw there (rw found (rw own (rw at refl))))
          by_status reserved at = inr (record {
            identifier = x;
            held = found;
            is_reserved = at;
            returned = rw there (rw found (rw own (rw at refl)));
          })

  pub consume_cases :
      IsRefused reservation_id id metadata s ⊎ IsConsumed reservation_id id metadata s
  unfolding ◌>>=◌ consume_reserved_identifier
  consume_cases = elim (Bool-cases (has reservation_id s.reservations)) [
    | inr absent ↦ inl (no_reservation, rw absent refl)
    | inl there ↦ with_found (lookup id s.identifiers) there refl
  ]

-- The store that initialising leaves, whether the state that it finds passes its tests or not.
initialize_writes :
    (installation_id normalized : Text) (s : CoreStore)
    → parse_installation_id installation_id ≡ ok normalized
    → (initialize_identity installation_id s).1
      ≡ record s { state = some (get_or_else s.state (first_state normalized)) }
unfolding ◌>>=◌ initialize_identity
initialize_writes installation_id n s at =
    let state = get_or_else s.state (first_state n) in
    rw at (
      throw_if-state (not (text_eq state.installation_id n)) (not (is_active state.status))
        other_installation installation_suspended state (record s { state = some state }))

-- Initialising writes the identity state at most, and only when there is none.
pub initialize_cases :
    (installation_id : Text) (s : CoreStore)
    → ((initialize_identity installation_id s).1 ≡ s)
      ⊎ ((n : Text) × (s.state ≡ none)
          × (parse_installation_id installation_id ≡ ok n)
          × ((initialize_identity installation_id s).1 ≡ record s { state = some (first_state n) }))
unfolding ◌>>=◌ initialize_identity
initialize_cases installation_id s = elim (Result-cases (parse_installation_id installation_id)) [
  | inr (e, at) ↦ inl (rw at refl)
  | inl (n, at) ↦
      let written = initialize_writes installation_id n s at in
      let filled : Option IdentityState → CoreStore =
        λ o. record s { state = some (get_or_else o (first_state n)) } in
      elim (Option-cases s.state) [
        | inl open_place ↦ inr (n, open_place, at, written ∙ ap filled open_place)
        | inr (st, there) ↦
            inl (written ∙ ap filled there ∙ ap (λ o. record s { state = o }) (sym there))
      ]
]
