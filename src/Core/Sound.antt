-- ===== src/Core/Sound.antt =====
-- How the calls of the store change its identity state and its identifiers.
use Prim.Native.Nat.{◌<◌}
use sema_core.Prelude.{
  ℕ, ◌≡◌, inl, inr, refl, sym, ap, Option-cases, none, some, Text, lookup, insert,
}
use sema_core.Identity.Segments.{IsInstallationId}
use sema_core.Identity.KeyId.{parse_installation_id-IsInstallationId}
use sema_core.Core.Exec.{◌>>=◌}
use sema_core.Core.Types.{IdentityState, Identifier, reserved, JsonObject}
use sema_core.Core.Store
use sema_core.Core.Store.{CoreStore, NewIdentifiers, first_state}
use sema_core.Core.Reserving.{key_of, store_after, reserve_identifiers-made}
use sema_core.Core.Consuming.{consumed, consume_cases, initialize_cases}
use sema_core.Core.Requests.{
  Call, call_on, initialize_identity, reserve_identifiers, consume_reserved_identifier,
  create_command, update_command, create_execution, update_execution, create_result, create_event,
  create_audit, upsert_capability,
}

-- An identifier stands under its own ID, which is the installation's key for its local value, and
-- that value is one that was given out.
pub record IsNumbered (state : IdentityState) (id : Text) (x : Identifier) : Type 0 where
  pub own_id : x.id ≡ id
  pub key : id ≡ key_of state.installation_id x.local_value
  pub above : 0 < x.local_value
  pub below : x.local_value < state.next_local_id

pub record IsSoundCore (s : CoreStore) : Type 0 where
  pub valid :
      (st : IdentityState)
      → s.state ≡ some st
      → IsInstallationId st.installation_id × (0 < st.next_local_id)
  pub numbered :
      (id : Text) (x : Identifier)
      → lookup id s.identifiers ≡ some x
      → (st : IdentityState) × (s.state ≡ some st) × IsNumbered st id x

-- What a call does to the state and the identifiers.
pub data Effect (s t : CoreStore) : Type 0 where
  nothing : s.state ≡ t.state → s.identifiers ≡ t.identifiers → Effect s t
  starts :
      (n : Text)
      → IsInstallationId n
      → s.state ≡ none
      → t.state ≡ some (first_state n)
      → s.identifiers ≡ t.identifiers
      → Effect s t
  reserves :
      (st : IdentityState) (input : NewIdentifiers) (time : ℕ)
      → s.state ≡ some st
      → store_after st input time s ≡ t
      → Effect s t
  consumes :
      (id : Text) (x : Identifier) (metadata : JsonObject)
      → lookup id s.identifiers ≡ some x
      → x.status ≡ reserved
      → s.state ≡ t.state
      → insert id (consumed x metadata) s.identifiers ≡ t.identifiers
      → Effect s t

Effect-reserve :
    (input : NewIdentifiers) (time : ℕ) (s : CoreStore)
    → IsSoundCore s
    → Effect s ((Store.reserve_identifiers input time s).1)
Effect-reserve input time s sound = elim (Option-cases s.state) [
  | inl open_place ↦
      unfold ◌>>=◌ in unfold Store.reserve_identifiers in rw open_place (nothing refl refl)
  | inr (st, there) ↦
      let (valid, above) = sound.valid st there in
      reserves st input time there
        (sym (ap (λ p. p.1) (reserve_identifiers-made s st input time there valid above)))
]

Effect-consume :
    (reservation_id id : Text) (metadata : JsonObject) (s : CoreStore)
    → Effect s ((Store.consume_reserved_identifier reservation_id id metadata s).1)
Effect-consume reservation_id id metadata s = elim (consume_cases reservation_id id metadata s) [
  | inl (e, refused) ↦
      nothing (ap (λ p. p.1.state) (sym refused)) (ap (λ p. p.1.identifiers) (sym refused))
  | inr done ↦
      consumes id done.identifier metadata done.held done.is_reserved
        (ap (λ p. p.1.state) (sym done.returned)) (ap (λ p. p.1.identifiers) (sym done.returned))
]

Effect-initialize : (id : Text) (s : CoreStore) → Effect s ((Store.initialize_identity id s).1)
Effect-initialize id s = elim (initialize_cases id s) [
  | inl same ↦
      nothing (ap (λ (x : CoreStore). x.state) (sym same))
        (ap (λ (x : CoreStore). x.identifiers) (sym same))
  | inr (n, open_place, parsed, written) ↦
      starts n (parse_installation_id-IsInstallationId id n parsed).1 open_place
        (ap (λ (x : CoreStore). x.state) written)
        (ap (λ (x : CoreStore). x.identifiers) (sym written))
]

Effect-update_command :
    (id : Text) (status : _) (s : CoreStore) → Effect s ((Store.update_command id status s).1)
unfolding ◌>>=◌ Store.update_command
Effect-update_command id status s = elim (Option-cases (lookup id s.commands)) [
  | inl absent ↦ rw absent (nothing refl refl)
  | inr (x, there) ↦ rw there (nothing refl refl)
]

Effect-update_execution :
    (id : Text) (status : _) (at : ℕ) (error : _) (s : CoreStore)
    → Effect s ((Store.update_execution id status at error s).1)
unfolding ◌>>=◌ Store.update_execution
Effect-update_execution id status at error s = elim (Option-cases (lookup id s.executions)) [
  | inl absent ↦ rw absent (nothing refl refl)
  | inr (x, there) ↦ rw there (nothing refl refl)
]

pub call_on-Effect : (c : Call) (s : CoreStore) → IsSoundCore s → Effect s (call_on c s)
unfolding ◌>>=◌ call_on Store.create_command Store.create_execution Store.create_result
    Store.create_event Store.create_audit Store.upsert_capability
call_on-Effect (initialize_identity id) s sound = Effect-initialize id s
call_on-Effect (reserve_identifiers input time) s sound = Effect-reserve input time s sound
call_on-Effect (consume_reserved_identifier r id metadata) s sound = Effect-consume r id metadata s
call_on-Effect (update_command id status) s sound = Effect-update_command id status s
call_on-Effect (update_execution id status at e) s sound = Effect-update_execution id status at e s
call_on-Effect (create_command c) s sound = nothing refl refl
call_on-Effect (create_execution e) s sound = nothing refl refl
call_on-Effect (create_result r) s sound = nothing refl refl
call_on-Effect (create_event e) s sound = nothing refl refl
call_on-Effect (create_audit a) s sound = nothing refl refl
call_on-Effect (upsert_capability c) s sound = nothing refl refl
