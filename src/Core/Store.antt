-- ===== src/Core/Store.antt =====
-- InMemorySemaCoreStore of src/stores/in-memory-store.ts, without its listings.
use sema_core.Prelude.{
  ℕ, zero, suc, ◌+◌, Bool, true, false, not, Option, none, some, List, [], ◌∷◌, ◌++◌, Text, Dict,
  lookup, insert, has, text_eq, get_or_else, if◌then◌else◌,
}
use sema_core.Identity.{pos, encode, format_key_id, parse_installation_id}
use sema_core.Core.Exec.{Exec, ◌>>=◌, ◌>>◌, pure, read, write, throw_if, need, call}
use sema_core.Core.Types.{
  JsonObject, merge, Lifecycle, IdentifierStatus, reserved, issued, Activity, active, suspended,
  IdentityState, Identifier, Reservation, Command, Execution, CoreResult, CoreEvent, AuditEntry,
  Capability, CoreError, identity, other_installation, installation_suspended, not_initialized,
  no_reservation, not_in_reservation, already_consumed, no_command, no_execution,
}

pub record CoreStore : Type 0 where
  pub state : Option IdentityState
  pub reservations : Dict Reservation
  pub identifiers : Dict Identifier
  pub commands : Dict Command
  pub executions : Dict Execution
  pub capabilities : Dict Capability
  pub results : List CoreResult
  pub events : List CoreEvent
  pub audits : List AuditEntry

abbrev pub empty : CoreStore
empty = record {
  state = none;
  reservations = [];
  identifiers = [];
  commands = [];
  executions = [];
  capabilities = [];
  results = [];
  events = [];
  audits = [];
}

abbrev pub Step : Type 0 → Type 0
Step A = Exec CoreStore CoreError A

abbrev pub is_active : Activity → Bool
is_active active = true
is_active suspended = false

abbrev pub first_state : Text → IdentityState
first_state installation_id = record {
  installation_id = installation_id;
  next_local_id = 1;
  status = active;
}

unfoldable pub initialize_identity : Text → Step IdentityState
initialize_identity installation_id = do
  normalized ← call identity (parse_installation_id installation_id)
  s ← read
  let state = get_or_else s.state (first_state normalized)
  write (λ t. record t { state = some state })
  throw_if (not (text_eq state.installation_id normalized)) other_installation
  throw_if (not (is_active state.status)) installation_suspended
  pure state

pub record NewIdentifiers : Type 0 where
  pub count : ℕ
  pub type_code : Option Text
  pub metadata : JsonObject

abbrev pub key_id : Text → ℕ → Step Text
key_id installation_id local_value = call identity (format_key_id installation_id (pos local_value))

abbrev pub set_identifier : Identifier → CoreStore → CoreStore
set_identifier x s = record s { identifiers = insert x.id x s.identifiers }

-- The loop that makes the identifiers, from the next local value on.
unfoldable pub make_identifiers : Text → Text → NewIdentifiers → ℕ → ℕ → Step (List Identifier)
make_identifiers installation_id reservation_id input zero local_value = pure []
make_identifiers installation_id reservation_id input (suc more) local_value = do
  id ← key_id installation_id local_value
  let identifier : Identifier = record {
    id = id;
    reservation_id = reservation_id;
    installation_id = installation_id;
    local_value = local_value;
    local_code = encode local_value;
    type_code = input.type_code;
    status = reserved;
    metadata = input.metadata;
  }
  write (set_identifier identifier)
  rest ← make_identifiers installation_id reservation_id input more (suc local_value)
  pure (identifier ∷ rest)

unfoldable pub reserve_identifiers : NewIdentifiers → ℕ → Step (Reservation × List Identifier)
reserve_identifiers input time = do
  s ← read
  state ← need s.state not_initialized
  reservation_id ← key_id state.installation_id state.next_local_id
  let reservation : Reservation = record {
    id = reservation_id;
    installation_id = state.installation_id;
    first_local_value = state.next_local_id;
    count = input.count;
    type_code = input.type_code;
    metadata = input.metadata;
    created_at = time;
  }
  identifiers ←
      make_identifiers state.installation_id reservation_id input input.count state.next_local_id
  write (λ t. record t {
    state = some (record state { next_local_id = state.next_local_id + input.count });
    reservations = insert reservation.id reservation t.reservations;
  })
  pure (reservation, identifiers)

abbrev pub is_reserved : IdentifierStatus → Bool
is_reserved reserved = true
is_reserved issued = false

abbrev pub in_reservation : Text → Option Identifier → Option Identifier
in_reservation reservation_id none = none
in_reservation reservation_id (some x) =
    if text_eq x.reservation_id reservation_id then some x else none

unfoldable pub consume_reserved_identifier : Text → Text → JsonObject → Step Identifier
consume_reserved_identifier reservation_id id metadata = do
  s ← read
  throw_if (not (has reservation_id s.reservations)) no_reservation
  identifier ← need (in_reservation reservation_id (lookup id s.identifiers)) not_in_reservation
  throw_if (not (is_reserved identifier.status)) already_consumed
  let consumed : Identifier = record identifier {
    status = issued;
    metadata = merge identifier.metadata metadata;
  }
  write (λ t. record t { identifiers = insert id consumed t.identifiers })
  pure consumed

unfoldable pub create_command : Command → Step Command
create_command command = do
  write (λ s. record s { commands = insert command.id command s.commands })
  pure command

unfoldable pub update_command : Text → Lifecycle → Step Command
update_command id status = do
  s ← read
  command ← need (lookup id s.commands) no_command
  let next : Command = record command { status = status }
  write (λ t. record t { commands = insert id next t.commands })
  pure next

unfoldable pub create_execution : Execution → Step Execution
create_execution execution = do
  write (λ s. record s { executions = insert execution.id execution s.executions })
  pure execution

-- The update of an execution, as SEMA Core makes it.
unfoldable pub update_execution : Text → Lifecycle → ℕ → Option JsonObject → Step Execution
update_execution id status completed_at error = do
  s ← read
  execution ← need (lookup id s.executions) no_execution
  let next : Execution = record execution {
    status = status;
    completed_at = some completed_at;
    error = error;
  }
  write (λ t. record t { executions = insert id next t.executions })
  pure next

unfoldable pub create_result : CoreResult → Step CoreResult
create_result result = do write (λ s. record s { results = s.results ++ result ∷ [] }); pure result

unfoldable pub create_event : CoreEvent → Step CoreEvent
create_event event = do write (λ s. record s { events = s.events ++ event ∷ [] }); pure event

unfoldable pub create_audit : AuditEntry → Step AuditEntry
create_audit entry = do write (λ s. record s { audits = s.audits ++ entry ∷ [] }); pure entry

unfoldable pub upsert_capability : Capability → Step Capability
upsert_capability capability = do
  write
      (λ s. record s { capabilities = insert capability.capability_key capability s.capabilities })
  pure capability
