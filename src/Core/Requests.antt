-- ===== src/Core/Requests.antt =====
-- The methods of the store that change it, called one after the other.
use sema_core.Prelude.{ℕ, Option, List, [], ◌∷◌, Text}
use sema_core.Core.Types.{
  JsonObject, Lifecycle, Command, Execution, CoreResult, CoreEvent, AuditEntry, Capability,
}
use sema_core.Core.Store
use sema_core.Core.Store.{CoreStore, NewIdentifiers}

pub data Call : Type 0 where
  initialize_identity : Text → Call
  reserve_identifiers : NewIdentifiers → (time : ℕ) → Call
  consume_reserved_identifier : (reservation_id id : Text) → JsonObject → Call
  create_command : Command → Call
  update_command : Text → Lifecycle → Call
  create_execution : Execution → Call
  update_execution : Text → Lifecycle → (completed_at : ℕ) → Option JsonObject → Call
  create_result : CoreResult → Call
  create_event : CoreEvent → Call
  create_audit : AuditEntry → Call
  upsert_capability : Capability → Call

-- The store that a call leaves, whether it returns or throws.
unfoldable pub call_on : Call → CoreStore → CoreStore
call_on (initialize_identity id) s = (Store.initialize_identity id s).1
call_on (reserve_identifiers input time) s = (Store.reserve_identifiers input time s).1
call_on (consume_reserved_identifier reservation_id id metadata) s =
    (Store.consume_reserved_identifier reservation_id id metadata s).1
call_on (create_command command) s = (Store.create_command command s).1
call_on (update_command id status) s = (Store.update_command id status s).1
call_on (create_execution execution) s = (Store.create_execution execution s).1
call_on (update_execution id status at error) s = (Store.update_execution id status at error s).1
call_on (create_result result) s = (Store.create_result result s).1
call_on (create_event event) s = (Store.create_event event s).1
call_on (create_audit entry) s = (Store.create_audit entry s).1
call_on (upsert_capability capability) s = (Store.upsert_capability capability s).1

unfoldable pub calls_on : List Call → CoreStore → CoreStore
calls_on [] s = s
calls_on (c ∷ cs) s = calls_on cs (call_on c s)
