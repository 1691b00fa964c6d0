-- ===== src/Core/Sema.antt =====
-- SemaCore of src/core/sema-core.ts, without its listings. Each operation reads the clock once.
use sema_core.Prelude.{
  ℕ, not, Option, none, some, List, [], ◌∷◌, ◌++◌, Text, codes, lookup, truthy, get_or_else,
}
use sema_core.Identity.{pos}
use sema_core.Topology.Types.{Number, whole}
use sema_core.Core.Exec.{◌>>=◌, ◌>>◌, pure, read, throw_if, need, call}
use sema_core.Core.Types.{
  IdentityState, Lifecycle, JsonObject, json_text, json_boolean, pending, running, Identifier,
  Reservation, Command, Execution, CoreResult, CoreEvent, AuditEntry, Capability, enabled,
  unavailable, disappeared, no_identifier,
}
use sema_core.Core.Store
use sema_core.Core.Store.{Step, NewIdentifiers}
use sema_core.Core.Inputs.{
  Options, text_field, or_null, checked_count, checked_type_code, first_of, NewCommand, NewEvent,
  NewAudit, Completion, status_word, Registration, Invocation, Decision, decide, subjects_of,
}

abbrev pub initialize : Options → Step IdentityState
initialize options = Store.initialize_identity options.installation_id

abbrev pub update_command_status : (command_id : Text) → Lifecycle → Step Command
update_command_status command_id status = Store.update_command command_id status

-- `max` is `options.maxReservationSize` and `time` the clock.
module _ (max time : ℕ) where
  unfoldable pub reserve : Number → Option Text → JsonObject → Step (Reservation × List Identifier)
  reserve count type_code metadata = do
    n ← call (λ e. e) (checked_count max count)
    code ← checked_type_code (truthy type_code)
    Store.reserve_identifiers (record { count = n; type_code = code; metadata = metadata }) time

  unfoldable pub consume : (id reservation_id : Text) → JsonObject → Step Identifier
  consume id reservation_id metadata = Store.consume_reserved_identifier reservation_id id metadata

  unfoldable pub issue_identifier : Option Text → JsonObject → Step Identifier
  issue_identifier type_code metadata = do
    given ← reserve (whole (pos 1)) type_code metadata
    x ← need (first_of (given.1)) no_identifier
    consume x.id x.reservation_id metadata

  abbrev pub issue_child_installation : JsonObject → Step Identifier
  issue_child_installation metadata = issue_identifier (some (codes "INSTALLATION")) metadata

  unfoldable pub create_command : NewCommand → Step Command
  create_command input = do
    issued ←
        issue_identifier (some (codes "COMMAND"))
          (text_field (codes "commandType") input.command_type)
    Store.create_command (record {
      id = issued.id;
      command_type = input.command_type;
      actor_id = input.actor_id;
      workspace_id = input.workspace_id;
      subject_ids = input.subject_ids;
      context = input.context;
      payload = input.payload;
      status = pending;
      created_at = time;
    })

  unfoldable pub start_execution :
      (command_id : Text) (provider_id : Option Text) (context : JsonObject) → Step Execution
  start_execution command_id provider_id context = do
    issued ← issue_identifier (some (codes "EXECUTION")) (text_field (codes "commandId") command_id)
    command ← Store.update_command command_id running
    Store.create_execution (record {
      id = issued.id;
      command_id = command_id;
      provider_id = provider_id;
      status = running;
      started_at = some time;
      completed_at = none;
      context = context;
      error = none;
    })

  unfoldable pub record_event : NewEvent → Step CoreEvent
  record_event input = do
    issued ←
        issue_identifier (some (codes "EVENT")) (text_field (codes "eventType") input.event_type)
    Store.create_event (record {
      id = issued.id;
      event_type = input.event_type;
      command_id = input.command_id;
      execution_id = input.execution_id;
      subject_ids = input.subject_ids;
      data_fields = input.data_fields;
      occurred_at = time;
    })

  unfoldable pub record_audit : NewAudit → Step AuditEntry
  record_audit input = do
    issued ← issue_identifier (some (codes "AUDIT")) (text_field (codes "action") input.action)
    Store.create_audit (record {
      id = issued.id;
      action = input.action;
      actor_id = input.actor_id;
      command_id = input.command_id;
      execution_id = input.execution_id;
      subject_ids = input.subject_ids;
      evidence = input.evidence;
      occurred_at = time;
    })

  abbrev pub made_result : Completion → Text → Option Text → Step (Option CoreResult)
  made_result input execution_id none = pure none
  made_result input execution_id (some result_type) = do
    issued ←
        issue_identifier (some (codes "RESULT")) (text_field (codes "executionId") execution_id)
    result ← Store.create_result (record {
      id = issued.id;
      execution_id = execution_id;
      result_type = result_type;
      subject_ids = input.subject_ids;
      data_fields = get_or_else input.result [];
      created_at = time;
    })
    pure (some result)

  unfoldable pub complete_execution : Completion → Step (Execution × Option CoreResult × CoreEvent)
  complete_execution input = do
    execution ← Store.update_execution input.execution_id input.status time input.error
    command ← Store.update_command execution.command_id input.status
    result ← made_result input execution.id (truthy input.result_type)
    event ← record_event (record {
      event_type = codes "execution." ++ status_word input.status;
      command_id = some execution.command_id;
      execution_id = some execution.id;
      subject_ids = input.subject_ids;
      data_fields = get_or_else input.result (get_or_else input.error []);
    })
    pure (execution, result, event)

  -- `existing?.id ?? (await this.issueIdentifier(…)).id`
  abbrev pub capability_id : Text → Option Capability → Step Text
  capability_id key (some existing) = pure existing.id
  capability_id key none = do
    issued ← issue_identifier (some (codes "CAPABILITY")) (text_field (codes "capabilityKey") key)
    pure issued.id

  unfoldable pub register_capability : Registration → Step Capability
  register_capability input = do
    s ← read
    id ← capability_id input.capability_key (lookup input.capability_key s.capabilities)
    Store.upsert_capability (record {
      id = id;
      capability_key = input.capability_key;
      display_name = input.display_name;
      description = input.description;
      provider_key = input.provider_key;
      version = input.version;
      status = get_or_else input.status enabled;
      metadata = input.metadata;
    })

  unfoldable pub authorize_invocation : Invocation → Step Decision
  authorize_invocation input = do
    s ← read
    let capability = lookup input.capability_key s.capabilities
    let decision = decide capability
    audit ← record_audit (record {
      action = codes "policy.invocation.decision";
      actor_id = input.actor_id;
      command_id = none;
      execution_id = none;
      subject_ids = subjects_of capability;
      evidence =
          (codes "capabilityKey", json_text input.capability_key)
          ∷ (codes "workspaceId", or_null input.workspace_id)
          ∷ (codes "allowed", json_boolean decision.allowed)
          ∷ (codes "reason", json_text decision.reason)
          ∷ (codes "capabilityId", or_null decision.capability_id)
          ∷ [];
    })
    pure decision

  unfoldable pub resolve_capability : Invocation → Step Capability
  resolve_capability input = do
    decision ← authorize_invocation input
    throw_if (not decision.allowed) (unavailable input.capability_key)
    s ← read
    capability ←
        need (lookup input.capability_key s.capabilities) (disappeared input.capability_key)
    audit ← record_audit (record {
      action = codes "resolution.capability.selected";
      actor_id = input.actor_id;
      command_id = none;
      execution_id = none;
      subject_ids = capability.id ∷ [];
      evidence =
          (codes "capabilityKey", json_text capability.capability_key)
          ∷ (codes "providerKey", json_text capability.provider_key)
          ∷ (codes "workspaceId", or_null input.workspace_id)
          ∷ [];
    })
    pure capability
