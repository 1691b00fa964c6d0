-- ===== src/Core/Inputs.antt =====
-- What the operations of src/core/sema-core.ts take and answer, and their pure parts.
use sema_core.Prelude.{
  ℕ, Bool, true, false, Option, none, some, List, [], ◌∷◌, Text, codes, ltb, leb, ◌^◌, ◌||◌,
  if◌then◌else◌, Result, ok, err,
}
use sema_core.Identity.{pos, normalize_type_code, IdentityError, parse_installation_id}
use sema_core.Topology.Types.{Number, whole}
use sema_core.Core.Exec.{◌>>=◌, pure, call}
use sema_core.Core.Types.{
  JsonObject, json_text, json_null, Json, Lifecycle, pending, running, waiting, cancelled, failed,
  success, Identifier, Capability, CapabilityStatus, enabled, disabled, CoreError, identity,
  bad_count, bad_maximum,
}
use sema_core.Core.Store.{Step}

abbrev pub text_field : Text → Text → JsonObject
text_field key value = (key, json_text value) ∷ []

abbrev pub or_null : Option Text → Json
or_null none = json_null
or_null (some value) = json_text value

-- `Number.isSafeInteger(count) && count >= 1 && count <= max`, for a maximum that is one.
abbrev pub checked_count : ℕ → Number → Result CoreError ℕ
checked_count max (whole (pos n)) = if ltb n 1 || ltb max n then err bad_count else ok n
checked_count max _ = err bad_count

abbrev pub checked_type_code : Option Text → Step (Option Text)
checked_type_code none = pure none
checked_type_code (some code) = do
  normalized ← call identity (normalize_type_code code)
  pure (some normalized)

-- `identifiers[0]!`
abbrev pub first_of : List Identifier → Option Identifier
first_of [] = none
first_of (x ∷ xs) = some x

pub record NewCommand : Type 0 where
  pub command_type : Text
  pub actor_id : Option Text
  pub workspace_id : Option Text
  pub subject_ids : List Text
  pub context : JsonObject
  pub payload : JsonObject

pub record NewEvent : Type 0 where
  pub event_type : Text
  pub command_id : Option Text
  pub execution_id : Option Text
  pub subject_ids : List Text
  pub data_fields : JsonObject

pub record NewAudit : Type 0 where
  pub action : Text
  pub actor_id : Option Text
  pub command_id : Option Text
  pub execution_id : Option Text
  pub subject_ids : List Text
  pub evidence : JsonObject

pub record Completion : Type 0 where
  pub execution_id : Text
  pub status : Lifecycle
  pub result_type : Option Text
  pub subject_ids : List Text
  pub result : Option JsonObject
  pub error : Option JsonObject

-- `input.status.toLowerCase()`
abbrev pub status_word : Lifecycle → Text
status_word pending = codes "pending"
status_word running = codes "running"
status_word waiting = codes "waiting"
status_word cancelled = codes "cancelled"
status_word failed = codes "failed"
status_word success = codes "success"

pub record Registration : Type 0 where
  pub capability_key : Text
  pub display_name : Text
  pub description : Text
  pub provider_key : Text
  pub version : Text
  pub status : Option CapabilityStatus
  pub metadata : JsonObject

pub record Invocation : Type 0 where
  pub capability_key : Text
  pub actor_id : Option Text
  pub workspace_id : Option Text

pub record Decision : Type 0 where
  pub allowed : Bool
  pub reason : Text
  pub capability_id : Option Text

abbrev pub decide : Option Capability → Decision
decide none = record {
  allowed = false;
  reason = codes "capability-unavailable";
  capability_id = none;
}
decide (some c) = elim c.status [
  | enabled ↦ record {
    allowed = true;
    reason = codes "local-active-capability";
    capability_id = some c.id;
  }
  | disabled ↦ record {
    allowed = false;
    reason = codes "capability-unavailable";
    capability_id = some c.id;
  }
]

abbrev pub subjects_of : Option Capability → List Text
subjects_of none = []
subjects_of (some c) = c.id ∷ []

-- The test of `options.maxReservationSize`: a safe integer above zero.
abbrev pub checked_maximum : Number → Result CoreError ℕ
checked_maximum (whole (pos n)) = if ltb n 1 || leb (2 ^ 53) n then err bad_maximum else ok n
checked_maximum _ = err bad_maximum

-- The InstallationID and the options of a new SemaCore.
pub record Options : Type 0 where
  pub installation_id : Text
  pub max_reservation_size : ℕ

abbrev with_id : Text → Result CoreError ℕ → Result CoreError Options
with_id id (ok max) = ok (record { installation_id = id; max_reservation_size = max })
with_id id (err e) = err e

abbrev made_options : Number → Result IdentityError Text → Result CoreError Options
made_options max (err e) = err (identity e)
made_options max (ok id) = with_id id (checked_maximum max)

-- `constructor`
unfoldable pub new_core : Text → Number → Result CoreError Options
new_core installation_id max = made_options max (parse_installation_id installation_id)

-- `setMaxReservationSize`
abbrev set_maximum_of : Options → Result CoreError ℕ → Result CoreError Options
set_maximum_of options (ok max) = ok (record options { max_reservation_size = max })
set_maximum_of options (err e) = err e

unfoldable pub set_max_reservation_size : Number → Options → Result CoreError Options
set_max_reservation_size value options = set_maximum_of options (checked_maximum value)
