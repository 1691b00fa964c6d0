-- ===== src/Core/Types.antt =====
-- src/core/types.ts and the identity state of src/core/store.ts. A time is the clock's reading.
use sema_core.Prelude.{ℕ, Bool, Option, List, [], ◌∷◌, Text, Dict, insert}
use sema_core.Identity.{ℤ, IdentityError}

-- `JsonValue`; a number is the decimal that JavaScript prints for it, `mantissa / 10 ^ scale`.
mutual
  pub data Json : Type 0 where
    json_null : Json
    json_boolean : Bool → Json
    json_number : (mantissa : ℤ) (scale : ℕ) → Json
    json_text : Text → Json
    json_array : Items → Json
    json_object : Fields → Json

  pub data Items : Type 0 where
    no_items : Items
    json_item : Json → Items → Items

  pub data Fields : Type 0 where
    no_fields : Fields
    json_field : Text → Json → Fields → Fields

abbrev pub JsonObject : Type 0
JsonObject = Dict Json

-- `{ ...object, ...more }`
unfoldable pub merge : JsonObject → JsonObject → JsonObject
merge object [] = object
merge object ((key, value) ∷ more) = merge (insert key value object) more

pub data Lifecycle : Type 0 where
  pending running waiting cancelled failed success : Lifecycle

pub data IdentifierStatus : Type 0 where
  reserved issued : IdentifierStatus

pub data Activity : Type 0 where
  active suspended : Activity

pub record IdentityState : Type 0 where
  pub installation_id : Text
  pub next_local_id : ℕ
  pub status : Activity

pub record Identifier : Type 0 where
  pub id : Text
  pub reservation_id : Text
  pub installation_id : Text
  pub local_value : ℕ
  pub local_code : Text
  pub type_code : Option Text
  pub status : IdentifierStatus
  pub metadata : JsonObject

pub record Reservation : Type 0 where
  pub id : Text
  pub installation_id : Text
  pub first_local_value : ℕ
  pub count : ℕ
  pub type_code : Option Text
  pub metadata : JsonObject
  pub created_at : ℕ

pub record Command : Type 0 where
  pub id : Text
  pub command_type : Text
  pub actor_id : Option Text
  pub workspace_id : Option Text
  pub subject_ids : List Text
  pub context : JsonObject
  pub payload : JsonObject
  pub status : Lifecycle
  pub created_at : ℕ

pub record Execution : Type 0 where
  pub id : Text
  pub command_id : Text
  pub provider_id : Option Text
  pub status : Lifecycle
  pub started_at : Option ℕ
  pub completed_at : Option ℕ
  pub context : JsonObject
  pub error : Option JsonObject

pub record CoreResult : Type 0 where
  pub id : Text
  pub execution_id : Text
  pub result_type : Text
  pub subject_ids : List Text
  pub data_fields : JsonObject
  pub created_at : ℕ

pub record CoreEvent : Type 0 where
  pub id : Text
  pub event_type : Text
  pub command_id : Option Text
  pub execution_id : Option Text
  pub subject_ids : List Text
  pub data_fields : JsonObject
  pub occurred_at : ℕ

pub record AuditEntry : Type 0 where
  pub id : Text
  pub action : Text
  pub actor_id : Option Text
  pub command_id : Option Text
  pub execution_id : Option Text
  pub subject_ids : List Text
  pub evidence : JsonObject
  pub occurred_at : ℕ

pub data CapabilityStatus : Type 0 where
  enabled disabled : CapabilityStatus

pub record Capability : Type 0 where
  pub id : Text
  pub capability_key : Text
  pub display_name : Text
  pub description : Text
  pub provider_key : Text
  pub version : Text
  pub status : CapabilityStatus
  pub metadata : JsonObject

-- The messages that the store and SEMA Core throw.
pub data CoreError : Type 0 where
  identity : IdentityError → CoreError
  other_installation installation_suspended not_initialized no_reservation : CoreError
  not_in_reservation already_consumed no_command no_execution bad_count bad_maximum no_identifier :
      CoreError
  unavailable disappeared : Text → CoreError
