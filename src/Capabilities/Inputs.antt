-- ===== src/Capabilities/Inputs.antt =====
-- What CapabilityRegistry of src/capabilities/registry.ts is given, and the checks of it.
use sema_core.Prelude.{
  ℕ, Bool, true, false, not, ◌&&◌, Option, none, some, List, [], ◌∷◌, Text, codes, filter, leb,
  ◌==◌, if◌then◌else◌, ok, err,
}
use sema_core.Identity.{pos}
use sema_core.Core.Types.{
  Json, json_text, json_number, JsonObject, Fields, CapabilityStatus, enabled, disabled,
}
use sema_core.Capabilities.Values.{
  Checked, checked_text, includes, bad_operation_list, bad_capacity,
}
use sema_core.Capabilities.Offers.{Offers, offers_of}
use sema_core.Capabilities.Records.{OperationDefinition, running, InstanceState}
use sema_core.Capabilities.Contracts.{checked_resources, keys_of}

abbrev pub is_enabled : CapabilityStatus → Bool
is_enabled enabled = true
is_enabled disabled = false

abbrev pub is_running : InstanceState → Bool
is_running running = true
is_running _ = false

abbrev pub is_known {ℓ} : {A : Type ℓ} → Option A → Bool
is_known none = false
is_known (some a) = true

pub record NewCapabilityVersion : Type 0 where
  pub capability_key : Option Json
  pub version : Option Json
  pub display_name : Option Json
  pub description : Option Json
  pub operations : Option Json
  pub choosing : Option Json

pub record NewServiceVersion : Type 0 where
  pub service_key : Option Json
  pub version : Option Json
  pub capability_version_id : Option Json
  pub display_name : Option Json
  pub operations : Option Json
  pub declarations : Option Json

-- `input.operations.map((value) => text(value, 'operation'))`
unfoldable pub each_key : List Json → Checked (List Text)
each_key [] = ok []
each_key (value ∷ rest) = elim (checked_text (some value) (codes "operation") 200) [
  | err e ↦ err e
  | ok first ↦ elim (each_key rest) [ err e ↦ err e | ok keys ↦ ok (first ∷ keys) ]
]

abbrev pub keys_in : List Json → Checked (List Text)
keys_in [] = err bad_operation_list
keys_in (value ∷ rest) = each_key (value ∷ rest)

abbrev pub offered_keys : Option (List Json) → Checked (List Text)
offered_keys none = err bad_operation_list
offered_keys (some items) = keys_in items

abbrev pub is_missing : List Text → OperationDefinition → Bool
is_missing offered o = o.required && not (includes o.key offered)

-- The required operations that are not offered.
abbrev pub missing_of : List OperationDefinition → List Text → List OperationDefinition
missing_of operations offered = filter (is_missing offered) operations

abbrev pub is_extension : List OperationDefinition → Text → Bool
is_extension operations key = not (includes key (keys_of operations))

abbrev pub description_of : Option Json → Checked Text
description_of none = ok []
description_of (some value) = checked_text (some value) (codes "description") 2000

abbrev pub settings_ref_of : Option Json → Checked (Option Text)
settings_ref_of none = ok none
settings_ref_of (some value) = elim (checked_text (some value) (codes "settingsRef") 500) [
  | ok t ↦ ok (some t)
  | err e ↦ err e
]

-- `capacity`: a number from 1 to 1000, 1 when it is left out.
unfoldable pub checked_capacity : Option Json → Checked ℕ
checked_capacity none = ok 1
checked_capacity (some (json_number (pos n) scale)) =
    if (scale == 0) && leb 1 n && leb n 1000 then ok n else err bad_capacity
checked_capacity (some _) = err bad_capacity

abbrev pub offers_if_given : (Json → Text) → Option Json → Checked (Option Offers)
offers_if_given stringify none = ok none
offers_if_given stringify (some value) = elim (offers_of stringify value) [
  | ok o ↦ ok (some o)
  | err e ↦ err e
]

abbrev pub resources_if_given : (Json → Text) → Option Json → Checked (Option Fields)
resources_if_given stringify none = ok none
resources_if_given stringify (some value) = elim (checked_resources stringify (some value)) [
  | ok r ↦ ok (some r)
  | err e ↦ err e
]

abbrev pub key_metadata : Text → Text → Text → Text → JsonObject
key_metadata name key other version = (name, json_text key) ∷ (other, json_text version) ∷ []
