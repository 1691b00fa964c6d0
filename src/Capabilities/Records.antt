-- ===== src/Capabilities/Records.antt =====
-- src/capabilities/records.ts: the four records and InMemoryCapabilityStore.
use sema_core.Prelude.{
  ℕ, Bool, true, false, ◌&&◌, Option, none, some, List, [], ◌∷◌, Text, codes, Dict, lookup, insert,
  has, text_eq, if◌then◌else◌, ok, ◌>>=◌, ◌>>◌, refuse_if, require,
}
use sema_core.Core.Types.{Fields, CapabilityStatus}
use sema_core.Capabilities.Offers.{Offers}
use sema_core.Capabilities.Values.{
  Checked, exists_already, already_published, already_installed, not_here,
}

pub record AnswerShape : Type 0 where
  pub input : Text
  pub output : Text

pub record OperationDefinition : Type 0 where
  pub key : Text
  pub required : Bool
  pub description : Option Text
  pub input : Option Fields
  pub output : Option Fields
  pub answer_shape : Option AnswerShape
  pub job : Option Text

-- `ChoosingWay`
pub data ChoosingWay : Type 0 where
  bound dynamic consensus policy : ChoosingWay

pub record CapabilityVersion : Type 0 where
  pub id : Text
  pub capability_key : Text
  pub version : Text
  pub display_name : Text
  pub description : Text
  pub operations : List OperationDefinition
  pub choosing : List ChoosingWay
  pub approved : Bool
  pub legacy : Bool
  pub status : CapabilityStatus
  pub created_at : ℕ

pub record ServiceVersion : Type 0 where
  pub id : Text
  pub service_key : Text
  pub version : Text
  pub capability_version_id : Text
  pub display_name : Text
  pub operations : List Text
  pub extensions : List Text
  pub declarations : Fields
  pub legacy : Bool
  pub status : CapabilityStatus
  pub created_at : ℕ

pub record ServiceInstallation : Type 0 where
  pub id : Text
  pub service_version_id : Text
  pub machine_node_id : Text
  pub settings_ref : Option Text
  pub endpoint_url : Option Text
  pub installed_at : ℕ

pub data InstanceState : Type 0 where
  running stopped lost : InstanceState

pub record ServiceInstance : Type 0 where
  pub id : Text
  pub installation_id : Text
  pub started_at : ℕ
  pub last_check_in_at : ℕ
  pub capacity : ℕ
  pub resources : Fields
  pub state : InstanceState
  pub offers : Option Offers
  pub application_key : Option Text

pub record Records : Type 0 where
  pub capabilities : Dict CapabilityVersion
  pub services : Dict ServiceVersion
  pub installations : Dict ServiceInstallation
  pub instances : Dict ServiceInstance

abbrev pub empty : Records
empty = record { capabilities = []; services = []; installations = []; instances = [] }

-- `[...map.values()].find(test)`
unfoldable pub find_in {ℓ} : {V : Type ℓ} → (V → Bool) → Dict V → Option V
find_in test [] = none
find_in test ((key, value) ∷ rest) =
    let later = find_in test rest in if test value then some value else later

abbrev pub is_capability : Text → Text → CapabilityVersion → Bool
is_capability key version c = text_eq c.capability_key key && text_eq c.version version

abbrev pub is_service : Text → Text → Text → ServiceVersion → Bool
is_service key version capability_version_id s =
    text_eq s.service_key key
    && text_eq s.version version
    && text_eq s.capability_version_id capability_version_id

abbrev pub is_installation_of : Text → ServiceInstallation → Bool
is_installation_of service_version_id i = text_eq i.service_version_id service_version_id

unfoldable pub find_capability_version : Text → Text → Records → Option CapabilityVersion
find_capability_version key version r = find_in (is_capability key version) r.capabilities

unfoldable pub find_service_version : Text → Text → Text → Records → Option ServiceVersion
find_service_version key version capability_version_id r =
    find_in (is_service key version capability_version_id) r.services

unfoldable pub find_installation : Text → Records → Option ServiceInstallation
find_installation service_version_id r =
    find_in (is_installation_of service_version_id) r.installations

abbrev pub is_found {ℓ} : {V : Type ℓ} → Option V → Bool
is_found none = false
is_found (some v) = true

-- `add`
abbrev pub add_to {ℓ} : {V : Type ℓ} → Text → V → Text → Dict V → Checked (Dict V)
add_to id record_ what map = do
  refuse_if (has id map) (exists_already what)
  ok (insert id record_ map)

unfoldable pub add_capability_version : CapabilityVersion → Records → Checked Records
add_capability_version c r = do
  refuse_if (is_found (find_capability_version c.capability_key c.version r)) already_published
  map ← add_to c.id c (codes "Capability version") r.capabilities
  ok (record r { capabilities = map })

unfoldable pub add_service_version : ServiceVersion → Records → Checked Records
add_service_version s r = do
  refuse_if (is_found (find_service_version s.service_key s.version s.capability_version_id r))
      already_published
  map ← add_to s.id s (codes "Service version") r.services
  ok (record r { services = map })

unfoldable pub add_installation : ServiceInstallation → Records → Checked Records
add_installation i r = do
  refuse_if (is_found (find_installation i.service_version_id r)) already_installed
  map ← add_to i.id i (codes "Installation") r.installations
  ok (record r { installations = map })

unfoldable pub add_instance : ServiceInstance → Records → Checked Records
add_instance i r = do
  map ← add_to i.id i (codes "Instance") r.instances
  ok (record r { instances = map })

-- The parts of an instance that an update may change; `none` leaves a part as it is.
pub record InstanceChange : Type 0 where
  pub last_check_in_at : Option ℕ
  pub resources : Option Fields
  pub state : Option InstanceState

abbrev pub or_kept {ℓ} : {A : Type ℓ} → Option A → A → A
or_kept none kept = kept
or_kept (some value) kept = value

abbrev pub changed_instance : InstanceChange → ServiceInstance → ServiceInstance
changed_instance change i = record i {
  last_check_in_at = or_kept change.last_check_in_at i.last_check_in_at;
  resources = or_kept change.resources i.resources;
  state = or_kept change.state i.state;
}

unfoldable pub update_instance :
    Text → InstanceChange → Records → Checked (ServiceInstance × Records)
update_instance id change r = do
  item ← require (lookup id r.instances) not_here
  let next = changed_instance change item
  ok (next, record r { instances = insert id next r.instances })
