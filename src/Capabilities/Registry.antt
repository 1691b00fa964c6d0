-- ===== src/Capabilities/Registry.antt =====
-- CapabilityRegistry of src/capabilities/registry.ts. Each operation reads the clock once.
use sema_core.Prelude.{
  ℕ, ◌+◌, Bool, false, not, ◌&&◌, Option, none, some, List, [], ◌∷◌, Text, codes, truthy, lookup,
  values, filter, length, ltb, ◌==◌, Result, ok, err,
}
use sema_core.Core.Exec.{Exec, ◌>>=◌, ◌>>◌, pure, read, throw_if, need, call}
use sema_core.Core.Types.{Json, json_text, JsonObject, enabled}
use sema_core.Capabilities.Values.{
  RecordError, Checked, checked_key, checked_version, checked_text, is_reserved_key, repeats,
  array_of, reserved_name, already_published, not_registered, not_active, no_contract,
  repeated_operation, missing_operation, already_installed, not_installed, not_here,
  stopped as not_running,
}
use sema_core.Capabilities.Records
use sema_core.Capabilities.Records.{
  Records, OperationDefinition, ChoosingWay, CapabilityVersion, ServiceVersion, ServiceInstallation,
  ServiceInstance, InstanceChange, running, stopped, lost, InstanceState,
}
use sema_core.Capabilities.Contracts.{
  checked_operations, checked_choosing, checked_declarations, checked_resources,
}
use sema_core.Capabilities.Inputs.{
  is_enabled, is_running, is_known, offered_keys, missing_of, is_extension, description_of,
  settings_ref_of, checked_capacity, offers_if_given, resources_if_given, key_metadata,
  NewCapabilityVersion, NewServiceVersion,
}

-- The store of the records and the state of what issues the IDs.
pub record Registry (W : Type 0) : Type 0 where
  pub records : Records
  pub world : W

-- `issue`: a new ID of a type, with what is recorded of it.
abbrev pub Issue : Type 0 → Type 0
Issue W = Text → JsonObject → W → Checked Text × W

module _ {W : Type 0} (issue : Issue W) (time : ℕ) where
  abbrev pub Step : Type 0 → Type 0
  Step A = Exec (Registry W) RecordError A

  abbrev issued_at : Records → Checked Text × W → Result RecordError Text × Registry W
  issued_at records (id, world) = (id, record { records = records; world = world })

  unfoldable pub new_id : Text → JsonObject → Step Text
  new_id type_code metadata s = issued_at s.records (issue type_code metadata s.world)

  abbrev pub stored : Registry W → Checked Records → Result RecordError (Unit {0}) × Registry W
  stored s (ok records) = (ok tt, record s { records = records })
  stored s (err e) = (err e, s)

  -- A method of the store that adds a record.
  unfoldable pub store : (Records → Checked Records) → Step (Unit {0})
  store add s = stored s (add s.records)

  abbrev pub new_capability :
      (key version display_name description : Text) (operations : List OperationDefinition)
      (choosing : List ChoosingWay) (id : Text)
      → CapabilityVersion
  new_capability key version display_name description operations choosing id = record {
    id = id;
    capability_key = key;
    version = version;
    display_name = display_name;
    description = description;
    operations = operations;
    choosing = choosing;
    approved = is_reserved_key key;
    legacy = false;
    status = enabled;
    created_at = time;
  }

  unfoldable pub register_capability_version :
      NewCapabilityVersion → (approved : Bool) → Step CapabilityVersion
  register_capability_version input approved = do
    key ← call (λ e. e) (checked_key input.capability_key (codes "capabilityKey"))
    version ← call (λ e. e) (checked_version input.version)
    throw_if (is_reserved_key key && not approved) reserved_name
    operations ← call (λ e. e) (checked_operations input.operations)
    choosing ← call (λ e. e) (checked_choosing input.choosing)
    s ← read
    throw_if (is_known (Records.find_capability_version key version s.records)) already_published
    id ←
        new_id (codes "CAPABILITY")
          (key_metadata (codes "capabilityKey") key (codes "version") version)
    display_name ← call (λ e. e) (checked_text input.display_name (codes "displayName") 200)
    description ← call (λ e. e) (description_of input.description)
    let capability = new_capability key version display_name description operations choosing id
    store (Records.add_capability_version capability)
    pure capability

  unfoldable pub register_service_version :
      NewServiceVersion → (approved : Bool) → Step ServiceVersion
  register_service_version input approved = do
    key ← call (λ e. e) (checked_key input.service_key (codes "serviceKey"))
    version ← call (λ e. e) (checked_version input.version)
    throw_if (is_reserved_key key && not approved) reserved_name
    capability_id ←
        call (λ e. e) (checked_text input.capability_version_id (codes "capabilityVersionId") 200)
    s ← read
    capability ← need (lookup capability_id s.records.capabilities) not_registered
    throw_if (not (is_enabled capability.status)) not_active
    throw_if capability.legacy no_contract
    operations ← call (λ e. e) (offered_keys (array_of input.operations))
    throw_if (repeats operations) repeated_operation
    throw_if (not (length (missing_of capability.operations operations) == 0)) missing_operation
    declarations ← call (λ e. e) (checked_declarations input.declarations)
    throw_if (is_known (Records.find_service_version key version capability.id s.records))
        already_published
    id ← new_id (codes "SERVICE") (key_metadata (codes "serviceKey") key (codes "version") version)
    display_name ← call (λ e. e) (checked_text input.display_name (codes "displayName") 200)
    let service : ServiceVersion = record {
      id = id;
      service_key = key;
      version = version;
      capability_version_id = capability.id;
      display_name = display_name;
      operations = operations;
      extensions = filter (is_extension capability.operations) operations;
      declarations = declarations;
      legacy = false;
      status = enabled;
      created_at = time;
    }
    store (Records.add_service_version service)
    pure service

  -- `machine` is what `machineNodeId` answers.
  unfoldable pub install :
      (machine : Text) (service_version_id settings_ref : Option Json) → Step ServiceInstallation
  install machine service_version_id settings_ref = do
    service_id ← call (λ e. e) (checked_text service_version_id (codes "serviceVersionId") 200)
    s ← read
    service ← need (lookup service_id s.records.services) not_registered
    throw_if (not (is_enabled service.status)) not_active
    throw_if (is_known (Records.find_installation service.id s.records)) already_installed
    id ←
        new_id (codes "SERVICE-INSTALLATION")
          ((codes "serviceVersionId", json_text service.id) ∷ [])
    settings ← call (λ e. e) (settings_ref_of settings_ref)
    let installation : ServiceInstallation = record {
      id = id;
      service_version_id = service.id;
      machine_node_id = machine;
      settings_ref = settings;
      endpoint_url = none;
      installed_at = time;
    }
    store (Records.add_installation installation)
    pure installation

  -- The offers are read after the ID is issued; a key that is empty is left out.
  unfoldable pub start_instance :
      (stringify : Json → Text) (installation_id capacity resources offers : Option Json)
      (application_key : Option Text)
      → Step ServiceInstance
  start_instance stringify installation_id capacity resources offers application_key = do
    given_id ← call (λ e. e) (checked_text installation_id (codes "installationId") 200)
    s ← read
    installation ← need (lookup given_id s.records.installations) not_installed
    jobs ← call (λ e. e) (checked_capacity capacity)
    id ←
        new_id (codes "SERVICE-INSTANCE") ((codes "installationId", json_text installation.id) ∷ [])
    has ← call (λ e. e) (checked_resources stringify resources)
    offered ← call (λ e. e) (offers_if_given stringify offers)
    let started : ServiceInstance = record {
      id = id;
      installation_id = installation.id;
      started_at = time;
      last_check_in_at = time;
      capacity = jobs;
      resources = has;
      state = running;
      offers = offered;
      application_key = truthy application_key;
    }
    store (Records.add_instance started)
    pure started

  abbrev pub updated :
      Registry W
      → Checked (ServiceInstance × Records)
      → Result RecordError ServiceInstance × Registry W
  updated s (ok (instance_, records)) = (ok instance_, record s { records = records })
  updated s (err e) = (err e, s)

  unfoldable pub update : Text → InstanceChange → Step ServiceInstance
  update id change s = updated s (Records.update_instance id change s.records)

  -- `runningInstance`
  unfoldable pub running_instance : Option Json → Step ServiceInstance
  running_instance id = do
    given_id ← call (λ e. e) (checked_text id (codes "instanceId") 200)
    s ← read
    found ← need (lookup given_id s.records.instances) not_here
    throw_if (not (is_running found.state)) not_running
    pure found

  unfoldable pub check_in :
      (stringify : Json → Text) (instance_id resources : Option Json) → Step ServiceInstance
  check_in stringify instance_id resources = do
    found ← running_instance instance_id
    has ← call (λ e. e) (resources_if_given stringify resources)
    update found.id (record { last_check_in_at = some time; resources = has; state = none })

  unfoldable pub stop_instance : (instance_id : Option Json) → Step ServiceInstance
  stop_instance instance_id = do
    found ← running_instance instance_id
    update found.id
        (record { last_check_in_at = some time; resources = none; state = some stopped })

  -- The loop over the instances that are lost.
  unfoldable pub mark_each : List ServiceInstance → Step (List Text)
  mark_each [] = pure []
  mark_each (i ∷ is) = do
    marked ← update i.id (record { last_check_in_at = none; resources = none; state = some lost })
    ids ← mark_each is
    pure (i.id ∷ ids)

  -- `markLost`. What was last heard before the cutoff, `time - silent`, counts.
  abbrev pub is_silent : ℕ → ServiceInstance → Bool
  is_silent silent i = is_running i.state && ltb (i.last_check_in_at + silent) time

  unfoldable pub mark_lost : (silent : ℕ) → Step (List Text)
  mark_lost silent = do s ← read; mark_each (filter (is_silent silent) (values s.records.instances))
