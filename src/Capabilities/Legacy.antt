-- ===== src/Capabilities/Legacy.antt =====
-- CapabilityRegistry.moveLegacy of src/capabilities/registry.ts: the records of before, moved over.
use sema_core.Prelude.{
  ℕ, suc, ◌&&◌, Bool, true, false, Option, none, some, List, [], ◌∷◌, Text, codes, lookup, truthy,
}
use sema_core.Core.Exec.{Exec, ◌>>=◌, ◌>>◌, pure, read}
use sema_core.Core.Types.{json_text, no_fields, Capability}
use sema_core.Capabilities.Values.{RecordError, is_reserved_key, text_of}
use sema_core.Capabilities.Records
use sema_core.Capabilities.Records.{CapabilityVersion, ServiceVersion, ServiceInstallation}
use sema_core.Capabilities.Registry.{Registry, Issue, new_id, store}
use sema_core.Capabilities.Inputs.{key_metadata, is_known}

abbrev pub moved_capability : (approved : Bool) (time : ℕ) → Capability → Text → CapabilityVersion
moved_capability approved time old id = record {
  id = id;
  capability_key = old.capability_key;
  version = old.version;
  display_name = old.display_name;
  description = old.description;
  operations = [];
  choosing = [];
  approved = approved && is_reserved_key old.capability_key;
  legacy = true;
  status = old.status;
  created_at = time;
}

abbrev pub moved_service : (time : ℕ) → Capability → CapabilityVersion → Text → ServiceVersion
moved_service time old capability id = record {
  id = id;
  service_key = old.provider_key;
  version = old.version;
  capability_version_id = capability.id;
  display_name = old.provider_key;
  operations = [];
  extensions = [];
  declarations = no_fields;
  legacy = true;
  status = old.status;
  created_at = time;
}

abbrev pub moved_installation :
    (machine : Text) (time : ℕ) → Capability → ServiceVersion → Text → ServiceInstallation
moved_installation machine time old service id = record {
  id = id;
  service_version_id = service.id;
  machine_node_id = machine;
  settings_ref = none;
  endpoint_url = truthy (text_of (lookup (codes "endpointUrl") old.metadata));
  installed_at = time;
}

-- The record that is there, or a new one and that it is new.
abbrev pub there_or :
    {W A : Type 0}
    → Option A
    → Exec (Registry W) RecordError A
    → Exec (Registry W) RecordError (A × Bool)
there_or (some found) make = pure (found, false)
there_or none make = do made ← make; pure (made, true)

module _ {W : Type 0} (issue : Issue W) (time : ℕ) (machine : Text) (approved : Bool) where
  -- The old ID where it is free.
  abbrev pub id_for : Capability → Bool → Exec (Registry W) RecordError Text
  id_for old true =
      new_id issue time (codes "CAPABILITY")
        (key_metadata (codes "capabilityKey") old.capability_key (codes "version") old.version)
  id_for old false = pure old.id

  unfoldable pub move_capability : Capability → Exec (Registry W) RecordError CapabilityVersion
  move_capability old = do
    s ← read
    id ← id_for old (is_known (lookup old.id s.records.capabilities))
    store issue time (Records.add_capability_version (moved_capability approved time old id))
    pure (moved_capability approved time old id)

  unfoldable pub move_service :
      Capability → CapabilityVersion → Exec (Registry W) RecordError ServiceVersion
  move_service old capability = do
    id ←
        new_id issue time (codes "SERVICE")
          (key_metadata (codes "serviceKey") old.provider_key (codes "version") old.version)
    store issue time (Records.add_service_version (moved_service time old capability id))
    pure (moved_service time old capability id)

  unfoldable pub move_installation :
      Capability → ServiceVersion → Exec (Registry W) RecordError ServiceInstallation
  move_installation old service = do
    id ←
        new_id issue time (codes "SERVICE-INSTALLATION")
          ((codes "serviceVersionId", json_text service.id) ∷ [])
    store issue time (Records.add_installation (moved_installation machine time old service id))
    pure (moved_installation machine time old service id)

  -- One record of before: whether its capability version is new.
  unfoldable pub move_one : Capability → Exec (Registry W) RecordError Bool
  move_one old = do
    s ← read
    capability ←
        there_or (Records.find_capability_version old.capability_key old.version s.records)
          (move_capability old)
    t ← read
    service ←
        there_or
          (Records.find_service_version old.provider_key old.version capability.0.id t.records)
          (move_service old capability.0)
    u ← read
    installation ←
        there_or (Records.find_installation service.0.id u.records)
          (move_installation old service.0)
    pure capability.1

  abbrev pub one_more : Bool → ℕ → ℕ
  one_more true moved = suc moved
  one_more false moved = moved

  unfoldable pub move_legacy : List Capability → Exec (Registry W) RecordError ℕ
  move_legacy [] = pure 0
  move_legacy (old ∷ olds) = do
    is_new ← move_one old
    moved ← move_legacy olds
    pure (one_more is_new moved)
