-- ===== src/Capabilities/Added.antt =====
-- What the additions of src/capabilities/records.ts write, and which records are alike.
use sema_core.Prelude.{text_eq_iff, ◌≡◌, ◌⊎◌, arith, true, false, insert, has, ok}
use sema_core.Capabilities.Records.{
  Records, CapabilityVersion, ServiceVersion, ServiceInstallation, ServiceInstance, is_found,
  is_capability, is_service, is_installation_of, find_capability_version, find_service_version,
  find_installation, add_capability_version, add_service_version, add_installation, add_instance,
}
use sema_core.Capabilities.Consistent.{SameContract, SameService, SameInstalled}

pub same_capability :
    (c d : CapabilityVersion)
    → SameContract c d ⊎ SameContract d c
    → is_capability c.capability_key c.version d ≡ true
same_capability c d same =
    ground (arith, text_eq_iff d.capability_key c.capability_key, text_eq_iff d.version c.version)

pub same_service :
    (s t : ServiceVersion)
    → SameService s t ⊎ SameService t s
    → is_service s.service_key s.version s.capability_version_id t ≡ true
same_service s t same = ground (
  arith,
  text_eq_iff t.service_key s.service_key,
  text_eq_iff t.version s.version,
  text_eq_iff t.capability_version_id s.capability_version_id,
)

pub same_installed :
    (i n : ServiceInstallation)
    → SameInstalled i n ⊎ SameInstalled n i
    → is_installation_of i.service_version_id n ≡ true
same_installed i n same = ground (arith, text_eq_iff n.service_version_id i.service_version_id)

pub added_capability :
    (c : CapabilityVersion) (r t : Records)
    → add_capability_version c r ≡ ok t
    → (is_found (find_capability_version c.capability_key c.version r) ≡ false)
      × (has c.id r.capabilities ≡ false)
      × (record r { capabilities = insert c.id c r.capabilities } ≡ t)
unfolding add_capability_version
added_capability c r t h = (ground (arith), ground (arith), ground (arith))

pub added_service :
    (s : ServiceVersion) (r t : Records)
    → add_service_version s r ≡ ok t
    → (is_found (find_service_version s.service_key s.version s.capability_version_id r) ≡ false)
      × (has s.id r.services ≡ false)
      × (record r { services = insert s.id s r.services } ≡ t)
unfolding add_service_version
added_service s r t h = (ground (arith), ground (arith), ground (arith))

pub added_installation :
    (i : ServiceInstallation) (r t : Records)
    → add_installation i r ≡ ok t
    → (is_found (find_installation i.service_version_id r) ≡ false)
      × (has i.id r.installations ≡ false)
      × (record r { installations = insert i.id i r.installations } ≡ t)
unfolding add_installation
added_installation i r t h = (ground (arith), ground (arith), ground (arith))

pub added_instance :
    (i : ServiceInstance) (r t : Records)
    → add_instance i r ≡ ok t
    → (has i.id r.instances ≡ false) × (record r { instances = insert i.id i r.instances } ≡ t)
unfolding add_instance
added_instance i r t h = (ground (arith), ground (arith))
