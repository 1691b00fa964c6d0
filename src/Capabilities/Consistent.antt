-- ===== src/Capabilities/Consistent.antt =====
-- What holds of the records together, and that adding one keeps it.
use sema_core.Prelude.{◌≡◌, ◌≢◌, refl, sym, ◌∙◌, ap, true, false, [], Text}
use sema_core.Capabilities.Records.{
  Records, CapabilityVersion, ServiceVersion, ServiceInstallation, ServiceInstance, running,
}
use sema_core.Capabilities.Inputs.{missing_of}
use sema_core.Capabilities.Entries.{IsIn, IsMap, Named, Once}

-- A service that was registered names a written contract and offers every operation that it
-- requires. A service moved from the old records offers none, whatever its contract requires.
abbrev pub Implements : CapabilityVersion → ServiceVersion → Type 0
Implements c s =
    (s.legacy ≡ false → (c.legacy ≡ false) × (missing_of c.operations s.operations ≡ []))
    × (s.legacy ≡ true → s.operations ≡ [])

abbrev pub SameContract : CapabilityVersion → CapabilityVersion → Type 0
SameContract c d = (c.capability_key ≡ d.capability_key) × (c.version ≡ d.version)

abbrev pub SameService : ServiceVersion → ServiceVersion → Type 0
SameService s t =
    (s.service_key ≡ t.service_key)
    × (s.version ≡ t.version)
    × (s.capability_version_id ≡ t.capability_version_id)

abbrev pub SameInstalled : ServiceInstallation → ServiceInstallation → Type 0
SameInstalled i n = i.service_version_id ≡ n.service_version_id

-- Maps with one key for each record, the ID it bears; no contract, service of a contract or
-- installation of a service twice; and each record refers to one that is there.
pub record IsConsistent (r : Records) : Type 0 where
  pub capability_map : IsMap r.capabilities
  pub service_map : IsMap r.services
  pub installation_map : IsMap r.installations
  pub instance_map : IsMap r.instances
  pub capability_id : Named (λ (x : CapabilityVersion). x.id) r.capabilities
  pub service_id : Named (λ (x : ServiceVersion). x.id) r.services
  pub installation_id : Named (λ (x : ServiceInstallation). x.id) r.installations
  pub instance_id : Named (λ (x : ServiceInstance). x.id) r.instances
  pub one_capability : Once SameContract r.capabilities
  pub one_service : Once SameService r.services
  pub one_installation : Once SameInstalled r.installations
  pub service_of :
      (k : Text) (s : ServiceVersion)
      → IsIn k s r.services
      → (c : CapabilityVersion) × IsIn s.capability_version_id c r.capabilities × Implements c s
  pub installation_of :
      (k : Text) (i : ServiceInstallation)
      → IsIn k i r.installations
      → (s : ServiceVersion) × IsIn i.service_version_id s r.services
  pub instance_of :
      (k : Text) (i : ServiceInstance)
      → IsIn k i r.instances
      → (n : ServiceInstallation) × IsIn i.installation_id n r.installations

-- What an instance keeps while it lives; once it has stopped or is lost, all of it.
pub record IsLater (i j : ServiceInstance) : Type 0 where
  pub same_id : j.id ≡ i.id
  pub same_installation : j.installation_id ≡ i.installation_id
  pub same_start : j.started_at ≡ i.started_at
  pub same_application : j.application_key ≡ i.application_key
  pub ended : i.state ≢ running → j ≡ i

pub IsLater-same : (i : ServiceInstance) → IsLater i i
IsLater-same i = record {
  same_id = refl;
  same_installation = refl;
  same_start = refl;
  same_application = refl;
  ended = λ e. refl;
}

-- What is published or installed stays as it is, and every instance is still there.
pub record Extends (r t : Records) : Type 0 where
  pub capabilities :
      (k : Text) (c : CapabilityVersion) → IsIn k c r.capabilities → IsIn k c t.capabilities
  pub services : (k : Text) (s : ServiceVersion) → IsIn k s r.services → IsIn k s t.services
  pub installations :
      (k : Text) (i : ServiceInstallation) → IsIn k i r.installations → IsIn k i t.installations
  pub instances :
      (k : Text) (i : ServiceInstance)
      → IsIn k i r.instances
      → (j : ServiceInstance) × IsIn k j t.instances × IsLater i j

pub Extends-refl : (r : Records) → Extends r r
Extends-refl r = record {
  capabilities = λ k c h. h;
  services = λ k s h. h;
  installations = λ k i h. h;
  instances = λ k i h. (i, h, IsLater-same i);
}

IsLater-trans : (i j l : ServiceInstance) → IsLater i j → IsLater j l → IsLater i l
IsLater-trans i j l a b = record {
  same_id = b.same_id ∙ a.same_id;
  same_installation = b.same_installation ∙ a.same_installation;
  same_start = b.same_start ∙ a.same_start;
  same_application = b.same_application ∙ a.same_application;
  ended = λ e.
      let same = a.ended e in
      b.ended (λ up. e (ap (λ (x : ServiceInstance). x.state) (sym same) ∙ up)) ∙ same;
}

pub Extends-trans : (r t u : Records) → Extends r t → Extends t u → Extends r u
Extends-trans r t u a b = record {
  capabilities = λ k c h. b.capabilities k c (a.capabilities k c h);
  services = λ k s h. b.services k s (a.services k s h);
  installations = λ k i h. b.installations k i (a.installations k i h);
  instances = λ k i h.
      let (j, there, later) = a.instances k i h in
      let (l, last, still) = b.instances k j there in (l, last, IsLater-trans i j l later still);
}
