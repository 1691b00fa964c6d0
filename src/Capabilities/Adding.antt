-- ===== src/Capabilities/Adding.antt =====
-- What adding a record to the maps of src/capabilities/records.ts keeps.
use mathlib.Core.Path.{subst}
use sema_core.Prelude.{
  ◌≢◌, some, lookup-insert, if◌then◌else◌, text_eq_iff, ◌≡◌, inl, inr, refl, sym, ◌∙◌, ap,
  Bool-cases, Text, text_eq, lookup, insert, ok,
}
use sema_core.Capabilities.Records.{
  Records, CapabilityVersion, ServiceVersion, ServiceInstallation, ServiceInstance, is_capability,
  is_service, is_installation_of, find_capability_version, find_service_version, find_installation,
  add_capability_version, add_service_version, add_installation, add_instance, InstanceChange,
  changed_instance, running,
}
use sema_core.Capabilities.Entries.{
  IsIn, Named, IsIn-lookup, lookup-IsIn, IsIn-insert_self, IsMap-insert, IsIn-insert_cases,
  IsIn-insert_new, Named-insert, Once-insert,
}
use sema_core.Capabilities.Consistent.{
  IsConsistent, Extends, IsLater, IsLater-same, Implements, SameContract, SameService,
  SameInstalled,
}
use sema_core.Capabilities.Added.{
  same_capability, same_service, same_installed, added_capability, added_service,
  added_installation, added_instance,
}

abbrev pub Kept : Records → Records → Type 0
Kept r t = IsConsistent t × Extends r t

pub Kept-add_capability_version :
    (c : CapabilityVersion) (r t : Records)
    → add_capability_version c r ≡ ok t
    → IsConsistent r
    → Kept r t
unfolding find_capability_version
Kept-add_capability_version c r t h good =
    let (unfound, absent, same) = added_capability c r t h in
    let stays = IsIn-insert_new c.id c r.capabilities in
    subst (Kept r) same (
      record {
        capability_map = IsMap-insert c.id c r.capabilities good.capability_map;
        capability_id =
            Named-insert (λ (d : CapabilityVersion). d.id) c r.capabilities good.capability_id;
        one_capability =
            Once-insert SameContract (is_capability c.capability_key c.version) c.id c
              r.capabilities (same_capability c) unfound good.one_capability;
        service_of = λ k s there.
            let (d, at_d, fits) = good.service_of k s there in
            (d, stays s.capability_version_id d absent at_d, fits);
        service_map = good.service_map;
        installation_map = good.installation_map;
        instance_map = good.instance_map;
        service_id = good.service_id;
        installation_id = good.installation_id;
        instance_id = good.instance_id;
        one_service = good.one_service;
        one_installation = good.one_installation;
        installation_of = good.installation_of;
        instance_of = good.instance_of;
      },
      record {
        capabilities = λ k d. stays k d absent;
        services = λ k x there. there;
        installations = λ k x there. there;
        instances = λ k x there. (x, there, IsLater-same x);
      },
    )

pub Kept-add_service_version :
    (s : ServiceVersion) (r t : Records)
    → add_service_version s r ≡ ok t
    → IsConsistent r
    → (c : CapabilityVersion) × IsIn s.capability_version_id c r.capabilities × Implements c s
    → Kept r t
unfolding find_service_version
Kept-add_service_version s r t h good implemented =
    let (unfound, absent, same) = added_service s r t h in
    let stays = IsIn-insert_new s.id s r.services in
    subst (Kept r) same (
      record {
        service_map = IsMap-insert s.id s r.services good.service_map;
        service_id = Named-insert (λ (x : ServiceVersion). x.id) s r.services good.service_id;
        one_service =
            Once-insert SameService (is_service s.service_key s.version s.capability_version_id)
              s.id s r.services (same_service s) unfound good.one_service;
        service_of = λ k x there. elim (IsIn-insert_cases s.id s r.services k x there) [
          | inl (_, s_x) ↦
              subst
                (λ y.
                  (c : CapabilityVersion) × IsIn y.capability_version_id c r.capabilities
                  × Implements c y)
                s_x implemented
          | inr old ↦ good.service_of k x old
        ];
        installation_of = λ k i there.
            let (x, at_x) = good.installation_of k i there in
            (x, stays i.service_version_id x absent at_x);
        capability_map = good.capability_map;
        installation_map = good.installation_map;
        instance_map = good.instance_map;
        capability_id = good.capability_id;
        installation_id = good.installation_id;
        instance_id = good.instance_id;
        one_capability = good.one_capability;
        one_installation = good.one_installation;
        instance_of = good.instance_of;
      },
      record {
        services = λ k x. stays k x absent;
        capabilities = λ k x there. there;
        installations = λ k x there. there;
        instances = λ k x there. (x, there, IsLater-same x);
      },
    )

pub Kept-add_installation :
    (i : ServiceInstallation) (r t : Records)
    → add_installation i r ≡ ok t
    → IsConsistent r
    → (s : ServiceVersion) × IsIn i.service_version_id s r.services
    → Kept r t
unfolding find_installation
Kept-add_installation i r t h good of_service =
    let (unfound, absent, same) = added_installation i r t h in
    let stays = IsIn-insert_new i.id i r.installations in
    subst (Kept r) same (
      record {
        installation_map = IsMap-insert i.id i r.installations good.installation_map;
        installation_id =
            Named-insert (λ (x : ServiceInstallation). x.id) i r.installations good.installation_id;
        one_installation =
            Once-insert SameInstalled (is_installation_of i.service_version_id) i.id i
              r.installations (same_installed i) unfound good.one_installation;
        installation_of = λ k x there. elim (IsIn-insert_cases i.id i r.installations k x there) [
          | inl (_, i_x) ↦
              subst (λ y. (s : ServiceVersion) × IsIn y.service_version_id s r.services) i_x
                of_service
          | inr old ↦ good.installation_of k x old
        ];
        instance_of = λ k x there.
            let (n, at_n) = good.instance_of k x there in
            (n, stays x.installation_id n absent at_n);
        capability_map = good.capability_map;
        service_map = good.service_map;
        instance_map = good.instance_map;
        capability_id = good.capability_id;
        service_id = good.service_id;
        instance_id = good.instance_id;
        one_capability = good.one_capability;
        one_service = good.one_service;
        service_of = good.service_of;
      },
      record {
        installations = λ k x. stays k x absent;
        capabilities = λ k x there. there;
        services = λ k x there. there;
        instances = λ k x there. (x, there, IsLater-same x);
      },
    )

-- The instance refers to an installation that is there.
instances_kept :
    (id : Text) (i : ServiceInstance) (r : Records)
    → i.id ≡ id
    → IsConsistent r
    → (n : ServiceInstallation) × IsIn i.installation_id n r.installations
    → IsConsistent (record r { instances = insert id i r.instances })
instances_kept id i r named good installed = record {
  instance_map = IsMap-insert id i r.instances good.instance_map;
  instance_id =
      subst (λ k. Named (λ (x : ServiceInstance). x.id) (insert k i r.instances)) named
        (Named-insert (λ (x : ServiceInstance). x.id) i r.instances good.instance_id);
  instance_of = λ k x there. elim (IsIn-insert_cases id i r.instances k x there) [
    | inl (_, i_x) ↦
        subst (λ y. (n : ServiceInstallation) × IsIn y.installation_id n r.installations) i_x
          installed
    | inr old ↦ good.instance_of k x old
  ];
  capability_map = good.capability_map;
  service_map = good.service_map;
  installation_map = good.installation_map;
  capability_id = good.capability_id;
  service_id = good.service_id;
  installation_id = good.installation_id;
  one_capability = good.one_capability;
  one_service = good.one_service;
  one_installation = good.one_installation;
  service_of = good.service_of;
  installation_of = good.installation_of;
}

pub Kept-add_instance :
    (i : ServiceInstance) (r t : Records)
    → add_instance i r ≡ ok t
    → IsConsistent r
    → (n : ServiceInstallation) × IsIn i.installation_id n r.installations
    → Kept r t
Kept-add_instance i r t h good installed =
    let (absent, same) = added_instance i r t h in
    subst (Kept r) same (
      instances_kept i.id i r refl good installed,
      record {
        instances =
            λ k j there. (j, IsIn-insert_new i.id i r.instances k j absent there, IsLater-same j);
        capabilities = λ k x there. there;
        services = λ k x there. there;
        installations = λ k x there. there;
      },
    )

-- A change of an instance that has not ended, or one that leaves it as it is.
pub Kept-update_instance :
    (id : Text) (change : InstanceChange) (i : ServiceInstance) (r : Records)
    → lookup id r.instances ≡ some i
    → (i.state ≢ running → changed_instance change i ≡ i)
    → IsConsistent r
    → Kept r (record r { instances = insert id (changed_instance change i) r.instances })
Kept-update_instance id change i r found ends good =
    let there = IsIn-lookup id i r.instances found in
    (
      instances_kept id (changed_instance change i) r (good.instance_id id i there) good
          (good.instance_of id i there),
      record {
        instances = λ k j at_k. elim (Bool-cases (text_eq id k)) [
          | inl e ↦
              let same : id ≡ k = (text_eq_iff id k).0 e in
              let old : lookup k r.instances ≡ some j =
                lookup-IsIn k j r.instances good.instance_map at_k in
              let i_j : i ≡ j =
                let p : some i ≡ some j = sym found ∙ ap (λ x. lookup x r.instances) same ∙ old in
                cc in
              (
                changed_instance change i,
                subst
                    (λ x.
                      IsIn x (changed_instance change i)
                        (insert id (changed_instance change i) r.instances))
                    same (IsIn-insert_self id (changed_instance change i) r.instances),
                subst (λ x. IsLater x (changed_instance change i)) i_j
                    (record {
                      same_id = refl;
                      same_installation = refl;
                      same_start = refl;
                      same_application = refl;
                      ended = ends;
                    }),
              )
          | inr e ↦ (
            j,
            IsIn-lookup k j (insert id (changed_instance change i) r.instances) (
                lookup-insert id k (changed_instance change i) r.instances
                ∙ ap (λ b. if b then some (changed_instance change i) else lookup k r.instances) e
                ∙ lookup-IsIn k j r.instances good.instance_map at_k),
            IsLater-same j,
          )
        ];
        capabilities = λ k x there. there;
        services = λ k x there. there;
        installations = λ k x there. there;
      },
    )
