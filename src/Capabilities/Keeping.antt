-- ===== src/Capabilities/Keeping.antt =====
-- The registering operations of CapabilityRegistry: what they leave of the records.
use mathlib.Core.Path.{subst}
use sema_core.Capabilities.Values.{checked_key, checked_version, is_reserved_key}
use sema_core.Prelude.{
  codes, ok, ◌&&◌, ℕ, ◌≡◌, refl, sym, ◌==◌, Bool, false, not, Option, some, List, [], ◌∷◌, length,
  Text, lookup, arith, Dict,
}
use sema_core.Core.Rules.{
  Ensures, Ensures-bind, Ensures-pure, Ensures-call, Ensures-throw_if, Ensures-need, Ensures-weaken,
}
use sema_core.Core.Types.{Json}
use sema_core.Capabilities.Records.{
  Records, is_capability, find_capability_version, CapabilityVersion, ServiceVersion,
  ServiceInstallation, OperationDefinition,
}
use sema_core.Capabilities.Registry.{
  Registry, Issue, register_capability_version, register_service_version, install, start_instance,
  new_capability,
}
use sema_core.Capabilities.Inputs.{NewCapabilityVersion, NewServiceVersion}
use sema_core.Capabilities.Entries.{IsIn, IsIn-lookup, Named, find_none, IsIn-insert_self}
use sema_core.Capabilities.Adding.{
  Kept, Kept-add_capability_version, Kept-add_service_version, Kept-add_installation,
  Kept-add_instance,
}
use sema_core.Capabilities.Added.{added_capability}
use sema_core.Capabilities.Steps.{
  Good, At, Keeps, At-Good, At-read, Ensures-new_id, Ensures-store, Ensures-store_to, Kept-trans,
}

none_missing : (xs : List OperationDefinition) → not (length xs == 0) ≡ false → xs ≡ []
none_missing [] h = refl
none_missing (x ∷ xs) h = ground (arith)

-- What a map has under an ID bears that ID.
found_by_id :
    {V : Type 0} (id : V → Text) (m : Dict V) (v : V) (k : Text)
    → Named id m
    → lookup k m ≡ some v
    → IsIn (id v) v m
found_by_id id m v k named found =
    let there = IsIn-lookup k v m found in subst (λ x. IsIn x v m) (sym (named k v there)) there

module _ {W : Type 0} (issue : Issue W) (time : ℕ) (base : Records) where
  -- The capability version is in the records under a key and version that no one of `base` has.
  abbrev pub IsPublished : NewCapabilityVersion → Bool → CapabilityVersion → Records → Type 0
  IsPublished input approved c r =
      Kept base r
      × IsIn c.id c r.capabilities
      × (checked_key input.capability_key (codes "capabilityKey") ≡ ok c.capability_key)
      × (checked_version input.version ≡ ok c.version)
      × (is_reserved_key c.capability_key && not approved ≡ false)
      × ((k : Text) (x : CapabilityVersion)
          → IsIn k x base.capabilities
          → is_capability c.capability_key c.version x ≡ false)

  pub register_capability_version-IsPublished :
      (input : NewCapabilityVersion) (approved : Bool)
      → Ensures
          (Good base)
          (register_capability_version issue time input approved)
          (λ c s. IsPublished input approved c s.records)
          (Good base)
  unfolding register_capability_version find_capability_version
  register_capability_version-IsPublished input approved =
      let thrown = λ (s : Registry W) (h : Good base s). h in
      Ensures-call _ _ _ thrown (λ key is_key. Ensures-call _ _ _ thrown (λ version is_version.
        Ensures-throw_if _ _ _ thrown (λ allowed. Ensures-call _ _ _ thrown (λ operations e3.
          Ensures-call _ _ _ thrown (λ choosing e4. At-read _ (λ s good.
            let refused = At-Good {W = W} base s.records good in
            Ensures-throw_if _ _ _ refused (λ unfound.
              Ensures-bind (λ id. At s.records) (Ensures-new_id issue time base s.records good _ _)
                (λ id. Ensures-call _ _ _ refused (λ name e6.
                  Ensures-call _ _ _ refused (λ description e7.
                    let c =
                      new_capability issue time key version name description operations choosing
                        id in
                    Ensures-bind (λ a q. IsPublished input approved c q.records)
                      (Ensures-store_to issue time base s.records good
                        {Q = IsPublished input approved c} _
                        (λ t e.
                          let (_, absent, same) = added_capability c s.records t e in
                          (
                            Kept-trans base s.records t good
                                (Kept-add_capability_version c s.records t e good.0),
                            subst (λ r. IsIn id c r.capabilities) same
                                (IsIn-insert_self id c s.records.capabilities),
                            is_key,
                            is_version,
                            allowed,
                            λ k x there.
                                find_none (is_capability key version) k x s.records.capabilities
                                  unfound (good.1.capabilities k x there),
                          )))
                      (λ a. Ensures-pure (λ q h. h))))))))))))

  pub register_capability_version-Keeps :
      (input : NewCapabilityVersion) (approved : Bool)
      → Keeps base (register_capability_version issue time input approved)
  register_capability_version-Keeps input approved =
      Ensures-weaken (λ c s h. h.0) (λ s h. h)
        (register_capability_version-IsPublished input approved)

  pub register_service_version-Keeps :
      (input : NewServiceVersion) (approved : Bool)
      → Keeps base (register_service_version issue time input approved)
  unfolding register_service_version
  register_service_version-Keeps input approved =
      let thrown = λ (s : Registry W) (h : Good base s). h in
      Ensures-call _ _ _ thrown (λ key e0. Ensures-call _ _ _ thrown (λ version e1.
        Ensures-throw_if _ _ _ thrown (λ e2. Ensures-call _ _ _ thrown (λ capability_id e3.
          At-read _ (λ s good.
            let refused = At-Good {W = W} base s.records good in
            Ensures-need _ _ _ refused (λ c found. Ensures-throw_if _ _ _ refused (λ e4.
              Ensures-throw_if _ _ _ refused (λ written.
                Ensures-call _ _ _ refused (λ operations e5. Ensures-throw_if _ _ _ refused (λ e6.
                  Ensures-throw_if _ _ _ refused (λ offered.
                    Ensures-call _ _ _ refused (λ declarations e7.
                      Ensures-throw_if _ _ _ refused (λ e8.
                        Ensures-bind (λ id. At s.records)
                          (Ensures-new_id issue time base s.records good _ _)
                          (λ id. Ensures-call _ _ _ refused (λ name e9.
                            Ensures-bind (λ a. Good base)
                              (Ensures-store issue time base s.records good _ (λ t e.
                                Kept-add_service_version _ s.records t e good.0 (
                                  c,
                                  found_by_id (λ (x : CapabilityVersion). x.id) _ c capability_id
                                      good.0.capability_id found,
                                  ((λ h. (written, none_missing _ offered)), (λ h. cc)),
                                )))
                              (λ a. Ensures-pure (λ q h. h)))))))))))))))))

  pub install-Keeps :
      (machine : Text) (service_version_id settings_ref : Option Json)
      → Keeps base (install issue time machine service_version_id settings_ref)
  unfolding install
  install-Keeps machine service_version_id settings_ref =
      let thrown = λ (s : Registry W) (h : Good base s). h in
      Ensures-call _ _ _ thrown (λ service_id e0. At-read _ (λ s good.
        let refused = At-Good {W = W} base s.records good in
        Ensures-need _ _ _ refused (λ service found. Ensures-throw_if _ _ _ refused (λ e1.
          Ensures-throw_if _ _ _ refused (λ e2.
            Ensures-bind (λ id. At s.records) (Ensures-new_id issue time base s.records good _ _)
              (λ id. Ensures-call _ _ _ refused (λ settings e3.
                Ensures-bind (λ a. Good base)
                  (Ensures-store issue time base s.records good _ (λ t e.
                    Kept-add_installation _ s.records t e good.0 (
                      service,
                      found_by_id (λ (x : ServiceVersion). x.id) _ service service_id
                          good.0.service_id found,
                    )))
                  (λ a. Ensures-pure (λ q h. h)))))))))

  pub start_instance-Keeps :
      (stringify : Json → Text) (installation_id capacity resources offers : Option Json)
      (application_key : Option Text)
      → Keeps base (
          start_instance issue time stringify installation_id capacity resources offers
            application_key)
  unfolding start_instance
  start_instance-Keeps stringify installation_id capacity resources offers application_key =
      let thrown = λ (s : Registry W) (h : Good base s). h in
      Ensures-call _ _ _ thrown (λ given_id e0. At-read _ (λ s good.
        let refused = At-Good {W = W} base s.records good in
        Ensures-need _ _ _ refused (λ installation found. Ensures-call _ _ _ refused (λ jobs e1.
          Ensures-bind (λ id. At s.records) (Ensures-new_id issue time base s.records good _ _)
            (λ id. Ensures-call _ _ _ refused (λ resources_ e2.
              Ensures-call _ _ _ refused (λ offered e3.
                Ensures-bind (λ a. Good base)
                  (Ensures-store issue time base s.records good _ (λ t e.
                    Kept-add_instance _ s.records t e good.0 (
                      installation,
                      found_by_id (λ (x : ServiceInstallation). x.id) _ installation given_id
                          good.0.installation_id found,
                    )))
                  (λ a. Ensures-pure (λ q h. h)))))))))
