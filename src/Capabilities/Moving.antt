-- ===== src/Capabilities/Moving.antt =====
-- CapabilityRegistry.moveLegacy: what a move leaves of the records, and a move made again.
use mathlib.Core.Path.{subst}
use sema_core.Prelude.{
  ℕ, ◌≡◌, refl, sym, Bool, true, false, Option, none, some, List, [], ◌∷◌, Text, text_eq_refl,
  arith, Dict,
}
use sema_core.Core.Exec.{Exec, ◌>>=◌, read}
use sema_core.Core.Rules.{Ensures, Ensures-bind, Ensures-pure, Ensures-read}
use sema_core.Core.Types.{Capability}
use sema_core.Capabilities.Values.{RecordError}
use sema_core.Capabilities.Records.{
  Records, CapabilityVersion, ServiceVersion, ServiceInstallation, is_capability, is_service,
  is_installation_of, find_capability_version, find_service_version, find_installation,
  add_capability_version, add_service_version, add_installation, find_in,
}
use sema_core.Capabilities.Registry.{Registry, Issue}
use sema_core.Capabilities.Legacy.{
  moved_capability, moved_service, moved_installation, there_or, id_for, move_capability,
  move_service, move_installation, move_one,
}
use sema_core.Capabilities.Entries.{IsIn, IsIn-find, IsIn-insert_self, Named}
use sema_core.Capabilities.Consistent.{Extends}
use sema_core.Capabilities.Adding.{
  Kept, Kept-add_capability_version, Kept-add_service_version, Kept-add_installation,
}
use sema_core.Capabilities.Added.{added_capability, added_service, added_installation}
use sema_core.Capabilities.Steps.{
  Good, At, At-read, as_it_stands, Kept-trans, Ensures-new_id, Ensures-store_to,
}

-- The contract of an old record is there.
abbrev HasContract : Capability → CapabilityVersion → Records → Type 0
HasContract old c r =
    IsIn c.id c r.capabilities × (is_capability old.capability_key old.version c ≡ true)

abbrev HasService : Capability → CapabilityVersion → ServiceVersion → Records → Type 0
HasService old c s r =
    IsIn s.id s r.services × (is_service old.provider_key old.version c.id s ≡ true)

abbrev HasInstalled : ServiceVersion → ServiceInstallation → Records → Type 0
HasInstalled s n r = IsIn n.id n r.installations × (is_installation_of s.id n ≡ true)

-- All three records of an old one are there.
abbrev pub IsMoved : Capability → Records → Type 0
IsMoved old r =
    (c : CapabilityVersion) × (s : ServiceVersion) × (n : ServiceInstallation) × HasContract old c r
    × HasService old c s r
    × HasInstalled s n r

abbrev pub AllMoved : List Capability → Records → Type 0
AllMoved [] r = Unit
AllMoved (old ∷ olds) r = IsMoved old r × AllMoved olds r

pub IsMoved-Extends :
    (old : Capability) (r t : Records) → Extends r t → IsMoved old r → IsMoved old t
IsMoved-Extends old r t more (c, s, n, (at_c, is_c), (at_s, is_s), (at_n, is_n)) = (
  c,
  s,
  n,
  (more.capabilities c.id c at_c, is_c),
  (more.services s.id s at_s, is_s),
  (more.installations n.id n at_n, is_n),
)

IsIn-by_search :
    {V : Type 0} (id : V → Text) (test : V → Bool) (v : V) (m : Dict V)
    → Named id m
    → find_in test m ≡ some v
    → IsIn (id v) v m × (test v ≡ true)
IsIn-by_search id test v m named found =
    let (k, there, passed) = IsIn-find test v m found in
    (subst (λ x. IsIn x v m) (sym (named k v there)) there, passed)

module _ {W : Type 0} where
  Ensures-there_or :
      {A : Type 0} {P : Registry W → Type 0} (o : Option A) (make : Exec (Registry W) RecordError A)
      {Q : A → Registry W → Type 0} {R : Registry W → Type 0}
      → ((a : A) → o ≡ some a → (s : Registry W) → P s → Q a s)
      → Ensures P make Q R
      → Ensures P (there_or o make) (λ a. Q a.0) R
  Ensures-there_or (some a) make found made = Ensures-pure (found a refl)
  Ensures-there_or none make {Q} found made = Ensures-bind Q made (λ a. Ensures-pure (λ s h. h))

  -- A search of the records, and what is made where it finds nothing.
  Ensures-find :
      {A B : Type 0} {P : Registry W → Type 0} (find : Records → Option A)
      (make : Exec (Registry W) RecordError A) (rest : A × Bool → Exec (Registry W) RecordError B)
      (Q : A → Registry W → Type 0) {T : B → Registry W → Type 0} {R : Registry W → Type 0}
      → ((a : A) (s : Registry W) → find s.records ≡ some a → P s → Q a s)
      → Ensures P make Q R
      → ((a : A × Bool) → Ensures (Q a.0) (rest a) T R)
      → Ensures P (read >>= λ s. there_or (find s.records) make >>= rest) T R
  Ensures-find {P = P} find make rest Q found made after = Ensures-read _ (λ s.
      Ensures-bind (λ a. Q a.0)
        (Ensures-there_or (find s.records) make
          (λ a e t (same, h). found a t (subst (λ x. find x.records ≡ some a) same e) h)
          (record { run = λ t h. made.run t h.1 }))
        after)

  module _ (issue : Issue W) (time : ℕ) (machine : Text) (approved : Bool) (base : Records) where
    abbrev AfterContract : Capability → CapabilityVersion → Registry W → Type 0
    AfterContract old c s = Good base s × HasContract old c s.records

    abbrev AfterService : Capability → CapabilityVersion → ServiceVersion → Registry W → Type 0
    AfterService old c x s = AfterContract old c s × HasService old c x s.records

    abbrev AfterInstall :
        Capability → CapabilityVersion → ServiceVersion → ServiceInstallation → Registry W → Type 0
    AfterInstall old c x n s = AfterService old c x s × HasInstalled x n s.records

    Ensures-id_for :
        (r : Records)
        → Kept base r
        → (old : Capability) (taken : Bool)
        → Ensures (At r) (id_for issue time machine approved old taken) (λ id. At r) (Good base)
    Ensures-id_for r good old true = Ensures-new_id issue time base r good _ _
    Ensures-id_for r good old false = Ensures-pure (λ s h. h)

    Ensures-move_capability :
        (old : Capability)
        → Ensures
            (Good base)
            (move_capability issue time machine approved old)
            (AfterContract old)
            (Good base)
    unfolding move_capability
    Ensures-move_capability old = At-read _ (λ s good.
        Ensures-bind (λ id. At s.records) (Ensures-id_for s.records good old _)
          (λ id.
            let c = moved_capability approved time old id in
            Ensures-bind (λ a t. AfterContract old c t)
              (Ensures-store_to issue time base s.records good
                {Q = λ t. Kept base t × HasContract old c t} (add_capability_version c)
                (λ t e.
                  let (unfound, absent, same) = added_capability c s.records t e in
                  (
                    Kept-trans base s.records t good
                        (Kept-add_capability_version c s.records t e good.0),
                    (
                      subst (λ r. IsIn c.id c r.capabilities) same
                          (IsIn-insert_self c.id c s.records.capabilities),
                      ground (arith, text_eq_refl old.capability_key, text_eq_refl old.version),
                    ),
                  )))
              (λ a. Ensures-pure (λ t h. h))))

    Ensures-move_service :
        (old : Capability) (c : CapabilityVersion)
        → Ensures
            (AfterContract old c)
            (move_service issue time machine approved old c)
            (AfterService old c)
            (Good base)
    unfolding move_service
    Ensures-move_service old c = as_it_stands (λ s (good, (at_c, is_c)).
        Ensures-bind (λ id. At s.records) (Ensures-new_id issue time base s.records good _ _)
          (λ id.
            let x = moved_service time old c id in
            Ensures-bind (λ a t. AfterService old c x t)
              (Ensures-store_to issue time base s.records good
                {Q = λ t. (Kept base t × HasContract old c t) × HasService old c x t}
                (add_service_version x)
                (λ t e.
                  let (unfound, absent, same) = added_service x s.records t e in
                  let kept =
                    Kept-add_service_version x s.records t e good.0
                      (c, at_c, ((λ h. cc), (λ h. refl))) in
                  (
                    (
                      Kept-trans base s.records t good kept,
                      (kept.1.capabilities c.id c at_c, is_c),
                    ),
                    (
                      subst (λ r. IsIn x.id x r.services) same
                          (IsIn-insert_self x.id x s.records.services),
                      ground (
                        arith,
                        text_eq_refl old.provider_key,
                        text_eq_refl old.version,
                        text_eq_refl c.id,
                      ),
                    ),
                  )))
              (λ a. Ensures-pure (λ t h. h))))

    Ensures-move_installation :
        (old : Capability) (c : CapabilityVersion) (x : ServiceVersion)
        → Ensures
            (AfterService old c x)
            (move_installation issue time machine approved old x)
            (AfterInstall old c x)
            (Good base)
    unfolding move_installation
    Ensures-move_installation old c x = as_it_stands (λ s ((good, (at_c, is_c)), (at_x, is_x)).
        Ensures-bind (λ id. At s.records) (Ensures-new_id issue time base s.records good _ _)
          (λ id.
            let n = moved_installation machine time old x id in
            Ensures-bind (λ a t. AfterInstall old c x n t)
              (Ensures-store_to issue time base s.records good
                {Q = λ t.
                  ((Kept base t × HasContract old c t) × HasService old c x t) × HasInstalled x n t}
                (add_installation n)
                (λ t e.
                  let (unfound, absent, same) = added_installation n s.records t e in
                  let kept = Kept-add_installation n s.records t e good.0 (x, at_x) in
                  (
                    (
                      (
                        Kept-trans base s.records t good kept,
                        (kept.1.capabilities c.id c at_c, is_c),
                      ),
                      (kept.1.services x.id x at_x, is_x),
                    ),
                    (
                      subst (λ r. IsIn n.id n r.installations) same
                          (IsIn-insert_self n.id n s.records.installations),
                      text_eq_refl x.id,
                    ),
                  )))
              (λ a. Ensures-pure (λ t h. h))))

    pub Ensures-move_one :
        (old : Capability)
        → Ensures
            (Good base)
            (move_one issue time machine approved old)
            (λ b s. Good base s × IsMoved old s.records)
            (Good base)
    unfolding move_one find_capability_version find_service_version find_installation
    Ensures-move_one old =
        Ensures-find _ (move_capability issue time machine approved old) _ (AfterContract old)
          (λ c s e good. (
            good,
            IsIn-by_search (λ (x : CapabilityVersion). x.id) _ c s.records.capabilities
                good.0.capability_id e,
          ))
          (Ensures-move_capability old)
          (λ (c, b).
            Ensures-find _ (move_service issue time machine approved old c) _ (AfterService old c)
              (λ x s e (good, h). (
                (good, h),
                IsIn-by_search (λ (x : ServiceVersion). x.id) _ x s.records.services
                    good.0.service_id e,
              ))
              (Ensures-move_service old c)
              (λ (x, d).
                Ensures-find _ (move_installation issue time machine approved old x) _
                  (AfterInstall old c x)
                  (λ n s e ((good, h), k). (
                    ((good, h), k),
                    IsIn-by_search (λ (x : ServiceInstallation). x.id) _ n s.records.installations
                        good.0.installation_id e,
                  ))
                  (Ensures-move_installation old c x)
                  (λ (n, f). Ensures-pure (λ s (((good, h), k), l). (good, (c, x, n, h, k, l))))))
