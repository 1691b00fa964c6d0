-- ===== src/Capabilities/Again.antt =====
-- CapabilityRegistry.moveLegacy run again: nothing is left to move.
use mathlib.Core.Path.{subst}
use sema_core.Prelude.{
  ℕ, ◌≡◌, refl, Bool, true, false, some, List, [], ◌∷◌, Text, text_eq_iff, ok, arith,
}
use sema_core.Core.Exec.{◌>>=◌}
use sema_core.Core.Rules.{IsLeft, Ensures, Ensures-bind, Ensures-pure, Ensures-weaken}
use sema_core.Core.Types.{Capability}
use sema_core.Capabilities.Records.{
  Records, CapabilityVersion, ServiceVersion, ServiceInstallation, is_capability, is_service,
  is_installation_of, find_capability_version, find_service_version, find_installation,
}
use sema_core.Capabilities.Registry.{Registry, Issue}
use sema_core.Capabilities.Legacy.{move_one, move_legacy}
use sema_core.Capabilities.Entries.{find_the_one}
use sema_core.Capabilities.Consistent.{IsConsistent, SameContract, SameService, SameInstalled}
use sema_core.Capabilities.Steps.{Good, Keeps, Kept-trans, Kept-refl}
use sema_core.Capabilities.Moving.{IsMoved, AllMoved, IsMoved-Extends, Ensures-move_one}

-- What answers one search is alike.
contracts_alike :
    (k v : Text) (c w : CapabilityVersion)
    → is_capability k v c ≡ true
    → is_capability k v w ≡ true
    → SameContract c w
contracts_alike k v c w is_c is_w = (
  ground (arith, text_eq_iff c.capability_key k, text_eq_iff w.capability_key k),
  ground (arith, text_eq_iff c.version v, text_eq_iff w.version v),
)

services_alike :
    (k v i : Text) (x w : ServiceVersion)
    → is_service k v i x ≡ true
    → is_service k v i w ≡ true
    → SameService x w
services_alike k v i x w is_x is_w = (
  ground (arith, text_eq_iff x.service_key k, text_eq_iff w.service_key k),
  ground (arith, text_eq_iff x.version v, text_eq_iff w.version v),
  ground (arith, text_eq_iff x.capability_version_id i, text_eq_iff w.capability_version_id i),
)

installed_alike :
    (i : Text) (n w : ServiceInstallation)
    → is_installation_of i n ≡ true
    → is_installation_of i w ≡ true
    → SameInstalled n w
installed_alike i n w is_n is_w =
    ground (arith, text_eq_iff n.service_version_id i, text_eq_iff w.service_version_id i)

module _ {W : Type 0} (issue : Issue W) (time : ℕ) (machine : Text) (approved : Bool) where
  move_legacy-AllMoved :
      (base : Records) (olds : List Capability)
      → Ensures
          (Good base)
          (move_legacy issue time machine approved olds)
          (λ n s. Good base s × AllMoved olds s.records)
          (Good base)
  unfolding move_legacy
  move_legacy-AllMoved base [] = Ensures-pure (λ s h. (h, tt))
  move_legacy-AllMoved base (old ∷ olds) =
      Ensures-bind _ (Ensures-move_one issue time machine approved base old) (λ is_new.
        Ensures-bind (λ n s. Good base s × AllMoved (old ∷ olds) s.records)
          (record {
            run = λ s (good, is_moved).
                (Ensures-weaken
                    (λ n t (kept, rest). (
                      Kept-trans base s.records t.records good kept,
                      (IsMoved-Extends old s.records t.records kept.1 is_moved, rest),
                    ))
                    (λ t kept. Kept-trans base s.records t.records good kept)
                    (move_legacy-AllMoved s.records olds)).run
                  s (Kept-refl s.records good.0);
          })
          (λ n. Ensures-pure (λ s h. h)))

  pub move_legacy-Keeps :
      (base : Records) (olds : List Capability)
      → Keeps base (move_legacy issue time machine approved olds)
  move_legacy-Keeps base olds =
      Ensures-weaken (λ n s h. h.0) (λ s h. h) (move_legacy-AllMoved base olds)

  move_one-again :
      (old : Capability) (s : Registry W)
      → IsConsistent s.records
      → IsMoved old s.records
      → move_one issue time machine approved old s ≡ (ok false, s)
  unfolding move_one find_capability_version find_service_version find_installation ◌>>=◌
  move_one-again old s good (c, x, n, (at_c, is_c), (at_x, is_x), (at_n, is_n)) =
      let found_c : find_capability_version old.capability_key old.version s.records ≡ some c =
        find_the_one SameContract _ c.id c s.records.capabilities good.capability_map
          good.one_capability (λ w. contracts_alike old.capability_key old.version c w is_c) at_c
          is_c in
      let found_x : find_service_version old.provider_key old.version c.id s.records ≡ some x =
        find_the_one SameService _ x.id x s.records.services good.service_map good.one_service
          (λ w. services_alike old.provider_key old.version c.id x w is_x) at_x is_x in
      let found_n : find_installation x.id s.records ≡ some n =
        find_the_one SameInstalled _ n.id n s.records.installations good.installation_map
          good.one_installation (λ w. installed_alike x.id n w is_n) at_n is_n in
      rw (found_c, found_x, found_n) refl

  pub moved_again :
      (olds : List Capability) (s : Registry W)
      → IsConsistent s.records
      → AllMoved olds s.records
      → move_legacy issue time machine approved olds s ≡ (ok 0, s)
  unfolding move_legacy ◌>>=◌
  moved_again [] s good moved = refl
  moved_again (old ∷ olds) s good (is_moved, rest) =
      rw (move_one-again old s good is_moved, moved_again olds s good rest) refl

-- A move of old records that has finished, made again at any time: nothing is moved, no ID is
-- issued, and the records stay as they are.
pub move_legacy-again :
    {W : Type 0} (issue : Issue W) (time later : ℕ) (machine : Text)
    (approved approved_later : Bool) (olds : List Capability) (n : ℕ) (s t : Registry W)
    → IsConsistent s.records
    → move_legacy issue time machine approved olds s ≡ (ok n, t)
    → move_legacy issue later machine approved_later olds t ≡ (ok 0, t)
move_legacy-again issue time later machine approved approved_later olds n s t good run =
    let (kept, moved) =
      subst (IsLeft (λ m u. Good s.records u × AllMoved olds u.records) (Good s.records)) run (
        (move_legacy-AllMoved issue time machine approved s.records olds).run s
          (Kept-refl s.records good)) in
    moved_again issue later machine approved_later olds t kept.0 moved
