-- ===== src/Capabilities/Calls.antt =====
-- Calls of CapabilityRegistry made one after another, those that throw included.
use mathlib.Core.Path.{subst}
use sema_core.Prelude.{
  ◌≢◌, sym, ◌∙◌, codes, text_eq_iff, true, arith, ok-injective, ℕ, ◌≡◌, ap, List, [], ◌∷◌, Option,
  Bool, Text, Result, ok, err,
}
use sema_core.Core.Exec.{Exec}
use sema_core.Core.Rules.{IsLeft}
use sema_core.Core.Types.{Json, Capability}
use sema_core.Capabilities.Values.{RecordError, checked_key, checked_version}
use sema_core.Capabilities.Records.{Records, CapabilityVersion, is_capability, empty}
use sema_core.Capabilities.Registry.{
  Registry, Issue, register_capability_version, register_service_version, install, start_instance,
  check_in, stop_instance, mark_lost,
}
use sema_core.Capabilities.Inputs.{NewCapabilityVersion, NewServiceVersion}
use sema_core.Capabilities.Legacy.{move_legacy}
use sema_core.Capabilities.Consistent.{IsConsistent, Extends}
use sema_core.Capabilities.Adding.{Kept}
use sema_core.Capabilities.Steps.{Good, Keeps, Kept-refl, Kept-trans}
use sema_core.Capabilities.Keeping.{
  IsPublished, register_capability_version-IsPublished, register_capability_version-Keeps,
  register_service_version-Keeps, install-Keeps, start_instance-Keeps,
}
use sema_core.Capabilities.Ending.{check_in-Keeps, stop_instance-Keeps}
use sema_core.Capabilities.Losing.{mark_lost-Keeps}
use sema_core.Capabilities.Again.{move_legacy-Keeps}

-- The operations with what they are given.
pub data Call : Type 0 where
  on_capability : NewCapabilityVersion → (approved : Bool) → Call
  on_service : NewServiceVersion → (approved : Bool) → Call
  on_install : (service_version_id settings_ref : Option Json) → Call
  on_start :
      (installation_id capacity resources offers : Option Json) (application_key : Option Text)
      → Call
  on_check_in : (instance_id resources : Option Json) → Call
  on_stop : (instance_id : Option Json) → Call
  on_lost : (silent : ℕ) → Call
  on_legacy : List Capability → (approved : Bool) → Call

pub empty-IsConsistent : IsConsistent empty
empty-IsConsistent = record {
  capability_map = tt;
  service_map = tt;
  installation_map = tt;
  instance_map = tt;
  capability_id = λ k v h. absurd h;
  service_id = λ k v h. absurd h;
  installation_id = λ k v h. absurd h;
  instance_id = λ k v h. absurd h;
  one_capability = λ j k v w h. absurd h;
  one_service = λ j k v w h. absurd h;
  one_installation = λ j k v w h. absurd h;
  service_of = λ k v h. absurd h;
  installation_of = λ k v h. absurd h;
  instance_of = λ k v h. absurd h;
}

module _ {W : Type 0} (issue : Issue W) (stringify : Json → Text) (machine : Text) where
  -- What a call at a time leaves, whether it returns or throws.
  unfoldable pub called : ℕ → Call → Registry W → Registry W
  called time (on_capability input approved) s =
      (register_capability_version issue time input approved s).1
  called time (on_service input approved) s =
      (register_service_version issue time input approved s).1
  called time (on_install service settings) s = (install issue time machine service settings s).1
  called time (on_start installation capacity resources offers key) s =
      (start_instance issue time stringify installation capacity resources offers key s).1
  called time (on_check_in instance_ resources) s =
      (check_in issue time stringify instance_ resources s).1
  called time (on_stop instance_) s = (stop_instance issue time instance_ s).1
  called time (on_lost silent) s = (mark_lost issue time silent s).1
  called time (on_legacy olds approved) s = (move_legacy issue time machine approved olds s).1

  unfoldable pub all_called : List (ℕ × Call) → Registry W → Registry W
  all_called [] s = s
  all_called ((time, c) ∷ calls) s = all_called calls (called time c s)

  left_Good :
      {A : Type 0} (base : Records) (left : Result RecordError A × Registry W)
      → IsLeft (λ a. Good base) (Good base) left
      → Good base left.1
  left_Good base (ok a, s) h = h
  left_Good base (err e, s) h = h

  Keeps-left :
      {A : Type 0} (m : Exec (Registry W) RecordError A) (s : Registry W)
      → IsConsistent s.records
      → Keeps s.records m
      → Kept s.records (m s).1.records
  Keeps-left m s good keeps = left_Good s.records (m s) (keeps.run s (Kept-refl s.records good))

  called-Kept :
      (time : ℕ) (c : Call) (s : Registry W)
      → IsConsistent s.records
      → Kept s.records (called time c s).records
  unfolding called
  called-Kept time (on_capability input approved) s good =
      Keeps-left _ s good (register_capability_version-Keeps issue time s.records input approved)
  called-Kept time (on_service input approved) s good =
      Keeps-left _ s good (register_service_version-Keeps issue time s.records input approved)
  called-Kept time (on_install service settings) s good =
      Keeps-left _ s good (install-Keeps issue time s.records machine service settings)
  called-Kept time (on_start installation capacity resources offers key) s good =
      Keeps-left _ s good (
        start_instance-Keeps issue time s.records stringify installation capacity resources offers
          key)
  called-Kept time (on_check_in instance_ resources) s good =
      Keeps-left _ s good (check_in-Keeps issue time s.records stringify instance_ resources)
  called-Kept time (on_stop instance_) s good =
      Keeps-left _ s good (stop_instance-Keeps issue time s.records instance_)
  called-Kept time (on_lost silent) s good =
      Keeps-left _ s good (mark_lost-Keeps issue time s.records silent)
  called-Kept time (on_legacy olds approved) s good =
      Keeps-left _ s good (move_legacy-Keeps issue time machine approved s.records olds)

  all_called-Kept :
      (calls : List (ℕ × Call)) (s : Registry W)
      → IsConsistent s.records
      → Kept s.records (all_called calls s).records
  unfolding all_called
  all_called-Kept [] s good = Kept-refl s.records good
  all_called-Kept ((time, c) ∷ calls) s good =
      let first = called-Kept time c s good in
      Kept-trans s.records (called time c s).records (all_called calls (called time c s)).records
        first (all_called-Kept calls (called time c s) first.0)

  -- From no records, whatever calls are made in whatever order at whatever times, whatever IDs are
  -- issued and whichever calls throw: every map has one record for a key, the ID that it bears; no
  -- capability key and version, no service key and version of a contract and no installation of a
  -- service version stands twice; every service names a capability version that is there; one
  -- that was registered names one whose contract is written and offers each operation that the
  -- contract requires, and one moved from before offers no operation; every installation names a service version that is there and every instance an
  -- installation.
  pub all_called-IsConsistent :
      (calls : List (ℕ × Call)) (world : W)
      → IsConsistent (all_called calls (record { records = empty; world = world })).records
  all_called-IsConsistent calls world =
      (all_called-Kept calls (record { records = empty; world = world }) empty-IsConsistent).0

  -- From consistent records, whatever calls are made and whichever throw: every capability version,
  -- service version and installation that was there still is, unchanged; every instance still is,
  -- with its ID, installation, start and program, and one that was stopped or lost is unchanged.
  pub all_called-Extends :
      (calls : List (ℕ × Call)) (s : Registry W)
      → IsConsistent s.records
      → Extends s.records (all_called calls s).records
  all_called-Extends calls s good = (all_called-Kept calls s good).1

-- A capability version that a registration has returned is never published again: after any calls,
-- at any time and whoever approves, a registration of the same key and version throws.
pub published_once :
    {W : Type 0} (issue : Issue W) (stringify : Json → Text) (machine : Text) (time later : ℕ)
    (input again : NewCapabilityVersion) (approved approved_again : Bool) (c d : CapabilityVersion)
    (calls : List (ℕ × Call)) (s t u : Registry W)
    → IsConsistent s.records
    → register_capability_version issue time input approved s ≡ (ok c, t)
    → again.capability_key ≡ input.capability_key
    → again.version ≡ input.version
    → register_capability_version issue later again approved_again
        (all_called issue stringify machine calls t)
      ≢ (ok d, u)
published_once issue stringify machine time later input again approved approved_again c d calls s t
      u good run same_key same_version run_again =
    let first =
      subst
        (IsLeft (λ c q. IsPublished issue time s.records input approved c q.records)
          (Good s.records))
        run
        ((register_capability_version-IsPublished issue time s.records input approved).run s
          (Kept-refl s.records good)) in
    let between = all_called-Kept issue stringify machine calls t first.0.0 in
    let last = all_called issue stringify machine calls t in
    let second =
      subst
        (IsLeft (λ d q. IsPublished issue later last.records again approved_again d q.records)
          (Good last.records))
        run_again
        ((register_capability_version-IsPublished issue later last.records again approved_again).run
          last (Kept-refl last.records between.0)) in
    let (_, there, is_key, is_version, _, _) = first in
    let (_, _, key_again, version_again, _, new) = second in
    let key : d.capability_key ≡ c.capability_key =
      ok-injective
        (sym key_again ∙ ap (λ k. checked_key k (codes "capabilityKey")) same_key ∙ is_key) in
    let version : d.version ≡ c.version =
      ok-injective (sym version_again ∙ ap checked_version same_version ∙ is_version) in
    let fresh = new c.id c (between.1.capabilities c.id c there) in
    let stale : is_capability d.capability_key d.version c ≡ true =
      ground
        (arith, text_eq_iff c.capability_key d.capability_key, text_eq_iff c.version d.version) in
    cc
