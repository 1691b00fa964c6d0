-- ===== src/Capabilities/Losing.antt =====
-- CapabilityRegistry.markLost: the silent copies it marks, and what it leaves of the records.
use mathlib.Core.Path.{subst}
use sema_core.Prelude.{
  ℕ, ◌≡◌, ◌≢◌, inl, inr, refl, sym, ap, ◌∙◌, Bool-cases, none, some, List, [], ◌∷◌, Text, text_eq,
  lookup, lookup-insert, insert, values, filter, Dict, ok, if◌then◌else◌, arith,
}
use sema_core.Core.Rules.{IsLeft, Ensures, Ensures-bind, Ensures-pure}
use sema_core.Capabilities.Records.{
  Records, ServiceInstance, InstanceState, InstanceChange, running, stopped, lost, changed_instance,
}
use sema_core.Capabilities.Registry.{
  Registry, Issue, is_silent, update, updated, mark_each, mark_lost,
}
use sema_core.Capabilities.Entries.{IsIn, lookup-IsIn}
use sema_core.Capabilities.Consistent.{IsConsistent}
use sema_core.Capabilities.Adding.{Kept, Kept-update_instance}
use sema_core.Capabilities.Steps.{Good, Keeps, At-read, Kept-trans}
use sema_core.Capabilities.Ending.{running_state, update_instance-found}

abbrev pub losing : InstanceChange
losing = record { last_check_in_at = none; resources = none; state = some lost }

-- An instance that is there and has not said that it stopped.
abbrev pub IsMarkable : ServiceInstance → Records → Type 0
IsMarkable i r = (j : ServiceInstance) × (lookup i.id r.instances ≡ some j) × (j.state ≢ stopped)

abbrev pub AllMarkable : List ServiceInstance → Records → Type 0
AllMarkable [] r = Unit
AllMarkable (i ∷ is) r = IsMarkable i r × AllMarkable is r

abbrev pub marked : Text → ServiceInstance → Records → Records
marked id j r = record r { instances = insert id (changed_instance losing j) r.instances }

other_state : (state : InstanceState) → state ≢ stopped → state ≢ running → state ≡ lost
other_state running live ended = absurd (ended refl)
other_state stopped live ended = absurd (live refl)
other_state lost live ended = refl

lost_again :
    (j : ServiceInstance) → j.state ≢ stopped → j.state ≢ running → changed_instance losing j ≡ j
lost_again j live ended = ap (λ x. record j { state = x }) (sym (other_state j.state live ended))

IsMarkable-marked :
    (id : Text) (j i : ServiceInstance) (r : Records)
    → IsMarkable i r
    → IsMarkable i (marked id j r)
IsMarkable-marked id j i r (k, found, live) = elim (Bool-cases (text_eq id i.id)) [
  | inl e ↦ (
    changed_instance losing j,
    lookup-insert id i.id (changed_instance losing j) r.instances
        ∙ ap (λ b. if b then some (changed_instance losing j) else lookup i.id r.instances) e,
    cc,
  )
  | inr e ↦ (
    k,
    lookup-insert id i.id (changed_instance losing j) r.instances
        ∙ ap (λ b. if b then some (changed_instance losing j) else lookup i.id r.instances) e
        ∙ found,
    live,
  )
]

pub AllMarkable-marked :
    (id : Text) (j : ServiceInstance) (is : List ServiceInstance) (r : Records)
    → AllMarkable is r
    → AllMarkable is (marked id j r)
AllMarkable-marked id j [] r h = h
AllMarkable-marked id j (i ∷ is) r (first, rest) =
    (IsMarkable-marked id j i r first, AllMarkable-marked id j is r rest)

module _ {W : Type 0} (issue : Issue W) (time : ℕ) where
  pub update-marked :
      (i j : ServiceInstance) (s : Registry W)
      → lookup i.id s.records.instances ≡ some j
      → update issue time i.id losing s
        ≡ (ok (changed_instance losing j), record s { records = marked i.id j s.records })
  unfolding update
  update-marked i j s found =
      ap (updated issue time s) (update_instance-found i.id losing j s.records found)

  markable_values :
      (silent : ℕ) (r : Records) (m : Dict ServiceInstance)
      → ((k : Text) (i : ServiceInstance)
          → IsIn k i m
          → (i.id ≡ k) × (lookup k r.instances ≡ some i))
      → AllMarkable (filter (is_silent issue time silent) (values m)) r
  markable_values silent r [] there = tt
  markable_values silent r ((k, i) ∷ m) there = elim (Bool-cases (is_silent issue time silent i)) [
    | inl e ↦ rw e (
        let (named, found) = there k i (inl (refl, refl)) in
        let up = running_state i.state (ground (arith)) in
        (
          (i, subst (λ x. lookup x r.instances ≡ some i) (sym named) found, λ h. cc),
          markable_values silent r m (λ j l h. there j l (inr h)),
        ))
    | inr e ↦ rw e (markable_values silent r m (λ j l h. there j l (inr h)))
  ]

  pub all_markable :
      (silent : ℕ) (r : Records)
      → IsConsistent r
      → AllMarkable (filter (is_silent issue time silent) (values r.instances)) r
  all_markable silent r good =
      markable_values silent r r.instances
        (λ k i h. (good.instance_id k i h, lookup-IsIn k i r.instances good.instance_map h))

  module _ (base : Records) where
    update-Markable :
        (i : ServiceInstance) (is : List ServiceInstance)
        → Ensures
            (λ s. Good base s × AllMarkable (i ∷ is) s.records)
            (update issue time i.id losing)
            (λ a s. Good base s × AllMarkable is s.records)
            (Good base)
    update-Markable i is = record {
      run = λ s (good, ((j, found, live), rest)).
          subst (IsLeft (λ a s. Good base s × AllMarkable is s.records) (Good base))
            (sym (update-marked i j s found))
            (
              Kept-trans base s.records (marked i.id j s.records) good
                  (Kept-update_instance i.id losing j s.records found (lost_again j live) good.0),
              AllMarkable-marked i.id j is s.records rest,
            );
    }

    mark_each-Keeps :
        (is : List ServiceInstance)
        → Ensures
            (λ s. Good base s × AllMarkable is s.records)
            (mark_each issue time is)
            (λ a. Good base)
            (Good base)
    unfolding mark_each
    mark_each-Keeps [] = Ensures-pure (λ s h. h.0)
    mark_each-Keeps (i ∷ is) = Ensures-bind _ (update-Markable i is) (λ marked_.
        Ensures-bind (λ a. Good base) (mark_each-Keeps is) (λ ids. Ensures-pure (λ s h. h)))

    pub mark_lost-Keeps : (silent : ℕ) → Keeps base (mark_lost issue time silent)
    unfolding mark_lost
    mark_lost-Keeps silent = At-read _ (λ s good. record {
      run = λ t at.
          (mark_each-Keeps (filter (is_silent issue time silent) (values s.records.instances))).run
            t
            (
              subst (λ r. Kept base r) (sym at) good,
              subst
                  (AllMarkable (filter (is_silent issue time silent) (values s.records.instances)))
                  (sym at) (all_markable silent s.records good.0),
            );
    })
