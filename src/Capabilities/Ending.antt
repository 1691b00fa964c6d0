-- ===== src/Capabilities/Ending.antt =====
-- The operations of CapabilityRegistry on running copies: what they leave of the records.
use mathlib.Core.Path.{subst}
use sema_core.Prelude.{
  ℕ, ◌≡◌, ◌≢◌, refl, sym, ◌∙◌, false, not, Option, some, Text, lookup, insert, ok,
}
use sema_core.Core.Rules.{
  Ensures, Ensures-bind, Ensures-pure, Ensures-call, Ensures-throw_if, Ensures-need,
}
use sema_core.Core.Types.{Json}
use sema_core.Capabilities.Records.{
  Records, ServiceInstance, InstanceState, InstanceChange, running, stopped, lost, changed_instance,
  update_instance,
}
use sema_core.Capabilities.Registry.{Issue, update, running_instance, check_in, stop_instance}
use sema_core.Capabilities.Inputs.{is_running}
use sema_core.Capabilities.Entries.{IsIn-lookup}
use sema_core.Capabilities.Consistent.{IsConsistent}
use sema_core.Capabilities.Adding.{Kept, Kept-update_instance}
use sema_core.Capabilities.Steps.{as_it_stands, Good, Keeps, At-Good, At-read, Ensures-update}

pub update_instance-found :
    (id : Text) (change : InstanceChange) (i : ServiceInstance) (r : Records)
    → lookup id r.instances ≡ some i
    → update_instance id change r
      ≡ ok (
        changed_instance change i,
        record r { instances = insert id (changed_instance change i) r.instances },
      )
unfolding update_instance
update_instance-found id change i r found = rw found refl

Kept-by_update :
    (id : Text) (change : InstanceChange) (i : ServiceInstance) (r : Records)
    → lookup id r.instances ≡ some i
    → (i.state ≢ running → changed_instance change i ≡ i)
    → IsConsistent r
    → (j : ServiceInstance) (t : Records) → update_instance id change r ≡ ok (j, t)
    → Kept r t
Kept-by_update id change i r found ends good j t e =
    let same : record r { instances = insert id (changed_instance change i) r.instances } ≡ t =
      let p = sym (update_instance-found id change i r found) ∙ e in cc in
    subst (Kept r) same (Kept-update_instance id change i r found ends good)

pub running_state : (state : InstanceState) → not (is_running state) ≡ false → state ≡ running
running_state running h = refl
running_state stopped h = cc
running_state lost h = cc

-- The instance is in the records and runs.
abbrev Runs : ServiceInstance → Records → Type 0
Runs i r = (lookup i.id r.instances ≡ some i) × (i.state ≡ running)

module _ {W : Type 0} (issue : Issue W) (time : ℕ) (base : Records) where
  running_instance-Runs :
      (id : Option Json)
      → Ensures
          (Good {W = W} base)
          (running_instance issue time id)
          (λ i s. Good base s × Runs i s.records)
          (Good base)
  unfolding running_instance
  running_instance-Runs id =
      Ensures-call _ _ _ (λ s h. h)
        (λ given_id e0. At-read _ (λ s good.
          let refused = At-Good {W = W} base s.records good in
          Ensures-need _ _ _ refused (λ i found. Ensures-throw_if _ _ _ refused (λ up.
            Ensures-pure (λ t at. (
              refused t at,
              (
                let by_id =
                      good.0.instance_id given_id i
                        (IsIn-lookup given_id i s.records.instances found) in
                    subst (λ r. lookup i.id r.instances ≡ some i) (sym at)
                      (subst (λ k. lookup k s.records.instances ≡ some i) (sym by_id) found),
                running_state i.state up,
              ),
            ))))))

  update-Runs :
      (i : ServiceInstance) (change : InstanceChange)
      → Ensures
          (λ s. Good base s × Runs i s.records)
          (update issue time i.id change)
          (λ a. Good base)
          (Good base)
  update-Runs i change = as_it_stands (λ s (good, (found, up)).
      Ensures-update issue time base s.records good i.id change
        (Kept-by_update i.id change i s.records found (λ ended. absurd (ended up)) good.0))

  pub check_in-Keeps :
      (stringify : Json → Text) (instance_id resources : Option Json)
      → Keeps base (check_in issue time stringify instance_id resources)
  unfolding check_in
  check_in-Keeps stringify instance_id resources =
      Ensures-bind (λ i s. Good base s × Runs i s.records) (running_instance-Runs instance_id)
        (λ i. Ensures-call _ _ _ (λ s h. h.0) (λ given e. update-Runs i _))

  pub stop_instance-Keeps :
      (instance_id : Option Json) → Keeps base (stop_instance issue time instance_id)
  unfolding stop_instance
  stop_instance-Keeps instance_id =
      Ensures-bind (λ i s. Good base s × Runs i s.records) (running_instance-Runs instance_id)
        (λ i. update-Runs i _)
