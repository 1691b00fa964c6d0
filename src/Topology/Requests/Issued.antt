-- ===== src/Topology/Requests/Issued.antt =====
-- The requests of Issuing.antt and Organization.antt move the nodes that are held by single steps.
use sema_core.Prelude.{◌≡◌, Bool, not, Option, some, Text, ok, >>=-eq-ok, refuse_if, require}
use sema_core.Identity.{ℤ}
use sema_core.Topology.Types.{Number, valid_id, bad_node_type, bad_basis}
use sema_core.Topology.Store
use sema_core.Topology.Store.{Store, Change, NamedChild}
use sema_core.Topology.Issuing
use sema_core.Topology.Issuing.{ChildRequest}
use sema_core.Topology.Organization
use sema_core.Topology.Organization.{LimitsInput, LimitChange}
use sema_core.Topology.Requests.Changes
use sema_core.Topology.Requests.Evolution.{Evolves, mutate-Evolves}
-- A request that answers about the store that it leaves.
use sema_core.Topology.Requests.Placed.{after, switch_value_pos}

module _ (o : Option Text) (s : Store) where
  pub issue_child_id-Evolves :
      (id : Text) (child : ChildRequest) (out : _ × Store)
      → Issuing.issue_child_id id child s ≡ ok out
      → Evolves o s (out.1)
  unfolding Issuing.issue_child_id
  issue_child_id-Evolves id child out h =
      let (type, known, h₁) = >>=-eq-ok (require child.type bad_node_type) _ h in
      after o s (Store.mutate id (Issuing.child_change type child.address) s) _ out
        (λ p.
          mutate-Evolves o id (Issuing.child_change type child.address) s p
            (λ n c. Changes.child_change-Step o n type child.address c))
        h₁

  pub issue_basis-Evolves :
      (id : Text) (out : Text × Store) → Issuing.issue_basis id s ≡ ok out → Evolves o s (out.1)
  unfolding Issuing.issue_basis
  issue_basis-Evolves id out h =
      mutate-Evolves o id Issuing.basis_issue s out (Changes.basis_issue-Step o) h

  pub set_basis-Evolves :
      (id basis : Text) (out : _ × Store)
      → o ≡ some basis
      → Issuing.set_basis id basis s ≡ ok out
      → Evolves o s (out.1)
  unfolding Issuing.set_basis
  set_basis-Evolves id basis out e h =
      mutate-Evolves o id (Issuing.basis_change basis) s out
        (λ n c. Changes.basis_change-Step o n basis c e) h

  pub set_next_basis-Evolves :
      (id basis : Text) (given : Option ℤ) (out : _ × Store)
      → o ≡ some basis
      → Issuing.set_next_basis id basis given s ≡ ok out
      → Evolves o s (out.1)
  unfolding Issuing.set_next_basis
  set_next_basis-Evolves id basis given out e h =
      let (u, valid, h₁) = >>=-eq-ok (refuse_if (not (valid_id basis)) bad_basis) _ h in
      let (at, read, h₂) = >>=-eq-ok (Issuing.switch_value given) _ h₁ in
      after o s (Store.mutate id (Issuing.next_basis_change id basis at) s) _ out
        (λ p. mutate-Evolves o id (Issuing.next_basis_change id basis at) s p (λ n c.
          Changes.next_basis_change-Step o n id basis at c e (switch_value_pos given at read)))
        h₂

  pub set_key_limits-Evolves :
      (id : Text) (input : LimitsInput) (out : _ × Store)
      → Organization.set_key_limits id input s ≡ ok out
      → Evolves o s (out.1)
  unfolding Organization.set_key_limits
  set_key_limits-Evolves id input out h =
      let (l, checked, h₁) = >>=-eq-ok (Organization.check_key_limits input) _ h in
      after o s (Store.mutate id (Organization.limits_change l) s) _ out
        (λ p.
          mutate-Evolves o id (Organization.limits_change l) s p
            (λ n c. Changes.limits_change-Step o n l c))
        h₁

  pub change_seats-Evolves :
      (id : Text) (users machines : Option Number) (out : _ × Store)
      → Organization.change_seats id users machines s ≡ ok out
      → Evolves o s (out.1)
  unfolding Organization.change_seats
  change_seats-Evolves id users machines out h =
      let (u, whole_users, h₁) = >>=-eq-ok (Organization.whole_change users) _ h in
      let (m, whole_machines, h₂) = >>=-eq-ok (Organization.whole_change machines) _ h₁ in
      after o s (Store.mutate id (Organization.seats_change u m) s) _ out
        (λ p.
          mutate-Evolves o id (Organization.seats_change u m) s p
            (λ n c. Changes.seats_change-Step o n u m c))
        h₂

  pub set_seat_limits-Evolves :
      (id : Text) (users machines : LimitChange Number) (out : _ × Store)
      → Organization.set_seat_limits id users machines s ≡ ok out
      → Evolves o s (out.1)
  unfolding Organization.set_seat_limits
  set_seat_limits-Evolves id users machines out h =
      let (u, users_checked, h₁) = >>=-eq-ok (Organization.checked_limit users) _ h in
      let (m, machines_checked, h₂) = >>=-eq-ok (Organization.checked_limit machines) _ h₁ in
      after o s (Store.mutate id (Organization.seat_limits_change u m) s) _ out
        (λ p.
          mutate-Evolves o id (Organization.seat_limits_change u m) s p
            (λ n c. Changes.seat_limits_change-Step o n u m c))
        h₂

  pub set_seats_used-Evolves :
      (id : Text) (users machines : Number) (complete : Bool) (out : _ × Store)
      → Organization.set_seats_used id users machines complete s ≡ ok out
      → Evolves o s (out.1)
  unfolding Organization.set_seats_used
  set_seats_used-Evolves id users machines complete out h =
      let (u, users_counted, h₁) = >>=-eq-ok (Organization.seat_count users) _ h in
      let (m, machines_counted, h₂) = >>=-eq-ok (Organization.seat_count machines) _ h₁ in
      after o s (Store.mutate id (Organization.seats_used_change u m complete) s) _ out
        (λ p.
          mutate-Evolves o id (Organization.seats_used_change u m complete) s p
            (λ n c. Changes.seats_used_change-Step o n u m complete c))
        h₂
