-- ===== src/Topology/Requests/Placed.antt =====
-- The requests of Placing.antt move the nodes that are held by single steps.
use mathlib.Core.Path.{subst}
use sema_core.Prelude.{
  ℕ, ◌≡◌, ◌⊎◌, refl, Bool, true, not, Option, none, some, Text, text_eq, inl, inr, arith, ok, ◌>>=◌,
  >>=-eq-ok, refuse_if, require, if◌then◌else◌, ◌<◌, is_empty,
}
use sema_core.Identity.{ℤ, pos, negsuc}
use sema_core.Topology.Types.{
  NodeType, organization, Seats, Outcome, is_organization, empty_seats, valid_id, bad_node_id,
  bad_node_type, own_parent, no_replacement,
}
use sema_core.Topology.Store
use sema_core.Topology.Store.{Store, Change, NamedChild}
use sema_core.Topology.Placing
use sema_core.Topology.Placing.{NewNode, LostNode, GivenShutdown, fresh_node, is_text}
use sema_core.Topology.Issuing
use sema_core.Topology.Issuing.{ChildRequest}
use sema_core.Topology.Requests.Changes
use sema_core.Topology.Requests.Evolution.{Evolves, mutate-Evolves, insert-Evolves}
use sema_core.Topology.Requests.{state}

-- A request that answers about the store that it leaves.
pub after :
    {A B : Type 0} (o : Option Text) (s : Store) (m : Outcome (A × Store)) (g : A × Store → B)
    (out : B × Store)
    → ((p : A × Store) → m ≡ ok p → Evolves o s (p.1))
    → ◌≡◌ {A = Outcome (B × Store)} (m >>= λ p. ok (g p, p.1)) (ok out)
    → Evolves o s (out.1)
after o s m g out step h =
    let (p, e, h₁) = >>=-eq-ok m _ h in
    let last : p.1 ≡ out.1 = cc in subst (Evolves o s) last (step p e)

pub of_state :
    {A : Type 0} {o : Option Text} {s t : Store} {m : Outcome (A × Store)}
    → ((out : A × Store) → m ≡ ok out → Evolves o s (out.1))
    → state m ≡ ok t
    → Evolves o s t
of_state {o} {s} {t} {m} step h =
    let (out, e, h₁) = >>=-eq-ok m _ h in
    let last : out.1 ≡ t = cc in subst (Evolves o s) last (step out e)

pub switch_value_pos : (given : Option ℤ) (at : ℕ) → Issuing.switch_value given ≡ ok at → 0 < at
switch_value_pos none at h = cc
switch_value_pos (some (negsuc n)) at h = cc
switch_value_pos (some (pos n)) at h = ground arith

pub first_seats :
    (type : NodeType)
    → (type ≡ organization)
      ⊎ (◌≡◌ {A = Option Seats} (if is_organization type then some empty_seats else none) none)
first_seats organization = inl refl
first_seats _ = inr refl

module _ (o : Option Text) (s : Store) where
  pub accept-Evolves :
      (input : NewNode) (out : _ × Store) → Placing.accept input s ≡ ok out → Evolves o s (out.1)
  unfolding Placing.accept
  accept-Evolves input out h =
      let (u, valid, h₁) = >>=-eq-ok (refuse_if (not (valid_id input.id)) bad_node_id) _ h in
      let (type, known, h₂) = >>=-eq-ok (require input.type bad_node_type) _ h₁ in
      let (v, other, h₃) =
        >>=-eq-ok (refuse_if (is_text input.parent_id input.id) own_parent) _ h₂ in
      let (t, inserted, h₄) = >>=-eq-ok (Store.insert _ s) _ h₃ in
      let last : t ≡ out.1 = cc in
      subst (Evolves o s) last (
        insert-Evolves o _ s t
          (record {
            own_id = refl;
            own_basis = refl;
            nothing_issued = refl;
            no_next_basis = refl;
            no_switch = refl;
            no_limits = refl;
            seats_if_organization = first_seats type;
          })
          inserted)

  pub set_parent-Evolves :
      (id parent_id : Text) (address : Option Text) (out : _ × Store)
      → Placing.set_parent id parent_id address s ≡ ok out
      → Evolves o s (out.1)
  unfolding Placing.set_parent
  set_parent-Evolves id parent_id address out h =
      after o s (Store.mutate id (Placing.parent_change id parent_id address) s) _ out
        (λ p.
          mutate-Evolves o id (Placing.parent_change id parent_id address) s p
            (λ n c. Changes.parent_change-Step o n id parent_id address c))
        h

  pub accept_retired-Evolves :
      (input : LostNode) (out : _ × Store)
      → Placing.accept_retired input s ≡ ok out
      → Evolves o s (out.1)
  unfolding Placing.accept_retired
  accept_retired-Evolves input out h =
      let (u, valid, h₁) = >>=-eq-ok (refuse_if (not (valid_id input.id)) bad_node_id) _ h in
      let (type, known, h₂) = >>=-eq-ok (require input.type bad_node_type) _ h₁ in
      let (v, other, h₃) =
        >>=-eq-ok
          (refuse_if
            (if is_empty input.replacement_id then true else text_eq input.replacement_id input.id)
            no_replacement)
          _ h₂ in
      let (t, inserted, h₄) = >>=-eq-ok (Store.insert _ s) _ h₃ in
      let last : t ≡ out.1 = cc in
      subst (Evolves o s) last (
        insert-Evolves o _ s t
          (record {
            own_id = refl;
            own_basis = refl;
            nothing_issued = refl;
            no_next_basis = refl;
            no_switch = refl;
            no_limits = refl;
            seats_if_organization = inr refl;
          })
          inserted)

  pub set_shutdown-Evolves :
      (id : Text) (given : Option GivenShutdown) (out : _ × Store)
      → Placing.set_shutdown id given s ≡ ok out
      → Evolves o s (out.1)
  unfolding Placing.set_shutdown
  set_shutdown-Evolves id given out h =
      let (shutdown, checked, h₁) = >>=-eq-ok (Placing.checked_shutdown given) _ h in
      after o s (Store.mutate id (Placing.shutdown_change shutdown) s) _ out
        (λ p.
          mutate-Evolves o id (Placing.shutdown_change shutdown) s p
            (λ n c. Changes.shutdown_change-Step o n shutdown c))
        h₁

  pub retire-Evolves :
      (id : Text) (out : _ × Store) → Placing.retire id s ≡ ok out → Evolves o s (out.1)
  unfolding Placing.retire
  retire-Evolves id out h =
      after o s (Store.mutate id Placing.retire_change s) _ out
        (λ p. mutate-Evolves o id Placing.retire_change s p (Changes.retire_change-Step o)) h

  pub complete-Evolves :
      (id : Text) (complete : Bool) (out : Bool × Store)
      → Placing.set_child_list_complete id complete s ≡ ok out
      → Evolves o s (out.1)
  unfolding Placing.set_child_list_complete
  complete-Evolves id complete out h =
      mutate-Evolves o id (Placing.complete_change complete) s out
        (λ n c. Changes.complete_change-Step o n complete c) h
