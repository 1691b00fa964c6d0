-- ===== src/Topology/Requests/Same.antt =====
-- The requests that change a node and no list of children.
use sema_core.Prelude.{◌≡◌, Bool, Option, Text, arith, ok}
use sema_core.Identity.{ℤ}
use sema_core.Topology.Types.{Number}
use sema_core.Topology.Store
use sema_core.Topology.Store.{Store}
use sema_core.Topology.Placing
use sema_core.Topology.Placing.{GivenShutdown}
use sema_core.Topology.Issuing
use sema_core.Topology.Organization
use sema_core.Topology.Organization.{LimitsInput, LimitChange}

module _ (s : Store) where
  pub lists-set_parent :
      (id p : Text) (a : Option Text) (out : _ × Store)
      → Placing.set_parent id p a s ≡ ok out
      → s.lists ≡ (out.1).lists
  unfolding Placing.set_parent Store.mutate Store.put_children
  lists-set_parent id p a out h = ground arith

  pub lists-set_shutdown :
      (id : Text) (given : Option GivenShutdown) (out : _ × Store)
      → Placing.set_shutdown id given s ≡ ok out
      → s.lists ≡ (out.1).lists
  unfolding Placing.set_shutdown Store.mutate Store.put_children
  lists-set_shutdown id given out h = ground arith

  pub lists-retire :
      (id : Text) (out : _ × Store) → Placing.retire id s ≡ ok out → s.lists ≡ (out.1).lists
  unfolding Placing.retire Store.mutate Store.put_children
  lists-retire id out h = ground arith

  pub lists-set_child_list_complete :
      (id : Text) (complete : Bool) (out : _ × Store)
      → Placing.set_child_list_complete id complete s ≡ ok out
      → s.lists ≡ (out.1).lists
  unfolding Placing.set_child_list_complete Store.mutate Store.put_children
  lists-set_child_list_complete id complete out h = ground arith

  pub lists-issue_basis :
      (id : Text) (out : _ × Store) → Issuing.issue_basis id s ≡ ok out → s.lists ≡ (out.1).lists
  unfolding Issuing.issue_basis Store.mutate Store.put_children
  lists-issue_basis id out h = ground arith

  pub lists-set_basis :
      (id basis : Text) (out : _ × Store)
      → Issuing.set_basis id basis s ≡ ok out
      → s.lists ≡ (out.1).lists
  unfolding Issuing.set_basis Store.mutate Store.put_children
  lists-set_basis id basis out h = ground arith

  pub lists-set_next_basis :
      (id basis : Text) (given : Option ℤ) (out : _ × Store)
      → Issuing.set_next_basis id basis given s ≡ ok out
      → s.lists ≡ (out.1).lists
  unfolding Issuing.set_next_basis Store.mutate Store.put_children
  lists-set_next_basis id basis given out h = ground arith

  pub lists-set_key_limits :
      (id : Text) (input : LimitsInput) (out : _ × Store)
      → Organization.set_key_limits id input s ≡ ok out
      → s.lists ≡ (out.1).lists
  unfolding Organization.set_key_limits Store.mutate Store.put_children
  lists-set_key_limits id input out h = ground arith

  pub lists-change_seats :
      (id : Text) (users machines : Option Number) (out : _ × Store)
      → Organization.change_seats id users machines s ≡ ok out
      → s.lists ≡ (out.1).lists
  unfolding Organization.change_seats Store.mutate Store.put_children
  lists-change_seats id users machines out h = ground arith

  pub lists-set_seat_limits :
      (id : Text) (users machines : LimitChange Number) (out : _ × Store)
      → Organization.set_seat_limits id users machines s ≡ ok out
      → s.lists ≡ (out.1).lists
  unfolding Organization.set_seat_limits Store.mutate Store.put_children
  lists-set_seat_limits id users machines out h = ground arith

  pub lists-set_seats_used :
      (id : Text) (users machines : Number) (complete : Bool) (out : _ × Store)
      → Organization.set_seats_used id users machines complete s ≡ ok out
      → s.lists ≡ (out.1).lists
  unfolding Organization.set_seats_used Store.mutate Store.put_children
  lists-set_seats_used id users machines complete out h = ground arith
