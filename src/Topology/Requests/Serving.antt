-- ===== src/Topology/Requests/Serving.antt =====
-- Every request of LocalNodes moves the nodes that are held by single steps.
use sema_core.Prelude.{◌≡◌, refl, none, some, ok, err}
use sema_core.Topology.Types.{Outcome}
use sema_core.Topology.Store.{Store}
use sema_core.Topology.Requests.Lists
use sema_core.Topology.Requests.Evolution.{Evolves, Evolves-same}
use sema_core.Topology.Requests.{
  Request, or_same, run, offer, perform, accept, accept_retired, issue_child_id, issue_basis,
  set_parent, set_basis, set_next_basis, add_children, check_in, set_shutdown, mark_child,
  retire_child, remove_child, set_child_list_complete, set_key_limits, change_seats,
  set_seat_limits, set_seats_used, retire,
}
-- A request that answers about the store that it leaves.
use sema_core.Topology.Requests.Placed.{
  of_state, accept-Evolves, set_parent-Evolves, accept_retired-Evolves, set_shutdown-Evolves,
  retire-Evolves, complete-Evolves,
}
use sema_core.Topology.Requests.Issued.{
  issue_child_id-Evolves, issue_basis-Evolves, set_basis-Evolves, set_next_basis-Evolves,
  set_key_limits-Evolves, change_seats-Evolves, set_seat_limits-Evolves, set_seats_used-Evolves,
}

-- What a served request does to each node that is held.
pub run-Evolves : (r : Request) (s t : Store) → run r s ≡ ok t → Evolves (offer r) s t
unfolding run
run-Evolves (accept input) s t h = of_state (accept-Evolves none s input) h
run-Evolves (accept_retired input) s t h = of_state (accept_retired-Evolves none s input) h
run-Evolves (issue_child_id id child) s t h = of_state (issue_child_id-Evolves none s id child) h
run-Evolves (issue_basis id) s t h = of_state (issue_basis-Evolves none s id) h
run-Evolves (set_parent id p address) s t h = of_state (set_parent-Evolves none s id p address) h
run-Evolves (set_basis id basis) s t h =
    of_state (λ out. set_basis-Evolves (some basis) s id basis out refl) h
run-Evolves (set_next_basis id basis at) s t h =
    of_state (λ out. set_next_basis-Evolves (some basis) s id basis at out refl) h
run-Evolves (add_children id given) s t h =
    of_state (λ out e. Evolves-same none s (out.1) (Lists.nodes-add_children s id given out e)) h
run-Evolves (check_in id child time) s t h =
    of_state (λ out e. Evolves-same none s (out.1) (Lists.nodes-check_in s id child time out e)) h
run-Evolves (set_shutdown id given) s t h = of_state (set_shutdown-Evolves none s id given) h
run-Evolves (mark_child id child mark) s t h =
    of_state (λ out e. Evolves-same none s (out.1) (Lists.nodes-mark_child s id child mark out e)) h
run-Evolves (retire_child id child mark) s t h =
    of_state (λ out e. Evolves-same none s (out.1) (Lists.nodes-retire_child s id child mark out e))
      h
run-Evolves (remove_child id child_id) s t h =
    of_state (λ out e. Evolves-same none s (out.1) (Lists.nodes-remove_child s id child_id out e)) h
run-Evolves (set_child_list_complete id c) s t h = of_state (complete-Evolves none s id c) h
run-Evolves (set_key_limits id input) s t h = of_state (set_key_limits-Evolves none s id input) h
run-Evolves (change_seats id u m) s t h = of_state (change_seats-Evolves none s id u m) h
run-Evolves (set_seat_limits id u m) s t h = of_state (set_seat_limits-Evolves none s id u m) h
run-Evolves (set_seats_used id u m c) s t h = of_state (set_seats_used-Evolves none s id u m c) h
run-Evolves (retire id) s t h = of_state (retire-Evolves none s id) h

pub perform-Evolves : (r : Request) (s : Store) → Evolves (offer r) s (perform r s)
unfolding perform
perform-Evolves r s = served (run r s) refl
  where
    served : (x : Outcome Store) → run r s ≡ x → Evolves (offer r) s (or_same x s)
    served (ok t) e = run-Evolves r s t e
    served (err f) e = Evolves-same (offer r) s s refl
