-- ===== src/Topology/Requests.antt =====
-- The requests that change what LocalNodes holds, served one after the other. A request that is
-- refused leaves the store as it was.
pub mod Steps
pub mod Changes
pub mod Evolution
pub mod Lists
pub mod Placed
pub mod Issued
pub mod Serving
pub mod Invariants
pub mod Frozen
pub mod Fresh
pub mod Same
pub mod Held
pub mod Fitting
pub mod Holding
pub mod Lawful
use sema_core.Prelude.{ℕ, Bool, Option, none, some, List, [], ◌∷◌, Text, Result, ok, err, ◌>>=◌}
use sema_core.Identity.{ℤ}
use sema_core.Topology.Types.{Number, GivenChild, Outcome}
use sema_core.Topology.Store.{Store, NamedChild}
use sema_core.Topology.Placing
use sema_core.Topology.Placing.{NewNode, LostNode, GivenShutdown}
use sema_core.Topology.Issuing
use sema_core.Topology.Issuing.{ChildRequest}
use sema_core.Topology.Children
use sema_core.Topology.Children.{MarkedChild, GivenMark}
use sema_core.Topology.Organization
use sema_core.Topology.Organization.{LimitsInput, LimitChange}

pub data Request : Type 0 where
  accept : NewNode → Request
  accept_retired : LostNode → Request
  issue_child_id : Text → ChildRequest → Request
  issue_basis : Text → Request
  set_parent : Text → Text → Option Text → Request
  set_basis : Text → Text → Request
  set_next_basis : Text → Text → Option ℤ → Request
  add_children : Text → List GivenChild → Request
  check_in : Text → GivenChild → ℕ → Request
  set_shutdown : Text → Option GivenShutdown → Request
  mark_child : Text → MarkedChild → Option GivenMark → Request
  retire_child : Text → NamedChild → GivenMark → Request
  remove_child : Text → Text → Request
  set_child_list_complete : Text → Bool → Request
  set_key_limits : Text → LimitsInput → Request
  change_seats : Text → (users machines : Option Number) → Request
  set_seat_limits : Text → (users machines : LimitChange Number) → Request
  set_seats_used : Text → (users machines : Number) → Bool → Request
  retire : Text → Request

abbrev pub state {ℓ} : {A : Type ℓ} → Outcome (A × Store) → Outcome Store
state r = r >>= λ out. ok (out.1)

unfoldable pub run : Request → Store → Outcome Store
run (accept input) s = state (Placing.accept input s)
run (accept_retired input) s = state (Placing.accept_retired input s)
run (issue_child_id id child) s = state (Issuing.issue_child_id id child s)
run (issue_basis id) s = state (Issuing.issue_basis id s)
run (set_parent id parent_id address) s = state (Placing.set_parent id parent_id address s)
run (set_basis id basis) s = state (Issuing.set_basis id basis s)
run (set_next_basis id basis at) s = state (Issuing.set_next_basis id basis at s)
run (add_children id given) s = state (Children.add_children id given s)
run (check_in id child time) s = state (Children.check_in id child time s)
run (set_shutdown id given) s = state (Placing.set_shutdown id given s)
run (mark_child id child mark) s = state (Children.mark_child id child mark s)
run (retire_child id child mark) s = state (Children.retire_child id child mark s)
run (remove_child id child_id) s = state (Children.remove_child id child_id s)
run (set_child_list_complete id complete) s = state (Placing.set_child_list_complete id complete s)
run (set_key_limits id input) s = state (Organization.set_key_limits id input s)
run (change_seats id users machines) s = state (Organization.change_seats id users machines s)
run (set_seat_limits id users machines) s = state (Organization.set_seat_limits id users machines s)
run (set_seats_used id users machines complete) s =
    state (Organization.set_seats_used id users machines complete s)
run (retire id) s = state (Placing.retire id s)

abbrev pub or_same : Outcome Store → Store → Store
or_same (ok s') s = s'
or_same (err e) s = s

unfoldable pub perform : Request → Store → Store
perform r s = or_same (run r s) s

unfoldable pub serve : List Request → Store → Store
serve [] s = s
serve (r ∷ rs) s = serve rs (perform r s)

-- The basis that a request offers to a node.
abbrev pub offer : Request → Option Text
offer (set_basis id basis) = some basis
offer (set_next_basis id basis at) = some basis
offer _ = none
