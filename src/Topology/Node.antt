-- ===== src/Topology/Node.antt =====
-- The private helpers of the class LocalNodes: what a node must be for a change, and how it is
-- described.
use sema_core.Prelude.{
  ℕ, Bool, true, not, Option, none, some, Text, is_empty, is_some, if◌then◌else◌, ◌>>◌, refuse_if,
  truthy, get_or_else,
}
use sema_core.Topology.Types.{
  NodeType, Status, is_active, is_organization, Shutdown, KeyLimits, Seats, empty_seats, LocalNode,
  Outcome, node_retired, node_suspended,
}
use sema_core.Topology.Store
use sema_core.Topology.Store.{Store}

-- `count`
unfoldable pub count : Text → Store → ℕ
count id s = Store.count_entries (Store.children id s)

unfoldable pub require_active : LocalNode → Outcome (Unit {0})
require_active node = refuse_if (not (is_active node.status)) node_retired

unfoldable pub require_usable : LocalNode → Outcome (Unit {0})
require_usable node = do require_active node; refuse_if (is_some node.shutdown) node_suspended

pub record SeatCount : Type 0 where
  pub used : ℕ
  pub allowed : Option ℕ

pub record SeatView : Type 0 where
  pub users : SeatCount
  pub machines : SeatCount

-- `viewSeats`
abbrev pub view_seats : Seats → SeatView
view_seats seats = record {
  users = record { used = seats.users_used; allowed = seats.users_allowed };
  machines = record { used = seats.machines_used; allowed = seats.machines_allowed };
}

-- `hasLimits`
abbrev pub has_limits : KeyLimits → Bool
has_limits l =
    if is_some l.max_segments
    then true
    else if is_some l.max_segment_length
    then true
    else is_some l.max_last_segment_length

abbrev kept_limits : Option KeyLimits → Option KeyLimits
kept_limits none = none
kept_limits (some l) = if has_limits l then some l else none

pub record NodeDescription : Type 0 where
  pub id : Text
  pub type : NodeType
  pub parent_id : Option Text
  pub parent_address : Option Text
  pub basis : Text
  pub child_count : ℕ
  pub child_list_incomplete : Bool
  pub key_limits : Option KeyLimits
  pub seats : Option SeatView
  pub shutdown : Option Shutdown
  -- the ready basis, with the value after which it takes over
  pub next : Option (Text × ℕ)
  pub status : Status

abbrev next_of : Option Text → Option ℕ → Option (Text × ℕ)
next_of (some basis) (some at) = if is_empty basis then none else some (basis, at)
next_of _ _ = none

unfoldable pub describe_node : LocalNode → ℕ → NodeDescription
describe_node node child_count = record {
  id = node.id;
  type = node.type;
  parent_id = truthy node.parent_id;
  parent_address = truthy node.parent_address;
  basis = node.basis;
  child_count = child_count;
  child_list_incomplete = not node.child_list_complete;
  key_limits = kept_limits node.key_limits;
  seats =
      if is_organization node.type
      then some (view_seats (get_or_else node.seats empty_seats))
      else none;
  shutdown = node.shutdown;
  next = next_of node.next_basis node.switch_at;
  status = node.status;
}
