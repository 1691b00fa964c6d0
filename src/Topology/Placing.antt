-- ===== src/Topology/Placing.antt =====
-- LocalNodes: recording a node, moving it under a parent, shutting it down and retiring it.
use sema_core.Prelude.{
  Bool, true, false, not, Option, none, some, List, [], Text, text_eq, is_empty, trim, is_some,
  if◌then◌else◌, ok, err, ◌>>=◌, ◌>>◌, refuse_if, require, truthy,
}
use sema_core.Topology.Types.{
  NodeType, Status, active, retired, is_organization, TimeText, is_unreadable, Via, Shutdown,
  ChildEntry, empty_seats, LocalNode, Outcome, valid_id, bad_node_id, bad_node_type, own_parent,
  no_replacement, no_suspended_node, no_reason, bad_via, bad_time,
}
use sema_core.Topology.Store
use sema_core.Topology.Store.{Store, Change}
use sema_core.Topology.Node.{count, require_active, require_usable, describe_node, NodeDescription}

-- The type is `none` when the caller's text is not one of the five.
pub record NewNode : Type 0 where
  pub id : Text
  pub type : Option NodeType
  pub parent_id : Option Text
  pub parent_address : Option Text

abbrev pub is_text : Option Text → Text → Bool
is_text none id = false
is_text (some t) id = text_eq t id

abbrev pub fresh_node : Text → NodeType → Status → LocalNode
fresh_node id type status = record {
  id = id;
  type = type;
  key_limits = none;
  seats = none;
  shutdown = none;
  parent_id = none;
  parent_address = none;
  basis = id;
  issued = 0;
  next_basis = none;
  switch_at = none;
  child_list_complete = true;
  status = status;
}

unfoldable pub accept : NewNode → Store → Outcome (NodeDescription × Store)
accept input s = do
  refuse_if (not (valid_id input.id)) bad_node_id
  type ← require input.type bad_node_type
  refuse_if (is_text input.parent_id input.id) own_parent
  let parent_id = truthy input.parent_id
  let fresh = fresh_node input.id type active
  let node : LocalNode = record fresh {
    seats = if is_organization type then some empty_seats else none;
    parent_id = parent_id;
    parent_address = if is_some parent_id then truthy input.parent_address else none;
  }
  s' ← Store.insert node s
  ok (describe_node node 0, s')

pub record LostNode : Type 0 where
  pub id : Text
  pub type : Option NodeType
  pub replacement_id : Text
  pub replacement_address : Option Text

unfoldable pub accept_retired : LostNode → Store → Outcome (NodeDescription × Store)
accept_retired input s = do
  refuse_if (not (valid_id input.id)) bad_node_id
  type ← require input.type bad_node_type
  refuse_if (if is_empty input.replacement_id then true else text_eq input.replacement_id input.id)
      no_replacement
  let fresh = fresh_node input.id type retired
  let node : LocalNode = record fresh {
    parent_id = some input.replacement_id;
    parent_address = truthy input.replacement_address;
  }
  s' ← Store.insert node s
  ok (describe_node node 0, s')

abbrev pub parent_change : Text → Text → Option Text → LocalNode → Outcome (Change LocalNode)
parent_change id parent_id parent_address node = do
  require_usable node
  refuse_if (text_eq parent_id id) own_parent
  let next : LocalNode = record node {
    parent_id = some parent_id;
    parent_address = truthy parent_address;
  }
  ok (record { node = next; result = next; add_children = [] })

unfoldable pub set_parent : Text → Text → Option Text → Store → Outcome (NodeDescription × Store)
set_parent id parent_id parent_address s = do
  (moved, s') ← Store.mutate id (parent_change id parent_id parent_address) s
  ok (describe_node moved (count id s'), s')

-- A shutdown as a caller gives it: the reason is `none` when it is not a text, and `via` when it is
-- neither ORDER nor PARENT.
pub record GivenShutdown : Type 0 where
  pub node_id : Text
  pub reason : Option Text
  pub by : Option Text
  pub at : TimeText
  pub via : Option Via

unfoldable pub checked_reason : Option Text → Outcome Text
checked_reason none = err no_reason
checked_reason (some reason) = do refuse_if (is_empty (trim reason)) no_reason; ok (trim reason)

abbrev pub checked_shutdown : Option GivenShutdown → Outcome (Option Shutdown)
checked_shutdown none = ok none
checked_shutdown (some given) = do
  refuse_if (not (valid_id given.node_id)) no_suspended_node
  reason ← checked_reason given.reason
  via ← require given.via bad_via
  refuse_if (is_unreadable given.at) bad_time
  ok (
      some (record {
        node_id = given.node_id;
        reason = reason;
        by = truthy given.by;
        at = given.at;
        via = via;
      }))

abbrev pub shutdown_change : Option Shutdown → LocalNode → Outcome (Change LocalNode)
shutdown_change shutdown node = do
  require_active node
  let next : LocalNode = record node { shutdown = shutdown }
  ok (record { node = next; result = next; add_children = [] })

unfoldable pub set_shutdown :
    Text → Option GivenShutdown → Store → Outcome (NodeDescription × Store)
set_shutdown id given s = do
  shutdown ← checked_shutdown given
  (changed, s') ← Store.mutate id (shutdown_change shutdown) s
  ok (describe_node changed (count id s'), s')

pub record Retired : Type 0 where
  pub parent_id : Option Text
  pub parent_address : Option Text
  pub children : List ChildEntry
  pub child_list_complete : Bool

abbrev pub retire_change : LocalNode → Outcome (Change LocalNode)
retire_change node = do
  require_active node
  ok (record { node = record node { status = retired }; result = node; add_children = [] })

unfoldable pub retire : Text → Store → Outcome (Retired × Store)
retire id s = do
  (node, s') ← Store.mutate id retire_change s
  ok (
    record {
      parent_id = truthy node.parent_id;
      parent_address = truthy node.parent_address;
      children = Store.children id s';
      child_list_complete = node.child_list_complete;
    },
    s',
  )

abbrev pub complete_change : Bool → LocalNode → Outcome (Change Bool)
complete_change complete node = ok (record {
  node = record node { child_list_complete = complete };
  result = complete;
  add_children = [];
})

unfoldable pub set_child_list_complete : Text → Bool → Store → Outcome (Bool × Store)
set_child_list_complete id complete s = Store.mutate id (complete_change complete) s
