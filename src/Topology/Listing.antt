-- ===== src/Topology/Listing.antt =====
-- LocalNodes: reading what is held here.
use sema_core.Prelude.{
  ℕ, Option, none, some, List, Text, lookup, map, get_or_else, ok, ◌>>=◌, require, if◌then◌else◌,
  is_empty,
}
use sema_core.Topology.Types.{
  NodeType, Status, active, retired, LocalNode, ChildEntry, Outcome, no_such_node,
}
use sema_core.Topology.Counter.{advance, next_value}
use sema_core.Topology.Store
use sema_core.Topology.Store.{Store}
use sema_core.Topology.Node.{count, describe_node, NodeDescription}

abbrev describe_counted : Store → LocalNode → NodeDescription
describe_counted s node =
    describe_node node (get_or_else (lookup node.id (Store.count_children s)) 0)

unfoldable pub list : Store → List NodeDescription
list s = map (describe_counted s) (Store.list s)

pub record WithNextId : Type 0 where
  pub description : NodeDescription
  pub next_id : Option Text

-- A retired node issues nothing.
abbrev pub next_id_of : LocalNode → Status → Option Text
next_id_of node active = some (next_value (advance node 1))
next_id_of node retired = none

abbrev with_next_id : Store → LocalNode → WithNextId
with_next_id s node = record {
  description = describe_counted s node;
  next_id = next_id_of node node.status;
}

unfoldable pub list_with_next_id : Store → List WithNextId
list_with_next_id s = map (with_next_id s) (Store.list s)

unfoldable pub describe : Text → Store → Option NodeDescription
describe id s = elim (Store.get id s) [
  | none ↦ none
  | some node ↦ some (describe_node node (count id s))
]

unfoldable pub children : Text → Store → Outcome (List ChildEntry)
children id s = do node ← require (Store.get id s) no_such_node; ok (Store.children id s)

pub record Counter : Type 0 where
  pub id : Text
  pub type : NodeType
  pub status : Status
  pub basis : Text
  pub issued : ℕ
  pub next_basis : Option Text
  pub switch_at : Option ℕ

abbrev held : Option Text → Option ℕ → Option Text × Option ℕ
held none switch_at = (none, none)
held (some basis) switch_at = if is_empty basis then (none, none) else (some basis, switch_at)

abbrev counter : LocalNode → Counter
counter node =
    let (next, at) = held node.next_basis node.switch_at in
    record {
      id = node.id;
      type = node.type;
      status = node.status;
      basis = node.basis;
      issued = node.issued;
      next_basis = next;
      switch_at = at;
    }

unfoldable pub counters : Store → List Counter
counters s = map counter (Store.list s)
