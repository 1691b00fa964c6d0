-- ===== src/Topology/Store.antt =====
-- InMemoryLocalNodeStore of src/topology/local-nodes.ts. An operation that throws writes nothing.
use sema_core.Prelude.{
  ℕ, Bool, true, false, not, Option, none, some, List, [], ◌∷◌, Text, Dict, lookup,
  insert as set_key, remove as delete_key, values, has, filter, length, is_some, ok, ◌>>=◌, ◌>>◌,
  refuse_if, require, get_or_else, truthy,
}
use sema_core.Topology.Types.{
  NodeType, is_active, instant, Suspension, ChildEntry, LocalNode, Outcome, no_such_node,
  already_exists, node_retired, list_missing, type_not_known,
}

pub record Store : Type 0 where
  pub nodes : Dict LocalNode
  pub lists : Dict (Dict ChildEntry)

abbrev pub empty : Store
empty = record { nodes = []; lists = [] }

abbrev pub get : Text → Store → Option LocalNode
get id s = lookup id s.nodes

abbrev pub list : Store → List LocalNode
list s = values s.nodes

-- `lists.get(id)!`
unfoldable pub list_of : Text → Store → Outcome (Dict ChildEntry)
list_of id s = require (lookup id s.lists) list_missing

abbrev pub put_node : Text → LocalNode → Store → Store
put_node id node s = record s { nodes = set_key id node s.nodes }

abbrev pub put_list : Text → Dict ChildEntry → Store → Store
put_list id entries s = record s { lists = set_key id entries s.lists }

abbrev pub set_entries : List ChildEntry → Dict ChildEntry → Dict ChildEntry
set_entries [] entries = entries
set_entries (e ∷ es) entries = set_entries es (set_key e.child_id e entries)

-- The loop that sets each entry; the list is read only when there is one.
unfoldable pub put_children : Text → List ChildEntry → Store → Outcome Store
put_children id [] s = ok s
put_children id (e ∷ es) s = do
  entries ← list_of id s
  ok (put_list id (set_entries (e ∷ es) entries) s)

unfoldable pub insert : LocalNode → Store → Outcome Store
insert node s = do
  refuse_if (has node.id s.nodes) already_exists
  ok (record { nodes = set_key node.id node s.nodes; lists = set_key node.id [] s.lists })

-- What a change to a node returns: the node, a result and the children to add.
pub record Change (A : Type 0) : Type 0 where
  pub node : LocalNode
  pub result : A
  pub add_children : List ChildEntry

unfoldable pub mutate :
    {A : Type 0} → Text → (LocalNode → Outcome (Change A)) → Store → Outcome (A × Store)
mutate id change s = do
  current ← require (get id s) no_such_node
  changed ← change current
  s' ← put_children id changed.add_children (put_node id changed.node s)
  ok (changed.result, s')

abbrev entries_of : Option (Dict ChildEntry) → List ChildEntry
entries_of none = []
entries_of (some entries) = values entries

unfoldable pub children : Text → Store → List ChildEntry
children id s = entries_of (lookup id s.lists)

abbrev pub is_counted : ChildEntry → Bool
is_counted e = not (is_some e.retired)

-- The children in a list, not counting those retired while away.
unfoldable pub count_entries : List ChildEntry → ℕ
count_entries es = length (filter is_counted es)

abbrev pub count_lists : Dict (Dict ChildEntry) → Dict ℕ
count_lists [] = []
count_lists ((id, entries) ∷ m) = (id, count_entries (values entries)) ∷ count_lists m

abbrev pub count_children : Store → Dict ℕ
count_children s = count_lists s.lists

unfoldable pub add_children : Text → List ChildEntry → Store → Outcome Store
add_children id entries s = do
  node ← require (get id s) no_such_node
  refuse_if (not (is_active node.status)) node_retired
  put_children id entries s

unfoldable pub remove_child : Text → Text → Store → Outcome (Bool × Store)
remove_child id child_id s = do
  node ← require (get id s) no_such_node
  entries ← list_of id s
  ok (has child_id entries, put_list id (delete_key child_id entries) s)

pub record CheckedIn : Type 0 where
  pub added : Bool
  pub suspension : Option Suspension
  pub retired : Option Suspension

abbrev checked_in : Option ChildEntry → CheckedIn
checked_in none = record { added = true; suspension = none; retired = none }
checked_in (some e) = record { added = false; suspension = e.suspension; retired = e.retired }

-- `time` is the clock's reading in milliseconds.
unfoldable pub check_in : Text → ChildEntry → ℕ → Store → Outcome (CheckedIn × Store)
check_in id child time s = do
  node ← require (get id s) no_such_node
  refuse_if (not (is_active node.status)) node_retired
  entries ← list_of id s
  let current = lookup child.child_id entries
  let kept = get_or_else current child
  let stamped : ChildEntry = record kept { last_seen_at = some (instant time) }
  ok (checked_in current, put_list id (set_key child.child_id stamped entries) s)

-- A child as a parent's caller names it; the type may be left out.
pub record NamedChild : Type 0 where
  pub child_id : Text
  pub type : Option NodeType
  pub address : Option Text

abbrev pub new_entry : NamedChild → NodeType → ChildEntry
new_entry child type = record {
  child_id = child.child_id;
  type = type;
  address = truthy child.address;
  last_seen_at = none;
  suspension = none;
  retired = none;
}

abbrev pub entry_or_new : NamedChild → Option ChildEntry → Outcome ChildEntry
entry_or_new child (some e) = ok e
entry_or_new child none = do type ← require child.type type_not_known; ok (new_entry child type)

unfoldable pub retire_child : Text → NamedChild → Suspension → Store → Outcome Store
retire_child id child mark s = do
  node ← require (get id s) no_such_node
  entries ← list_of id s
  current ← entry_or_new child (lookup child.child_id entries)
  let marked : ChildEntry = record current { retired = some mark }
  ok (put_list id (set_key child.child_id marked entries) s)

-- Clearing the mark of a child that is not there adds nothing.
abbrev pub mark_entry :
    NamedChild → Option Suspension → Option ChildEntry → Outcome (Option ChildEntry)
mark_entry child none none = ok none
mark_entry child (some mark) none = do
  type ← require child.type type_not_known
  let fresh = new_entry child type
  ok (some (record fresh { suspension = some mark }))
mark_entry child mark (some current) = ok (some (record current { suspension = mark }))

abbrev pub put_entry : Text → Text → Option ChildEntry → Dict ChildEntry → Store → Bool × Store
put_entry id child_id none entries s = (false, s)
put_entry id child_id (some e) entries s = (true, put_list id (set_key child_id e entries) s)

unfoldable pub mark_child : Text → NamedChild → Option Suspension → Store → Outcome (Bool × Store)
mark_child id child mark s = do
  node ← require (get id s) no_such_node
  entries ← list_of id s
  marked ← mark_entry child mark (lookup child.child_id entries)
  ok (put_entry id child.child_id marked entries s)
