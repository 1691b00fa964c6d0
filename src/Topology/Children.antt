-- ===== src/Topology/Children.antt =====
-- LocalNodes: the list of a node's direct children.
use sema_core.Prelude.{
  ℕ, Bool, true, false, not, Option, none, some, List, [], ◌∷◌, Text, text_eq, any, if◌then◌else◌,
  ok, err, ◌>>=◌, ◌>>◌, refuse_if, require, truthy,
}
use sema_core.Topology.Types.{
  NodeType, user, machine, is_active, TimeText, instant, is_unreadable, Suspension, Shutdown,
  ChildEntry, GivenChild, LocalNode, Outcome, entry, valid_id, require_may_hold, no_such_node,
  own_child, bad_child_id, bad_node_type, bad_time, type_not_known, only_user_or_machine,
}
use sema_core.Topology.Store
use sema_core.Topology.Store.{Store, NamedChild, CheckedIn}
use sema_core.Topology.Node.{count, require_usable}
use sema_core.Topology.Placing.{checked_reason}

unfoldable pub entries : List GivenChild → Outcome (List ChildEntry)
entries [] = ok []
entries (c ∷ cs) = do e ← entry c; es ← entries cs; ok (e ∷ es)

unfoldable pub require_all_held : LocalNode → List ChildEntry → Outcome (Unit {0})
require_all_held node [] = ok tt
require_all_held node (e ∷ es) = do require_may_hold node.type e.type; require_all_held node es

unfoldable pub add_children : Text → List GivenChild → Store → Outcome (ℕ × Store)
add_children id given s = do
  es ← entries given
  refuse_if (any (λ e. text_eq e.child_id id) es) own_child
  node ← require (Store.get id s) no_such_node
  require_usable node
  require_all_held node es
  s' ← Store.add_children id es s
  ok (count id s', s')

-- A shutdown as a parent reports it, without how the node learned of it.
pub record Reported : Type 0 where
  pub node_id : Text
  pub reason : Text
  pub by : Option Text
  pub at : TimeText

pub data CheckInAnswer : Type 0 where
  active_answer :
      (last_seen_at : TimeText) (added : Bool) (shutdown : Option Reported) → CheckInAnswer
  retired_answer : (parent_id parent_address : Option Text) → CheckInAnswer
  child_retired : Suspension → CheckInAnswer

abbrev reported : Text → Option Suspension → Option Shutdown → Option Reported
reported child_id (some mark) above =
    some (record { node_id = child_id; reason = mark.reason; by = mark.by; at = mark.at })
reported child_id none (some above) =
    some (record {
      node_id = above.node_id;
      reason = above.reason;
      by = truthy above.by;
      at = above.at;
    })
reported child_id none none = none

abbrev answer_of : Text → ℕ → Option Shutdown → CheckedIn → CheckInAnswer
answer_of child_id time above checked = elim checked.retired [
  | some mark ↦ child_retired mark
  | none ↦ active_answer (instant time) checked.added (reported child_id checked.suspension above)
]

abbrev pub check_in_active :
    Text → ChildEntry → ℕ → LocalNode → Store → Outcome (CheckInAnswer × Store)
check_in_active id child time node s = do
  require_may_hold node.type child.type
  (checked, s') ← Store.check_in id child time s
  ok (answer_of child.child_id time node.shutdown checked, s')

unfoldable pub check_in : Text → GivenChild → ℕ → Store → Outcome (CheckInAnswer × Store)
check_in id given time s = do
  child ← entry given
  refuse_if (text_eq child.child_id id) own_child
  node ← require (Store.get id s) no_such_node
  if is_active node.status
      then check_in_active id child time node s
      else ok (retired_answer (truthy node.parent_id) (truthy node.parent_address), s)

-- A type that a caller may leave out, and may give as a text that is not one of the five.
pub data GivenType : Type 0 where
  absent : GivenType
  unknown : GivenType
  given : NodeType → GivenType

abbrev pub checked_type : GivenType → Outcome (Option NodeType)
checked_type absent = ok none
checked_type unknown = err bad_node_type
checked_type (given type) = ok (some type)

pub record MarkedChild : Type 0 where
  pub child_id : Text
  pub type : GivenType
  pub address : Option Text

-- A mark as a caller gives it: the reason is `none` when it is not a text.
pub record GivenMark : Type 0 where
  pub reason : Option Text
  pub by : Option Text
  pub at : TimeText

unfoldable pub checked_mark : GivenMark → Outcome Suspension
checked_mark mark = do
  reason ← checked_reason mark.reason
  refuse_if (is_unreadable mark.at) bad_time
  ok (record { reason = reason; by = truthy mark.by; at = mark.at })

abbrev pub checked_marking : Option GivenMark → Outcome (Option Suspension)
checked_marking none = ok none
checked_marking (some mark) = do m ← checked_mark mark; ok (some m)

-- The type is checked only when a mark is set and the type is given.
abbrev pub require_markable : LocalNode → Option NodeType → Option Suspension → Outcome (Unit {0})
require_markable node (some type) (some mark) = require_may_hold node.type type
require_markable node _ _ = ok tt

unfoldable pub mark_child : Text → MarkedChild → Option GivenMark → Store → Outcome (Bool × Store)
mark_child id child mark s = do
  refuse_if (not (valid_id child.child_id)) bad_child_id
  type ← checked_type child.type
  suspension ← checked_marking mark
  node ← require (Store.get id s) no_such_node
  require_markable node type suspension
  Store.mark_child id (record { child_id = child.child_id; type = type; address = child.address })
      suspension s

abbrev pub is_child : Text → ChildEntry → Bool
is_child child_id e = text_eq e.child_id child_id

-- `entries.find(…)`
abbrev pub find : (ChildEntry → Bool) → List ChildEntry → Option ChildEntry
find p [] = none
find p (e ∷ es) = let later = find p es in if p e then some e else later

-- `listed?.type ?? child.type`
abbrev pub listed_type : Option ChildEntry → Option NodeType → Option NodeType
listed_type none type = type
listed_type (some e) type = some e.type

abbrev pub is_leaf : NodeType → Bool
is_leaf user = true
is_leaf machine = true
is_leaf _ = false

unfoldable pub retire_child : Text → NamedChild → GivenMark → Store → Outcome (ℕ × Store)
retire_child id child mark s = do
  refuse_if (not (valid_id child.child_id)) bad_child_id
  retired ← checked_mark mark
  node ← require (Store.get id s) no_such_node
  let listed = find (is_child child.child_id) (Store.children id s)
  type ← require (listed_type listed child.type) type_not_known
  refuse_if (not (is_leaf type)) only_user_or_machine
  s' ←
      Store.retire_child id
        (record { child_id = child.child_id; type = some type; address = child.address }) retired s
  ok (count id s', s')

unfoldable pub remove_child : Text → Text → Store → Outcome ((Bool × ℕ) × Store)
remove_child id child_id s = do
  (removed, s') ← Store.remove_child id child_id s
  ok ((removed, count id s'), s')
