-- ===== src/Topology/Issuing.antt =====
-- LocalNodes: the IDs and bases that a node issues, and the basis that it issues from.
use sema_core.Prelude.{
  ℕ, Bool, true, false, not, Option, none, some, [], ◌∷◌, ◌++◌, Text, text_eq, starts_with,
  is_empty, length, split, any, leb, ltb, if◌then◌else◌, ok, err, ◌>>=◌, ◌>>◌, refuse_if, require,
}
use sema_core.Identity.{ℤ, pos, negsuc, hyphen}
use sema_core.Topology.Types.{
  NodeType, LocalNode, Outcome, entry, valid_id, require_may_hold, bad_node_type, basis_not_shorter,
  bad_basis, bad_switch_at, own_basis,
}
use sema_core.Topology.Counter.{advance, next_value}
use sema_core.Topology.Store
use sema_core.Topology.Store.{Store, Change}
use sema_core.Topology.Node.{count, require_usable, describe_node, NodeDescription}

pub record ChildRequest : Type 0 where
  pub type : Option NodeType
  pub address : Option Text

pub record Issued : Type 0 where
  pub value : Text
  pub child_count : ℕ

abbrev pub child_change : NodeType → Option Text → LocalNode → Outcome (Change Text)
child_change type address node = do
  require_usable node
  require_may_hold node.type type
  let next = advance node 1
  let child_id = next_value next
  child ← entry (record { child_id = child_id; type = some type; address = address })
  ok (record { node = next.node; result = child_id; add_children = child ∷ [] })

unfoldable pub issue_child_id : Text → ChildRequest → Store → Outcome (Issued × Store)
issue_child_id id child s = do
  type ← require child.type bad_node_type
  (value, s') ← Store.mutate id (child_change type child.address) s
  ok (record { value = value; child_count = count id s' }, s')

abbrev pub basis_issue : LocalNode → Outcome (Change Text)
basis_issue node = do
  require_usable node
  let next = advance node 1
  ok (record { node = next.node; result = next_value next; add_children = [] })

unfoldable pub issue_basis : Text → Store → Outcome (Text × Store)
issue_basis id s = Store.mutate id basis_issue s

-- `segments`
unfoldable pub segments : Text → ℕ
segments basis = length (split hyphen basis)

pub record Rebased : Type 0 where
  pub previous_basis : Text
  pub basis : Text

abbrev pub basis_change : Text → LocalNode → Outcome (Change Rebased)
basis_change basis node = do
  require_usable node
  refuse_if (leb (segments node.basis) (segments basis)) basis_not_shorter
  refuse_if (any is_empty (split hyphen basis)) bad_basis
  ok (record {
    node = record node { basis = basis; issued = 0; next_basis = none; switch_at = none };
    result = record { previous_basis = node.basis; basis = basis };
    add_children = [];
  })

-- A roll-up: the node takes a shorter basis from an ancestor.
unfoldable pub set_basis : Text → Text → Store → Outcome (Rebased × Store)
set_basis id basis s = Store.mutate id (basis_change basis) s

-- `BigInt(value)` of what the caller gives: `none` when it throws.
abbrev pub switch_value : Option ℤ → Outcome ℕ
switch_value none = err bad_switch_at
switch_value (some (negsuc n)) = err bad_switch_at
switch_value (some (pos n)) = do refuse_if (ltb n 1) bad_switch_at; ok n

abbrev pub is_held : Option Text → Bool
is_held none = false
is_held (some basis) = not (is_empty basis)

abbrev pub is_own : Text → Text → Text → Bool
is_own id own basis =
    if text_eq basis own
    then true
    else if starts_with basis (own ++ hyphen ∷ [])
    then true
    else text_eq basis id

abbrev pub keep_basis : Text → ℕ → LocalNode → LocalNode
keep_basis basis switch_at node =
    if is_held node.next_basis
    then node
    else record node { next_basis = some basis; switch_at = some switch_at }

abbrev pub next_basis_change : Text → Text → ℕ → LocalNode → Outcome (Change LocalNode)
next_basis_change id basis switch_at node = do
  require_usable node
  refuse_if (is_own id node.basis basis) own_basis
  let next = keep_basis basis switch_at node
  ok (record { node = next; result = next; add_children = [] })

unfoldable pub set_next_basis : Text → Text → Option ℤ → Store → Outcome (NodeDescription × Store)
set_next_basis id basis given s = do
  refuse_if (not (valid_id basis)) bad_basis
  switch_at ← switch_value given
  (changed, s') ← Store.mutate id (next_basis_change id basis switch_at) s
  ok (describe_node changed (count id s'), s')
