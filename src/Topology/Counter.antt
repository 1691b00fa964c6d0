-- ===== src/Topology/Counter.antt =====
-- `advance` of src/topology/local-nodes.ts: how a node's counter issues values.
use sema_core.Prelude.{ℕ, ◌+◌, Option, none, some, Text, ltb, if◌then◌else◌, is_empty, ◌++◌, ◌∷◌}
use sema_core.Identity.{encode, hyphen}
use sema_core.Topology.Types.{LocalNode}

pub record Advanced : Type 0 where
  pub node : LocalNode
  pub basis : Text
  pub first : ℕ

-- A ready basis takes over when the counter would pass `switch_at`.
abbrev pub ready : LocalNode → ℕ → Option Text → Option ℕ → Option Text
ready node count (some next_basis) (some switch_at) =
    if is_empty next_basis
    then none
    else if ltb switch_at (node.issued + count)
    then some next_basis
    else none
ready node count _ _ = none

abbrev pub take_from : LocalNode → ℕ → Option Text → Advanced
take_from node count (some next_basis) = record {
  node = record node { basis = next_basis; issued = count; next_basis = none; switch_at = none };
  basis = next_basis;
  first = 1;
}
take_from node count none = record {
  node = record node { issued = node.issued + count };
  basis = node.basis;
  first = node.issued + 1;
}

unfoldable pub advance : LocalNode → ℕ → Advanced
advance node count = take_from node count (ready node count node.next_basis node.switch_at)

-- The ID that a node issues next: its basis and the next number from its counter.
unfoldable pub next_value : Advanced → Text
next_value next = next.basis ++ hyphen ∷ encode next.first
