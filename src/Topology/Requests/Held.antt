-- ===== src/Topology/Requests/Held.antt =====
-- Every child on a list is of a type that the list's node may hold.
use mathlib.Core.Path.{subst}
use sema_core.Prelude.{
  ◌≡◌, sym, ◌∙◌, ap, true, Option, none, some, List, [], ◌∷◌, Text, Dict, lookup, All,
  lookup-insert_new, lookup-insert_self, lookup-insert_cases, lookup-remove, insert as set_key,
  remove as delete_key, inl, inr, arith, ok, >>=-eq-ok, refuse_if, has,
}
use sema_core.Topology.Types.{
  LocalNode, NodeType, ChildEntry, may_hold, already_exists, list_missing,
}
use sema_core.Topology.Store
use sema_core.Topology.Store.{Store, Change}
use sema_core.Topology.Requests.Evolution.{require-some, Evolves}
use sema_core.Topology.Requests.Frozen.{Step-same}

-- An entry stands under its own ID, and its type is one that the node may hold, unless the child
-- was retired while away.
abbrev pub Fits : NodeType → Text → ChildEntry → Type 0
Fits type child_id e = (e.child_id ≡ child_id) × (e.retired ≡ none → may_hold type e.type ≡ true)

abbrev pub Holds : NodeType → Dict ChildEntry → Type 0
Holds type es =
    (child_id : Text) (e : ChildEntry) → lookup child_id es ≡ some e → Fits type child_id e

abbrev pub IsHeldBy : Store → Text → Dict ChildEntry → Type 0
IsHeldBy s id es = (n : LocalNode) × (Store.get id s ≡ some n) × Holds n.type es

abbrev pub AllHeld : Store → Type 0
AllHeld s = (id : Text) (es : Dict ChildEntry) → lookup id s.lists ≡ some es → IsHeldBy s id es

module _ (type : NodeType) where
  pub Holds-empty : Holds type []
  unfolding lookup
  Holds-empty child_id e found = cc

  pub Holds-set_key :
      (c : Text) (e : ChildEntry) (es : Dict ChildEntry)
      → Fits type c e
      → Holds type es
      → Holds type (set_key c e es)
  Holds-set_key c e es fits held j x found = elim (lookup-insert_cases c j e x es found) [
    | inl (here, same) ↦ rw (← here, ← same) fits
    | inr (other, before) ↦ held j x before
  ]

  Holds-set_entries :
      (new : List ChildEntry) (es : Dict ChildEntry)
      → All (λ e. Fits type e.child_id e) new
      → Holds type es
      → Holds type (Store.set_entries new es)
  Holds-set_entries [] es fits held = held
  Holds-set_entries (e ∷ new) es (fit, fits) held =
      Holds-set_entries new (set_key e.child_id e es) fits (Holds-set_key e.child_id e es fit held)

  pub Holds-delete_key :
      (c : Text) (es : Dict ChildEntry) → Holds type es → Holds type (delete_key c es)
  Holds-delete_key c es held j x found = held j x (ground (arith, lookup-remove c j es))

pub put_list-AllHeld :
    (id : Text) (n : LocalNode) (es : Dict ChildEntry) (s : Store)
    → Store.get id s ≡ some n
    → Holds n.type es
    → AllHeld s
    → AllHeld (Store.put_list id es s)
put_list-AllHeld id n es s at_id holds held j fs found =
    elim (lookup-insert_cases id j es fs s.lists found) [
      | inl (here, same) ↦ (n, rw (← here) at_id, subst (Holds n.type) same holds)
      | inr (other, before) ↦ held j fs before
    ]

-- The list that a node has, read with the node.
pub list-Holds :
    (id : Text) (n : LocalNode) (es : Dict ChildEntry) (s : Store)
    → Store.get id s ≡ some n
    → Store.list_of id s ≡ ok es
    → AllHeld s
    → Holds n.type es
unfolding Store.list_of
list-Holds id n es s at_id read held =
    let (m, there, holds) = held id es (require-some (lookup id s.lists) list_missing read) in
    let same : m ≡ n = cc in subst (λ (x : LocalNode). Holds x.type es) same holds

pub put_children-AllHeld :
    (id : Text) (n : LocalNode) (es : List ChildEntry) (s t : Store)
    → Store.get id s ≡ some n
    → All (λ e. Fits n.type e.child_id e) es
    → AllHeld s
    → Store.put_children id es s ≡ ok t
    → AllHeld t
unfolding Store.put_children
put_children-AllHeld id n [] s t at_id fits held h =
    let same : s ≡ t = cc in subst AllHeld same held
put_children-AllHeld id n (e ∷ es) s t at_id fits held h =
    let (old, found, h₁) = >>=-eq-ok (Store.list_of id s) _ h in
    let same : Store.put_list id (Store.set_entries (e ∷ es) old) s ≡ t = cc in
    subst AllHeld same (
      put_list-AllHeld id n (Store.set_entries (e ∷ es) old) s at_id
        (Holds-set_entries n.type (e ∷ es) old fits (list-Holds id n old s at_id found held)) held)

-- Nodes that take steps keep their types.
pub Evolves-AllHeld :
    {o : Option Text} (s t : Store) → Evolves o s t → s.lists ≡ t.lists → AllHeld s → AllHeld t
Evolves-AllHeld s t ev same held id es found =
    let (n, there, holds) = held id es (ap (lookup id) same ∙ found) in
    let (m, later, st) = ev.follow id n there in
    let (_, kept) = Step-same n st in (m, later, subst (λ x. Holds x es) (sym kept) holds)

pub insert-AllHeld :
    (node : LocalNode) (s t : Store) → Store.insert node s ≡ ok t → AllHeld s → AllHeld t
unfolding Store.insert
insert-AllHeld node s t h held =
    let (u, absent, h₁) = >>=-eq-ok (refuse_if (has node.id s.nodes) already_exists) _ h in
    let written : set_key node.id node s.nodes ≡ t.nodes = cc in
    let listed : set_key node.id [] s.lists ≡ t.lists = cc in
    λ j es found.
      elim (lookup-insert_cases node.id j [] es s.lists (ap (lookup j) listed ∙ found)) [
        | inl (here, same) ↦ (
          node,
          ap (lookup j) (sym written)
              ∙ subst (λ x. lookup x (set_key node.id node s.nodes) ≡ some node) here
                  (lookup-insert_self node.id node s.nodes),
          subst (Holds node.type) same (Holds-empty node.type),
        )
        | inr (other, before) ↦
            let (n, there, holds) = held j es before in
            (
              n,
              ap (lookup j) (sym written)
                  ∙ lookup-insert_new node.id j node n s.nodes (ground arith) there,
              holds,
            )
      ]
