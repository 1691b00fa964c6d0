-- ===== src/Topology/Requests/Lists.antt =====
-- The requests that change only a list of children leave every node as it was.
use sema_core.Prelude.{
  ℕ, ◌≡◌, ◌∙◌, ap, Bool, not, Option, some, List, Text, arith, ok, >>=-eq-ok, refuse_if, require,
  any, text_eq, Bool-cases, inl, inr,
}
use sema_core.Topology.Types.{
  ChildEntry, is_active, Suspension, valid_id, entry, no_such_node, GivenChild, own_child,
  node_retired, bad_child_id, only_user_or_machine, type_not_known, require_may_hold,
}
use sema_core.Topology.Store
use sema_core.Topology.Store.{Store, NamedChild}
use sema_core.Topology.Node.{require_usable}
use sema_core.Topology.Children
use sema_core.Topology.Children.{MarkedChild, GivenMark}
use sema_core.Topology.Requests.Evolution.{nodes-put_children}

module _ (s : Store) where
  nodes-store_add_children :
      (id : Text) (es : List ChildEntry) (t : Store)
      → Store.add_children id es s ≡ ok t
      → s.nodes ≡ t.nodes
  unfolding Store.add_children
  nodes-store_add_children id es t h =
      let (n, found, h₁) = >>=-eq-ok (require (Store.get id s) no_such_node) _ h in
      let (u, up, h₂) = >>=-eq-ok (refuse_if (not (is_active n.status)) node_retired) _ h₁ in
      nodes-put_children id es s t h₂

  pub nodes-remove_child :
      (id child_id : Text) (out : _ × Store)
      → Children.remove_child id child_id s ≡ ok out
      → s.nodes ≡ (out.1).nodes
  unfolding Children.remove_child Store.remove_child
  nodes-remove_child id child_id out h = ground arith

  nodes-store_check_in :
      (id : Text) (child : ChildEntry) (time : ℕ) (out : _ × Store)
      → Store.check_in id child time s ≡ ok out
      → s.nodes ≡ (out.1).nodes
  unfolding Store.check_in
  nodes-store_check_in id child time out h = ground arith

  nodes-store_retire_child :
      (id : Text) (child : NamedChild) (mark : Suspension) (t : Store)
      → Store.retire_child id child mark s ≡ ok t
      → s.nodes ≡ t.nodes
  unfolding Store.retire_child
  nodes-store_retire_child id child mark t h = ground arith

  nodes-store_mark_child :
      (id : Text) (child : NamedChild) (mark : Option Suspension) (out : Bool × Store)
      → Store.mark_child id child mark s ≡ ok out
      → s.nodes ≡ (out.1).nodes
  unfolding Store.mark_child
  nodes-store_mark_child id child mark out h = ground arith

  pub nodes-add_children :
      (id : Text) (given : List GivenChild) (out : ℕ × Store)
      → Children.add_children id given s ≡ ok out
      → s.nodes ≡ (out.1).nodes
  unfolding Children.add_children
  nodes-add_children id given out h =
      let (es, read, h₁) = >>=-eq-ok (Children.entries given) _ h in
      let (u, others, h₂) =
        >>=-eq-ok (refuse_if (any (λ e. text_eq e.child_id id) es) own_child) _ h₁ in
      let (n, found, h₃) = >>=-eq-ok (require (Store.get id s) no_such_node) _ h₂ in
      let (v, usable, h₄) = >>=-eq-ok (require_usable n) _ h₃ in
      let (w, held, h₅) = >>=-eq-ok (Children.require_all_held n es) _ h₄ in
      let (t, added, h₆) = >>=-eq-ok (Store.add_children id es s) _ h₅ in
      let last : t ≡ out.1 = cc in
      nodes-store_add_children id es t added ∙ ap (λ (x : Store). x.nodes) last

  pub nodes-check_in :
      (id : Text) (given : GivenChild) (time : ℕ) (out : _ × Store)
      → Children.check_in id given time s ≡ ok out
      → s.nodes ≡ (out.1).nodes
  unfolding Children.check_in
  nodes-check_in id given time out h =
      let (child, read, h₁) = >>=-eq-ok (entry given) _ h in
      let (u, other, h₂) = >>=-eq-ok (refuse_if (text_eq child.child_id id) own_child) _ h₁ in
      let (n, found, h₃) = >>=-eq-ok (require (Store.get id s) no_such_node) _ h₂ in
      elim (Bool-cases (is_active n.status)) [
        | inr gone ↦ ground arith
        | inl up ↦
            let h₄ : Children.check_in_active id child time n s ≡ ok out = rw up at h₃ in
            let (v, fits, h₅) = >>=-eq-ok (require_may_hold n.type child.type) _ h₄ in
            let (p, stamped, h₆) = >>=-eq-ok (Store.check_in id child time s) _ h₅ in
            let last : p.1 ≡ out.1 = cc in
            nodes-store_check_in id child time p stamped ∙ ap (λ (x : Store). x.nodes) last
      ]

  pub nodes-mark_child :
      (id : Text) (child : MarkedChild) (mark : Option GivenMark) (out : Bool × Store)
      → Children.mark_child id child mark s ≡ ok out
      → s.nodes ≡ (out.1).nodes
  unfolding Children.mark_child
  nodes-mark_child id child mark out h =
      let (u, valid, h₁) = >>=-eq-ok (refuse_if (not (valid_id child.child_id)) bad_child_id) _ h in
      let (type, known, h₂) = >>=-eq-ok (Children.checked_type child.type) _ h₁ in
      let (suspension, checked, h₃) = >>=-eq-ok (Children.checked_marking mark) _ h₂ in
      let (n, found, h₄) = >>=-eq-ok (require (Store.get id s) no_such_node) _ h₃ in
      let (v, fits, h₅) = >>=-eq-ok (Children.require_markable n type suspension) _ h₄ in
      nodes-store_mark_child id _ suspension out h₅

  pub nodes-retire_child :
      (id : Text) (child : NamedChild) (mark : GivenMark) (out : ℕ × Store)
      → Children.retire_child id child mark s ≡ ok out
      → s.nodes ≡ (out.1).nodes
  unfolding Children.retire_child
  nodes-retire_child id child mark out h =
      let (u, valid, h₁) = >>=-eq-ok (refuse_if (not (valid_id child.child_id)) bad_child_id) _ h in
      let (retired, checked, h₂) = >>=-eq-ok (Children.checked_mark mark) _ h₁ in
      let (n, found, h₃) = >>=-eq-ok (require (Store.get id s) no_such_node) _ h₂ in
      let listed = Children.find (Children.is_child child.child_id) (Store.children id s) in
      let (type, known, h₄) =
        >>=-eq-ok (require (Children.listed_type listed child.type) type_not_known) _ h₃ in
      let (v, leaf, h₅) =
        >>=-eq-ok (refuse_if (not (Children.is_leaf type)) only_user_or_machine) _ h₄ in
      let named : NamedChild = record {
        child_id = child.child_id;
        type = some type;
        address = child.address;
      } in
      let (t, marked, h₆) = >>=-eq-ok (Store.retire_child id named retired s) _ h₅ in
      let last : t ≡ out.1 = cc in
      nodes-store_retire_child id named retired t marked ∙ ap (λ (x : Store). x.nodes) last
