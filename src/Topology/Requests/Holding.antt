-- ===== src/Topology/Requests/Holding.antt =====
-- The requests that change a list of children add only children that its node may hold.
use mathlib.Core.Path.{subst}
use sema_core.Prelude.{
  ℕ, ◌≡◌, refl, ◌∙◌, ap, Bool, true, not, Option, none, some, List, Text, Dict, lookup,
  lookup-insert_self, All, remove as delete_key, inl, inr, arith, ok, any, text_eq, Bool-cases,
  >>=-eq-ok, ok-injective, refuse_if, require,
}
use sema_core.Topology.Types.{
  LocalNode, Outcome, ChildEntry, GivenChild, may_hold, require_may_hold, no_such_node,
  bad_node_type, is_active, node_retired, own_child, entry, valid_id, bad_child_id,
  only_user_or_machine, type_not_known,
}
use sema_core.Topology.Store
use sema_core.Topology.Store.{Store, Change, NamedChild}
use sema_core.Topology.Node.{require_usable}
use sema_core.Topology.Issuing
use sema_core.Topology.Issuing.{ChildRequest}
use sema_core.Topology.Children
use sema_core.Topology.Children.{MarkedChild, GivenMark}
use sema_core.Topology.Requests.Evolution.{require-some, Evolves-put}
use sema_core.Topology.Requests.Steps.{Step}
use sema_core.Topology.Requests.Changes
use sema_core.Topology.Requests.Held.{
  Fits, Holds, AllHeld, Holds-set_key, Holds-delete_key, put_list-AllHeld, list-Holds,
  put_children-AllHeld, Evolves-AllHeld,
}
use sema_core.Topology.Requests.Fitting.{
  may_hold-of, require_all_held-Fits, child_change-Fits, stamped-Fits, retired-Fits, marked-Fits,
  ok_state,
}

module _ (s : Store) (held : AllHeld s) where
  pub mutate-AllHeld :
      {A : Type 0} (o : Option Text) (id : Text) (change : LocalNode → Outcome (Change A))
      (out : A × Store)
      → ((n : LocalNode) (c : Change A)
          → change n ≡ ok c
          → Step o n c.node × All (λ e. Fits c.node.type e.child_id e) c.add_children)
      → Store.mutate id change s ≡ ok out
      → AllHeld (out.1)
  unfolding Store.mutate
  mutate-AllHeld o id change out step h =
      let (n, found, h₁) = >>=-eq-ok (require (Store.get id s) no_such_node) _ h in
      let (c, changed, h₂) = >>=-eq-ok (change n) _ h₁ in
      let (t, added, h₃) =
        >>=-eq-ok (Store.put_children id c.add_children (Store.put_node id c.node s)) _ h₂ in
      let last : t ≡ out.1 = cc in
      let (st, fits) = step n c changed in
      let put = Evolves-put o id n c.node s (require-some (Store.get id s) no_such_node found) st in
      subst AllHeld last (
        put_children-AllHeld id c.node c.add_children (Store.put_node id c.node s) t
          (lookup-insert_self id c.node s.nodes) fits
          (Evolves-AllHeld s (Store.put_node id c.node s) put refl held) added)

  pub issue_child_id-AllHeld :
      (id : Text) (child : ChildRequest) (out : _ × Store)
      → Issuing.issue_child_id id child s ≡ ok out
      → AllHeld (out.1)
  unfolding Issuing.issue_child_id
  issue_child_id-AllHeld id child out h =
      let (type, known, h₁) = >>=-eq-ok (require child.type bad_node_type) _ h in
      let (p, e, h₂) =
        >>=-eq-ok (Store.mutate id (Issuing.child_change type child.address) s) _ h₁ in
      let last : p.1 ≡ out.1 = cc in
      subst AllHeld last (
        mutate-AllHeld none id (Issuing.child_change type child.address) p
          (λ n c changed. (
            Changes.child_change-Step none n type child.address c changed,
            child_change-Fits type child.address n c changed,
          ))
          e)

  pub add_children-AllHeld :
      (id : Text) (given : List GivenChild) (out : ℕ × Store)
      → Children.add_children id given s ≡ ok out
      → AllHeld (out.1)
  unfolding Children.add_children Store.add_children
  add_children-AllHeld id given out h =
      let (es, read, h₁) = >>=-eq-ok (Children.entries given) _ h in
      let (u, others, h₂) =
        >>=-eq-ok (refuse_if (any (λ e. text_eq e.child_id id) es) own_child) _ h₁ in
      let (n, found, h₃) = >>=-eq-ok (require (Store.get id s) no_such_node) _ h₂ in
      let (v, usable, h₄) = >>=-eq-ok (require_usable n) _ h₃ in
      let (w, may, h₅) = >>=-eq-ok (Children.require_all_held n es) _ h₄ in
      let (t, added, h₆) = >>=-eq-ok (Store.add_children id es s) _ h₅ in
      let (n', found', h₇) = >>=-eq-ok (require (Store.get id s) no_such_node) _ added in
      let (x, up, h₈) = >>=-eq-ok (refuse_if (not (is_active n'.status)) node_retired) _ h₇ in
      let last : t ≡ out.1 = cc in
      subst AllHeld last (
        put_children-AllHeld id n es s t (require-some (Store.get id s) no_such_node found)
          (require_all_held-Fits n es may) held h₈)

  pub remove_child-AllHeld :
      (id child_id : Text) (out : _ × Store)
      → Children.remove_child id child_id s ≡ ok out
      → AllHeld (out.1)
  unfolding Children.remove_child Store.remove_child
  remove_child-AllHeld id child_id out h =
      let (p, removed, h₁) = >>=-eq-ok (Store.remove_child id child_id s) _ h in
      let (n, found, h₂) = >>=-eq-ok (require (Store.get id s) no_such_node) _ removed in
      let (es, read, h₃) = >>=-eq-ok (Store.list_of id s) _ h₂ in
      let at = require-some (Store.get id s) no_such_node found in
      let last : Store.put_list id (delete_key child_id es) s ≡ out.1 = cc in
      subst AllHeld last (
        put_list-AllHeld id n (delete_key child_id es) s at
          (Holds-delete_key n.type child_id es (list-Holds id n es s at read held)) held)

  pub store_check_in-AllHeld :
      (id : Text) (n : LocalNode) (child : ChildEntry) (time : ℕ) (out : _ × Store)
      → Store.get id s ≡ some n
      → may_hold n.type child.type ≡ true
      → Store.check_in id child time s ≡ ok out
      → AllHeld (out.1)
  unfolding Store.check_in
  store_check_in-AllHeld id n child time out at may h =
      let (m, found, h₁) = >>=-eq-ok (require (Store.get id s) no_such_node) _ h in
      let (u, up, h₂) = >>=-eq-ok (refuse_if (not (is_active m.status)) node_retired) _ h₁ in
      let (es, listed, h₃) = >>=-eq-ok (Store.list_of id s) _ h₂ in
      let holds = list-Holds id n es s at listed held in
      subst AllHeld (ok_state h₃) (
        put_list-AllHeld id n _ s at
          (Holds-set_key n.type child.child_id _ es
            (stamped-Fits n.type child es (lookup child.child_id es) refl may holds) holds)
          held)

  pub check_in-AllHeld :
      (id : Text) (given : GivenChild) (time : ℕ) (out : _ × Store)
      → Children.check_in id given time s ≡ ok out
      → AllHeld (out.1)
  unfolding Children.check_in
  check_in-AllHeld id given time out h =
      let (child, read, h₁) = >>=-eq-ok (entry given) _ h in
      let (u, other, h₂) = >>=-eq-ok (refuse_if (text_eq child.child_id id) own_child) _ h₁ in
      let (n, found, h₃) = >>=-eq-ok (require (Store.get id s) no_such_node) _ h₂ in
      elim (Bool-cases (is_active n.status)) [
        | inr gone ↦ let last : s ≡ out.1 = ground arith in subst AllHeld last held
        | inl up ↦
            let h₄ : Children.check_in_active id child time n s ≡ ok out = rw up at h₃ in
            let (v, may, h₅) = >>=-eq-ok (require_may_hold n.type child.type) _ h₄ in
            let (p, stamped, h₆) = >>=-eq-ok (Store.check_in id child time s) _ h₅ in
            subst AllHeld (ok_state h₆) (
              store_check_in-AllHeld id n child time p
                (require-some (Store.get id s) no_such_node found)
                (may_hold-of n.type child.type may) stamped)
      ]

  pub retire_child-AllHeld :
      (id : Text) (child : NamedChild) (mark : GivenMark) (out : ℕ × Store)
      → Children.retire_child id child mark s ≡ ok out
      → AllHeld (out.1)
  unfolding Children.retire_child Store.retire_child
  retire_child-AllHeld id child mark out h =
      let (u, valid, h₁) = >>=-eq-ok (refuse_if (not (valid_id child.child_id)) bad_child_id) _ h in
      let (retired, checked, h₂) = >>=-eq-ok (Children.checked_mark mark) _ h₁ in
      let (n, found, h₃) = >>=-eq-ok (require (Store.get id s) no_such_node) _ h₂ in
      let listed = Children.find (Children.is_child child.child_id) (Store.children id s) in
      let (type, known, h₄) =
        >>=-eq-ok (require (Children.listed_type listed child.type) type_not_known) _ h₃ in
      let (v, leaf, h₅) =
        >>=-eq-ok (refuse_if (not (Children.is_leaf type)) only_user_or_machine) _ h₄ in
      let named : NamedChild = record {
        child_id = child.child_id;
        type = some type;
        address = child.address;
      } in
      let (t, marked, h₆) = >>=-eq-ok (Store.retire_child id named retired s) _ h₅ in
      let (m, again, h₇) = >>=-eq-ok (require (Store.get id s) no_such_node) _ marked in
      let (es, read, h₈) = >>=-eq-ok (Store.list_of id s) _ h₇ in
      let (current, e, h₉) = >>=-eq-ok (Store.entry_or_new named (lookup child.child_id es)) _ h₈ in
      let at = require-some (Store.get id s) no_such_node found in
      let holds = list-Holds id n es s at read held in
      let written : Store.put_list id _ s ≡ t = ok-injective h₉ in
      subst AllHeld (written ∙ ok_state h₆) (
        put_list-AllHeld id n _ s at
          (Holds-set_key n.type child.child_id _ es
            (retired-Fits n.type named es (lookup child.child_id es) retired current refl e holds)
            holds)
          held)

  put_entry-AllHeld :
      (id child_id : Text) (n : LocalNode) (o : Option ChildEntry) (es : Dict ChildEntry)
      → Store.get id s ≡ some n
      → Holds n.type es
      → ((e : ChildEntry) → o ≡ some e → Fits n.type child_id e)
      → AllHeld ((Store.put_entry id child_id o es s).1)
  put_entry-AllHeld id child_id n none es at holds fits = held
  put_entry-AllHeld id child_id n (some e) es at holds fits =
      put_list-AllHeld id n _ s at (Holds-set_key n.type child_id e es (fits e refl) holds) held

  pub mark_child-AllHeld :
      (id : Text) (child : MarkedChild) (mark : Option GivenMark) (out : Bool × Store)
      → Children.mark_child id child mark s ≡ ok out
      → AllHeld (out.1)
  unfolding Children.mark_child Store.mark_child
  mark_child-AllHeld id child mark out h =
      let (u, valid, h₁) = >>=-eq-ok (refuse_if (not (valid_id child.child_id)) bad_child_id) _ h in
      let (type, known, h₂) = >>=-eq-ok (Children.checked_type child.type) _ h₁ in
      let (suspension, checked, h₃) = >>=-eq-ok (Children.checked_marking mark) _ h₂ in
      let (n, found, h₄) = >>=-eq-ok (require (Store.get id s) no_such_node) _ h₃ in
      let (v, may, h₅) = >>=-eq-ok (Children.require_markable n type suspension) _ h₄ in
      let (m, again, h₆) = >>=-eq-ok (require (Store.get id s) no_such_node) _ h₅ in
      let (es, read, h₇) = >>=-eq-ok (Store.list_of id s) _ h₆ in
      let named : NamedChild = record {
        child_id = child.child_id;
        type = type;
        address = child.address;
      } in
      let (o, marked, h₈) =
        >>=-eq-ok (Store.mark_entry named suspension (lookup child.child_id es)) _ h₇ in
      let at = require-some (Store.get id s) no_such_node found in
      let holds = list-Holds id n es s at read held in
      subst AllHeld (ap (λ p. p.1) (ok-injective h₈)) (
        put_entry-AllHeld id child.child_id n o es at holds (λ e same.
          marked-Fits n named es (lookup child.child_id es) suspension e refl may
            (marked ∙ ap ok same) holds))
