-- ===== src/Topology/Requests/Fitting.antt =====
-- The entries that a change to a list of children writes fit the list's node.
use mathlib.Core.Path.{subst}
use sema_core.Prelude.{
  ◌≡◌, refl, sym, ◌∙◌, ap, true, Option, none, some, List, [], ◌∷◌, Text, Dict, lookup, All, arith,
  ok, >>=-eq-ok, ◌>>=◌, ok-injective, require, get_or_else,
}
use sema_core.Topology.Types.{
  LocalNode, NodeType, Outcome, ChildEntry, GivenChild, Suspension, may_hold, require_may_hold,
  entry, type_not_known,
}
use sema_core.Topology.Counter.{advance, next_value}
use sema_core.Topology.Store
use sema_core.Topology.Store.{Store, Change, NamedChild}
use sema_core.Topology.Node.{require_usable}
use sema_core.Topology.Issuing
use sema_core.Topology.Issuing.{ChildRequest}
use sema_core.Topology.Children
use sema_core.Topology.Children.{MarkedChild, GivenMark}
use sema_core.Topology.Requests.Frozen.{Step-same}
use sema_core.Topology.Requests.Changes
use sema_core.Topology.Requests.Held.{Fits, Holds}

pub may_hold-of : (h c : NodeType) {u : Unit} → require_may_hold h c ≡ ok u → may_hold h c ≡ true
unfolding require_may_hold
may_hold-of h c e = ground arith

pub require_all_held-Fits :
    (n : LocalNode) (es : List ChildEntry) {u : Unit}
    → Children.require_all_held n es ≡ ok u
    → All (λ e. Fits n.type e.child_id e) es
unfolding Children.require_all_held
require_all_held-Fits n [] h = tt
require_all_held-Fits n (e ∷ es) h =
    let (u, fits, h₁) = >>=-eq-ok (require_may_hold n.type e.type) _ h in
    ((refl, λ counted. may_hold-of n.type e.type fits), require_all_held-Fits n es h₁)

entry-child :
    (given : GivenChild) (type : NodeType) (e : ChildEntry)
    → given.type ≡ some type
    → entry given ≡ ok e
    → (e.child_id ≡ given.child_id) × (e.type ≡ type)
unfolding entry
entry-child given type e known h = ground arith

pub child_change-Fits :
    (type : NodeType) (address : Option Text) (n : LocalNode) (c : Change Text)
    → Issuing.child_change type address n ≡ ok c
    → All (λ e. Fits c.node.type e.child_id e) c.add_children
child_change-Fits type address n c h =
    let (u, usable, h₁) = >>=-eq-ok (require_usable n) _ h in
    let (v, may, h₂) = >>=-eq-ok (require_may_hold n.type type) _ h₁ in
    let given : GivenChild = record {
      child_id = next_value (advance n 1);
      type = some type;
      address = address;
    } in
    let (child, made, h₃) = >>=-eq-ok (entry given) _ h₂ in
    let (_, kept) = Step-same n (Changes.child_change-Step none n type address c h) in
    let (_, of_type) = entry-child given type child refl made in
    let added : child ∷ [] ≡ c.add_children = cc in
    subst (All (λ e. Fits c.node.type e.child_id e)) added (
      (
        refl,
        λ counted.
            ap (may_hold c.node.type) of_type
            ∙ ap (λ x. may_hold x type) kept
            ∙ may_hold-of n.type type may,
      ),
      tt,
    )

pub stamped-Fits :
    (type : NodeType) (child : ChildEntry) (es : Dict ChildEntry) (o : Option ChildEntry)
    → lookup child.child_id es ≡ o
    → may_hold type child.type ≡ true
    → Holds type es
    → Fits type child.child_id (get_or_else o child)
stamped-Fits type child es none e may holds = (refl, λ counted. may)
stamped-Fits type child es (some current) e may holds = holds child.child_id current e

pub retired-Fits :
    (type : NodeType) (child : NamedChild) (es : Dict ChildEntry) (o : Option ChildEntry)
    (mark : Suspension) (current : ChildEntry)
    → lookup child.child_id es ≡ o
    → Store.entry_or_new child o ≡ ok current
    → Holds type es
    → Fits type child.child_id (record current { retired = some mark })
retired-Fits type child es o mark current e h holds = (own o e h, λ counted. cc)
  where
    own :
        (o : Option ChildEntry)
        → lookup child.child_id es ≡ o
        → Store.entry_or_new child o ≡ ok current
        → current.child_id ≡ child.child_id
    own none e h = ground arith
    own (some c) e h =
        let same : c ≡ current = cc in
        ap (λ (x : ChildEntry). x.child_id) (sym same) ∙ (holds child.child_id c e).0

pub marked-Fits :
    (n : LocalNode) (child : NamedChild) (es : Dict ChildEntry) (o : Option ChildEntry)
    (mark : Option Suspension) (e : ChildEntry) {u : Unit}
    → lookup child.child_id es ≡ o
    → Children.require_markable n child.type mark ≡ ok u
    → Store.mark_entry child mark o ≡ ok (some e)
    → Holds n.type es
    → Fits n.type child.child_id e
marked-Fits n child es none none e there may h holds = cc
marked-Fits n child es none (some mark) e there may h holds = fresh child.type may h
  where
    fresh :
        {v : Unit} (type : Option NodeType)
        → Children.require_markable n type (some mark) ≡ ok v
        → (do
          t ← require type type_not_known
          ok (some (record (Store.new_entry child t) { suspension = some mark })))
          ≡ ok (some e)
        → Fits n.type child.child_id e
    fresh none may h = cc
    fresh (some type) may h =
        let same : record (Store.new_entry child type) { suspension = some mark } ≡ e = cc in
        subst (Fits n.type child.child_id) same (refl, λ counted. may_hold-of n.type type may)
marked-Fits n child es (some current) mark e there may h holds =
    let same : record current { suspension = mark } ≡ e = cc in
    subst (Fits n.type child.child_id) same (holds child.child_id current there)

-- What a request that succeeds leaves, whatever it answers.
pub ok_state :
    {A : Type 0} {a : A} {s : Store} {out : A × Store}
    → ◌≡◌ {A = Outcome (A × Store)} (ok (a, s)) (ok out)
    → s ≡ out.1
ok_state h = ap (λ p. p.1) (ok-injective h)
