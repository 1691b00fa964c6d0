-- ===== src/Topology/Requests/Evolution.antt =====
-- A served request moves every node that is held by one step.
use mathlib.Core.Path.{subst}
use sema_core.Prelude.{
  ◌≡◌, ◌⊎◌, refl, sym, ◌∙◌, ap, Option, none, some, List, [], ◌∷◌, Text, lookup, lookup-insert,
  lookup-insert_new, lookup-insert_cases, insert as set_key, text_eq, text_eq_iff, inl, inr,
  Bool-cases, arith, ok, >>=-eq-ok, refuse_if, require, has,
}
use sema_core.Topology.Types.{LocalNode, ChildEntry, Outcome, no_such_node, already_exists}
use sema_core.Topology.Store
use sema_core.Topology.Store.{Store, Change}
use sema_core.Topology.Requests.Steps.{Step, stays, IsNew}

abbrev Origin : Option Text → Store → Text → LocalNode → Type 0
Origin o s id m = ((n : LocalNode) × (Store.get id s ≡ some n) × Step o n m) ⊎ IsNew id m

-- Every node of `s` is in `t`, one step on, and `t` holds no others but new ones.
pub record Evolves (o : Option Text) (s t : Store) : Type 0 where
  pub follow :
      (id : Text) (n : LocalNode)
      → Store.get id s ≡ some n
      → (m : LocalNode) × (Store.get id t ≡ some m) × Step o n m
  pub origin : (id : Text) (m : LocalNode) → Store.get id t ≡ some m → Origin o s id m

pub nodes-put_children :
    (id : Text) (es : List ChildEntry) (s t : Store)
    → Store.put_children id es s ≡ ok t
    → s.nodes ≡ t.nodes
unfolding Store.put_children
nodes-put_children id [] s t h = cc
nodes-put_children id (e ∷ es) s t h =
    let (entries, found, h₁) = >>=-eq-ok (Store.list_of id s) _ h in
    let same : Store.put_list id (Store.set_entries (e ∷ es) entries) s ≡ t = cc in
    ap (λ (u : Store). u.nodes) same

pub require-some {ℓ} :
    {E : Type 0} {A : Type ℓ} (a : Option A) (e : E) {v : A} → require a e ≡ ok v → a ≡ some v
require-some none e h = cc
require-some (some a) e h = cc

module _ (o : Option Text) where
  pub Evolves-same : (s t : Store) → s.nodes ≡ t.nodes → Evolves o s t
  Evolves-same s t e = record {
    follow = λ id n h. (n, ap (lookup id) (sym e) ∙ h, stays);
    origin = λ id m h. inl (m, ap (lookup id) e ∙ h, stays);
  }

  pub Evolves-put :
      (id : Text) (n m : LocalNode) (s : Store)
      → Store.get id s ≡ some n
      → Step o n m
      → Evolves o s (Store.put_node id m s)
  Evolves-put id n m s found st = record {
    follow = λ j k h. elim (Bool-cases (text_eq id j)) [
      | inl e ↦
          let here : id ≡ j = (text_eq_iff id j).0 e in
          let same : n ≡ k = cc in (m, rw (lookup-insert, e) refl, subst (λ x. Step o x m) same st)
      | inr e ↦ (k, rw (lookup-insert, e) h, stays)
    ];
    origin = λ j k h. elim (lookup-insert_cases id j m k s.nodes h) [
      | inl (here, same) ↦
          inl (n, ap (λ (x : Text). Store.get x s) (sym here) ∙ found, subst (Step o n) same st)
      | inr (other, held) ↦ inl (k, held, stays)
    ];
  }

  -- A change to a node that takes a step.
  pub mutate-Evolves :
      {A : Type 0} (id : Text) (change : LocalNode → Outcome (Change A)) (s : Store)
      (out : A × Store)
      → ((n : LocalNode) (c : Change A) → change n ≡ ok c → Step o n c.node)
      → Store.mutate id change s ≡ ok out
      → Evolves o s (out.1)
  unfolding Store.mutate
  mutate-Evolves id change s out step h =
      let (n, found, h₁) = >>=-eq-ok (require (Store.get id s) no_such_node) _ h in
      let (c, changed, h₂) = >>=-eq-ok (change n) _ h₁ in
      let (t, added, h₃) =
        >>=-eq-ok (Store.put_children id c.add_children (Store.put_node id c.node s)) _ h₂ in
      let put =
        Evolves-put id n c.node s (require-some (Store.get id s) no_such_node found)
          (step n c changed) in
      let same = nodes-put_children id c.add_children (Store.put_node id c.node s) t added in
      let last : t ≡ out.1 = cc in
      record {
        follow = λ j k held.
            let (m, there, st) = put.follow j k held in
            (m, ap (lookup j) (sym (same ∙ ap (λ (u : Store). u.nodes) last)) ∙ there, st);
        origin = λ j m held.
            put.origin j m (ap (lookup j) (same ∙ ap (λ (u : Store). u.nodes) last) ∙ held);
      }

  pub insert-Evolves :
      (node : LocalNode) (s t : Store)
      → IsNew node.id node
      → Store.insert node s ≡ ok t
      → Evolves o s t
  unfolding Store.insert
  insert-Evolves node s t fresh h =
      let (u, absent, h₁) = >>=-eq-ok (refuse_if (has node.id s.nodes) already_exists) _ h in
      let written : set_key node.id node s.nodes ≡ t.nodes = cc in
      record {
        follow = λ j k held. (
          k,
          ap (lookup j) (sym written)
              ∙ lookup-insert_new node.id j node k s.nodes (ground arith) held,
          stays,
        );
        origin = λ j k held.
            elim (lookup-insert_cases node.id j node k s.nodes (ap (lookup j) written ∙ held)) [
              | inl (here, same) ↦ inr (subst (IsNew j) same (subst (λ x. IsNew x node) here fresh))
              | inr (other, before) ↦ inl (k, before, stays)
            ];
      }
