-- ===== src/Topology/Requests/Fresh.antt =====
-- A node never issues an ID twice.
use Prim.Native.Nat.{◌<◌, ◌≤◌}
use sema_core.Prelude.{
  ℕ, ◌≡◌, ◌≢◌, refl, sym, ◌∙◌, ap, Option, none, some, List, [], ◌∷◌, ◌++◌, Text, arith, lookup,
  All, cut_unique, ok, >>=-eq-ok, require, lookup-insert_self,
}
use sema_core.Identity.{hyphen, encode}
use sema_core.Identity.RoundTrip.{encode-injective, encode-IsSegment}
use sema_core.Identity.Segments.{Lacks-InAlphabet}
use sema_core.Topology.Types.{NodeType, LocalNode, no_such_node, bad_node_type, Outcome}
use sema_core.Topology.Counter.{ready, take_from, advance, next_value}
use sema_core.Topology.Store
use sema_core.Topology.Store.{Store, Change}
use sema_core.Topology.Issuing.{
  ChildRequest, Issued, issue_child_id, issue_basis, child_change, basis_issue,
}
use sema_core.Topology.Requests.Steps.{Step, advances, rebases, readies}
use sema_core.Topology.Requests.Evolution.{nodes-put_children, require-some}
use sema_core.Topology.Requests.Serving.{perform-Evolves}
use sema_core.Topology.Requests.Invariants.{AllSound}
use sema_core.Topology.Requests.{Request, offer, perform, serve}

-- The node has passed `k` values of the basis `b`, and `b` does not wait to take over again.
pub record IsPast (b : Text) (k : ℕ) (n : LocalNode) : Type 0 where
  pub counted : n.basis ≡ b → k ≤ n.issued
  pub not_waiting : n.next_basis ≢ some b

ready-eq-some :
    (n : LocalNode) (count : ℕ) (basis : Option Text) (switch_at : Option ℕ) {b : Text}
    → ready n count basis switch_at ≡ some b
    → basis ≡ some b
ready-eq-some n count none switch_at h = cc
ready-eq-some n count (some basis) none h = cc
ready-eq-some n count (some basis) (some at) h = ground arith

-- The value that a node issues stands after its new basis and is its new count.
next_value-advance :
    (n : LocalNode)
    → next_value (advance n 1)
      ≡ (advance n 1).node.basis ++ hyphen ∷ encode (advance n 1).node.issued
unfolding advance next_value
next_value-advance n = go (ready n 1 n.next_basis n.switch_at)
  where
    go :
        (r : Option Text)
        → next_value (take_from n 1 r)
          ≡ (take_from n 1 r).node.basis ++ hyphen ∷ encode (take_from n 1 r).node.issued
    go none = refl
    go (some b) = refl

advance-IsPast :
    (b : Text) (k : ℕ) (n : LocalNode)
    → IsPast b k n
    → IsPast b k (advance n 1).node × ((advance n 1).node.basis ≡ b → k < (advance n 1).node.issued)
unfolding advance
advance-IsPast b k n h =
    go (ready n 1 n.next_basis n.switch_at) (λ c e. ready-eq-some n 1 n.next_basis n.switch_at e)
  where
    go :
        (r : Option Text)
        → ((c : Text) → r ≡ some c → n.next_basis ≡ some c)
        → IsPast b k (take_from n 1 r).node
          × ((take_from n 1 r).node.basis ≡ b → k < (take_from n 1 r).node.issued)
    go none e = (
      record { counted = λ q. omega (arith, h.counted q); not_waiting = h.not_waiting },
      λ q. omega (arith, h.counted q),
    )
    go (some c) e = (
      record { counted = λ q. absurd (h.not_waiting (e c refl ∙ ap some q)); not_waiting = cc },
      λ q. absurd (h.not_waiting (e c refl ∙ ap some q)),
    )

Step-IsPast :
    (b : Text) (k : ℕ) {o : Option Text} (n : LocalNode) {m : LocalNode}
    → o ≢ some b
    → Step o n m
    → IsPast b k n
    → IsPast b k m
Step-IsPast b k n other (advances u) h = (advance-IsPast b k n h).0
Step-IsPast b k n other (rebases u basis e s) h = record {
  counted = λ q. absurd (other (e ∙ ap some q));
  not_waiting = cc;
}
Step-IsPast b k n other (readies u basis at e d p) h = record {
  counted = h.counted;
  not_waiting = λ q. other (e ∙ q);
}
Step-IsPast b k n other _ h = assumption

-- The two requests that take a value from a node's counter, with the value and the store after.
pub data Issues (id : Text) (s : Store) (v : Text) (t : Store) : Type 0 where
  child :
      (given : ChildRequest) (out : Issued)
      → issue_child_id id given s ≡ ok (out, t)
      → out.value ≡ v
      → Issues id s v t
  basis : issue_basis id s ≡ ok (v, t) → Issues id s v t

-- What an issue has done: the value is the next one of a node that was held, which has moved on.
record IsIssue (id : Text) (s : Store) (v : Text) (t : Store) (n : LocalNode) : Type 0 where
  held : Store.get id s ≡ some n
  value : next_value (advance n 1) ≡ v
  moved : Store.get id t ≡ some (advance n 1).node

abbrev Takes : (LocalNode → Outcome (Change Text)) → Type 0
Takes change =
    (n : LocalNode) (c : Change Text)
    → change n ≡ ok c
    → (c.node ≡ (advance n 1).node) × (c.result ≡ next_value (advance n 1))

child_change-Takes : (type : NodeType) (address : Option Text) → Takes (child_change type address)
child_change-Takes type address n c h = ground arith

basis_issue-Takes : Takes basis_issue
basis_issue-Takes n c h = ground arith

mutate-IsIssue :
    (id : Text) (change : LocalNode → Outcome (Change Text)) (s : Store) (v : Text) (t : Store)
    (p : Text × Store)
    → Takes change
    → Store.mutate id change s ≡ ok p
    → p.0 ≡ v
    → p.1 ≡ t
    → (n : LocalNode) × IsIssue id s v t n
unfolding Store.mutate
mutate-IsIssue id change s v t p does h value store =
    let (n, found, h₁) = >>=-eq-ok (require (Store.get id s) no_such_node) _ h in
    let (c, changed, h₂) = >>=-eq-ok (change n) _ h₁ in
    let (u, added, h₃) =
      >>=-eq-ok (Store.put_children id c.add_children (Store.put_node id c.node s)) _ h₂ in
    let (node, result) = does n c changed in
    let kept = nodes-put_children id c.add_children (Store.put_node id c.node s) u added in
    let last : u ≡ t = cc in
    let out : c.result ≡ v = cc in
    (
      n,
      record {
        held = require-some (Store.get id s) no_such_node found;
        value = sym result ∙ out;
        moved =
            ap (lookup id) (sym (kept ∙ ap (λ (x : Store). x.nodes) last))
            ∙ lookup-insert_self id c.node s.nodes
            ∙ ap some node;
      },
    )

Issues-IsIssue :
    {id : Text} {s : Store} {v : Text} {t : Store}
    → Issues id s v t
    → (n : LocalNode) × IsIssue id s v t n
unfolding issue_child_id issue_basis
Issues-IsIssue {id} {s} {v} {t} (child given out h e) =
    let (type, known, h₁) = >>=-eq-ok (require given.type bad_node_type) _ h in
    let (p, mutated, h₂) = >>=-eq-ok (Store.mutate id (child_change type given.address) s) _ h₁ in
    let last : p.1 ≡ t = cc in
    let value : p.0 ≡ v = ground arith in
    mutate-IsIssue id (child_change type given.address) s v t p
      (child_change-Takes type given.address) mutated value last
Issues-IsIssue {id} {s} {v} {t} (basis h) =
    mutate-IsIssue id basis_issue s v t (v, t) basis_issue-Takes h refl refl

-- A value is issued by a node whose counter has passed it.
issued_apart :
    (b : Text) (n m : LocalNode)
    → IsPast b n.issued m
    → n.basis ≡ b
    → n.basis ++ hyphen ∷ encode n.issued
      ≢ (advance m 1).node.basis ++ hyphen ∷ encode (advance m 1).node.issued
issued_apart b n m past same q =
    let (same_basis, same_code) =
      cut_unique hyphen n.basis (advance m 1).node.basis (encode n.issued)
        (encode (advance m 1).node.issued) (Lacks-InAlphabet _ (encode-IsSegment n.issued).0)
        (Lacks-InAlphabet _ (encode-IsSegment (advance m 1).node.issued).0) q in
    let same_count = encode-injective n.issued (advance m 1).node.issued same_code in
    absurd (omega (arith, (advance-IsPast b n.issued m past).1 (sym same_basis ∙ same), same_count))

serve-IsPast :
    (b : Text) (k : ℕ) (rs : List Request) (s : Store) (id : Text) (n : LocalNode)
    → All (λ r. offer r ≢ some b) rs
    → Store.get id s ≡ some n
    → IsPast b k n
    → (m : LocalNode) × (Store.get id (serve rs s) ≡ some m) × IsPast b k m
unfolding serve
serve-IsPast b k [] s id n others held past = (n, held, past)
serve-IsPast b k (r ∷ rs) s id n (other, others) held past =
    let (m, there, st) = (perform-Evolves r s).follow id n held in
    serve-IsPast b k rs (perform r s) id m others there (Step-IsPast b k n other st past)

-- Two IDs that a node issues are different, whatever requests are served between: if all nodes are
-- sound at the first, and no request between offers the basis that it was issued from.
pub issued_once :
    (id : Text) (s t u : Store) (v w : Text) (n : LocalNode) (rs : List Request)
    → AllSound t
    → Issues id s v t
    → Store.get id t ≡ some n
    → All (λ r. offer r ≢ some n.basis) rs
    → Issues id (serve rs t) w u
    → v ≢ w
issued_once id s t u v w n rs sound first held others second q =
    let (a, issue_a) = Issues-IsIssue first in
    let (c, issue_c) = Issues-IsIssue second in
    let same : (advance a 1).node ≡ n = cc (issue_a.moved) in
    let here : v ≡ n.basis ++ hyphen ∷ encode n.issued =
      sym issue_a.value
      ∙ next_value-advance a
      ∙ ap (λ (x : LocalNode). x.basis ++ hyphen ∷ encode x.issued) same in
    let (m, there, past) =
      serve-IsPast n.basis n.issued rs t id n others held
        (record { counted = λ e. omega arith; not_waiting = (sound id n held).another_basis }) in
    let same_m : m ≡ c = cc (issue_c.held) in
    issued_apart n.basis n c (rw same_m at past) refl
      (sym here ∙ q ∙ sym issue_c.value ∙ next_value-advance c)
