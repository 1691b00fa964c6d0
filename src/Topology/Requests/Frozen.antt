-- ===== src/Topology/Requests/Frozen.antt =====
-- What a retired node and a shut-down node keep.
use sema_core.Prelude.{◌≡◌, refl, sym, ◌∙◌, ap, Bool, Option, some, List, [], ◌∷◌, Text, arith}
use sema_core.Topology.Types.{retired, Shutdown, LocalNode}
use sema_core.Topology.Counter.{advance}
use sema_core.Topology.Store
use sema_core.Topology.Store.{Store}
use sema_core.Topology.Requests.Steps.{
  Step, stays, advances, moves, rebases, readies, shuts, completes, limits, seats, retires,
}
use sema_core.Topology.Requests.Serving.{perform-Evolves}
use sema_core.Topology.Requests.{Request, perform, serve}

-- The record with only the mark on its list of children changed.
abbrev pub with_list_mark : LocalNode → Bool → LocalNode
with_list_mark n complete = record n { child_list_complete = complete }

module _ {o : Option Text} {n : LocalNode} where
  Step-retired :
      {m : LocalNode} → n.status ≡ retired → Step o n m → with_list_mark n m.child_list_complete ≡ m
  Step-retired gone stays = refl
  Step-retired gone (completes complete) = refl
  Step-retired gone (advances u) = cc (u.is_active)
  Step-retired gone (moves u p a) = cc (u.is_active)
  Step-retired gone (rebases u b e k) = cc (u.is_active)
  Step-retired gone (readies u b k e other above) = cc (u.is_active)
  Step-retired gone (shuts up d) = cc
  Step-retired gone (limits u t l) = cc (u.is_active)
  Step-retired gone (seats up t l) = cc
  Step-retired gone (retires up) = cc

-- A node that is retired stays retired, with all of its record but the mark that says whether its
-- list of children is complete, whatever the requests.
pub serve-retired :
    (rs : List Request) (s : Store) (id : Text) (n : LocalNode)
    → Store.get id s ≡ some n
    → n.status ≡ retired
    → (complete : Bool) × (Store.get id (serve rs s) ≡ some (with_list_mark n complete))
unfolding serve
serve-retired [] s id n held gone = (n.child_list_complete, held)
serve-retired (r ∷ rs) s id n held gone =
    let (m, there, st) = (perform-Evolves r s).follow id n held in
    let same = Step-retired gone st in
    let (complete, last) =
      serve-retired rs (perform r s) id (with_list_mark n m.child_list_complete)
        (there ∙ ap some (sym same)) gone in
    (complete, last)

-- What a node does not change while it is shut down.
pub record IsUntouched (n m : LocalNode) : Type 0 where
  pub same_basis : m.basis ≡ n.basis
  pub same_counter : m.issued ≡ n.issued
  pub same_next_basis : m.next_basis ≡ n.next_basis
  pub same_switch : m.switch_at ≡ n.switch_at
  pub same_parent : m.parent_id ≡ n.parent_id
  pub same_address : m.parent_address ≡ n.parent_address
  pub same_limits : m.key_limits ≡ n.key_limits

module _ {o : Option Text} {n : LocalNode} {d : Shutdown} (down : n.shutdown ≡ some d) where
  Step-shut : {m : LocalNode} → Step o n m → IsUntouched n m
  Step-shut stays = assumption refl
  Step-shut (completes complete) = assumption refl
  Step-shut (advances u) = cc (u.is_up)
  Step-shut (moves u p a) = cc (u.is_up)
  Step-shut (rebases u b e k) = cc (u.is_up)
  Step-shut (readies u b k e other above) = cc (u.is_up)
  Step-shut (shuts up x) = assumption refl
  Step-shut (limits u t l) = cc (u.is_up)
  Step-shut (seats up t l) = assumption refl
  Step-shut (retires up) = assumption refl

-- While a node is shut down no request moves it, issues from it, changes what it issues from or
-- changes its key limits.
pub perform-shut :
    (r : Request) (s : Store) (id : Text) (n : LocalNode) (d : Shutdown)
    → Store.get id s ≡ some n
    → n.shutdown ≡ some d
    → (m : LocalNode) × (Store.get id (perform r s) ≡ some m) × IsUntouched n m
perform-shut r s id n d held down =
    let (m, there, st) = (perform-Evolves r s).follow id n held in (m, there, Step-shut down st)

pub Step-same :
    {o : Option Text} (n : LocalNode) {m : LocalNode}
    → Step o n m
    → (m.id ≡ n.id) × (m.type ≡ n.type)
unfolding advance
Step-same n stays = (refl, refl)
Step-same n (advances u) = ground arith
Step-same n _ = (refl, refl)

-- A node that is held is never dropped, and its ID and its type are set once: no requests change
-- them.
pub serve-same :
    (rs : List Request) (s : Store) (id : Text) (n : LocalNode)
    → Store.get id s ≡ some n
    → (m : LocalNode) × (Store.get id (serve rs s) ≡ some m) × (m.id ≡ n.id) × (m.type ≡ n.type)
unfolding serve
serve-same [] s id n held = (n, held, refl, refl)
serve-same (r ∷ rs) s id n held =
    let (m, there, st) = (perform-Evolves r s).follow id n held in
    let (same_id, same_type) = Step-same n st in
    let (last, found, last_id, last_type) = serve-same rs (perform r s) id m there in
    (last, found, last_id ∙ same_id, last_type ∙ same_type)
