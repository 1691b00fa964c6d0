-- ===== src/Topology/Requests/Invariants.antt =====
-- What holds of every node, whatever the requests.
use Prim.Native.Nat.{◌<◌}
use sema_core.Prelude.{ℕ, ◌≡◌, ◌≢◌, ◌⊎◌, Option, none, some, List, [], ◌∷◌, Text, inl, inr, arith}
use sema_core.Topology.Types.{organization, LocalNode}
use sema_core.Topology.Counter.{ready, take_from, advance}
use sema_core.Topology.Store
use sema_core.Topology.Store.{Store}
use sema_core.Topology.Requests.Steps.{
  Step, IsNew, stays, advances, moves, rebases, readies, shuts, completes, limits, seats, retires,
}
use sema_core.Topology.Requests.Serving.{perform-Evolves}
use sema_core.Topology.Requests.{Request, perform, serve}

-- Set together, or neither.
abbrev pub ArePaired : Option Text → Option ℕ → Type 0
ArePaired none none = Unit
ArePaired (some basis) (some switch_at) = 0 < switch_at
ArePaired _ _ = ⊥

pub record IsSoundNode (id : Text) (n : LocalNode) : Type 0 where
  pub own_id : n.id ≡ id
  pub paired : ArePaired n.next_basis n.switch_at
  pub another_basis : n.next_basis ≢ some n.basis
  pub limits_organization : (n.type ≡ organization) ⊎ (n.key_limits ≡ none)
  pub seats_organization : (n.type ≡ organization) ⊎ (n.seats ≡ none)

IsNew-IsSoundNode : (id : Text) (n : LocalNode) → IsNew id n → IsSoundNode id n
IsNew-IsSoundNode id n h = record {
  own_id = h.own_id;
  paired = rw (h.no_next_basis, h.no_switch) tt;
  another_basis = ground (arith, h.no_next_basis);
  limits_organization = inr h.no_limits;
  seats_organization = h.seats_if_organization;
}

pub take_from-IsSoundNode :
    (id : Text) (n : LocalNode) (r : Option Text)
    → IsSoundNode id n
    → IsSoundNode id (take_from n 1 r).node
take_from-IsSoundNode id n none h = assumption
take_from-IsSoundNode id n (some basis) h = record {
  own_id = h.own_id;
  paired = tt;
  another_basis = cc;
  limits_organization = h.limits_organization;
  seats_organization = h.seats_organization;
}

Step-IsSoundNode :
    (id : Text) {o : Option Text} {n m : LocalNode}
    → Step o n m
    → IsSoundNode id n
    → IsSoundNode id m
unfolding advance
Step-IsSoundNode id stays h = h
Step-IsSoundNode id {n} (advances u) h =
    take_from-IsSoundNode id n (ready n 1 n.next_basis n.switch_at) h
Step-IsSoundNode id (moves u p a) h = assumption
Step-IsSoundNode id (rebases u b o k) h = record {
  own_id = h.own_id;
  paired = tt;
  another_basis = cc;
  limits_organization = h.limits_organization;
  seats_organization = h.seats_organization;
}
Step-IsSoundNode id (readies u b k o other above) h = record {
  own_id = h.own_id;
  paired = above;
  another_basis = λ e. other (ground arith);
  limits_organization = h.limits_organization;
  seats_organization = h.seats_organization;
}
Step-IsSoundNode id (shuts up d) h = assumption
Step-IsSoundNode id (completes c) h = assumption
Step-IsSoundNode id (limits u t l) h = record {
  own_id = h.own_id;
  paired = h.paired;
  another_basis = h.another_basis;
  limits_organization = inl t;
  seats_organization = h.seats_organization;
}
Step-IsSoundNode id (seats up t l) h = record {
  own_id = h.own_id;
  paired = h.paired;
  another_basis = h.another_basis;
  limits_organization = h.limits_organization;
  seats_organization = inl t;
}
Step-IsSoundNode id (retires up) h = assumption

abbrev pub AllSound : Store → Type 0
AllSound s = (id : Text) (n : LocalNode) → Store.get id s ≡ some n → IsSoundNode id n

perform-AllSound : (r : Request) (s : Store) → AllSound s → AllSound (perform r s)
perform-AllSound r s h id m held = elim ((perform-Evolves r s).origin id m held) [
  | inl (n, before, st) ↦ Step-IsSoundNode id st (h id n before)
  | inr fresh ↦ IsNew-IsSoundNode id m fresh
]

-- From a store of sound nodes, whatever the requests, every node that is held is sound: it is kept
-- under its own ID, a ready basis and the value at which it takes over are set together or neither,
-- the ready basis is not the one in use, the value is above zero, and only an organization holds
-- key limits or seats.
pub serve-AllSound : (rs : List Request) (s : Store) → AllSound s → AllSound (serve rs s)
unfolding serve
serve-AllSound [] s h = h
serve-AllSound (r ∷ rs) s h = serve-AllSound rs (perform r s) (perform-AllSound r s h)
