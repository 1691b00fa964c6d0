-- ===== src/Topology/Requests/Changes.antt =====
-- Each change function of LocalNodes takes a step.
use Prim.Native.Nat.{◌<◌}
use mathlib.Core.Path.{subst}
use sema_core.Prelude.{
  ℕ, ◌≡◌, ◌⊎◌, Bool, true, false, not, Option, some, List, Text, text_eq, text_eq_iff, inl, inr,
  Bool-cases, arith, ok, >>=-eq-ok, refuse_if, leb, any, is_empty, split,
}
use sema_core.Identity.{ℤ, hyphen}
use sema_core.Topology.Types.{
  NodeType, organization, active, is_organization, Shutdown, KeyLimits, Seats, ChildEntry,
  LocalNode, Outcome, require_may_hold, entry, own_parent, basis_not_shorter, bad_basis, own_basis,
  not_an_organization,
}
use sema_core.Topology.Counter.{advance, next_value}
use sema_core.Topology.Store.{Change}
use sema_core.Topology.Node.{require_active, require_usable}
use sema_core.Topology.Placing.{parent_change, shutdown_change, retire_change, complete_change}
use sema_core.Topology.Issuing.{
  Rebased, child_change, basis_issue, basis_change, next_basis_change, segments, is_own, is_held,
  keep_basis,
}
use sema_core.Topology.Organization.{
  limits_change, seats_change, seat_limits_change, seats_used_change, require_organization,
  take_seats, LimitChange,
}
use sema_core.Topology.Requests.Steps.{
  Step, IsUsable, stays, advances, moves, rebases, readies, shuts, completes, limits, seats,
  retires,
}

pub IsUsable-of : (n : LocalNode) {u : Unit} → require_usable n ≡ ok u → IsUsable n
unfolding require_usable require_active
IsUsable-of n h = record { is_active = ground arith; is_up = ground arith }

pub active-of : (n : LocalNode) {u : Unit} → require_active n ≡ ok u → n.status ≡ active
unfolding require_active
active-of n h = ground arith

organization-of :
    (n : LocalNode) {v : Seats} → require_organization n ≡ ok v → n.type ≡ organization
unfolding require_organization
organization-of n h = ground arith

module _ (o : Option Text) (n : LocalNode) where
  Step-to :
      {A : Type 0} {node : LocalNode} {result : A} {more : List ChildEntry} (c : Change A)
      → Step o n node
      → ◌≡◌ {A = Outcome (Change A)}
          (ok (record { node = node; result = result; add_children = more }))
          (ok c)
      → Step o n c.node
  Step-to {node} c st h = let e : node ≡ c.node = cc in subst (Step o n) e st

  pub basis_issue-Step : (c : Change Text) → basis_issue n ≡ ok c → Step o n c.node
  basis_issue-Step c h =
      let (u, usable, h₁) = >>=-eq-ok (require_usable n) _ h in
      Step-to c (advances (IsUsable-of n usable)) h₁

  pub child_change-Step :
      (type : NodeType) (address : Option Text) (c : Change Text)
      → child_change type address n ≡ ok c
      → Step o n c.node
  child_change-Step type address c h =
      let (u, usable, h₁) = >>=-eq-ok (require_usable n) _ h in
      let (v, fits, h₂) = >>=-eq-ok (require_may_hold n.type type) _ h₁ in
      let (child, made, h₃) =
        >>=-eq-ok
          (entry
            (record { child_id = next_value (advance n 1); type = some type; address = address }))
          _ h₂ in
      Step-to c (advances (IsUsable-of n usable)) h₃

  pub parent_change-Step :
      (id parent_id : Text) (address : Option Text) (c : Change LocalNode)
      → parent_change id parent_id address n ≡ ok c
      → Step o n c.node
  parent_change-Step id parent_id address c h =
      let (u, usable, h₁) = >>=-eq-ok (require_usable n) _ h in
      let (v, other, h₂) = >>=-eq-ok (refuse_if (text_eq parent_id id) own_parent) _ h₁ in
      Step-to c (moves (IsUsable-of n usable) parent_id _) h₂

  pub basis_change-Step :
      (basis : Text) (c : Change Rebased)
      → o ≡ some basis
      → basis_change basis n ≡ ok c
      → Step o n c.node
  basis_change-Step basis c e h =
      let (u, usable, h₁) = >>=-eq-ok (require_usable n) _ h in
      let (v, shorter, h₂) =
        >>=-eq-ok (refuse_if (leb (segments n.basis) (segments basis)) basis_not_shorter) _ h₁ in
      let (w, full, h₃) =
        >>=-eq-ok (refuse_if (any is_empty (split hyphen basis)) bad_basis) _ h₂ in
      Step-to c (rebases (IsUsable-of n usable) basis e (ground arith)) h₃

  pub next_basis_change-Step :
      (id basis : Text) (switch_at : ℕ) (c : Change LocalNode)
      → o ≡ some basis
      → 0 < switch_at
      → next_basis_change id basis switch_at n ≡ ok c
      → Step o n c.node
  next_basis_change-Step id basis switch_at c e above h =
      let (u, usable, h₁) = >>=-eq-ok (require_usable n) _ h in
      let (v, other, h₂) = >>=-eq-ok (refuse_if (is_own id n.basis basis) own_basis) _ h₁ in
      Step-to c (kept (Bool-cases (is_held n.next_basis)) (IsUsable-of n usable) other) h₂
    where
      kept :
          {v : Unit}
          → (is_held n.next_basis ≡ true) ⊎ (is_held n.next_basis ≡ false)
          → IsUsable n
          → refuse_if (is_own id n.basis basis) own_basis ≡ ok v
          → Step o n (keep_basis basis switch_at n)
      kept (inl held) usable other = rw held stays
      kept (inr open_place) usable other =
          rw open_place
            (readies usable basis switch_at e (ground (arith, text_eq_iff basis n.basis)) above)

  pub shutdown_change-Step :
      (shutdown : Option Shutdown) (c : Change LocalNode)
      → shutdown_change shutdown n ≡ ok c
      → Step o n c.node
  shutdown_change-Step shutdown c h =
      let (u, up, h₁) = >>=-eq-ok (require_active n) _ h in
      Step-to c (shuts (active-of n up) shutdown) h₁

  pub retire_change-Step : (c : Change LocalNode) → retire_change n ≡ ok c → Step o n c.node
  retire_change-Step c h =
      let (u, up, h₁) = >>=-eq-ok (require_active n) _ h in Step-to c (retires (active-of n up)) h₁

  pub complete_change-Step :
      (complete : Bool) (c : Change Bool) → complete_change complete n ≡ ok c → Step o n c.node
  complete_change-Step complete c h = Step-to c (completes complete) h

  pub limits_change-Step :
      (l : KeyLimits) (c : Change LocalNode) → limits_change l n ≡ ok c → Step o n c.node
  limits_change-Step l c h =
      let (u, usable, h₁) = >>=-eq-ok (require_usable n) _ h in
      let (v, kind, h₂) =
        >>=-eq-ok (refuse_if (not (is_organization n.type)) not_an_organization) _ h₁ in
      Step-to c (limits (IsUsable-of n usable) (ground arith) _) h₂

  pub seats_change-Step :
      (users machines : ℤ) (c : Change Seats)
      → seats_change users machines n ≡ ok c
      → Step o n c.node
  seats_change-Step users machines c h =
      let (u, up, h₁) = >>=-eq-ok (require_active n) _ h in
      let (held, kind, h₂) = >>=-eq-ok (require_organization n) _ h₁ in
      let (a, a_taken, h₃) = >>=-eq-ok (take_seats held.users_used held.users_allowed users) _ h₂ in
      let (b, b_taken, h₄) =
        >>=-eq-ok (take_seats held.machines_used held.machines_allowed machines) _ h₃ in
      Step-to c (seats (active-of n up) (organization-of n kind) _) h₄

  pub seat_limits_change-Step :
      (users machines : LimitChange ℕ) (c : Change Seats)
      → seat_limits_change users machines n ≡ ok c
      → Step o n c.node
  seat_limits_change-Step users machines c h =
      let (u, up, h₁) = >>=-eq-ok (require_active n) _ h in
      let (held, kind, h₂) = >>=-eq-ok (require_organization n) _ h₁ in
      Step-to c (seats (active-of n up) (organization-of n kind) _) h₂

  pub seats_used_change-Step :
      (users machines : ℕ) (complete : Bool) (c : Change Seats)
      → seats_used_change users machines complete n ≡ ok c
      → Step o n c.node
  seats_used_change-Step users machines complete c h =
      let (u, up, h₁) = >>=-eq-ok (require_active n) _ h in
      let (held, kind, h₂) = >>=-eq-ok (require_organization n) _ h₁ in
      Step-to c (seats (active-of n up) (organization-of n kind) _) h₂
