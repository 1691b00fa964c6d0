-- ===== src/Topology/Requests/Steps.antt =====
-- How one request changes one node: the steps that a node may take.
use Prim.Native.Nat.{◌<◌}
use sema_core.Prelude.{ℕ, ◌≡◌, ◌≢◌, ◌⊎◌, Bool, Option, none, some, Text}
use sema_core.Topology.Types.{organization, active, retired, Shutdown, KeyLimits, Seats, LocalNode}
use sema_core.Topology.Counter.{advance}
use sema_core.Topology.Issuing.{segments}

-- Active and not shut down.
pub record IsUsable (n : LocalNode) : Type 0 where
  pub is_active : n.status ≡ active
  pub is_up : n.shutdown ≡ none

-- `Step o n m`: a request that offers the basis `o` may turn the node `n` into `m`.
pub data Step (o : Option Text) (n : LocalNode) : LocalNode → Type 0 where
  stays : Step o n n
  advances : IsUsable n → Step o n (advance n 1).node
  moves :
      IsUsable n
      → (parent_id : Text) (address : Option Text)
      → Step o n (record n { parent_id = some parent_id; parent_address = address })
  rebases :
      IsUsable n
      → (basis : Text) → o ≡ some basis
      → segments basis < segments n.basis
      → Step o n (record n { basis = basis; issued = 0; next_basis = none; switch_at = none })
  readies :
      IsUsable n
      → (basis : Text) (switch_at : ℕ) → o ≡ some basis
      → basis ≢ n.basis
      → 0 < switch_at
      → Step o n (record n { next_basis = some basis; switch_at = some switch_at })
  shuts :
      n.status ≡ active → (shutdown : Option Shutdown) → Step o n (record n { shutdown = shutdown })
  completes : (complete : Bool) → Step o n (record n { child_list_complete = complete })
  limits :
      IsUsable n
      → n.type ≡ organization
      → (limits : Option KeyLimits) → Step o n (record n { key_limits = limits })
  seats :
      n.status ≡ active
      → n.type ≡ organization
      → (seats : Seats) → Step o n (record n { seats = some seats })
  retires : n.status ≡ active → Step o n (record n { status = retired })

-- A node as it is recorded, under the ID that it is asked for by.
pub record IsNew (id : Text) (n : LocalNode) : Type 0 where
  pub own_id : n.id ≡ id
  pub own_basis : n.basis ≡ id
  pub nothing_issued : n.issued ≡ 0
  pub no_next_basis : n.next_basis ≡ none
  pub no_switch : n.switch_at ≡ none
  pub no_limits : n.key_limits ≡ none
  pub seats_if_organization : (n.type ≡ organization) ⊎ (n.seats ≡ none)
