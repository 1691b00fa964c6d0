-- ===== src/Work/Settled.antt =====
-- What follows the end of an execution: afterFinish of src/capabilities/work.ts.
use sema_core.Prelude.{ℕ, ◌≡◌, ◌⊎◌, Bool, true, false, ok}
use sema_core.Core.Types.{Command}
use sema_core.Capabilities.Registry.{Issue}
use sema_core.Work.Types.{Execution}
use sema_core.Work.Store.{is_finished}
use sema_core.Work.Passing.{State, Step}
use sema_core.Work.Listed.{IsOf}

module _ {W : Type 0} (issue : Issue W) (time : ℕ) where
  -- A command that passed on has an execution that is open; the commands are as they were.
  abbrev PassedOn : (ordered : Bool) → Command → State W → Step W Bool → Type 0
  PassedOn ordered c s m =
      (t : State W) × (t.core ≡ s.core)
      × ((m s ≡ (ok false, t))
          ⊎ ((m s ≡ (ok true, t))
              × (ordered ≡ true)
              × ((e : Execution) × IsOf c.id t.work e × (is_finished e.status ≡ false))))
