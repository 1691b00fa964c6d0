-- ===== src/Work/Store.antt =====
-- InMemoryWorkStore of src/capabilities/work.ts.
use sema_core.Prelude.{
  ℕ, Bool, true, false, ◌&&◌, ◌||◌, Option, none, some, List, [], ◌∷◌, Text, text_eq, Dict, lookup,
  insert, has, values, filter, ltb, leb, if◌then◌else◌,
}
use sema_core.Core.Types.{Json, Lifecycle}
use sema_core.Core.Types
use sema_core.Work.Types.{NotNow, Deferred, Progress, Execution, Answer, CommandResult}
use sema_core.Capabilities.Records.{or_kept}

pub record Work : Type 0 where
  pub executions : Dict Execution
  pub answers : Dict Answer
  pub results : Dict CommandResult

abbrev pub empty : Work
empty = record { executions = []; answers = []; results = [] }

abbrev pub status_eq : Lifecycle → Lifecycle → Bool
status_eq Types.pending Types.pending = true
status_eq Types.running Types.running = true
status_eq Types.waiting Types.waiting = true
status_eq Types.cancelled Types.cancelled = true
status_eq Types.failed Types.failed = true
status_eq Types.success Types.success = true
status_eq _ _ = false

-- `finished`
abbrev pub is_finished : Lifecycle → Bool
is_finished s = status_eq s Types.success || status_eq s Types.failed || status_eq s Types.cancelled

-- `sort((a, b) => a.createdAt.localeCompare(b.createdAt))`, which keeps the order of equals.
unfoldable pub place : Execution → List Execution → List Execution
place e [] = e ∷ []
place e (f ∷ fs) =
    let later = place e fs in if leb e.created_at f.created_at then e ∷ f ∷ fs else f ∷ later

unfoldable pub by_creation : List Execution → List Execution
by_creation [] = []
by_creation (e ∷ es) = place e (by_creation es)

abbrev pub first_of : List Execution → Option Execution
first_of [] = none
first_of (e ∷ es) = some e

abbrev pub add_execution : Execution → Work → Work
add_execution e w = record w { executions = insert e.id e w.executions }

abbrev pub of_command : Text → Execution → Bool
of_command command_id e = text_eq e.command_id command_id

abbrev pub list_executions : Text → Work → List Execution
list_executions command_id w = by_creation (filter (of_command command_id) (values w.executions))

-- `!(item.deferred && item.deferred.until > now)`
abbrev pub is_due : ℕ → Option Deferred → Bool
is_due now none = true
is_due now (some d) = leb d.until now

-- `item.offeredAt < staleBefore`
abbrev pub is_stale : ℕ → Option ℕ → Bool
is_stale stale none = false
is_stale stale (some at) = ltb at stale

abbrev pub is_open : Text → (now stale : ℕ) → Execution → Bool
is_open service_version_id now stale e =
    text_eq e.service_version_id service_version_id
    && ((status_eq e.status Types.pending && is_due now e.deferred)
        || (status_eq e.status Types.waiting && is_stale stale e.offered_at))

abbrev pub offered_to : Text → ℕ → Execution → Execution
offered_to instance_id now e = record e {
  status = Types.waiting;
  instance_id = some instance_id;
  offered_at = some now;
}

abbrev pub offer : Text → ℕ → Work → Option Execution → Option Execution × Work
offer instance_id now w none = (none, w)
offer instance_id now w (some next) = (
  some (offered_to instance_id now next),
  record w { executions = insert next.id (offered_to instance_id now next) w.executions },
)

-- `claim`
unfoldable pub claim :
    (service_version_id instance_id : Text) (now stale : ℕ) → Work → Option Execution × Work
claim service_version_id instance_id now stale w =
    offer instance_id now w
      (first_of (by_creation (filter (is_open service_version_id now stale) (values w.executions))))

-- The parts that a change may write; `none` leaves a part as it is.
pub record Change : Type 0 where
  pub status : Option Lifecycle
  pub started_at : Option ℕ
  pub completed_at : Option ℕ
  pub not_now : Option NotNow
  pub error : Option Text
  pub deferred : Option Deferred
  pub progress : Option Progress

abbrev pub no_change : Change
no_change = record {
  status = none;
  started_at = none;
  completed_at = none;
  not_now = none;
  error = none;
  deferred = none;
  progress = none;
}

abbrev or_else {ℓ} : {A : Type ℓ} → Option A → Option A → Option A
or_else none old = old
or_else (some new) old = some new

abbrev pub assigned : Change → Execution → Execution
assigned change e = record e {
  status = or_kept change.status e.status;
  started_at = or_else change.started_at e.started_at;
  completed_at = or_else change.completed_at e.completed_at;
  not_now = or_else change.not_now e.not_now;
  error = or_else change.error e.error;
  deferred = or_else change.deferred e.deferred;
  progress = or_else change.progress e.progress;
}

abbrev pub is_held_by : Text → Option Text → Bool
is_held_by instance_id none = false
is_held_by instance_id (some i) = text_eq i instance_id

abbrev pub is_expected : Lifecycle → Text → Execution → Bool
is_expected status instance_id e = status_eq e.status status && is_held_by instance_id e.instance_id

abbrev pub change_found : Text → Lifecycle → Text → Change → Work → Option Execution → Bool × Work
change_found id status instance_id c w none = (false, w)
change_found id status instance_id c w (some e) =
    if is_expected status instance_id e
    then (true, record w { executions = insert id (assigned c e) w.executions })
    else (false, w)

-- `change`
unfoldable pub change :
    Text → (status : Lifecycle) (instance_id : Text) → Change → Work → Bool × Work
change id status instance_id c w = change_found id status instance_id c w (lookup id w.executions)

abbrev pub is_cancelled_by : Text → Execution → Bool
is_cancelled_by command_id e = of_command command_id e && status_eq e.status Types.pending

abbrev pub cancelled_at : ℕ → Execution → Execution
cancelled_at now e = record e { status = Types.cancelled; completed_at = some now }

abbrev pub cancel_one : Text → ℕ → Execution → Execution
cancel_one command_id now e = if is_cancelled_by command_id e then cancelled_at now e else e

unfoldable pub cancel_each : Text → ℕ → Dict Execution → Dict Execution
cancel_each command_id now [] = []
cancel_each command_id now ((k, e) ∷ m) =
    (k, cancel_one command_id now e) ∷ cancel_each command_id now m

abbrev pub cancel_pending : Text → ℕ → Work → Work
cancel_pending command_id now w = record w { executions = cancel_each command_id now w.executions }

abbrev is_running : Execution → Bool
is_running e = status_eq e.status Types.running

abbrev pub list_running : Work → List Execution
list_running w = filter is_running (values w.executions)

abbrev pub add_answer : Answer → Work → Work
add_answer a w = record w { answers = insert a.execution_id a w.answers }

-- `addResult`
abbrev pub add_result : CommandResult → Work → Bool × Work
add_result r w =
    if has r.command_id w.results
    then (false, w)
    else (true, record w { results = insert r.command_id r w.results })
