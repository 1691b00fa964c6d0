-- ===== src/Work/Passing.antt =====
-- The private operations of CapabilityWork of src/capabilities/work.ts: which copies are able, the
-- next execution of a command, and what follows the end of one. Each reads the clock once.
use sema_core.Prelude.{
  ℕ, zero, ◌+◌, Bool, true, false, not, ◌&&◌, ◌||◌, Option, none, some, List, [], ◌∷◌, Text, codes,
  text_eq, is_some, lookup, values, filter, length, any, all, leb, ◌==◌, if◌then◌else◌, Result, ok,
  err,
}
use sema_core.Identity.{pos}
use sema_core.Core.Exec.{Exec, ◌>>=◌, ◌>>◌, pure, read, need}
use sema_core.Core.Types.{
  Json, json_text, json_number, json_array, json_object, JsonObject, Command, Lifecycle, pending,
  waiting, running, success, failed, CoreError,
}
use sema_core.Core.Store.{CoreStore, update_command}
use sema_core.Capabilities.Values.{Checked, items_of}
use sema_core.Capabilities.Records.{
  Records, ServiceVersion, ServiceInstallation, ServiceInstance, find_installation,
}
use sema_core.Capabilities.Registry.{Issue}
use sema_core.Capabilities.Inputs.{is_running}
use sema_core.Work.Needs.{Needs, Reason, needs_of, shortfalls}
use sema_core.Work.Types.{Execution}
use sema_core.Work.Store.{Work, status_eq, is_finished, list_executions}
use sema_core.Work.Calls.{Call, on_add, on_cancel, call_on}
use sema_core.Work.Reasons.{WorkError, nothing_there, of_record, of_core}

-- The stores that CapabilityWork has, and the state of what issues the IDs.
pub record State (W : Type 0) : Type 0 where
  pub records : Records
  pub work : Work
  pub core : CoreStore
  pub world : W

-- An execution as `addExecution` makes it.
abbrev pub new_execution : (time : ℕ) (id command_id service_version_id : Text) → Execution
new_execution time id command_id service_version_id = record {
  id = id;
  command_id = command_id;
  service_version_id = service_version_id;
  status = pending;
  instance_id = none;
  offered_at = none;
  started_at = none;
  completed_at = none;
  not_now = none;
  deferred = none;
  progress = none;
  error = none;
  created_at = time;
}

-- `LIMITS`
abbrev pub live_ms : ℕ
live_ms = 150000

abbrev is_live : Text → ℕ → ServiceInstance → Bool
is_live installation_id time i =
    text_eq i.installation_id installation_id
    && is_running i.state
    && leb time (i.last_check_in_at + live_ms)

abbrev is_met : List Reason → Bool
is_met [] = true
is_met (r ∷ rs) = false

abbrev is_ready : Needs → ServiceInstance → Bool
is_ready needs i = is_met (shortfalls needs (some (json_object i.resources)))

abbrev able_in : ℕ → ServiceVersion → Records → Option ServiceInstallation → List ServiceInstance
able_in time service r none = []
able_in time service r (some installation) =
    filter (is_ready (needs_of service.declarations))
      (filter (is_live installation.id time) (values r.instances))

-- `able`: the copies that can take the work of a service now.
unfoldable pub able : ℕ → ServiceVersion → Records → List ServiceInstance
able time service r = able_in time service r (find_installation service.id r)

abbrev text_in : Option Json → Text
text_in (some (json_text t)) = t
text_in _ = []

abbrev texts_of : List Json → List Text
texts_of [] = []
texts_of (json_text t ∷ rest) = t ∷ texts_of rest
texts_of (_ ∷ rest) = texts_of rest

abbrev texts_in : Option Json → List Text
texts_in (some (json_array items)) = texts_of (items_of items)
texts_in _ = []

abbrev count_in : Option Json → ℕ
count_in (some (json_number (pos n) zero)) = n
count_in _ = 0

-- What the payload of a command says: `way`, `services` and `enough`, 0 where it is left out.
abbrev pub is_dynamic : Command → Bool
is_dynamic command = text_eq (text_in (lookup (codes "way") command.payload)) (codes "dynamic")

abbrev pub services_of : Command → List Text
services_of command = texts_in (lookup (codes "services") command.payload)

abbrev pub enough_of : Command → ℕ
enough_of command = count_in (lookup (codes "enough") command.payload)

-- Being worked on, or waiting to be offered now.
abbrev pub is_busy : Execution → Bool
is_busy e =
    status_eq e.status success
    || status_eq e.status waiting
    || status_eq e.status running
    || (status_eq e.status pending && not (is_some e.deferred))

abbrev is_tried : List Execution → Text → Bool
is_tried executions id = any (λ (e : Execution). text_eq e.service_version_id id) executions

abbrev service_able : ℕ → Records → Option ServiceVersion → Bool
service_able time r none = false
service_able time r (some service) = not (length (able time service r) == 0)

-- The next service in the order asked for that is not tried and has a copy that is able.
unfoldable pub next_service : ℕ → Records → List Execution → List Text → Option Text
next_service time r executions [] = none
next_service time r executions (id ∷ ids) =
    let later = next_service time r executions ids in
    if not (is_tried executions id) && service_able time r (lookup id r.services)
    then some id
    else later

abbrev pub succeeded : List Execution → ℕ
succeeded executions = length (filter (λ (e : Execution). status_eq e.status success) executions)

abbrev pub Step : Type 0 → Type 0 → Type 0
Step W A = Exec (State W) WorkError A

module _ {W : Type 0} where
  abbrev pub with_core :
      State W → Result CoreError Command × CoreStore → Result WorkError (Unit {0}) × State W
  with_core s (ok command, core) = (ok tt, record s { core = core })
  with_core s (err e, core) = (err (of_core e), record s { core = core })

  -- `core.updateCommandStatus`
  unfoldable pub set_command : Text → Lifecycle → Step W (Unit {0})
  set_command command_id status s = with_core s (update_command command_id status s.core)

  -- A call of the work store.
  unfoldable pub on_work : Call → Step W (Unit {0})
  on_work c s = (ok tt, record s { work = call_on c s.work })

  abbrev pub issued : State W → Checked Text × W → Result WorkError Text × State W
  issued s (ok id, world) = (ok id, record s { world = world })
  issued s (err e, world) = (err (of_record e), record s { world = world })

  module _ (issue : Issue W) (time : ℕ) where
    unfoldable pub new_id : Text → JsonObject → Step W Text
    new_id type_code metadata s = issued s (issue type_code metadata s.world)

    -- `addExecution`
    unfoldable pub start : Text → Text → Step W (Unit {0})
    start command_id service_version_id = do
      id ← new_id (codes "EXECUTION") ((codes "commandId", json_text command_id) ∷ [])
      on_work (on_add (new_execution time id command_id service_version_id))

    abbrev pub pass_to : Text → Option Text → Step W Bool
    pass_to command_id none = pure false
    pass_to command_id (some service) = do start command_id service; pure true

    abbrev pub pass_idle : Command → Records → List Execution → Step W Bool
    pass_idle command r executions =
        if any is_busy executions
        then pure false
        else pass_to command.id (next_service time r executions (services_of command))

    -- A command that is not run by a list in order never passes to another service.
    abbrev pub pass_dynamic : Bool → Command → Records → List Execution → Step W Bool
    pass_dynamic false command r executions = pure false
    pass_dynamic true command r executions = pass_idle command r executions

    -- `passOn`
    unfoldable pub pass_on : Text → Step W Bool
    pass_on command_id = do
      s ← read
      command ← need (lookup command_id s.core.commands) nothing_there
      pass_dynamic (is_dynamic command) command s.records (list_executions command_id s.work)

    abbrev pub settle : Command → List Execution → Step W (Unit {0})
    settle command executions =
        if not (enough_of command == 0)
          && leb (enough_of command) (succeeded executions)
          && not (is_finished command.status)
        then set_command command.id success
        else if all (λ (e : Execution). is_finished e.status) executions
        then set_command command.id (if succeeded executions == 0 then failed else success)
        else pure tt

    -- Under a list in order a success cancels what is pending; anything else passes the work on.
    abbrev pub passed : Command → Execution → Step W Bool
    passed command execution =
        if is_dynamic command
        then (if status_eq execution.status success
            then (do on_work (on_cancel command.id time); pure false)
            else pass_on command.id)
        else pure false

    abbrev pub settle_unless : Bool → Command → Step W (Unit {0})
    settle_unless true command = pure tt
    settle_unless false command = do s ← read; settle command (list_executions command.id s.work)

    -- `afterFinish`
    unfoldable pub after_finish : Execution → Step W (Unit {0})
    after_finish execution = do
      s ← read
      command ← need (lookup execution.command_id s.core.commands) nothing_there
      moved_on ← passed command execution
      settle_unless moved_on command
