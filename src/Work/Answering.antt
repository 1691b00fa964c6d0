-- ===== src/Work/Answering.antt =====
-- The operations of CapabilityWork of src/capabilities/work.ts that running copies call, each with one
-- reading of the clock; takeWork as one round of its loop.
use sema_core.Prelude.{
  ℕ, ◌+◌, ◌-◌, Bool, true, false, not, ◌||◌, Option, none, some, List, Text, codes, text_eq, truthy,
  lookup, ltb, leb, if◌then◌else◌, Result, ok, err,
}
use sema_core.Core.Exec.{◌>>=◌, ◌>>◌, pure, read, throw_if, need, call}
use sema_core.Identity.{pos}
use sema_core.Core.Types.{Json, json_text, json_number, json_object, Fields, Command}
use sema_core.Capabilities.Records.{
  Records, ServiceVersion, ServiceInstance, InstanceChange, update_instance,
}
use sema_core.Capabilities.Registry.{Issue}
use sema_core.Capabilities.Values.{RecordError, get_field, object_of}
use sema_core.Capabilities.Inputs.{is_running}
use sema_core.Work.Needs.{Reason}
use sema_core.Work.Types.{Execution}
use sema_core.Work.Store.{change, claim}
use sema_core.Work.Calls.{
  on_claim, on_reply, Reply, accepts, declines, defers, refuses, expects, writes, call_on,
}
use sema_core.Work.Reasons.{
  WorkError, not_here, has_stopped, no_program, other_program, bad_until, bad_seconds, bad_answer,
  not_waiting, nothing_there, of_record, given_text, reasons_of, describe_each,
}
use sema_core.Work.Passing.{State, Step, pass_on, after_finish}

-- `LIMITS`
abbrev pub max_defer_ms : ℕ
max_defer_ms = 86400000

abbrev pub offer_ms : ℕ
offer_ms = 60000

abbrev is_caller : Option Text → Text → Bool
is_caller none key = false
is_caller (some caller) key = text_eq caller key

-- `until` is the instant that Date.parse reads from the text given, if there is one.
pub record AnswerInput : Type 0 where
  pub instance_id : Option Json
  pub execution_id : Option Json
  pub answer : Option Json
  pub reason : Option Json
  pub until : Option ℕ
  pub reasons : Option Json

abbrev pub as_work_error : {A : Type 0} → Result RecordError A → Result WorkError A
as_work_error (ok a) = ok a
as_work_error (err e) = err (of_record e)

module _ {W : Type 0} where
  -- `ownInstance`
  unfoldable pub own_instance : Option Text → Option Json → Step W (ServiceInstance × Text)
  own_instance caller instance_id = do
    id ← call (λ e. e) (given_text instance_id (codes "instanceId") 200)
    s ← read
    found ← need (lookup id s.records.instances) not_here
    throw_if (not (is_running found.state)) has_stopped
    key ← need (truthy found.application_key) no_program
    throw_if (not (is_caller caller key)) other_program
    installation ← need (lookup found.installation_id s.records.installations) nothing_there
    pure (found, installation.service_version_id)

  -- `store.change`: whether it changed.
  unfoldable pub reply_on : (execution_id instance_id : Text) → Reply → Step W Bool
  reply_on execution_id instance_id reply s = (
    ok (change execution_id (expects reply) instance_id (writes reply) s.work).0,
    record s { work = call_on (on_reply execution_id instance_id reply) s.work },
  )

  -- `store.claim`
  unfoldable pub claim_on :
      (service_version_id instance_id : Text) (now stale : ℕ) → Step W (Option Execution)
  claim_on service_version_id instance_id now stale s = (
    ok (claim service_version_id instance_id now stale s.work).0,
    record s { work = call_on (on_claim service_version_id instance_id now stale) s.work },
  )

  abbrev pub checked_in :
      State W → Result WorkError (ServiceInstance × Records) → Result WorkError (Unit {0}) × State W
  checked_in s (ok (instance_, records)) = (ok tt, record s { records = records })
  checked_in s (err e) = (err e, s)

  -- `records.updateInstance`
  unfoldable pub check_in_on : Text → InstanceChange → Step W (Unit {0})
  check_in_on id instance_change s =
      checked_in s (as_work_error (update_instance id instance_change s.records))

  unfoldable pub execution_on : Text → Step W Execution
  execution_on execution_id = do
    s ← read
    need (lookup execution_id s.work.executions) nothing_there

abbrev if_object : Option Json → Option Fields
if_object (some (json_object fields)) = some fields
if_object _ = none

-- `seconds(value, ...)`, as a test.
abbrev pub is_wait : Option Json → Bool
is_wait none = true
is_wait (some (json_number (pos n) scale)) = true
is_wait (some _) = false

-- What `takeWork` says of the work: of its command the parts of the payload that are there.
pub record OfferedWork : Type 0 where
  pub execution_id : Text
  pub command_id : Text
  pub capability_key : Option Json
  pub version : Option Json
  pub operation : Option Json
  pub input : Option Json
  pub settings : Option Json

abbrev field_in : Option Fields → Text → Option Json
field_in none key = none
field_in (some fields) key = get_field key fields

abbrev settings_under : Command → Option Text → Option Json
settings_under command none = none
settings_under command (some key) =
    field_in (object_of (lookup (codes "settings") command.payload)) key

abbrev key_of : Option ServiceVersion → Option Text
key_of none = none
key_of (some service) = some service.service_key

-- The organization's settings for the service, where the payload has them.
abbrev pub settings_for : Command → Option ServiceVersion → Option Json
settings_for command service = settings_under command (truthy (key_of service))

abbrev pub work_offered : Execution → Command → Option Json → OfferedWork
work_offered e command settings = record {
  execution_id = e.id;
  command_id = e.command_id;
  capability_key = lookup (codes "capabilityKey") command.payload;
  version = lookup (codes "version") command.payload;
  operation = lookup (codes "operation") command.payload;
  input = lookup (codes "input") command.payload;
  settings = settings;
}

module _ {W : Type 0} (issue : Issue W) (time : ℕ) where
  -- The command of what was offered, read for the copy that takes it.
  abbrev pub work_for : Text → Option Execution → Step W (Option OfferedWork)
  work_for service_version_id none = pure none
  work_for service_version_id (some e) = do
    s ← read
    command ← need (lookup e.command_id s.core.commands) nothing_there
    pure (
        some (
          work_offered e command
            (settings_for command (lookup service_version_id s.records.services))))

  -- A round of `takeWork`: what is offered, if anything is.
  unfoldable pub take_work :
      Option Text → (instance_id wait_seconds resources : Option Json) → Step W (Option OfferedWork)
  take_work caller instance_id wait_seconds resources = do
    own ← own_instance caller instance_id
    throw_if (not (is_wait wait_seconds)) bad_seconds
    check_in_on own.0.id
        (record { last_check_in_at = some time; resources = if_object resources; state = none })
    offered ← claim_on own.1 own.0.id time (time - offer_ms)
    work_for own.1 offered

  module _ (print : Json → Text) where
    abbrev pub until_given : Option ℕ → Result WorkError ℕ
    until_given none = err bad_until
    until_given (some until) =
        if leb until time || ltb (time + max_defer_ms) until then err bad_until else ok until

    abbrev pub reason_given : Option Json → List Reason → Result WorkError Text
    reason_given none reasons = ok (describe_each print reasons)
    reason_given (some value) reasons = given_text (some value) (codes "reason") 500

    abbrev pub declining : AnswerInput → Result WorkError Reply
    declining input = elim (given_text input.reason (codes "reason") 500) [
      | ok reason ↦ ok (declines time reason)
      | err e ↦ err e
    ]

    abbrev pub deferring : AnswerInput → Result WorkError Reply
    deferring input = elim (until_given input.until) [
      | err e ↦ err e
      | ok until ↦ elim (given_text input.reason (codes "reason") 500) [
        | ok reason ↦ ok (defers until reason)
        | err e ↦ err e
      ]
    ]

    abbrev pub refusing : AnswerInput → Result WorkError Reply
    refusing input = elim (reasons_of input.reasons) [
      | err e ↦ err e
      | ok reasons ↦ elim (reason_given input.reason reasons) [
        | ok reason ↦ ok (refuses time reason reasons)
        | err e ↦ err e
      ]
    ]

    abbrev pub reply_named : Text → AnswerInput → Result WorkError Reply
    reply_named name input =
        if text_eq name (codes "accept")
        then ok (accepts time)
        else if text_eq name (codes "decline")
        then declining input
        else if text_eq name (codes "defer")
        then deferring input
        else if text_eq name (codes "unavailable")
        then refusing input
        else err bad_answer

    abbrev pub reply_in : Option Json → AnswerInput → Result WorkError Reply
    reply_in (some (json_text name)) input = reply_named name input
    reply_in _ input = err bad_answer

    unfoldable pub given_reply : AnswerInput → Result WorkError Reply
    given_reply input = reply_in input.answer input

    -- What follows an answer.
    abbrev pub follow_up : Reply → Execution → Step W Bool
    follow_up (accepts now) execution = pure false
    follow_up (defers until reason) execution = pass_on issue time execution.command_id
    follow_up _ execution = do after_finish issue time execution; pure false

    -- `answer`
    unfoldable pub answer : Option Text → AnswerInput → Step W Execution
    answer caller input = do
      own ← own_instance caller input.instance_id
      execution_id ← call (λ e. e) (given_text input.execution_id (codes "executionId") 200)
      reply ← call (λ e. e) (given_reply input)
      changed ← reply_on execution_id own.0.id reply
      throw_if (not changed) not_waiting
      execution ← execution_on execution_id
      passed ← follow_up reply execution
      pure execution
