-- ===== src/Work/Reporting.antt =====
-- What running copies report of their work, and what is made of their silence: progress, report and
-- markSilent of src/capabilities/work.ts, each with one reading of the clock.
use sema_core.Prelude.{
  ℕ, ◌+◌, Bool, true, false, not, ◌&&◌, ◌||◌, Option, none, some, List, [], ◌∷◌, Text, codes,
  text_eq, is_some, lookup, ltb, leb, if◌then◌else◌, Result, ok, err,
}
use sema_core.Identity.{pos}
use sema_core.Core.Exec.{◌>>=◌, ◌>>◌, pure, read, throw_if, need, call}
use sema_core.Core.Types.{Json, json_null, json_text, Fields, Command, running}
use sema_core.Capabilities.Records.{OperationDefinition, CapabilityVersion, AnswerShape}
use sema_core.Capabilities.Registry.{Issue}
use sema_core.Capabilities.Answers.{Mismatch, value_problems, schema_of, field_of}
use sema_core.Work.Needs.{part, less, number_of}
use sema_core.Capabilities.Offers.{Decimal}
use sema_core.Work.Types.{
  Execution, Outcome, achieved, partly, not_achieved, needs_review, Progress,
}
use sema_core.Work.Store.{status_eq, is_held_by, list_running}
use sema_core.Work.Calls.{on_answer, progresses, succeeds, fails}
use sema_core.Work.Reasons.{
  WorkError, not_running, bad_percent, bad_outcome, bad_status, two_answers, too_long, no_match,
  nothing_there, given_text,
}
use sema_core.Work.Passing.{Step, on_work, new_id, after_finish}
use sema_core.Work.Answering.{own_instance, reply_on, execution_on}

abbrev first_time : Option ℕ → ℕ → ℕ
first_time none other = other
first_time (some t) other = t

abbrev heard_at : Option Progress → Option ℕ
heard_at none = none
heard_at (some p) = some p.at

-- `progress?.at ?? startedAt ?? createdAt`
abbrev pub last_word : Execution → ℕ
last_word e = first_time (heard_at e.progress) (first_time e.started_at e.created_at)

abbrev in_percent : Decimal → Bool
in_percent d =
    not (less d (record { mantissa = pos 0; scale = 0 }))
    && not (less (record { mantissa = pos 100; scale = 0 }) d)

abbrev percent_of : Option Decimal → Bool
percent_of none = false
percent_of (some d) = in_percent d

abbrev is_percent : Option Json → Bool
is_percent none = true
is_percent (some value) = percent_of (number_of (some value))

abbrev note_given : Option Json → Result WorkError (Option Text)
note_given none = ok none
note_given (some value) = elim (given_text (some value) (codes "note") 200) [
  | ok note ↦ ok (some note)
  | err e ↦ err e
]

abbrev outcome_named : Text → Option Outcome
outcome_named t =
    if text_eq t (codes "achieved")
    then some achieved
    else if text_eq t (codes "partly")
    then some partly
    else if text_eq t (codes "not-achieved")
    then some not_achieved
    else if text_eq t (codes "needs-review")
    then some needs_review
    else none

abbrev outcome_in : Option Outcome → Result WorkError (Option Outcome)
outcome_in none = err bad_outcome
outcome_in (some outcome) = ok (some outcome)

abbrev given_outcome : Option Json → Result WorkError (Option Outcome)
given_outcome none = ok none
given_outcome (some (json_text t)) = outcome_in (outcome_named t)
given_outcome (some _) = err bad_outcome

abbrev is_running_on : Text → Execution → Bool
is_running_on instance_id e = status_eq e.status running && is_held_by instance_id e.instance_id

abbrev pub text_in : Option Json → Text
text_in (some (json_text t)) = t
text_in _ = []

unfoldable pub find_operation : Text → List OperationDefinition → Option OperationDefinition
find_operation key [] = none
find_operation key (o ∷ os) =
    let later = find_operation key os in if text_eq o.key key then some o else later

abbrev is_nil : List Mismatch → Bool
is_nil [] = true
is_nil (m ∷ ms) = false

-- A value that is left out is of no type and in no list.
abbrev fits_absent : Fields → Bool
fits_absent s =
    not (is_some (field_of s (codes "type"))) && not (is_some (field_of s (codes "enum")))

pub record ReportInput : Type 0 where
  pub instance_id : Option Json
  pub execution_id : Option Json
  pub status : Option Json
  pub outcome : Option Json
  pub answer : Option Json
  pub reference : Option Json
  pub error : Option Json

-- `stringify` is JSON.stringify and `byte_length` is Buffer.byteLength.
module _ (stringify : Json → Text) (byte_length : Text → ℕ) where
  abbrev value_fits : Fields → Option Json → Bool
  value_fits s none = fits_absent s
  value_fits s (some value) = is_nil (value_problems stringify s value)

  abbrev output_fits : Option Fields → Json → Bool
  output_fits none value = true
  output_fits (some s) value = value_fits s (some value)

  -- A shape that is not there has no parts to read: a TypeError, which is thrown like a mismatch.
  abbrev asked_fits : (asked : Option Json) → (part_of_answer : Option Json) → Bool
  asked_fits none value = false
  asked_fits (some json_null) value = false
  asked_fits (some asked) value = value_fits (schema_of asked) value

  abbrev shape_fits : Option AnswerShape → (input : Option Json) → Json → Bool
  shape_fits none input value = true
  shape_fits (some shape) input value =
      asked_fits (part shape.input input) (part shape.output (some value))

  abbrev operation_fits : Option OperationDefinition → (input : Option Json) → Json → Bool
  operation_fits none input value = true
  operation_fits (some o) input value =
      output_fits o.output value && shape_fits o.answer_shape input value

  abbrev contract_fits : Command → CapabilityVersion → Json → Bool
  contract_fits command capability value =
      operation_fits
        (find_operation (text_in (lookup (codes "operation") command.payload))
          capability.operations)
        (lookup (codes "input") command.payload) value

  module _ {W : Type 0} (issue : Issue W) (time : ℕ) where
    -- `progress`
    unfoldable pub progress :
        Option Text → (instance_id execution_id percent note : Option Json) → Step W Progress
    progress caller instance_id execution_id percent note = do
      own ← own_instance caller instance_id
      id ← call (λ e. e) (given_text execution_id (codes "executionId") 200)
      throw_if (not (is_percent percent)) bad_percent
      words ← call (λ e. e) (note_given note)
      let said : Progress = record { at = time; percent = percent; note = words }
      changed ← reply_on id own.0.id (progresses said)
      throw_if (not changed) not_running
      pure said

    -- The check of an inline answer.
    abbrev pub checked_answer : Execution → Option Json → Step W (Unit {0})
    checked_answer execution none = pure tt
    checked_answer execution (some value) = do
      throw_if (ltb 65536 (byte_length (stringify value))) too_long
      s ← read
      command ← need (lookup execution.command_id s.core.commands) nothing_there
      capability ←
          need
            (lookup (text_in (lookup (codes "capabilityVersionId") command.payload))
              s.records.capabilities)
            nothing_there
      throw_if (not (contract_fits command capability value)) no_match

    abbrev pub reference_given : Option Json → Result WorkError (Option Text)
    reference_given none = ok none
    reference_given (some value) = elim (given_text (some value) (codes "reference") 2000) [
      | ok reference ↦ ok (some reference)
      | err e ↦ err e
    ]

    abbrev pub succeed :
        Execution → Text → Option Outcome → (value reference : Option Json) → Step W Bool
    succeed execution instance_id outcome value reference = do
      throw_if
          ((not (is_some value) && not (is_some reference)) || (is_some value && is_some reference))
          two_answers
      checked_answer execution value
      place ← call (λ e. e) (reference_given reference)
      id ← new_id issue time (codes "RESULT") ((codes "executionId", json_text execution.id) ∷ [])
      on_work (
          on_answer (record {
            execution_id = execution.id;
            outcome = outcome;
            answer = value;
            reference = place;
            recorded_at = time;
          }))
      reply_on execution.id instance_id (succeeds time)

    abbrev pub fail_with : Execution → Text → Option Json → Step W Bool
    fail_with execution instance_id error = do
      words ← call (λ e. e) (given_text error (codes "error") 2000)
      reply_on execution.id instance_id (fails time words)

    abbrev pub conclude : Text → Execution → Text → Option Outcome → ReportInput → Step W Bool
    conclude status execution instance_id outcome input =
        if text_eq status (codes "SUCCESS")
        then succeed execution instance_id outcome input.answer input.reference
        else if text_eq status (codes "FAILED")
        then fail_with execution instance_id input.error
        else (do throw_if true bad_status; pure false)

    -- `report`
    unfoldable pub report : Option Text → ReportInput → Step W Execution
    report caller input = do
      own ← own_instance caller input.instance_id
      id ← call (λ e. e) (given_text input.execution_id (codes "executionId") 200)
      s ← read
      execution ← need (lookup id s.work.executions) not_running
      throw_if (not (is_running_on own.0.id execution)) not_running
      outcome ← call (λ e. e) (given_outcome input.outcome)
      changed ← conclude (text_in input.status) execution own.0.id outcome input
      ended ← execution_on id
      after_finish issue time ended
      pure ended

    -- One execution that is running: whether it is marked.
    abbrev pub after_mark : Bool → Execution → Step W Bool
    after_mark false execution = pure false
    after_mark true execution = do
      ended ← execution_on execution.id
      after_finish issue time ended
      pure true

    abbrev pub holder : Option Text → Text
    holder none = []
    holder (some instance_id) = instance_id

    abbrev pub mark_one : (word : Text) → Bool → Execution → Step W Bool
    mark_one word true execution = pure false
    mark_one word false execution = do
      changed ← reply_on execution.id (holder execution.instance_id) (fails time word)
      after_mark changed execution

    unfoldable pub mark_all : (silent : ℕ) (word : Text) → List Execution → Step W (List Text)
    mark_all silent word [] = pure []
    mark_all silent word (e ∷ es) = do
      marked ← mark_one word (leb time (last_word e + silent)) e
      rest ← mark_all silent word es
      pure (if marked then e.id ∷ rest else rest)

    -- `markSilent`. `word` is the error that it writes.
    unfoldable pub mark_silent : (silent : ℕ) (word : Text) → Step W (List Text)
    mark_silent silent word = do s ← read; mark_all silent word (list_running s.work)
