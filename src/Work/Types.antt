-- ===== src/Work/Types.antt =====
-- The records of src/capabilities/work.ts. A time is the instant that its text stands for; the texts
-- are all of one form, so they order as the instants do.
use sema_core.Prelude.{ℕ, Option, List, Text}
use sema_core.Core.Types.{Json, Lifecycle}
use sema_core.Work.Needs.{Reason}

-- `NotNow`
pub data Refusal : Type 0 where
  decline unavailable : Refusal

pub record NotNow : Type 0 where
  pub answer : Refusal
  pub reason : Text
  pub reasons : Option (List Reason)

pub record Deferred : Type 0 where
  pub until : ℕ
  pub reason : Text

pub record Progress : Type 0 where
  pub at : ℕ
  pub percent : Option Json
  pub note : Option Text

-- `WorkExecution`
pub record Execution : Type 0 where
  pub id : Text
  pub command_id : Text
  pub service_version_id : Text
  pub status : Lifecycle
  pub instance_id : Option Text
  pub offered_at : Option ℕ
  pub started_at : Option ℕ
  pub completed_at : Option ℕ
  pub not_now : Option NotNow
  pub deferred : Option Deferred
  pub progress : Option Progress
  pub error : Option Text
  pub created_at : ℕ

-- `OUTCOMES`
pub data Outcome : Type 0 where
  achieved partly not_achieved needs_review : Outcome

pub record Answer : Type 0 where
  pub execution_id : Text
  pub outcome : Option Outcome
  pub answer : Option Json
  pub reference : Option Text
  pub recorded_at : ℕ

-- `ResultEntry`
pub record ResultEntry : Type 0 where
  pub execution_id : Text
  pub service_version_id : Text
  pub service_key : Text
  pub status : Lifecycle
  pub outcome : Option Outcome
  pub answer : Option Json
  pub reference : Option Text
  pub not_now : Option NotNow
  pub deferred_until : Option ℕ
  pub progress : Option Progress
  pub error : Option Text

pub record CommandResult : Type 0 where
  pub id : Text
  pub command_id : Text
  pub entries : List ResultEntry
  pub recorded_at : ℕ
  pub notes : List Text
