-- ===== src/Work/Calls.antt =====
-- The calls of the work store that CapabilityWork of src/capabilities/work.ts makes: what it has an
-- execution expected to be, and what it writes.
use sema_core.Prelude.{ℕ, none, some, List, [], ◌∷◌, Text}
use sema_core.Core.Types.{Lifecycle}
use sema_core.Core.Types as Types
use sema_core.Work.Needs.{Reason}
use sema_core.Work.Types.{decline, unavailable, Progress, Execution, Answer, CommandResult}
use sema_core.Work.Store.{
  Work, add_execution, claim, Change, no_change, change, cancel_pending, add_answer, add_result,
}

-- `answer`, `progress`, `report` and `markSilent`.
pub data Reply : Type 0 where
  accepts : (now : ℕ) → Reply
  declines : (now : ℕ) (reason : Text) → Reply
  defers : (until : ℕ) (reason : Text) → Reply
  refuses : (now : ℕ) (reason : Text) → List Reason → Reply
  progresses : Progress → Reply
  succeeds : (now : ℕ) → Reply
  fails : (now : ℕ) (error : Text) → Reply

abbrev pub expects : Reply → Lifecycle
expects (accepts now) = Types.waiting
expects (declines now reason) = Types.waiting
expects (defers until reason) = Types.waiting
expects (refuses now reason reasons) = Types.waiting
expects (progresses progress) = Types.running
expects (succeeds now) = Types.running
expects (fails now error) = Types.running

abbrev pub writes : Reply → Change
writes (accepts now) = record no_change { status = some Types.running; started_at = some now }
writes (declines now reason) = record no_change {
  status = some Types.failed;
  completed_at = some now;
  not_now = some (record { answer = decline; reason = reason; reasons = none });
}
writes (defers until reason) = record no_change {
  status = some Types.pending;
  deferred = some (record { until = until; reason = reason });
}
writes (refuses now reason reasons) = record no_change {
  status = some Types.failed;
  completed_at = some now;
  not_now = some (record { answer = unavailable; reason = reason; reasons = some reasons });
}
writes (progresses progress) = record no_change { progress = some progress }
writes (succeeds now) = record no_change { status = some Types.success; completed_at = some now }
writes (fails now error) = record no_change {
  status = some Types.failed;
  completed_at = some now;
  error = some error;
}

pub data Call : Type 0 where
  on_add : Execution → Call
  on_claim : (service_version_id instance_id : Text) (now stale : ℕ) → Call
  on_reply : (id instance_id : Text) → Reply → Call
  on_cancel : (command_id : Text) (now : ℕ) → Call
  on_answer : Answer → Call
  on_result : CommandResult → Call

unfoldable pub call_on : Call → Work → Work
call_on (on_add e) w = add_execution e w
call_on (on_claim service_version_id instance_id now stale) w =
    (claim service_version_id instance_id now stale w).1
call_on (on_reply id instance_id reply) w =
    (change id (expects reply) instance_id (writes reply) w).1
call_on (on_cancel command_id now) w = cancel_pending command_id now w
call_on (on_answer a) w = add_answer a w
call_on (on_result r) w = (add_result r w).1

unfoldable pub calls_on : List Call → Work → Work
calls_on [] w = w
calls_on (c ∷ cs) w = calls_on cs (call_on c w)
