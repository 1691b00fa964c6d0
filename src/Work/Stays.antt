-- ===== src/Work/Stays.antt =====
-- The operations of CapabilityWork of src/capabilities/work.ts never change an execution that is
-- finished.
use sema_core.Prelude.{
  ℕ, ◌≢◌, ap, ◌&&◌, ◌==◌, Bool, true, false, not, Option, none, some, List, Text, leb, all, any, ok,
  err, if◌then◌else◌,
}
use sema_core.Core.Exec.{◌>>=◌, pure}
use sema_core.Core.Rules.{Ensures, Ensures-bind, IsLeft}
use sema_core.Core.Stays.{
  Stays-bind, Stays-pure, Stays-read, Stays-throw_if, Stays-need, Stays-call, Stays-if,
}
use sema_core.Core.Types.{Json, JsonObject, Command, success, failed}
use sema_core.Capabilities.Values.{Checked}
use sema_core.Capabilities.Records.{Records}
use sema_core.Capabilities.Registry.{Issue}
use sema_core.Work.Types.{Execution}
use sema_core.Work.Store.{is_finished, status_eq, list_executions}
use sema_core.Work.Calls.{
  on_add, on_cancel, Reply, accepts, declines, defers, refuses, progresses, succeeds, fails,
}
use sema_core.Work.Passing.{
  State, issued, new_id, start, pass_to, pass_dynamic, pass_on, passed, settle_unless, after_finish,
  next_service, services_of, is_busy, is_dynamic, enough_of, succeeded,
}
use sema_core.Work.Answering.{work_for, take_work, follow_up, answer, AnswerInput}
use sema_core.Work.Kept.{
  HasEnded, HasEnded-world, Keeps, Keeps-on_work, Keeps-reply_on, Keeps-claim_on, Keeps-set_command,
  Keeps-check_in_on, Keeps-execution_on, Keeps-own_instance,
}

-- What issues the IDs never gives this one.
abbrev pub NeverIssues : {W : Type 0} → Issue W → Text → Type 0
NeverIssues {W} issue k =
    (type_code : Text) (metadata : JsonObject) (world : W)
    → (issue type_code metadata world).0 ≢ ok k

module _ {W : Type 0} (issue : Issue W) (time : ℕ) (k : Text) (e : Execution)
    (never : NeverIssues issue k) where
  pub issued_other :
      (s : State W) (left : Checked Text × W)
      → left.0 ≢ ok k
      → HasEnded k e s
      → IsLeft (λ id t. HasEnded k e t × (id ≢ k)) (HasEnded k e) (issued s left)
  issued_other s (ok id, world) other h = (HasEnded-world k e s world h, λ same. other (ap ok same))
  issued_other s (err x, world) other h = HasEnded-world k e s world h

  pub Ensures-new_id :
      (type_code : Text) (metadata : JsonObject)
      → Ensures
          (HasEnded k e)
          (new_id issue time type_code metadata)
          (λ id s. HasEnded k e s × (id ≢ k))
          (HasEnded k e)
  unfolding new_id
  Ensures-new_id type_code metadata = record {
    run = λ s h.
        issued_other s (issue type_code metadata s.world) (never type_code metadata s.world) h;
  }

  pub Keeps-start : (command_id service : Text) → Keeps k e (start issue time command_id service)
  unfolding start
  Keeps-start command_id service =
      Ensures-bind (λ id s. HasEnded k e s × (id ≢ k)) (Ensures-new_id _ _)
        (λ id. record { run = λ s (h, other). (Keeps-on_work k e (on_add _) other).run s h })

  pub Keeps-pass_to :
      (command_id : Text) (next : Option Text) → Keeps k e (pass_to issue time command_id next)
  Keeps-pass_to command_id none = Stays-pure _ _
  Keeps-pass_to command_id (some service) =
      Stays-bind _ (Keeps-start command_id service) (λ u. Stays-pure _ _)

  pub Keeps-pass_dynamic :
      (b : Bool) (command : Command) (r : Records) (executions : List Execution)
      → Keeps k e (pass_dynamic issue time b command r executions)
  Keeps-pass_dynamic false command r executions = Stays-pure _ _
  Keeps-pass_dynamic true command r executions =
      Stays-if _ (any is_busy executions) (Stays-pure _ _)
        (Keeps-pass_to command.id (next_service time r executions (services_of command)))

  pub Keeps-pass_on : (command_id : Text) → Keeps k e (pass_on issue time command_id)
  unfolding pass_on
  Keeps-pass_on command_id = Stays-bind _ (Stays-read _) (λ s.
      Stays-bind _ (Stays-need _ _ _) (λ command.
        Keeps-pass_dynamic (is_dynamic command) command s.records
          (list_executions command_id s.work)))

  pub Keeps-passed :
      (command : Command) (execution : Execution) → Keeps k e (passed issue time command execution)
  Keeps-passed command execution =
      Stays-if _ (is_dynamic command)
        (Stays-if _ (status_eq execution.status success)
          (Stays-bind _ (Keeps-on_work k e (on_cancel command.id time) tt) (λ u. Stays-pure _ _))
          (Keeps-pass_on command.id))
        (Stays-pure _ _)

  pub Keeps-settle_unless :
      (b : Bool) (command : Command) → Keeps k e (settle_unless issue time b command)
  Keeps-settle_unless true command = Stays-pure _ _
  Keeps-settle_unless false command = Stays-bind _ (Stays-read _) (λ s.
      let executions = list_executions command.id s.work in
      Stays-if _
        (not (enough_of command == 0)
          && leb (enough_of command) (succeeded executions)
          && not (is_finished command.status))
        (Keeps-set_command k e command.id success)
        (Stays-if _ (all (λ (x : Execution). is_finished x.status) executions)
          (Keeps-set_command k e command.id (if succeeded executions == 0 then failed else success))
          (Stays-pure _ _)))

  pub Keeps-after_finish : (execution : Execution) → Keeps k e (after_finish issue time execution)
  unfolding after_finish
  Keeps-after_finish execution = Stays-bind _ (Stays-read _) (λ s.
      Stays-bind _ (Stays-need _ _ _) (λ command.
        Stays-bind _ (Keeps-passed command execution)
          (λ moved_on. Keeps-settle_unless moved_on command)))

  Keeps-work_for :
      (service_version_id : Text) (offered : Option Execution)
      → Keeps k e (work_for issue time service_version_id offered)
  Keeps-work_for service_version_id none = Stays-pure _ _
  Keeps-work_for service_version_id (some f) =
      Stays-bind _ (Stays-read _) (λ s. Stays-bind _ (Stays-need _ _ _) (λ command. Stays-pure _ _))

  pub Keeps-take_work :
      (caller : Option Text) (instance_id wait_seconds resources : Option Json)
      → Keeps k e (take_work issue time caller instance_id wait_seconds resources)
  unfolding take_work
  Keeps-take_work caller instance_id wait_seconds resources =
      Stays-bind _ (Keeps-own_instance k e caller instance_id) (λ own.
        Stays-bind _ (Stays-throw_if _ _ _) (λ u.
          Stays-bind _ (Keeps-check_in_on k e own.0.id _) (λ v.
            Stays-bind _ (Keeps-claim_on k e own.1 own.0.id time _)
              (λ offered. Keeps-work_for own.1 offered))))

  pub Keeps-after :
      (execution : Execution) → Keeps k e (after_finish issue time execution >>= λ _. pure false)
  Keeps-after execution = Stays-bind _ (Keeps-after_finish execution) (λ u. Stays-pure _ _)

  module _ (print : Json → Text) where
    pub Keeps-follow_up :
        (reply : Reply) (execution : Execution)
        → Keeps k e (follow_up issue time print reply execution)
    Keeps-follow_up (accepts now) execution = Stays-pure _ _
    Keeps-follow_up (defers until reason) execution = Keeps-pass_on execution.command_id
    Keeps-follow_up (declines now reason) execution = Keeps-after execution
    Keeps-follow_up (refuses now reason reasons) execution = Keeps-after execution
    Keeps-follow_up (progresses said) execution = Keeps-after execution
    Keeps-follow_up (succeeds now) execution = Keeps-after execution
    Keeps-follow_up (fails now error) execution = Keeps-after execution

    pub Keeps-answer :
        (caller : Option Text) (input : AnswerInput)
        → Keeps k e (answer issue time print caller input)
    unfolding answer
    Keeps-answer caller input =
        Stays-bind _ (Keeps-own_instance k e caller input.instance_id) (λ own.
          Stays-bind _ (Stays-call _ _ _) (λ id. Stays-bind _ (Stays-call _ _ _) (λ reply.
            Stays-bind _ (Keeps-reply_on k e id own.0.id reply) (λ changed.
              Stays-bind _ (Stays-throw_if _ _ _) (λ u.
                Stays-bind _ (Keeps-execution_on k e id) (λ execution.
                  Stays-bind _ (Keeps-follow_up reply execution) (λ passed_on. Stays-pure _ _)))))))
