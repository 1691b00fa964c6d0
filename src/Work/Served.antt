-- ===== src/Work/Served.antt =====
-- The operations that running copies call of CapabilityWork of src/capabilities/work.ts, and the
-- marking of the silent, one after another.
use sema_core.Prelude.{
  ℕ, ◌+◌, ◌≢◌, Bool, true, false, Option, none, some, List, [], ◌∷◌, Text, codes, leb, text_eq,
  Result, ok, err,
}
use sema_core.Core.Rules.{Ensures-bind, IsLeft}
use sema_core.Core.Stays.{
  Stays-bind, Stays-pure, Stays-read, Stays-throw_if, Stays-need, Stays-call, Stays-if,
}
use sema_core.Core.Types.{Json}
use sema_core.Capabilities.Registry.{Issue}
use sema_core.Work.Types.{Execution, Outcome}
use sema_core.Work.Store.{list_running}
use sema_core.Work.Calls.{on_answer, succeeds, fails}
use sema_core.Work.Reasons.{WorkError, bad_status}
use sema_core.Work.Passing.{State}
use sema_core.Work.Answering.{take_work, answer, AnswerInput}
use sema_core.Work.Reporting.{
  ReportInput, progress, checked_answer, succeed, fail_with, conclude, report, after_mark, mark_one,
  mark_all, mark_silent, last_word, text_in,
}
use sema_core.Work.Kept.{
  HasEnded, Keeps, Keeps-on_work, Keeps-reply_on, Keeps-execution_on, Keeps-own_instance,
}
use sema_core.Work.Stays.{
  NeverIssues, Ensures-new_id, Keeps-after_finish, Keeps-take_work, Keeps-answer,
}

pub data Request : Type 0 where
  takes : (caller : Option Text) (instance_id wait_seconds resources : Option Json) → Request
  answers : (caller : Option Text) → AnswerInput → Request
  says : (caller : Option Text) (instance_id execution_id percent remark : Option Json) → Request
  reports : (caller : Option Text) → ReportInput → Request
  marks : (silent : ℕ) (word : Text) → Request

module _ {W : Type 0} (issue : Issue W) (stringify print : Json → Text)
    (byte_length : Text → ℕ) where
  -- What a request at a time leaves, whether it returns or throws.
  unfoldable pub served : ℕ → Request → State W → State W
  served time (takes caller instance_id wait_seconds resources) s =
      (take_work issue time caller instance_id wait_seconds resources s).1
  served time (answers caller input) s = (answer issue time print caller input s).1
  served time (says caller instance_id execution_id percent remark) s =
      (progress stringify byte_length issue time caller instance_id execution_id percent remark s).1
  served time (reports caller input) s = (report stringify byte_length issue time caller input s).1
  served time (marks silent word) s = (mark_silent stringify byte_length issue time silent word s).1

  unfoldable pub all_served : List (ℕ × Request) → State W → State W
  all_served [] s = s
  all_served ((time, request) ∷ requests) s = all_served requests (served time request s)

  module _ (k : Text) (e : Execution) (never : NeverIssues issue k) where
    module _ (time : ℕ) where
      Keeps-progress :
          (caller : Option Text) (instance_id execution_id percent remark : Option Json)
          → Keeps k e (
              progress stringify byte_length issue time caller instance_id execution_id percent
                remark)
      unfolding progress
      Keeps-progress caller instance_id execution_id percent remark =
          Stays-bind _ (Keeps-own_instance k e caller instance_id) (λ own.
            Stays-bind _ (Stays-call _ _ _) (λ id. Stays-bind _ (Stays-throw_if _ _ _) (λ u.
              Stays-bind _ (Stays-call _ _ _) (λ words.
                Stays-bind _ (Keeps-reply_on k e id own.0.id _)
                  (λ changed. Stays-bind _ (Stays-throw_if _ _ _) (λ v. Stays-pure _ _))))))

      Keeps-checked_answer :
          (execution : Execution) (value : Option Json)
          → Keeps k e (checked_answer stringify byte_length issue time execution value)
      Keeps-checked_answer execution none = Stays-pure _ _
      Keeps-checked_answer execution (some value) = Stays-bind _ (Stays-throw_if _ _ _) (λ u.
          Stays-bind _ (Stays-read _) (λ s.
            Stays-bind _ (Stays-need _ _ _)
              (λ command. Stays-bind _ (Stays-need _ _ _) (λ capability. Stays-throw_if _ _ _))))

      Keeps-succeed :
          (execution : Execution) (instance_id : Text) (outcome : Option Outcome)
          (value reference : Option Json)
          → Keeps k e (
              succeed stringify byte_length issue time execution instance_id outcome value
                reference)
      Keeps-succeed execution instance_id outcome value reference =
          Stays-bind _ (Stays-throw_if _ _ _) (λ u.
            Stays-bind _ (Keeps-checked_answer execution value) (λ v.
              Stays-bind _ (Stays-call _ _ _) (λ place.
                Ensures-bind (λ id s. HasEnded k e s × (id ≢ k))
                  (Ensures-new_id issue time k e never _ _)
                  (λ id. record {
                    run = λ s (h, other).
                        (Stays-bind _ (Keeps-on_work k e (on_answer _) tt)
                            (λ w. Keeps-reply_on k e execution.id instance_id (succeeds time))).run
                          s h;
                  }))))

      Keeps-fail_with :
          (execution : Execution) (instance_id : Text) (error : Option Json)
          → Keeps k e (fail_with stringify byte_length issue time execution instance_id error)
      Keeps-fail_with execution instance_id error =
          Stays-bind _ (Stays-call _ _ _)
            (λ words. Keeps-reply_on k e execution.id instance_id (fails time words))

      Keeps-conclude :
          (status : Text) (execution : Execution) (instance_id : Text) (outcome : Option Outcome)
          (input : ReportInput)
          → Keeps k e
              (conclude stringify byte_length issue time status execution instance_id outcome input)
      Keeps-conclude status execution instance_id outcome input =
          Stays-if _ (text_eq status (codes "SUCCESS"))
            (Keeps-succeed execution instance_id outcome input.answer input.reference)
            (Stays-if _ (text_eq status (codes "FAILED"))
              (Keeps-fail_with execution instance_id input.error)
              (Stays-bind _ (Stays-throw_if _ true bad_status) (λ u. Stays-pure _ false)))

      Keeps-report :
          (caller : Option Text) (input : ReportInput)
          → Keeps k e (report stringify byte_length issue time caller input)
      unfolding report
      Keeps-report caller input =
          Stays-bind _ (Keeps-own_instance k e caller input.instance_id) (λ own.
            Stays-bind _ (Stays-call _ _ _) (λ id. Stays-bind _ (Stays-read _) (λ s.
              Stays-bind _ (Stays-need _ _ _) (λ execution.
                Stays-bind _ (Stays-throw_if _ _ _) (λ u.
                  Stays-bind _ (Stays-call _ _ _) (λ outcome.
                    Stays-bind _
                      (Keeps-conclude (text_in input.status) execution own.0.id outcome input)
                      (λ changed. Stays-bind _ (Keeps-execution_on k e id) (λ ended.
                        Stays-bind _ (Keeps-after_finish issue time k e never ended)
                          (λ v. Stays-pure _ _)))))))))

      Keeps-after_mark :
          (changed : Bool) (execution : Execution)
          → Keeps k e (after_mark stringify byte_length issue time changed execution)
      Keeps-after_mark false execution = Stays-pure _ _
      Keeps-after_mark true execution = Stays-bind _ (Keeps-execution_on k e execution.id) (λ ended.
          Stays-bind _ (Keeps-after_finish issue time k e never ended) (λ u. Stays-pure _ _))

      Keeps-mark_one :
          (word : Text) (heard : Bool) (execution : Execution)
          → Keeps k e (mark_one stringify byte_length issue time word heard execution)
      Keeps-mark_one word true execution = Stays-pure _ _
      Keeps-mark_one word false execution =
          Stays-bind _ (Keeps-reply_on k e execution.id _ (fails time word))
            (λ changed. Keeps-after_mark changed execution)

      Keeps-mark_all :
          (silent : ℕ) (word : Text) (es : List Execution)
          → Keeps k e (mark_all stringify byte_length issue time silent word es)
      unfolding mark_all
      Keeps-mark_all silent word [] = Stays-pure _ _
      Keeps-mark_all silent word (x ∷ es) =
          Stays-bind _ (Keeps-mark_one word (leb time (last_word x + silent)) x)
            (λ marked. Stays-bind _ (Keeps-mark_all silent word es) (λ rest. Stays-pure _ _))

      Keeps-mark_silent :
          (silent : ℕ) (word : Text)
          → Keeps k e (mark_silent stringify byte_length issue time silent word)
      unfolding mark_silent
      Keeps-mark_silent silent word =
          Stays-bind _ (Stays-read _) (λ s. Keeps-mark_all silent word (list_running s.work))

    left_ended :
        {A : Type 0} (left : Result WorkError A × State W)
        → IsLeft (λ a. HasEnded k e) (HasEnded k e) left
        → HasEnded k e left.1
    left_ended (ok a, s) h = h
    left_ended (err x, s) h = h

    served-HasEnded :
        (time : ℕ) (request : Request) (s : State W)
        → HasEnded k e s
        → HasEnded k e (served time request s)
    unfolding served
    served-HasEnded time (takes caller instance_id wait_seconds resources) s h =
        left_ended _
          ((Keeps-take_work issue time k e never caller instance_id wait_seconds resources).run s h)
    served-HasEnded time (answers caller input) s h =
        left_ended _ ((Keeps-answer issue time k e never print caller input).run s h)
    served-HasEnded time (says caller instance_id execution_id percent remark) s h =
        left_ended _ ((Keeps-progress time caller instance_id execution_id percent remark).run s h)
    served-HasEnded time (reports caller input) s h =
        left_ended _ ((Keeps-report time caller input).run s h)
    served-HasEnded time (marks silent word) s h =
        left_ended _ ((Keeps-mark_silent time silent word).run s h)

    -- An execution that has succeeded, failed or been cancelled, under an ID that is not issued again,
    -- is never changed by what running copies ask, answer and report or by the marking of the silent,
    -- whichever of these throw, and the executions stay under their IDs.
    pub all_served-HasEnded :
        (requests : List (ℕ × Request)) (s : State W)
        → HasEnded k e s
        → HasEnded k e (all_served requests s)
    unfolding all_served
    all_served-HasEnded [] s h = h
    all_served-HasEnded ((time, request) ∷ requests) s h =
        all_served-HasEnded requests (served time request s) (served-HasEnded time request s h)
