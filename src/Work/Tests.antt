-- ===== src/Work/Tests.antt =====
-- Runs of the work store and of the shortfalls, and instances of the theorems about them.
use sema_core.Prelude.{
  ℕ, ◌≡◌, ◌≢◌, ◌⊎◌, ◌↔◌, ◌≤◌, refl, arith, All, true, false, Option, none, some, List, [], ◌∷◌,
  Text, codes, text_eq, text_eq_iff, lookup, insert,
}
use sema_core.Identity.{pos}
use sema_core.Core.Types.{Json, json_number, json_object, json_field, no_fields, pending, success}
use sema_core.Capabilities.Offers.{Decimal}
use sema_core.Work.Needs.{Needs, shortfalls}
use sema_core.Work.Enough.{Meets, IsJudged, shortfalls-Meets, shortfalls-IsJudged}
use sema_core.Work.Types.{Execution, CommandResult}
use sema_core.Work.Store.{
  Work, empty, claim, change, is_open, offered_to, place, by_creation, cancel_each,
}
use sema_core.Work.Calls
use sema_core.Work.Calls.{Call, calls_on, call_on}
use sema_core.Work.Life.{IsKeyed, claim_lem}
use sema_core.Work.Became.{call_on-IsKeyed}
use sema_core.Work.Ended.{Moves, call_on-Moves, calls_on-finished}
use sema_core.Work.Offered.{calls_on-IsOffered, calls_on-result}

work : Unit {0}
unfolding call_on calls_on claim change place by_creation cancel_each lookup insert text_eq
work = tt

abbrev megabytes : ℕ → Decimal
megabytes n = record { mantissa = pos n; scale = 0 }

abbrev eight_gigabytes : Needs
eight_gigabytes = record {
  network = false;
  memory_mb = some (megabytes 8192);
  disk_mb = none;
  cores = none;
  graphics_mb = none;
}

-- `{ "memory": { "freeMb": 1000, "totalMb": 4096 } }`
abbrev small_machine : Option Json
small_machine = some (
    json_object (
      json_field (codes "memory")
        (json_object (
          json_field (codes "freeMb") (json_number (pos 1000) 0)
            (json_field (codes "totalMb") (json_number (pos 4096) 0) no_fields)))
        no_fields))

shortfalls-Meets_example :
    (shortfalls eight_gigabytes small_machine ≡ []) ↔ Meets eight_gigabytes small_machine
shortfalls-Meets_example = shortfalls-Meets eight_gigabytes small_machine

shortfalls-IsJudged_example : All IsJudged (shortfalls eight_gigabytes small_machine)
shortfalls-IsJudged_example = shortfalls-IsJudged eight_gigabytes small_machine

abbrev job : Text → ℕ → Execution
job id time = record {
  id = id;
  command_id = codes "C";
  service_version_id = codes "S";
  status = pending;
  instance_id = none;
  offered_at = none;
  started_at = none;
  completed_at = none;
  not_now = none;
  deferred = none;
  progress = none;
  error = none;
  created_at = time;
}

abbrev two_jobs : Work
two_jobs = record empty {
  executions = (codes "2", job (codes "2") 7) ∷ (codes "1", job (codes "1") 5) ∷ [];
}

empty-IsKeyed : IsKeyed empty
empty-IsKeyed = record { once = tt; named = λ k e there. absurd there }

two_jobs-IsKeyed : IsKeyed two_jobs
unfolding work
two_jobs-IsKeyed =
    call_on-IsKeyed (Calls.on_add (job (codes "1") 5))
      (call_on (Calls.on_add (job (codes "2") 7)) empty)
      (call_on-IsKeyed (Calls.on_add (job (codes "2") 7)) empty empty-IsKeyed)

-- The older of the two is offered.
older_first :
    (claim (codes "S") (codes "I") 10 0 two_jobs).0
    ≡ some (offered_to (codes "I") 10 (job (codes "1") 5))
unfolding work
older_first = refl

claim_lem_example :
    (((k : Text) (e : Execution)
        → lookup k two_jobs.executions ≡ some e
        → is_open (codes "S") 10 0 e ≡ false)
      × (claim (codes "S") (codes "I") 10 0 two_jobs ≡ (none, two_jobs)))
    ⊎ ((e : Execution) × (lookup e.id two_jobs.executions ≡ some e)
        × (is_open (codes "S") 10 0 e ≡ true)
        × ((k : Text) (f : Execution)
            → lookup k two_jobs.executions ≡ some f
            → is_open (codes "S") 10 0 f ≡ true
            → e.created_at ≤ f.created_at)
        × (claim (codes "S") (codes "I") 10 0 two_jobs ≡ (
          some (offered_to (codes "I") 10 e),
          record two_jobs {
            executions = insert e.id (offered_to (codes "I") 10 e) two_jobs.executions;
          },
        )))
claim_lem_example = claim_lem (codes "S") (codes "I") 10 0 two_jobs two_jobs-IsKeyed

first_job : lookup (codes "1") two_jobs.executions ≡ some (job (codes "1") 5)
unfolding work
first_job = refl

call_on-Moves_example :
    (f : Execution) × (lookup
        (codes "1")
        (call_on (Calls.on_claim (codes "S") (codes "I") 10 0) two_jobs).executions
      ≡ some f)
    × ((job (codes "1") 5 ≡ f) ⊎ Moves pending f.status)
call_on-Moves_example =
    call_on-Moves (Calls.on_claim (codes "S") (codes "I") 10 0) two_jobs (codes "1")
      (job (codes "1") 5) two_jobs-IsKeyed tt first_job

abbrev to_the_end : List Call
to_the_end =
    Calls.on_claim (codes "S") (codes "I") 10 0
    ∷ Calls.on_reply (codes "1") (codes "I") (Calls.accepts 11)
    ∷ Calls.on_reply (codes "1") (codes "I") (Calls.succeeds 12)
    ∷ []

abbrev pub done_job : Execution
done_job = record (job (codes "1") 5) {
  status = success;
  instance_id = some (codes "I");
  offered_at = some 10;
  started_at = some 11;
  completed_at = some 12;
}

abbrev pub done_work : Work
done_work = record empty {
  executions = (codes "2", job (codes "2") 7) ∷ (codes "1", done_job) ∷ [];
}

-- A job is offered, taken and done.
done_in_three : calls_on to_the_end two_jobs ≡ done_work
unfolding work
done_in_three = refl

pub done_work-IsKeyed : IsKeyed done_work
unfolding work
done_work-IsKeyed =
    call_on-IsKeyed (Calls.on_add done_job) (call_on (Calls.on_add (job (codes "2") 7)) empty)
      (call_on-IsKeyed (Calls.on_add (job (codes "2") 7)) empty empty-IsKeyed)

pub done_first : lookup (codes "1") done_work.executions ≡ some done_job
unfolding work
done_first = refl

calls_on-finished_example :
    lookup (codes "1") (calls_on to_the_end done_work).executions ≡ some done_job
calls_on-finished_example =
    calls_on-finished to_the_end done_work (codes "1") done_job done_work-IsKeyed
      (tt, (tt, (tt, tt))) done_first refl

abbrev offered_job : Execution
offered_job = offered_to (codes "I") 10 (job (codes "1") 5)

abbrev offered_work : Work
offered_work = record empty { executions = (codes "1", offered_job) ∷ [] }

offered_work-IsKeyed : IsKeyed offered_work
unfolding work
offered_work-IsKeyed = call_on-IsKeyed (Calls.on_add offered_job) empty empty-IsKeyed

-- Another copy asks within the time of the offer, and answers for it.
abbrev from_another : List Call
from_another =
    Calls.on_claim (codes "S") (codes "J") 20 5
    ∷ Calls.on_reply (codes "1") (codes "J") (Calls.accepts 21)
    ∷ Calls.on_cancel (codes "C") 22
    ∷ []

offered_first : lookup (codes "1") offered_work.executions ≡ some offered_job
unfolding work
offered_first = refl

differ : text_eq (codes "J") (codes "I") ≢ true
unfolding work
differ = cc

another_copy : codes "J" ≢ codes "I"
another_copy = λ h.
    let p : text_eq (codes "J") (codes "I") ≡ true = (text_eq_iff (codes "J") (codes "I")).1 h in
    differ p

calls_on-IsOffered_example :
    lookup (codes "1") (calls_on from_another offered_work).executions ≡ some offered_job
calls_on-IsOffered_example =
    calls_on-IsOffered from_another offered_work (codes "1") (codes "I") 10 offered_job
      offered_work-IsKeyed (omega arith, ((λ here. another_copy), (tt, tt))) offered_first
      (record { status = refl; holder = refl; since = refl })

abbrev first_result : CommandResult
first_result = record {
  id = codes "R";
  command_id = codes "C";
  entries = [];
  recorded_at = 9;
  notes = [];
}

abbrev second_result : CommandResult
second_result = record {
  id = codes "Q";
  command_id = codes "C";
  entries = [];
  recorded_at = 10;
  notes = [];
}

result_there : lookup (codes "C") ((codes "C", first_result) ∷ []) ≡ some first_result
unfolding work
result_there = refl

calls_on-result_example :
    lookup
      (codes "C")
      (calls_on
        (Calls.on_result second_result ∷ [])
        (record empty { results = (codes "C", first_result) ∷ [] })).results
    ≡ some first_result
calls_on-result_example =
    calls_on-result (Calls.on_result second_result ∷ [])
      (record empty { results = (codes "C", first_result) ∷ [] }) (codes "C") first_result
      result_there
