-- ===== src/Work/ServedTests.antt =====
-- Runs of the operations of CapabilityWork, and instances of the theorems about them.
use sema_core.Prelude.{
  ℕ, suc, ◌≡◌, refl, ok, none, List, [], ◌∷◌, Text, codes, text_eq, lookup, insert,
}
use sema_core.Core.Types.{Json, Command, running, success}
use sema_core.Core.Store as Core
use sema_core.Capabilities.Records as Records
use sema_core.Capabilities.Registry.{Issue}
use sema_core.Work.Store.{Work, list_executions, place, by_creation}
use sema_core.Work.Store as Work
use sema_core.Core.Exec.{◌>>=◌}
use sema_core.Core.Store.{update_command}
use sema_core.Work.Passing.{State, after_finish, set_command}
use sema_core.Work.Kept.{HasEnded}
use sema_core.Work.Stays.{NeverIssues}
use sema_core.Work.Served.{Request, marks, takes, all_served, all_served-HasEnded}
use sema_core.Work.Tests.{done_job, done_work, done_work-IsKeyed, done_first}

-- IDs that begin with a letter.
abbrev lettered : Issue ℕ
lettered type_code metadata n = (ok (b'X' ∷ n ∷ []), suc n)

lettered-NeverIssues : NeverIssues lettered (codes "1")
lettered-NeverIssues type_code metadata n h = cc

abbrev plain : Json → Text
plain value = []

abbrev no_bytes : Text → ℕ
no_bytes t = 0

abbrev command : Command
command = record {
  id = codes "C";
  command_type = codes "capability.run";
  actor_id = none;
  workspace_id = none;
  subject_ids = [];
  context = [];
  payload = [];
  status = running;
  created_at = 1;
}

abbrev state : Work → State ℕ
state work = record {
  records = Records.empty;
  work = work;
  core = record Core.empty { commands = (codes "C", command) ∷ [] };
  world = 0;
}

abbrev requests : List (ℕ × Request)
requests = (20, marks 0 (codes "silent")) ∷ (21, takes none none none none) ∷ []

all_served-HasEnded_example :
    HasEnded
      (codes "1")
      done_job
      (all_served lettered plain plain no_bytes requests (state done_work))
all_served-HasEnded_example =
    all_served-HasEnded lettered plain plain no_bytes (codes "1") done_job lettered-NeverIssues
      requests (state done_work)
      (record { keyed = done_work-IsKeyed; there = done_first; ended = refl })

abbrev one_done : Work
one_done = record Work.empty { executions = (codes "1", done_job) ∷ [] }

-- The one execution has succeeded, and so has the command.
settled_command :
    (after_finish lettered 30 done_job (state one_done)).1.core.commands
    ≡ (codes "C", record command { status = success }) ∷ []
unfolding lookup insert text_eq place by_creation after_finish ◌>>=◌ set_command update_command
settled_command = refl
