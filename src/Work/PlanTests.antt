-- ===== src/Work/PlanTests.antt =====
-- A run of CapabilityWork.plan, and an instance of the theorem about it.
use sema_core.Prelude.{
  ◌≡◌, refl, true, false, ok, none, some, [], ◌∷◌, Text, codes, text_eq, trim, trim_start, is_space,
}
use sema_core.Core.Types.{json_text, json_array, json_item, no_items, enabled, no_fields}
use sema_core.Capabilities.Values.{includes, repeats}
use sema_core.Capabilities.Records as Records
use sema_core.Capabilities.Records.{Records, CapabilityVersion, ServiceVersion, dynamic}
use sema_core.Work.Reasons.{given_text}
use sema_core.Work.Planning.{Order, same, Plan, no_choices, each_named, plan, plan_way, plan_named}
use sema_core.Work.Planned.{IsPermitted, plan-IsPermitted}

abbrev file : CapabilityVersion
file = record {
  id = codes "C";
  capability_key = codes "neo.file";
  version = codes "1.0.0";
  display_name = codes "File";
  description = [];
  operations =
      record {
        key = codes "read";
        required = true;
        description = none;
        input = none;
        output = none;
        answer_shape = none;
        job = none;
      }
      ∷ [];
  choosing = dynamic ∷ [];
  approved = false;
  legacy = false;
  status = enabled;
  created_at = 1;
}

abbrev disk : ServiceVersion
disk = record {
  id = codes "S";
  service_key = codes "neo.disk";
  version = codes "1.0.0";
  capability_version_id = codes "C";
  display_name = codes "Disk";
  operations = codes "read" ∷ [];
  extensions = [];
  declarations = no_fields;
  legacy = false;
  status = enabled;
  created_at = 2;
}

abbrev held : Records
held = record Records.empty {
  capabilities = (codes "C", file) ∷ [];
  services = (codes "S", disk) ∷ [];
}

abbrev alike : Text → Text → Order
alike x y = same

abbrev asked : Plan
asked = record { capability = file; operation = codes "read"; way = dynamic; requested = disk ∷ [] }

-- A service is named by its key.
named_by_key :
    plan alike
      (some file)
      (some (json_text (codes "read")))
      (some (json_text (codes "dynamic")))
      (some (json_array (json_item (json_text (codes "neo.disk")) no_items)))
      no_choices
      held
    ≡ ok (some asked)
unfolding plan plan_way plan_named given_text each_named includes repeats text_eq trim trim_start
    is_space
named_by_key = refl

plan-IsPermitted_example : IsPermitted no_choices asked
plan-IsPermitted_example =
    plan-IsPermitted alike (some file) (some (json_text (codes "read")))
      (some (json_text (codes "dynamic")))
      (some (json_array (json_item (json_text (codes "neo.disk")) no_items))) no_choices held asked
      named_by_key
