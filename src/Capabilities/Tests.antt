-- ===== src/Capabilities/Tests.antt =====
-- Runs of the registry and of the checker of values, and instances of the theorems about them.
use sema_core.Prelude.{
  ℕ, suc, ◌+◌, ◌≡◌, ◌≢◌, ◌↔◌, refl, true, false, ok, none, some, List, [], ◌∷◌, ◌++◌, Text, codes,
  lookup, insert, trim, trim_start, is_space, split, split_from, text_eq, starts_with, values, take,
  map, filter, length,
}
use sema_core.Identity.{pos}
use sema_core.Core.Exec.{◌>>=◌}
use sema_core.Core.Types.{
  Json, json_text, json_boolean, json_number, json_array, json_object, no_items, json_item, Fields,
  no_fields, json_field, Capability, enabled,
}
use sema_core.Capabilities.Values.{
  get_field, checked_text, is_key, checked_key, is_version, checked_version, is_operation_key,
  is_reserved_key, includes, repeats,
}
use sema_core.Capabilities.Records.{
  CapabilityVersion, ServiceVersion, ServiceInstance, empty, find_in, find_capability_version,
  find_service_version, find_installation, add_capability_version, add_service_version,
  add_installation, add_instance, update_instance,
}
use sema_core.Capabilities.Contracts.{
  checked_operation, each_operation, checked_operations, checked_choosing, repeats_way, each_way,
  checked_declarations, checked_resources,
}
use sema_core.Capabilities.Registry.{
  Registry, Issue, register_service_version, install, start_instance, register_capability_version,
  mark_lost, mark_each, update, new_id, store,
}
use sema_core.Capabilities.Inputs.{
  NewCapabilityVersion, NewServiceVersion, missing_of, each_key, checked_capacity,
}
use sema_core.Capabilities.Legacy.{
  move_legacy, move_one, move_capability, move_service, move_installation,
}
use sema_core.Capabilities.Consistent.{IsConsistent, Extends}
use sema_core.Capabilities.Calls
use sema_core.Capabilities.Calls.{
  Call, all_called, called, empty-IsConsistent, all_called-IsConsistent, all_called-Extends,
  published_once,
}
use sema_core.Capabilities.Silent.{marked_if_silent, mark_lost-marked}
use sema_core.Capabilities.Again.{move_legacy-again}
use sema_core.Capabilities.Answers.{value_problems, check, missing_in, characters}
use sema_core.Capabilities.Capped.{mismatches, value_problems-mismatches}
use sema_core.Capabilities.Matching.{Matches, value_problems-Matches}

registry : Unit {0}
unfolding ◌>>=◌ lookup insert trim trim_start is_space split split_from text_eq starts_with
    get_field checked_text is_key checked_key is_version checked_version is_operation_key
    is_reserved_key includes repeats find_in find_capability_version find_service_version
    find_installation add_capability_version add_service_version add_installation add_instance
    update_instance checked_operation each_operation checked_operations checked_choosing repeats_way
    each_way register_capability_version mark_lost mark_each update new_id store move_legacy
    move_one move_capability move_service move_installation called all_called
    register_service_version install start_instance each_key checked_capacity checked_declarations
    checked_resources
registry = tt

-- IDs numbered from 0.
abbrev count_up : Issue ℕ
count_up type_code metadata n = (ok (type_code ++ (b'0' + n) ∷ []), suc n)

abbrev plain : Json → Text
plain value = []

abbrev read_operation : Json
read_operation = json_object (
    json_field (codes "key") (json_text (codes "read"))
      (json_field (codes "required") (json_boolean true) no_fields))

abbrev contract : NewCapabilityVersion
contract = record {
  capability_key = some (json_text (codes "neo.file"));
  version = some (json_text (codes "1.0.0"));
  display_name = some (json_text (codes "File"));
  description = none;
  operations = some (json_array (json_item read_operation no_items));
  choosing = none;
}

abbrev nothing : Registry ℕ
nothing = record { records = empty; world = 0 }

abbrev file : CapabilityVersion
file = record {
  id = codes "CAPABILITY0";
  capability_key = codes "neo.file";
  version = codes "1.0.0";
  display_name = codes "File";
  description = [];
  operations =
      record {
        key = codes "read";
        required = true;
        description = none;
        input = none;
        output = none;
        answer_shape = none;
        job = none;
      }
      ∷ [];
  choosing = [];
  approved = false;
  legacy = false;
  status = enabled;
  created_at = 5;
}

abbrev published : Registry ℕ
published = record {
  records = record empty { capabilities = (codes "CAPABILITY0", file) ∷ [] };
  world = 1;
}

-- A contract is published under the ID that was issued.
registered : register_capability_version count_up 5 contract false nothing ≡ (ok file, published)
unfolding registry
registered = refl

published_once_example :
    register_capability_version count_up 6 contract true
      (all_called count_up plain (codes "3-4") ((6, Calls.on_lost 1) ∷ []) published)
    ≢ (ok file, published)
published_once_example =
    published_once count_up plain (codes "3-4") 5 6 contract contract false true file file
      ((6, Calls.on_lost 1) ∷ []) nothing published published empty-IsConsistent registered refl
      refl

abbrev device : Json
device = json_object (
    json_field (codes "runsWhere") (json_text (codes "device")) (
      json_field (codes "offline") (json_boolean true) (
        json_field (codes "systems") (json_array (json_item (json_text (codes "linux")) no_items))
          no_fields)))

abbrev disk : NewServiceVersion
disk = record {
  service_key = some (json_text (codes "neo.disk"));
  version = some (json_text (codes "1.0.0"));
  capability_version_id = some (json_text (codes "CAPABILITY0"));
  display_name = some (json_text (codes "Disk"));
  operations = some (json_array (json_item (json_text (codes "read")) no_items));
  declarations = some device;
}

-- A contract, its service, an installation and a running copy.
abbrev opening : List (ℕ × Call)
opening =
    (5, Calls.on_capability contract false)
    ∷ (6, Calls.on_service disk false)
    ∷ (7, Calls.on_install (some (json_text (codes "SERVICE1"))) none)
    ∷ (8, Calls.on_start (some (json_text (codes "SERVICE-INSTALLATION2"))) none none none none)
    ∷ []

abbrev opened : Registry ℕ
opened = all_called count_up plain (codes "3-4") opening nothing

-- The copy is running, and its ID is the fourth that was issued.
copy_runs :
    map (λ (i : ServiceInstance). i.id) (values opened.records.instances)
    ≡ codes "SERVICE-INSTANCE3" ∷ []
unfolding registry
copy_runs = refl

all_called-IsConsistent_example :
    IsConsistent (all_called count_up plain (codes "3-4") opening nothing).records
all_called-IsConsistent_example = all_called-IsConsistent count_up plain (codes "3-4") opening 0

all_called-Extends_example :
    Extends opened.records
      (all_called count_up plain (codes "3-4") ((9, Calls.on_lost 1) ∷ opening) opened).records
all_called-Extends_example =
    all_called-Extends count_up plain (codes "3-4") ((9, Calls.on_lost 1) ∷ opening) opened
      (all_called-IsConsistent count_up plain (codes "3-4") opening 0)

mark_lost-marked_example :
    (t : Registry ℕ) × (mark_lost count_up 200 100 opened
      ≡ (ok (codes "SERVICE-INSTANCE3" ∷ []), t))
    × ((k : Text)
        → lookup k t.records.instances
          ≡ marked_if_silent count_up 200 100 (lookup k opened.records.instances))
unfolding registry
mark_lost-marked_example =
    mark_lost-marked count_up 200 100 opened
      (all_called-IsConsistent count_up plain (codes "3-4") opening 0)

abbrev old_file : Capability
old_file = record {
  id = codes "OLD";
  capability_key = codes "neo.file";
  display_name = codes "File";
  description = [];
  provider_key = codes "neo.disk";
  version = codes "1.0.0";
  status = enabled;
  metadata = [];
}

abbrev moved_over : Registry ℕ
moved_over = (move_legacy count_up 5 (codes "3-4") true (old_file ∷ []) nothing).1

moved_first : move_legacy count_up 5 (codes "3-4") true (old_file ∷ []) nothing ≡ (ok 1, moved_over)
unfolding registry
moved_first = refl

move_legacy-again_example :
    move_legacy count_up 7 (codes "3-4") false (old_file ∷ []) moved_over ≡ (ok 0, moved_over)
move_legacy-again_example =
    move_legacy-again count_up 5 7 (codes "3-4") true false (old_file ∷ []) 1 nothing moved_over
      empty-IsConsistent moved_first

-- The old record finds the contract that is written, and its service is put under it: the service
-- offers none of the operations that the contract requires.
moved_lacks_read :
    map
      (λ (s : ServiceVersion). missing_of file.operations s.operations)
      (filter
        (λ (s : ServiceVersion). text_eq s.capability_version_id file.id)
        (values
          (move_legacy count_up 5 (codes "3-4") true (old_file ∷ []) published).1.records.services))
    ≡ file.operations ∷ []
unfolding registry
moved_lacks_read = refl

-- `{ "type": "string", "minLength": 2 }`
abbrev two_characters : Fields
two_characters =
    json_field (codes "type") (json_text (codes "string"))
      (json_field (codes "minLength") (json_number (pos 2) 0) no_fields)

value_problems-mismatches_example :
    value_problems plain two_characters (json_text (codes "a"))
    ≡ take 20 (mismatches plain (json_text (codes "a")) two_characters [])
value_problems-mismatches_example =
    value_problems-mismatches plain two_characters (json_text (codes "a"))

-- `{ "type": "object", "required": ["size"], "additionalProperties": false,
-- "properties": { "size": { "type": ["integer", "null"], "maximum": 5 } } }`
abbrev sized : Fields
sized = json_field (codes "type") (json_text (codes "object")) (
    json_field (codes "required") (json_array (json_item (json_text (codes "size")) no_items)) (
      json_field (codes "additionalProperties") (json_boolean false) (
        json_field (codes "properties")
          (json_object (
            json_field (codes "size")
              (json_object (
                json_field (codes "type")
                  (json_array (
                    json_item (json_text (codes "integer"))
                      (json_item (json_text (codes "null")) no_items)))
                  (json_field (codes "maximum") (json_number (pos 5) 0) no_fields)))
              no_fields))
          no_fields)))

-- `{ "size": n }`
abbrev of_size : Json → Json
of_size n = json_object (json_field (codes "size") n no_fields)

value_problems-Matches_example :
    (value_problems plain sized (of_size (json_number (pos 30) 1)) ≡ [])
    ↔ Matches plain (of_size (json_number (pos 30) 1)) sized
value_problems-Matches_example =
    value_problems-Matches plain sized (of_size (json_number (pos 30) 1))

-- 3.0 is an integer of at most 5; 3.5 is none, and 7 is too large.
three_matches : value_problems plain sized (of_size (json_number (pos 30) 1)) ≡ []
unfolding value_problems check missing_in characters text_eq get_field
three_matches = refl

half_fails : length (value_problems plain sized (of_size (json_number (pos 35) 1))) ≡ 1
unfolding value_problems check missing_in characters text_eq get_field
half_fails = refl

seven_fails : length (value_problems plain sized (of_size (json_number (pos 7) 0))) ≡ 1
unfolding value_problems check missing_in characters text_eq get_field
seven_fails = refl
