-- ===== src/Capabilities/Contracts.antt =====
-- The private checks of CapabilityRegistry: operations, ways of choosing, declarations, resources.
use sema_core.Prelude.{
  ℕ, Bool, true, false, not, ◌&&◌, ◌||◌, Option, none, some, List, [], ◌∷◌, Text, codes, text_eq,
  is_empty, trim, length, all, any, ltb, ◌==◌, map, is_some, if◌then◌else◌, ok, err, ◌>>=◌, ◌>>◌,
  refuse_if, require,
}
use sema_core.Identity.{pos}
use sema_core.Core.Types.{
  Json, json_null, json_boolean, json_number, json_text, json_object, Fields, no_fields,
}
use sema_core.Capabilities.Values.{
  Checked, get_field, fields_of, object_of, array_of, text_of, boolean_of, checked_text,
  is_operation_key, includes, repeats, bad_operation_list, bad_operation, repeated_operation,
  no_required_operation, bad_choosing, repeated_choosing, bad_declarations, bad_needs,
  bad_resources, bad_schema,
}
use sema_core.Capabilities.Schema.{Problem, schema_problems}
use sema_core.Capabilities.Records.{
  AnswerShape, OperationDefinition, ChoosingWay, bound, dynamic, consensus, policy,
}

abbrev is_filled : List Problem → Bool
is_filled [] = false
is_filled (p ∷ ps) = true

-- `item[part]`, when it is given: an object that is a schema of the supported subset.
abbrev schema_in : Text → Option Json → Checked (Option Fields)
schema_in where_ none = ok none
schema_in where_ (some (json_object fields)) = do
  refuse_if (is_filled (schema_problems (json_object fields) where_ 0)) bad_schema
  ok (some fields)
schema_in where_ (some _) = err bad_operation

-- `properties(part)`
abbrev properties_of : Option Fields → Option Fields
properties_of none = none
properties_of (some fields) = object_of (get_field (codes "properties") fields)

-- A value that JavaScript takes as true.
abbrev is_truthy : Json → Bool
is_truthy json_null = false
is_truthy (json_boolean b) = b
is_truthy (json_number (pos n) scale) = not (n == 0)
is_truthy (json_text t) = not (is_empty t)
is_truthy _ = true

-- The names that every object inherits.
abbrev pub inherited_names : List Text
inherited_names =
    codes "constructor"
    ∷ codes "__proto__"
    ∷ codes "__defineGetter__"
    ∷ codes "__defineSetter__"
    ∷ codes "__lookupGetter__"
    ∷ codes "__lookupSetter__"
    ∷ codes "hasOwnProperty"
    ∷ codes "isPrototypeOf"
    ∷ codes "propertyIsEnumerable"
    ∷ codes "toLocaleString"
    ∷ codes "toString"
    ∷ codes "valueOf"
    ∷ []

-- An object answers for an inherited name where it has none of its own.
abbrev found_or_inherited : Option Json → Text → Bool
found_or_inherited none name = includes name inherited_names
found_or_inherited (some value) name = is_truthy value

-- `properties(part)?.[name]`, as a test.
abbrev has_property : Option Fields → Text → Bool
has_property none name = false
has_property (some fields) name = found_or_inherited (get_field name fields) name

abbrev shape_in : Option Fields → Option Fields → Option Fields → Checked (Option AnswerShape)
shape_in none input output = err bad_operation
shape_in (some shape) input output = do
  in_name ← require (text_of (get_field (codes "input") shape)) bad_operation
  out_name ← require (text_of (get_field (codes "output") shape)) bad_operation
  refuse_if (not (has_property (properties_of input) in_name)) bad_operation
  refuse_if (not (has_property (properties_of output) out_name)) bad_operation
  ok (some (record { input = in_name; output = out_name }))

abbrev answer_shape_in : Option Json → Option Fields → Option Fields → Checked (Option AnswerShape)
answer_shape_in none input output = ok none
answer_shape_in (some value) input output = shape_in (object_of (some value)) input output

abbrev job_in : Option Json → Option Fields → Checked (Option Text)
job_in none input = ok none
job_in (some (json_text job)) input = do
  refuse_if (not (has_property (properties_of input) job)) bad_operation
  ok (some job)
job_in (some _) input = err bad_operation

abbrev text_if_given : Option Json → Text → ℕ → Checked (Option Text)
text_if_given none name max = ok none
text_if_given (some value) name max = do
  checked ← checked_text (some value) name max
  ok (some checked)

unfoldable pub checked_operation : Option Fields → Checked OperationDefinition
checked_operation none = err bad_operation
checked_operation (some item) = do
  key ← checked_text (get_field (codes "key") item) (codes "operation key") 60
  refuse_if (not (is_operation_key key)) bad_operation
  required ← require (boolean_of (get_field (codes "required") item)) bad_operation
  input ← schema_in (codes "input") (get_field (codes "input") item)
  output ← schema_in (codes "output") (get_field (codes "output") item)
  shape ← answer_shape_in (get_field (codes "answerShape") item) input output
  job ← job_in (get_field (codes "job") item) input
  description ←
      text_if_given (get_field (codes "description") item) (codes "operation description") 2000
  ok (record {
    key = key;
    required = required;
    description = description;
    input = input;
    output = output;
    answer_shape = shape;
    job = job;
  })

unfoldable pub each_operation : List Json → Checked (List OperationDefinition)
each_operation [] = ok []
each_operation (item ∷ items) = do
  first ← checked_operation (object_of (some item))
  rest ← each_operation items
  ok (first ∷ rest)

abbrev pub keys_of : List OperationDefinition → List Text
keys_of operations = map (λ (o : OperationDefinition). o.key) operations

abbrev pub is_required : OperationDefinition → Bool
is_required o = o.required

abbrev operations_in : List Json → Checked (List OperationDefinition)
operations_in items = do
  refuse_if (length items == 0) bad_operation_list
  operations ← each_operation items
  refuse_if (repeats (keys_of operations)) repeated_operation
  refuse_if (not (any is_required operations)) no_required_operation
  ok operations

-- `operations`
unfoldable pub checked_operations : Option Json → Checked (List OperationDefinition)
checked_operations value = do
  items ← require (array_of value) bad_operation_list
  operations_in items

-- `CHOOSING_WAYS.includes(way)`
abbrev pub way_of : Json → Option ChoosingWay
way_of (json_text t) =
    if text_eq t (codes "bound")
    then some bound
    else if text_eq t (codes "dynamic")
    then some dynamic
    else if text_eq t (codes "consensus")
    then some consensus
    else if text_eq t (codes "policy")
    then some policy
    else none
way_of _ = none

abbrev pub way_eq : ChoosingWay → ChoosingWay → Bool
way_eq bound bound = true
way_eq dynamic dynamic = true
way_eq consensus consensus = true
way_eq policy policy = true
way_eq _ _ = false

unfoldable pub repeats_way : List ChoosingWay → Bool
repeats_way [] = false
repeats_way (w ∷ ws) = any (way_eq w) ws || repeats_way ws

unfoldable pub each_way : List Json → Checked (List ChoosingWay)
each_way [] = ok []
each_way (value ∷ rest) = do
  way ← require (way_of value) bad_choosing
  ways ← each_way rest
  ok (way ∷ ways)

abbrev choosing_in : List Json → Checked (List ChoosingWay)
choosing_in items = do
  refuse_if (length items == 0) bad_choosing
  ways ← each_way items
  refuse_if (repeats_way ways) repeated_choosing
  ok ways

-- `choosing`
unfoldable pub checked_choosing : Option Json → Checked (List ChoosingWay)
checked_choosing none = ok []
checked_choosing (some value) = do
  items ← require (array_of (some value)) bad_choosing
  choosing_in items

abbrev runs_where : Option Text → Bool
runs_where none = false
runs_where (some place) = includes place (codes "device" ∷ codes "remote" ∷ codes "either" ∷ [])

abbrev is_system : Json → Bool
is_system (json_text t) = not (is_empty (trim t))
is_system _ = false

abbrev are_systems : Option (List Json) → Bool
are_systems none = false
are_systems (some systems) = not (length systems == 0) && all is_system systems

abbrev pub need_names : List Text
need_names = codes "memoryMb" ∷ codes "diskMb" ∷ codes "cores" ∷ codes "graphicsMb" ∷ []

-- A number above zero.
abbrev pub is_above_zero : Json → Bool
is_above_zero (json_number (pos n) scale) = not (n == 0)
is_above_zero _ = false

abbrev is_need : Text × Json → Bool
is_need (name, amount) = includes name need_names && is_above_zero amount

abbrev needs_in : Option Json → Bool
needs_in none = true
needs_in (some (json_object needs)) = all is_need (fields_of needs)
needs_in (some _) = false

-- `declarations`
unfoldable pub checked_declarations : Option Json → Checked Fields
checked_declarations value = do
  fields ← require (object_of value) bad_declarations
  refuse_if (not (runs_where (text_of (get_field (codes "runsWhere") fields)))) bad_declarations
  refuse_if (not (is_some (boolean_of (get_field (codes "offline") fields)))) bad_declarations
  refuse_if (not (are_systems (array_of (get_field (codes "systems") fields)))) bad_declarations
  refuse_if (not (needs_in (get_field (codes "needs") fields))) bad_needs
  ok fields

-- `stringify` is `JSON.stringify`; only the length of its text is read.
module _ (stringify : Json → Text) where
  -- `resources`
  unfoldable pub checked_resources : Option Json → Checked Fields
  checked_resources none = ok no_fields
  checked_resources (some (json_object fields)) = do
    refuse_if (ltb 4000 (length (stringify (json_object fields)))) bad_resources
    ok fields
  checked_resources (some _) = err bad_resources
