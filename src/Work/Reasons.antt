-- ===== src/Work/Reasons.antt =====
-- The reasons that a service gives for being unavailable: text, reasons and describeReason of
-- src/capabilities/work.ts.
use sema_core.Prelude.{
  ℕ, Bool, true, false, ◌&&◌, ◌||◌, Option, none, some, List, [], ◌∷◌, ◌++◌, ◌^◌, Text, codes,
  text_eq, trim, is_empty, is_some, length, ltb, ◌==◌, if◌then◌else◌, Result, ok, err, ◌>>=◌, ◌>>◌,
  refuse_if, require,
}
use sema_core.Identity.{ℤ, pos, negsuc}
use sema_core.Core.Types.{Json, json_text, json_number, json_array, CoreError}
use sema_core.Capabilities.Values.{items_of}
use sema_core.Capabilities.Offers.{Decimal}
use sema_core.Capabilities.Values.{RecordError}
use sema_core.Work.Needs.{
  Kind, memory, disk, processor, graphics, network, busy, setting, suspended, other, is_measured,
  Lasting, temporary, permanent, Reason, less, part,
}

-- The messages of CapabilityWork, and the other errors that pass through.
pub data WorkError : Type 0 where
  bad_text : (name : Text) → WorkError
  bad_amount : (name : Text) → WorkError
  bad_reasons bad_kind free_over_total half_measured bad_lasting : WorkError
  not_here has_stopped no_program other_program : WorkError
  bad_until bad_seconds bad_answer not_waiting not_running bad_percent : WorkError
  bad_outcome bad_status two_answers too_long no_match : WorkError
  not_registered not_active no_ways no_operation no_way not_permitted not_built : WorkError
  bad_services no_service several_versions repeated_services bound_to_one no_order : WorkError
  nothing_there : WorkError
  of_record : RecordError → WorkError
  of_core : CoreError → WorkError

-- `text(value, name, max)`, which measures before it trims.
abbrev text_within : Text → ℕ → Text → Result WorkError Text
text_within name max value = do
  refuse_if (is_empty (trim value) || ltb max (length value)) (bad_text name)
  ok (trim value)

unfoldable pub given_text : Option Json → Text → ℕ → Result WorkError Text
given_text (some (json_text value)) name max = text_within name max value
given_text _ name max = err (bad_text name)

abbrev is_negative : ℤ → Bool
is_negative (pos n) = false
is_negative (negsuc n) = true

-- `amount`
abbrev given_amount : Option Json → Text → Result WorkError (Option Decimal)
given_amount none name = ok none
given_amount (some (json_number m scale)) name = do
  refuse_if (is_negative m) (bad_amount name)
  ok (some (record { mantissa = m; scale = scale }))
given_amount (some _) name = err (bad_amount name)

abbrev kind_named : Text → Option Kind
kind_named t =
    if text_eq t (codes "memory")
    then some memory
    else if text_eq t (codes "disk")
    then some disk
    else if text_eq t (codes "processor")
    then some processor
    else if text_eq t (codes "graphics")
    then some graphics
    else if text_eq t (codes "network")
    then some network
    else if text_eq t (codes "busy")
    then some busy
    else if text_eq t (codes "setting")
    then some setting
    else if text_eq t (codes "suspended")
    then some suspended
    else if text_eq t (codes "other")
    then some other
    else none

abbrev kind_of : Option Json → Option Kind
kind_of (some (json_text t)) = kind_named t
kind_of _ = none

abbrev lasting_named : Text → Option Lasting
lasting_named t =
    if text_eq t (codes "temporary")
    then some temporary
    else if text_eq t (codes "permanent")
    then some permanent
    else none

abbrev lasting_of : Option Json → Option Lasting
lasting_of (some (json_text t)) = lasting_named t
lasting_of _ = none

abbrev note_given : Option Json → Result WorkError (Option Text)
note_given none = ok none
note_given (some value) = do note ← given_text (some value) (codes "note") 200; ok (some note)

abbrev pub as_json : Option Decimal → Option Json
as_json none = none
as_json (some d) = some (json_number d.mantissa d.scale)

abbrev is_over : Option Decimal → Decimal → Bool
is_over none total = false
is_over (some free) total = less total free

-- Measured: the numbers decide, whatever the service said.
abbrev from_amounts :
    Kind
    → Option Text
    → (needed : Decimal) (free : Option Decimal) (total : Decimal) → Result WorkError Reason
from_amounts kind note needed free total = do
  refuse_if (is_over free total) free_over_total
  ok (record {
    kind = kind;
    lasting = if less total needed then permanent else temporary;
    needed = some needed;
    free = as_json free;
    total = some total;
    note = note;
  })

abbrev as_said : Kind → Option Text → Bool → Option Lasting → Result WorkError Reason
as_said kind note measured_too lasting = do
  refuse_if measured_too half_measured
  said ← require lasting bad_lasting
  ok (record { kind = kind; lasting = said; needed = none; free = none; total = none; note = note })

abbrev decided :
    Kind
    → Option Text
    → (needed free total : Option Decimal) → Option Lasting
    → Result WorkError Reason
decided kind note (some needed) free (some total) lasting =
    if is_measured kind
    then from_amounts kind note needed free total
    else as_said kind note false lasting
decided kind note needed free total lasting =
    as_said kind note (is_measured kind && (is_some needed || is_some free || is_some total))
      lasting

unfoldable pub reason_of : Json → Result WorkError Reason
reason_of item = do
  kind ← require (kind_of (part (codes "kind") (some item))) bad_kind
  note ← note_given (part (codes "note") (some item))
  needed ← given_amount (part (codes "needed") (some item)) (codes "needed")
  free ← given_amount (part (codes "free") (some item)) (codes "free")
  total ← given_amount (part (codes "total") (some item)) (codes "total")
  decided kind note needed free total (lasting_of (part (codes "lasting") (some item)))

unfoldable pub each_reason : List Json → Result WorkError (List Reason)
each_reason [] = ok []
each_reason (item ∷ items) = do first ← reason_of item; rest ← each_reason items; ok (first ∷ rest)

-- `reasons`
unfoldable pub reasons_of : Option Json → Result WorkError (List Reason)
reasons_of (some (json_array items)) = do
  refuse_if (length (items_of items) == 0 || ltb 20 (length (items_of items))) bad_reasons
  each_reason (items_of items)
reasons_of _ = err bad_reasons

abbrev kind_word : Kind → Text
kind_word memory = codes "memory"
kind_word disk = codes "disk"
kind_word processor = codes "processor"
kind_word graphics = codes "graphics"
kind_word network = codes "network"
kind_word busy = codes "busy"
kind_word setting = codes "setting"
kind_word suspended = codes "suspended"
kind_word other = codes "other"

abbrev lasting_word : Lasting → Text
lasting_word temporary = codes "temporary"
lasting_word permanent = codes "permanent"

abbrev is_one : Json → Bool
is_one (json_number (pos n) scale) = n == 10 ^ scale
is_one _ = false

-- `MEASURE_UNITS`, one core being one.
abbrev unit_for : Kind → Json → Text
unit_for processor amount = if is_one amount then codes "core" else codes "cores"
unit_for _ amount = codes "MB"

abbrev note_after : Option Text → Text
note_after none = []
note_after (some note) = if is_empty note then [] else codes ": " ++ note

abbrev or_none : Option Json → Json
or_none none = json_number (pos 0) 0
or_none (some free) = free

-- `print` is how a template literal writes a number.
module _ (print : Json → Text) where
  abbrev amount_text : Kind → Json → Text
  amount_text kind amount = print amount ++ codes " " ++ unit_for kind amount

  abbrev in_numbers : Kind → Lasting → (needed : Json) (free : Option Json) (total : Json) → Text
  in_numbers kind permanent needed free total =
      kind_word kind
      ++ codes ": needs "
      ++ amount_text kind needed
      ++ codes ", this machine has "
      ++ amount_text kind total
      ++ codes " in all (permanent)"
  in_numbers kind temporary needed free total =
      kind_word kind
      ++ codes ": needs "
      ++ amount_text kind needed
      ++ codes ", "
      ++ amount_text kind (or_none free)
      ++ codes " of "
      ++ amount_text kind total
      ++ codes " free, the rest in use (temporary)"

  abbrev in_words : Reason → Text
  in_words reason =
      kind_word reason.kind
      ++ note_after reason.note
      ++ codes " ("
      ++ lasting_word reason.lasting
      ++ codes ")"

  abbrev described : Reason → (needed total : Option Json) → Text
  described reason (some needed) (some total) =
      if is_measured reason.kind
      then in_numbers reason.kind reason.lasting needed reason.free total
      else in_words reason
  described reason _ _ = in_words reason

  -- `describeReason`
  unfoldable pub describe_reason : Reason → Text
  describe_reason reason = described reason (as_json reason.needed) (as_json reason.total)

  -- `reasons.map(describeReason).join('; ')`
  unfoldable pub describe_each : List Reason → Text
  describe_each [] = []
  describe_each (reason ∷ []) = describe_reason reason
  describe_each (reason ∷ next ∷ reasons) =
      describe_reason reason ++ codes "; " ++ describe_each (next ∷ reasons)
