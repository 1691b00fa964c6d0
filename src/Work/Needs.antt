-- ===== src/Work/Needs.antt =====
-- What a service needs and where a machine falls short of it: needsOf and shortfalls of
-- src/capabilities/work.ts. A machine's report is the JSON object that a running copy last sent.
use sema_core.Prelude.{
  Bool, true, false, ◌&&◌, ◌==◌, Option, none, some, List, [], ◌∷◌, ◌++◌, Text, codes,
  if◌then◌else◌,
}
use sema_core.Identity.{ℤ, pos, negsuc}
use sema_core.Core.Types.{Json, json_null, json_boolean, json_number, json_object, Fields}
use sema_core.Capabilities.Values.{get_field}
use sema_core.Capabilities.Offers.{Decimal}
use sema_core.Capabilities.Answers.{is_less}

-- `UNAVAILABLE_KINDS`
pub data Kind : Type 0 where
  memory disk processor graphics network busy setting suspended other : Kind

-- `MEASURED_KINDS`
abbrev pub is_measured : Kind → Bool
is_measured memory = true
is_measured disk = true
is_measured processor = true
is_measured graphics = true
is_measured _ = false

pub data Lasting : Type 0 where
  temporary permanent : Lasting

-- `UnavailableReason`
pub record Reason : Type 0 where
  pub kind : Kind
  pub lasting : Lasting
  pub needed : Option Decimal
  pub free : Option Json
  pub total : Option Decimal
  pub note : Option Text

-- `ServiceNeeds`
pub record Needs : Type 0 where
  pub network : Bool
  pub memory_mb : Option Decimal
  pub disk_mb : Option Decimal
  pub cores : Option Decimal
  pub graphics_mb : Option Decimal

-- `a < b`
abbrev pub less : Decimal → Decimal → Bool
less a b = is_less a.mantissa a.scale b.mantissa b.scale

abbrev positive : Decimal → Option Decimal
positive d = if less (record { mantissa = pos 0; scale = 0 }) d then some d else none

-- `typeof value === 'number'`
abbrev pub number_of : Option Json → Option Decimal
number_of (some (json_number mantissa scale)) = some (record { mantissa = mantissa; scale = scale })
number_of _ = none

-- `value.name`, where the value is an object.
abbrev pub part : Text → Option Json → Option Json
part name (some (json_object parts)) = get_field name parts
part name _ = none

abbrev above_zero : Option Decimal → Option Decimal
above_zero none = none
above_zero (some d) = positive d

abbrev amount : Fields → Text → Option Decimal
amount declarations key = above_zero (number_of (part key (get_field (codes "needs") declarations)))

abbrev pub is_false : Option Json → Bool
is_false (some (json_boolean false)) = true
is_false _ = false

abbrev pub is_null : Option Json → Bool
is_null (some json_null) = true
is_null _ = false

unfoldable pub needs_of : Fields → Needs
needs_of declarations = record {
  network = is_false (get_field (codes "offline") declarations);
  memory_mb = amount declarations (codes "memoryMb");
  disk_mb = amount declarations (codes "diskMb");
  cores = amount declarations (codes "cores");
  graphics_mb = amount declarations (codes "graphicsMb");
}

abbrev pub is_zero : ℤ → Bool
is_zero (pos n) = n == 0
is_zero (negsuc n) = false

-- `needed`, as a test.
abbrev pub asked : Option Decimal → Option Decimal
asked none = none
asked (some n) = if is_zero n.mantissa then none else some n

abbrev pub only_number : Option Json → Option Json
only_number (some (json_number mantissa scale)) = some (json_number mantissa scale)
only_number _ = none

abbrev pub when_less : Option Decimal → Decimal → Reason → List Reason
when_less none needed reason = []
when_less (some amount_) needed reason = if less amount_ needed then reason ∷ [] else []

-- What is needed against what there is in all, and then against what is free; `shown` is the free
-- amount as the reason gives it.
abbrev pub short_of :
    Kind → (needed total free : Option Decimal) → (shown : Option Json) → List Reason
short_of kind none total free shown = []
short_of kind (some needed) none free shown = []
short_of kind (some needed) (some total) free shown =
    if less total needed
    then record {
      kind = kind;
      lasting = permanent;
      needed = some needed;
      free = shown;
      total = some total;
      note = none;
    }
      ∷ []
    else when_less free needed (record {
      kind = kind;
      lasting = temporary;
      needed = some needed;
      free = shown;
      total = some total;
      note = none;
    })

-- `measured`
abbrev pub measured : Kind → Option Decimal → Option Json → List Reason
measured kind needed there =
    short_of kind (asked needed) (number_of (part (codes "totalMb") there))
      (number_of (part (codes "freeMb") there)) (part (codes "freeMb") there)

abbrev pub said : Kind → Lasting → Text → Reason
said kind lasting note = record {
  kind = kind;
  lasting = lasting;
  needed = none;
  free = none;
  total = none;
  note = some note;
}

abbrev pub without_network : Needs → Option Json → List Reason
without_network needs report =
    if needs.network && is_false (part (codes "network") report)
    then said network temporary (codes "no network") ∷ []
    else []

abbrev pub is_asked : Option Decimal → Bool
is_asked none = false
is_asked (some n) = true

-- A machine that has no card says `null`.
abbrev pub without_graphics : Needs → Option Json → List Reason
without_graphics needs report =
    if is_asked (asked needs.graphics_mb) && is_null (part (codes "graphics") report)
    then said graphics permanent (codes "this machine has no graphics card it can use") ∷ []
    else measured graphics needs.graphics_mb (part (codes "graphics") report)

abbrev pub without_processor : Needs → Option Json → List Reason
without_processor needs report =
    short_of processor (asked needs.cores)
      (number_of (part (codes "cores") (part (codes "processor") report)))
      (number_of (part (codes "freeCores") (part (codes "processor") report)))
      (only_number (part (codes "freeCores") (part (codes "processor") report)))

unfoldable pub shortfalls : Needs → Option Json → List Reason
shortfalls needs report =
    without_network needs report
    ++ (measured memory needs.memory_mb (part (codes "memory") report)
        ++ (measured disk needs.disk_mb (part (codes "disk") report)
            ++ (without_graphics needs report ++ without_processor needs report)))
