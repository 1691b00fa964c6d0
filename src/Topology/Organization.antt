-- ===== src/Topology/Organization.antt =====
-- LocalNodes: what only an organization node holds, its key limits and its seats.
use Prim.Native.Nat.{max}
use sema_core.Prelude.{
  ℕ, zero, suc, ◌+◌, ◌-◌, Bool, false, not, Option, none, some, List, [], ◌∷◌, Text, codes, text_eq,
  any, ltb, if◌then◌else◌, ok, err, ◌>>=◌, ◌>>◌, refuse_if, get_or_else,
}
use sema_core.Identity.{ℤ, pos, negsuc}
use sema_core.Topology.Types.{
  is_organization, Number, whole, not_whole, KeyLimits, Seats, empty_seats, LocalNode, Outcome,
  not_an_organization, no_seat_left, seats_not_whole, seats_out_of_range, limits_not_object,
  unknown_limit, limit_not_iterable, limit_out_of_range, last_shorter,
}
use sema_core.Topology.Store
use sema_core.Topology.Store.{Store, Change}
use sema_core.Topology.Node.{
  count, require_active, require_usable, has_limits, SeatView, view_seats, describe_node,
  NodeDescription,
}

-- A value in the object of limits: left out (`null` or `undefined`), a number, or anything else.
pub data LimitValue : Type 0 where
  missing other : LimitValue
  number : Number → LimitValue

pub data LimitsInput : Type 0 where
  nothing not_object : LimitsInput
  object : List (Text × LimitValue) → LimitsInput

pub data LimitName : Type 0 where
  max_segments max_segment_length max_last_segment_length inherited : LimitName

-- What `in` finds beside the three limits: the names that every object inherits.
abbrev inherited_names : List Text
inherited_names =
    codes "constructor"
    ∷ codes "__defineGetter__"
    ∷ codes "__defineSetter__"
    ∷ codes "hasOwnProperty"
    ∷ codes "__lookupGetter__"
    ∷ codes "__lookupSetter__"
    ∷ codes "isPrototypeOf"
    ∷ codes "propertyIsEnumerable"
    ∷ codes "toString"
    ∷ codes "valueOf"
    ∷ codes "__proto__"
    ∷ codes "toLocaleString"
    ∷ []

-- `name in KEY_LIMIT_RANGES`
unfoldable pub limit_name : Text → Option LimitName
limit_name name =
    if text_eq name (codes "maxSegments")
    then some max_segments
    else if text_eq name (codes "maxSegmentLength")
    then some max_segment_length
    else if text_eq name (codes "maxLastSegmentLength")
    then some max_last_segment_length
    else if any (text_eq name) inherited_names
    then some inherited
    else none

-- The range's ends; an inherited value is no pair to take apart.
abbrev range_of : LimitName → Outcome (ℕ × ℕ)
range_of max_segments = ok (2, 64)
range_of max_segment_length = ok (1, 12)
range_of max_last_segment_length = ok (1, 20)
range_of inherited = err limit_not_iterable

abbrev set_limit : LimitName → ℕ → KeyLimits → KeyLimits
set_limit max_segments v l = record l { max_segments = some v }
set_limit max_segment_length v l = record l { max_segment_length = some v }
set_limit max_last_segment_length v l = record l { max_last_segment_length = some v }
set_limit inherited v l = l

abbrev in_range : LimitValue → ℕ → ℕ → Outcome ℕ
in_range (number (whole (pos v))) low high =
    if ltb v low
    then err limit_out_of_range
    else if ltb high v
    then err limit_out_of_range
    else ok v
in_range _ low high = err limit_out_of_range

abbrev check_value : LimitName → LimitValue → KeyLimits → Outcome KeyLimits
check_value name missing l = ok l
check_value name value l = do
  (low, high) ← range_of name
  v ← in_range value low high
  ok (set_limit name v l)

abbrev known_name : Option LimitName → Outcome LimitName
known_name none = err unknown_limit
known_name (some name) = ok name

abbrev check_entry : Text → LimitValue → KeyLimits → Outcome KeyLimits
check_entry name value l = do known ← known_name (limit_name name); check_value known value l

unfoldable pub check_entries : List (Text × LimitValue) → KeyLimits → Outcome KeyLimits
check_entries [] l = ok l
check_entries ((name, value) ∷ more) l = do l' ← check_entry name value l; check_entries more l'

abbrev pub no_limits : KeyLimits
no_limits = record {
  max_segments = none;
  max_segment_length = none;
  max_last_segment_length = none;
}

abbrev is_shorter : Option ℕ → Option ℕ → Bool
is_shorter (some last) (some length) = ltb last length
is_shorter _ _ = false

unfoldable pub check_key_limits : LimitsInput → Outcome KeyLimits
check_key_limits nothing = ok no_limits
check_key_limits not_object = err limits_not_object
check_key_limits (object given) = do
  limits ← check_entries given no_limits
  refuse_if (is_shorter limits.max_last_segment_length limits.max_segment_length) last_shorter
  ok limits

abbrev pub limits_change : KeyLimits → LocalNode → Outcome (Change LocalNode)
limits_change limits node = do
  require_usable node
  refuse_if (not (is_organization node.type)) not_an_organization
  let next : LocalNode = record node {
    key_limits = if has_limits limits then some limits else none;
  }
  ok (record { node = next; result = next; add_children = [] })

unfoldable pub set_key_limits : Text → LimitsInput → Store → Outcome (NodeDescription × Store)
set_key_limits id input s = do
  limits ← check_key_limits input
  (changed, s') ← Store.mutate id (limits_change limits) s
  ok (describe_node changed (count id s'), s')

-- `requireOrganization`
unfoldable pub require_organization : LocalNode → Outcome Seats
require_organization node = do
  refuse_if (not (is_organization node.type)) not_an_organization
  ok (get_or_else node.seats empty_seats)

-- The change in one kind of seat: left out, or a number.
abbrev pub whole_change : Option Number → Outcome ℤ
whole_change none = ok (pos 0)
whole_change (some (whole d)) = ok d
whole_change (some not_whole) = err seats_not_whole

abbrev is_full : ℕ → ℕ → Option ℕ → Bool
is_full used zero allowed = false
is_full used delta none = false
is_full used delta (some allowed) = ltb allowed (used + delta)

-- Taking is refused past the allowed number; giving back stops at zero.
unfoldable pub take_seats : ℕ → Option ℕ → ℤ → Outcome ℕ
take_seats used allowed (pos delta) = do
  refuse_if (is_full used delta allowed) no_seat_left
  ok (used + delta)
take_seats used allowed (negsuc n) = ok (used - suc n)

abbrev pub store_seats : LocalNode → Seats → Change Seats
store_seats node seats = record {
  node = record node { seats = some seats };
  result = seats;
  add_children = [];
}

abbrev pub seats_change : ℤ → ℤ → LocalNode → Outcome (Change Seats)
seats_change users machines node = do
  require_active node
  seats ← require_organization node
  users_used ← take_seats seats.users_used seats.users_allowed users
  machines_used ← take_seats seats.machines_used seats.machines_allowed machines
  ok (store_seats node (record seats { users_used = users_used; machines_used = machines_used }))

unfoldable pub change_seats :
    Text → Option Number → Option Number → Store → Outcome (SeatView × Store)
change_seats id users machines s = do
  u ← whole_change users
  m ← whole_change machines
  (changed, s') ← Store.mutate id (seats_change u m) s
  ok (view_seats changed, s')

abbrev pub seat_limit_max : ℕ
seat_limit_max = 1_000_000_000

-- `seatCount`
unfoldable pub seat_count : Number → Outcome ℕ
seat_count (whole (pos n)) = do refuse_if (ltb seat_limit_max n) seats_out_of_range; ok n
seat_count _ = err seats_out_of_range

-- Undefined keeps a number; null clears it.
pub data LimitChange (A : Type 0) : Type 0 where
  keep clear : LimitChange A
  set_to : A → LimitChange A

abbrev pub checked_limit : LimitChange Number → Outcome (LimitChange ℕ)
checked_limit keep = ok keep
checked_limit clear = ok clear
checked_limit (set_to v) = do n ← seat_count v; ok (set_to n)

abbrev pub next_limit : LimitChange ℕ → Option ℕ → Option ℕ
next_limit keep allowed = allowed
next_limit clear allowed = none
next_limit (set_to n) allowed = some n

abbrev pub seat_limits_change : LimitChange ℕ → LimitChange ℕ → LocalNode → Outcome (Change Seats)
seat_limits_change users machines node = do
  require_active node
  seats ← require_organization node
  ok (
      store_seats node (record seats {
        users_allowed = next_limit users seats.users_allowed;
        machines_allowed = next_limit machines seats.machines_allowed;
      }))

unfoldable pub set_seat_limits :
    Text → LimitChange Number → LimitChange Number → Store → Outcome (SeatView × Store)
set_seat_limits id users machines s = do
  u ← checked_limit users
  m ← checked_limit machines
  (changed, s') ← Store.mutate id (seat_limits_change u m) s
  ok (view_seats changed, s')

abbrev pub seats_used_change : ℕ → ℕ → Bool → LocalNode → Outcome (Change Seats)
seats_used_change users machines complete node = do
  require_active node
  seats ← require_organization node
  ok (
      store_seats node (record seats {
        users_used = if complete then users else max seats.users_used users;
        machines_used = if complete then machines else max seats.machines_used machines;
      }))

unfoldable pub set_seats_used : Text → Number → Number → Bool → Store → Outcome (SeatView × Store)
set_seats_used id users machines complete s = do
  u ← seat_count users
  m ← seat_count machines
  (changed, s') ← Store.mutate id (seats_used_change u m complete) s
  ok (view_seats changed, s')
