-- ===== src/Topology/Types.antt =====
-- The records of src/topology/local-nodes.ts, and which types of node may sit under which.
use sema_core.Prelude.{
  ℕ, Bool, true, false, not, Option, none, List, [], ◌∷◌, Text, is_empty, all, any, ◌&&◌, split,
  Result, ok, ◌>>=◌, ◌>>◌, refuse_if, require, truthy,
}
use sema_core.Identity.{ℤ, hyphen}

pub data NodeType : Type 0 where
  organization group site user machine : NodeType

pub data Status : Type 0 where
  active retired : Status

abbrev pub is_active : Status → Bool
is_active active = true
is_active retired = false

abbrev pub type_eq : NodeType → NodeType → Bool
type_eq organization organization = true
type_eq group group = true
type_eq site site = true
type_eq user user = true
type_eq machine machine = true
type_eq _ _ = false

abbrev pub is_organization : NodeType → Bool
is_organization t = type_eq t organization

-- `MAY_HOLD`
abbrev pub may_hold_list : NodeType → List NodeType
may_hold_list organization = organization ∷ group ∷ site ∷ user ∷ []
may_hold_list group = group ∷ user ∷ []
may_hold_list site = site ∷ machine ∷ []
may_hold_list user = []
may_hold_list machine = []

unfoldable pub may_hold : NodeType → NodeType → Bool
may_hold holder child = any (type_eq child) (may_hold_list holder)

-- A text that stands for a time: the instant that it denotes, or one that `Date.parse` cannot read.
pub data TimeText : Type 0 where
  instant : ℕ → TimeText
  unreadable : TimeText

abbrev pub is_unreadable : TimeText → Bool
is_unreadable (instant t) = false
is_unreadable unreadable = true

-- A number that a caller gives: a whole one, or any other.
pub data Number : Type 0 where
  whole : ℤ → Number
  not_whole : Number

pub record Suspension : Type 0 where
  pub reason : Text
  pub by : Option Text
  pub at : TimeText

pub data Via : Type 0 where
  order parent : Via

pub record Shutdown : Type 0 where
  pub node_id : Text
  pub reason : Text
  pub by : Option Text
  pub at : TimeText
  pub via : Via

pub record ChildEntry : Type 0 where
  pub child_id : Text
  pub type : NodeType
  pub address : Option Text
  pub last_seen_at : Option TimeText
  pub suspension : Option Suspension
  pub retired : Option Suspension

pub record KeyLimits : Type 0 where
  pub max_segments : Option ℕ
  pub max_segment_length : Option ℕ
  pub max_last_segment_length : Option ℕ

pub record Seats : Type 0 where
  pub users_used : ℕ
  pub machines_used : ℕ
  pub users_allowed : Option ℕ
  pub machines_allowed : Option ℕ

abbrev pub empty_seats : Seats
empty_seats = record {
  users_used = 0;
  machines_used = 0;
  users_allowed = none;
  machines_allowed = none;
}

pub record LocalNode : Type 0 where
  pub id : Text
  pub type : NodeType
  pub key_limits : Option KeyLimits
  pub seats : Option Seats
  pub shutdown : Option Shutdown
  pub parent_id : Option Text
  pub parent_address : Option Text
  pub basis : Text
  pub issued : ℕ
  pub next_basis : Option Text
  pub switch_at : Option ℕ
  pub child_list_complete : Bool
  pub status : Status

-- The messages that the file throws; `list_missing` is the `TypeError` of a node without a list.
pub data NodeError : Type 0 where
  cannot_sit_under : NodeType → NodeType → NodeError
  no_such_node already_exists node_retired node_suspended list_missing : NodeError
  bad_node_id bad_child_id bad_node_type own_parent own_child no_replacement : NodeError
  basis_not_shorter bad_basis bad_switch_at own_basis : NodeError
  no_reason bad_via bad_time no_suspended_node type_not_known only_user_or_machine : NodeError
  not_an_organization no_seat_left seats_not_whole seats_out_of_range : NodeError
  limits_not_object unknown_limit limit_not_iterable limit_out_of_range last_shorter : NodeError

abbrev pub Outcome {ℓ} : Type ℓ → Type ℓ
Outcome A = Result NodeError A

-- `requireMayHold`
unfoldable pub require_may_hold : NodeType → NodeType → Outcome (Unit {0})
require_may_hold holder child =
    refuse_if (not (may_hold holder child)) (cannot_sit_under child holder)

-- `validId`
unfoldable pub valid_id : Text → Bool
valid_id id = not (is_empty id) && all (λ part. not (is_empty part)) (split hyphen id)

-- `entry`: the entry for a child as a caller describes it; the type is `none` when it is not one of
-- the five.
pub record GivenChild : Type 0 where
  pub child_id : Text
  pub type : Option NodeType
  pub address : Option Text

unfoldable pub entry : GivenChild → Outcome ChildEntry
entry child = do
  refuse_if (not (valid_id child.child_id)) bad_child_id
  type ← require child.type bad_node_type
  ok (record {
    child_id = child.child_id;
    type = type;
    address = truthy child.address;
    last_seen_at = none;
    suspension = none;
    retired = none;
  })
