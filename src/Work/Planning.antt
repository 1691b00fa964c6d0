-- ===== src/Work/Planning.antt =====
-- CapabilityWork.plan of src/capabilities/work.ts: which services a command may use, in which order.
-- `compare` is localeCompare.
use sema_core.Prelude.{
  ℕ, ◌+◌, ◌-◌, ◌*◌, Bool, true, false, not, ◌&&◌, ◌||◌, ◌==◌, Option, none, some, List, [], ◌∷◌,
  ◌++◌, Text, codes, text_eq, is_empty, split, values, filter, length, any, all, map, take, ltb,
  if◌then◌else◌, Result, ok, err, ◌>>=◌, ◌>>◌, refuse_if, require,
}
use sema_core.Core.Types.{Json, json_null, json_array}
use sema_core.Capabilities.Values.{items_of, includes, repeats, is_digit}
use sema_core.Capabilities.Records.{
  Records, CapabilityVersion, ServiceVersion, ChoosingWay, bound, consensus, policy,
}
use sema_core.Capabilities.Contracts.{way_of, way_eq, keys_of}
use sema_core.Capabilities.Inputs.{is_enabled}
use sema_core.Work.Reasons.{
  WorkError, given_text, not_registered, not_active, no_ways, no_operation, no_way, not_permitted,
  not_built, bad_services, no_service, several_versions, repeated_services, bound_to_one, no_order,
}

-- `OrganizationChoices`
pub record Choices : Type 0 where
  pub lists : List (List Text)
  pub way : Option ChoosingWay
  pub approval_required : Bool
  pub approved : List Text

abbrev pub no_choices : Choices
no_choices = record { lists = []; way = none; approval_required = false; approved = [] }

abbrev pub is_version : List Text → ServiceVersion → Bool
is_version [] s = true
is_version (version ∷ rest) s = text_eq version s.version

abbrev pub names_parts : List Text → ServiceVersion → Bool
names_parts [] s = false
names_parts (key ∷ rest) s = text_eq key s.service_key && is_version rest s

-- `names`
unfoldable pub names : Text → ServiceVersion → Bool
names entry s = names_parts (split b'@' entry) s

pub data Order : Type 0 where
  before same after : Order

abbrev pub is_separator : ℕ → Bool
is_separator c = c == b'.' || c == b'+' || c == b'-'

abbrev pub with_first : ℕ → List Text → List Text
with_first c [] = (c ∷ []) ∷ []
with_first c (part ∷ parts) = (c ∷ part) ∷ parts

-- `version.split(/[.+-]/)`
unfoldable pub version_parts : Text → List Text
version_parts [] = [] ∷ []
version_parts (c ∷ s) =
    let rest = version_parts s in if is_separator c then [] ∷ rest else with_first c rest

unfoldable pub number_from : ℕ → Text → ℕ
number_from n [] = n
number_from n (c ∷ s) = number_from (n * 10 + (c - 48)) s

abbrev pub is_number : Text → Bool
is_number part = not (is_empty part) && all is_digit part

abbrev pub order_of : ℕ → ℕ → Order
order_of x y = if ltb y x then before else if ltb x y then after else same

abbrev pub allowed_by : Choices → ServiceVersion → Bool
allowed_by choices s =
    all (any (λ entry. names entry s)) choices.lists
    && (not choices.approval_required || includes s.id choices.approved)

abbrev pub can_do : CapabilityVersion → Text → ServiceVersion → Bool
can_do capability operation s =
    text_eq s.capability_version_id capability.id
    && is_enabled s.status
    && includes operation s.operations

abbrev pub is_called : Text → ServiceVersion → Bool
is_called name s = text_eq s.id name || text_eq s.service_key name

abbrev pub only_one : List ServiceVersion → Result WorkError ServiceVersion
only_one [] = err no_service
only_one (s ∷ []) = ok s
only_one (s ∷ t ∷ ts) = err several_versions

unfoldable pub each_named : List ServiceVersion → List Json → Result WorkError (List ServiceVersion)
each_named all_ [] = ok []
each_named all_ (value ∷ rest) = do
  name ← given_text (some value) (codes "service") 120
  first ← only_one (filter (is_called name) all_)
  others ← each_named all_ rest
  ok (first ∷ others)

abbrev pub named_in : List ServiceVersion → Option Json → Result WorkError (List ServiceVersion)
named_in all_ none = ok []
named_in all_ (some (json_array items)) = do
  refuse_if (length (items_of items) == 0 || ltb 50 (length (items_of items))) bad_services
  each_named all_ (items_of items)
named_in all_ (some _) = err bad_services

abbrev pub way_or : Option Json → Option ChoosingWay → Result WorkError ChoosingWay
way_or none none = err no_way
way_or none (some way) = ok way
way_or (some json_null) none = err no_way
way_or (some json_null) (some way) = ok way
way_or (some value) way = require (way_of value) not_permitted

pub record Plan : Type 0 where
  pub capability : CapabilityVersion
  pub operation : Text
  pub way : ChoosingWay
  pub requested : List ServiceVersion

abbrev pub is_none : {A : Type 0} → List A → Bool
is_none [] = true
is_none (x ∷ xs) = false

abbrev pub cut : ChoosingWay → List ServiceVersion → List ServiceVersion
cut bound services = take 1 services
cut _ services = services

abbrev pub either : List ServiceVersion → List ServiceVersion → List ServiceVersion
either [] others = others
either (s ∷ ss) others = s ∷ ss

abbrev pub planned :
    CapabilityVersion → Text → ChoosingWay → (candidates usable : List ServiceVersion) → Option Plan
planned capability name chosen candidates usable =
    if not (is_none candidates) && is_none usable
    then none
    else some (record {
      capability = capability;
      operation = name;
      way = chosen;
      requested = cut chosen usable;
    })

module _ (compare : Text → Text → Order) where
  abbrev pub part_order : Text → Text → Order
  part_order x y =
      if is_number x && is_number y
      then order_of (number_from 0 x) (number_from 0 y)
      else compare y x

  abbrev pub or_later : Order → Order → Order
  or_later same later = later
  or_later first later = first

  -- `newerFirst`, part by part, a part that is missing being empty.
  unfoldable pub parts_order : List Text → List Text → Order
  parts_order [] [] = same
  parts_order [] (y ∷ ys) = or_later (part_order [] y) (parts_order [] ys)
  parts_order (x ∷ xs) [] = or_later (part_order x []) (parts_order xs [])
  parts_order (x ∷ xs) (y ∷ ys) = or_later (part_order x y) (parts_order xs ys)

  abbrev pub is_before : Order → Bool
  is_before before = true
  is_before _ = false

  abbrev pub newer : ServiceVersion → ServiceVersion → Bool
  newer a b = is_before (parts_order (version_parts a.version) (version_parts b.version))

  -- `sort(newerFirst)`, which keeps the order of equals.
  unfoldable pub put_in : ServiceVersion → List ServiceVersion → List ServiceVersion
  put_in s [] = s ∷ []
  put_in s (t ∷ ts) = let later = put_in s ts in if newer t s then t ∷ later else s ∷ t ∷ ts

  unfoldable pub newer_first : List ServiceVersion → List ServiceVersion
  newer_first [] = []
  newer_first (s ∷ ss) = put_in s (newer_first ss)

  unfoldable pub each_entry : List Text → List ServiceVersion → List ServiceVersion
  each_entry [] all_ = []
  each_entry (entry ∷ entries) all_ =
      newer_first (filter (names entry) all_) ++ each_entry entries all_

  abbrev pub has_id : Text → ServiceVersion → Bool
  has_id id s = text_eq s.id id

  -- `[...new Set(services)]`
  unfoldable pub each_once : List Text → List ServiceVersion → List ServiceVersion
  each_once seen [] = []
  each_once seen (s ∷ ss) =
      let others = each_once (s.id ∷ seen) ss in if includes s.id seen then others else s ∷ others

  abbrev pub ordered : List (List Text) → List ServiceVersion → List ServiceVersion
  ordered [] all_ = all_
  ordered (list ∷ lists) all_ = each_once [] (each_entry list all_)

  -- The end of `plan`, where the services that are named are known.
  unfoldable pub plan_named :
      CapabilityVersion
      → Text
      → ChoosingWay
      → Choices
      → (named all_ : List ServiceVersion) → Result WorkError (Option Plan)
  plan_named capability name chosen choices named all_ = do
    refuse_if (repeats (map (λ (s : ServiceVersion). s.id) named)) repeated_services
    refuse_if (way_eq chosen bound && ltb 1 (length named)) bound_to_one
    refuse_if (is_none named && is_none choices.lists && not (way_eq chosen consensus)) no_order
    let candidates = either named (ordered choices.lists all_)
    ok (planned capability name chosen candidates (filter (allowed_by choices) candidates))

  -- The middle of `plan`, where the way is known.
  unfoldable pub plan_way :
      CapabilityVersion
      → Text
      → ChoosingWay
      → (services : Option Json) → Choices
      → Records
      → Result WorkError (Option Plan)
  plan_way capability name chosen services choices r = do
    refuse_if (not (any (way_eq chosen) capability.choosing)) not_permitted
    refuse_if (way_eq chosen policy) not_built
    let all_ = filter (can_do capability name) (values r.services)
    named ← named_in all_ services
    plan_named capability name chosen choices named all_

  -- `plan`, the copies that are able aside; `none` is "not allowed".
  unfoldable pub plan :
      Option CapabilityVersion
      → (operation way services : Option Json) → Choices
      → Records
      → Result WorkError (Option Plan)
  plan found operation way services choices r = do
    capability ← require found not_registered
    refuse_if (not (is_enabled capability.status)) not_active
    refuse_if (is_none capability.choosing) no_ways
    name ← given_text operation (codes "operation") 60
    refuse_if (not (includes name (keys_of capability.operations))) no_operation
    chosen ← way_or way choices.way
    plan_way capability name chosen services choices r
