-- ===== src/Work/Planned.antt =====
-- What CapabilityWork.plan of src/capabilities/work.ts lets a command use.
use mathlib.Core.Path.{subst}
use sema_core.Prelude.{
  ◌≡◌, ◌≤◌, refl, inl, inr, arith, Bool, true, false, not, ◌&&◌, ◌||◌, Bool-cases, Option, none,
  some, List, [], ◌∷◌, All, All-append, Text, codes, values, filter, length, any, map, Result, ok,
  >>=-eq-ok, ok-injective, ◌>>◌, ◌>>=◌, ◌==◌, ltb, refuse_if,
}
use sema_core.Core.Types.{
  Json, json_null, json_boolean, json_number, json_text, json_array, json_object,
}
use sema_core.Capabilities.Values.{items_of, includes, repeats}
use sema_core.Capabilities.Records.{
  Records, CapabilityVersion, ServiceVersion, ChoosingWay, bound, dynamic, consensus, policy,
}
use sema_core.Capabilities.Contracts.{way_eq, keys_of}
use sema_core.Capabilities.Inputs.{is_enabled}
use sema_core.Work.Reasons.{
  WorkError, given_text, bad_services, repeated_services, bound_to_one, no_order, not_permitted,
  not_built, not_active, no_ways, no_operation,
}
use sema_core.Work.Planning.{
  Choices, Order, names, newer, put_in, newer_first, each_entry, each_once, ordered, allowed_by,
  can_do, only_one, is_called, each_named, named_in, Plan, cut, either, is_none, way_or, plan,
  plan_way, plan_named, planned,
}

module _ (P : ServiceVersion → Type 0) where
  All-filter :
      (test : ServiceVersion → Bool) (ss : List ServiceVersion) → All P ss → All P (filter test ss)
  All-filter test [] h = tt
  All-filter test (s ∷ ss) (first, rest) = elim (Bool-cases (test s)) [
    | inl e ↦ rw e (first, All-filter test ss rest)
    | inr e ↦ rw e (All-filter test ss rest)
  ]

  All-cut : (way : ChoosingWay) (ss : List ServiceVersion) → All P ss → All P (cut way ss)
  All-cut bound [] h = tt
  All-cut bound (s ∷ ss) (first, rest) = (first, tt)
  All-cut dynamic ss h = h
  All-cut consensus ss h = h
  All-cut policy ss h = h

All-passed :
    (test : ServiceVersion → Bool) (ss : List ServiceVersion)
    → All (λ s. test s ≡ true) (filter test ss)
All-passed test [] = tt
All-passed test (s ∷ ss) = elim (Bool-cases (test s)) [
  | inl e ↦ rw e (e, All-passed test ss)
  | inr e ↦ rw e (All-passed test ss)
]

-- A check that lets pass.
refused_not :
    {E A : Type 0} (b : Bool) (x : E) (rest : Result E A) {a : A}
    → (refuse_if b x >> rest) ≡ ok a
    → (b ≡ false) × (rest ≡ ok a)
refused_not true x rest h = cc
refused_not false x rest h = (refl, h)

module _ (compare : Text → Text → Order) (P : ServiceVersion → Type 0) where
  All-put_in :
      (s : ServiceVersion) (ss : List ServiceVersion) → P s → All P ss → All P (put_in compare s ss)
  unfolding put_in
  All-put_in s [] p h = (p, tt)
  All-put_in s (t ∷ ts) p (first, rest) = elim (Bool-cases (newer compare t s)) [
    | inl e ↦ rw e (first, All-put_in s ts p rest)
    | inr e ↦ rw e (p, (first, rest))
  ]

  All-newer_first : (ss : List ServiceVersion) → All P ss → All P (newer_first compare ss)
  unfolding newer_first
  All-newer_first [] h = tt
  All-newer_first (s ∷ ss) (first, rest) =
      All-put_in s (newer_first compare ss) first (All-newer_first ss rest)

  All-each_entry :
      (entries : List Text) (ss : List ServiceVersion)
      → All P ss
      → All P (each_entry compare entries ss)
  unfolding each_entry
  All-each_entry [] ss h = tt
  All-each_entry (entry ∷ entries) ss h =
      All-append P (newer_first compare (filter (names entry) ss)) (each_entry compare entries ss)
        (All-newer_first (filter (names entry) ss) (All-filter P (names entry) ss h))
        (All-each_entry entries ss h)

  All-each_once :
      (seen : List Text) (ss : List ServiceVersion) → All P ss → All P (each_once compare seen ss)
  unfolding each_once
  All-each_once seen [] h = tt
  All-each_once seen (s ∷ ss) (first, rest) = elim (Bool-cases (includes s.id seen)) [
    | inl e ↦ rw e (All-each_once (s.id ∷ seen) ss rest)
    | inr e ↦ rw e (first, All-each_once (s.id ∷ seen) ss rest)
  ]

  All-ordered :
      (lists : List (List Text)) (ss : List ServiceVersion)
      → All P ss
      → All P (ordered compare lists ss)
  All-ordered [] ss h = h
  All-ordered (list ∷ lists) ss h =
      All-each_once [] (each_entry compare list ss) (All-each_entry list ss h)

  only_one-P : (ss : List ServiceVersion) (s : ServiceVersion) → All P ss → only_one ss ≡ ok s → P s
  only_one-P [] s h e = cc
  only_one-P (t ∷ []) s (first, rest) e = let same : t ≡ s = cc in subst P same first
  only_one-P (t ∷ u ∷ ts) s h e = cc

  All-each_named :
      (ss : List ServiceVersion) (items : List Json) (named : List ServiceVersion)
      → All P ss
      → each_named ss items ≡ ok named
      → All P named
  unfolding each_named
  All-each_named ss [] named h e = let same : [] ≡ named = cc in subst (All P) same tt
  All-each_named ss (value ∷ rest) named h e =
      let (name, e1, f1) = >>=-eq-ok (given_text (some value) (codes "service") 120) _ e in
      let (first, e2, f2) = >>=-eq-ok (only_one (filter (is_called name) ss)) _ f1 in
      let (others, e3, f3) = >>=-eq-ok (each_named ss rest) _ f2 in
      let same : first ∷ others ≡ named = cc in
      subst (All P) same (
        only_one-P (filter (is_called name) ss) first (All-filter P (is_called name) ss h) e2,
        All-each_named ss rest others h e3,
      )

  All-named_in :
      (ss : List ServiceVersion) (services : Option Json) (named : List ServiceVersion)
      → All P ss
      → named_in ss services ≡ ok named
      → All P named
  All-named_in ss none named h e = let same : [] ≡ named = cc in subst (All P) same tt
  All-named_in ss (some (json_array items)) named h e =
      All-each_named ss (items_of items) named h
        (refused_not (length (items_of items) == 0 || ltb 50 (length (items_of items))) bad_services
          (each_named ss (items_of items)) e).1
  All-named_in ss (some json_null) named h e = cc
  All-named_in ss (some (json_boolean b)) named h e = cc
  All-named_in ss (some (json_number m k)) named h e = cc
  All-named_in ss (some (json_text t)) named h e = cc
  All-named_in ss (some (json_object l)) named h e = cc

  All-either :
      (named others : List ServiceVersion)
      → All P named
      → All P others
      → All P (either named others)
  All-either [] others h k = k
  All-either (s ∷ ss) others h k = h

length-cut : (way : ChoosingWay) (ss : List ServiceVersion) → way ≡ bound → length (cut way ss) ≤ 1
length-cut bound [] h = omega arith
length-cut bound (s ∷ ss) h = omega arith
length-cut dynamic ss h = cc
length-cut consensus ss h = cc
length-cut policy ss h = cc

-- What the services that a plan asks for are.
pub record IsPermitted (choices : Choices) (p : Plan) : Type 0 where
  pub allowed : All (λ s. allowed_by choices s ≡ true) p.requested
  pub able_to : All (λ s. can_do p.capability p.operation s ≡ true) p.requested
  pub alone : p.way ≡ bound → length p.requested ≤ 1
  pub permitted : any (way_eq p.way) p.capability.choosing ≡ true
  pub listed : includes p.operation (keys_of p.capability.operations) ≡ true
  pub enabled : is_enabled p.capability.status ≡ true

planned-some :
    (c : CapabilityVersion) (name : Text) (chosen : ChoosingWay)
    (candidates usable : List ServiceVersion) (p : Plan)
    → planned c name chosen candidates usable ≡ some p
    → record { capability = c; operation = name; way = chosen; requested = cut chosen usable } ≡ p
planned-some c name chosen candidates usable p h =
    elim (Bool-cases (not (is_none candidates) && is_none usable)) [
      | inl e ↦ let no : ◌≡◌ {A = Option Plan} none (some p) = rw e at h in cc
      | inr e ↦
          let yes : ◌≡◌ {A = Option Plan}
              (some (record {
                capability = c;
                operation = name;
                way = chosen;
                requested = cut chosen usable;
              }))
              (some p) =
            rw e at h in
          cc
    ]

plan_named-IsPermitted :
    (compare : Text → Text → Order) (c : CapabilityVersion) (name : Text) (chosen : ChoosingWay)
    (choices : Choices) (named all_ : List ServiceVersion) (p : Plan)
    → All (λ s. can_do c name s ≡ true) named
    → All (λ s. can_do c name s ≡ true) all_
    → any (way_eq chosen) c.choosing ≡ true
    → includes name (keys_of c.operations) ≡ true
    → is_enabled c.status ≡ true
    → plan_named compare c name chosen choices named all_ ≡ ok (some p)
    → IsPermitted choices p
unfolding plan_named
plan_named-IsPermitted compare c name chosen choices named all_ p able able_all permitted listed
      enabled e0 =
    let candidates = either named (ordered compare choices.lists all_) in
    let usable = filter (allowed_by choices) candidates in
    let last : Result WorkError (Option Plan) = ok (planned c name chosen candidates usable) in
    let third =
      refuse_if (is_none named && is_none choices.lists && not (way_eq chosen consensus)) no_order
      >> last in
    let second = refuse_if (way_eq chosen bound && ltb 1 (length named)) bound_to_one >> third in
    let e1 =
      (refused_not (repeats (map (λ (s : ServiceVersion). s.id) named)) repeated_services second
        e0).1 in
    let e2 = (refused_not (way_eq chosen bound && ltb 1 (length named)) bound_to_one third e1).1 in
    let e3 =
      (refused_not (is_none named && is_none choices.lists && not (way_eq chosen consensus))
        no_order last e2).1 in
    subst (IsPermitted choices) (planned-some c name chosen candidates usable p (ok-injective e3))
      (record {
        allowed =
            All-cut (λ s. allowed_by choices s ≡ true) chosen usable
              (All-passed (allowed_by choices) candidates);
        able_to =
            All-cut (λ s. can_do c name s ≡ true) chosen usable
              (All-filter (λ s. can_do c name s ≡ true) (allowed_by choices) candidates
                (All-either compare (λ s. can_do c name s ≡ true) named
                  (ordered compare choices.lists all_) able
                  (All-ordered compare (λ s. can_do c name s ≡ true) choices.lists all_ able_all)));
        alone = length-cut chosen usable;
        permitted = permitted;
        listed = listed;
        enabled = enabled;
      })

not_refused : (b : Bool) → not b ≡ false → b ≡ true
not_refused true h = refl
not_refused false h = cc

plan_way-IsPermitted :
    (compare : Text → Text → Order) (c : CapabilityVersion) (name : Text) (chosen : ChoosingWay)
    (services : Option Json) (choices : Choices) (r : Records) (p : Plan)
    → includes name (keys_of c.operations) ≡ true
    → is_enabled c.status ≡ true
    → plan_way compare c name chosen services choices r ≡ ok (some p)
    → IsPermitted choices p
unfolding plan_way
plan_way-IsPermitted compare c name chosen services choices r p listed enabled e0 =
    let all_ = filter (can_do c name) (values r.services) in
    let able_all = All-passed (can_do c name) (values r.services) in
    let next =
      λ (named : List ServiceVersion). plan_named compare c name chosen choices named all_ in
    let last = named_in all_ services >>= next in
    let second = refuse_if (way_eq chosen policy) not_built >> last in
    let (permitted, e1) =
      refused_not (not (any (way_eq chosen) c.choosing)) not_permitted second e0 in
    let e2 = (refused_not (way_eq chosen policy) not_built last e1).1 in
    let (named, given, e3) = >>=-eq-ok (named_in all_ services) next e2 in
    plan_named-IsPermitted compare c name chosen choices named all_ p
      (All-named_in compare (λ s. can_do c name s ≡ true) all_ services named able_all given)
      able_all (not_refused _ permitted) listed enabled e3

-- Where a plan is made, every service that it asks for is on each list of the organization and
-- approved where approval is asked, and is an enabled service of the capability that offers the
-- operation; there is one at most where the way is bound; and the capability is enabled, lists the
-- operation and permits the way.
pub plan-IsPermitted :
    (compare : Text → Text → Order) (found : Option CapabilityVersion)
    (operation way services : Option Json) (choices : Choices) (r : Records) (p : Plan)
    → plan compare found operation way services choices r ≡ ok (some p)
    → IsPermitted choices p
unfolding plan
plan-IsPermitted compare none operation way services choices r p e0 = cc
plan-IsPermitted compare (some c) operation way services choices r p e0 =
    let with_way =
      λ (name : Text) (chosen : ChoosingWay). plan_way compare c name chosen services choices r in
    let sixth = λ (name : Text). way_or way choices.way >>= with_way name in
    let fifth = λ (name : Text).
      refuse_if (not (includes name (keys_of c.operations))) no_operation >> sixth name in
    let fourth = given_text operation (codes "operation") 60 >>= fifth in
    let third = refuse_if (is_none c.choosing) no_ways >> fourth in
    let (enabled, e1) = refused_not (not (is_enabled c.status)) not_active third e0 in
    let e2 = (refused_not (is_none c.choosing) no_ways fourth e1).1 in
    let (name, _, e3) = >>=-eq-ok (given_text operation (codes "operation") 60) fifth e2 in
    let (listed, e4) =
      refused_not (not (includes name (keys_of c.operations))) no_operation (sixth name) e3 in
    let (chosen, _, e5) = >>=-eq-ok (way_or way choices.way) (with_way name) e4 in
    plan_way-IsPermitted compare c name chosen services choices r p (not_refused _ listed)
      (not_refused _ enabled) e5
