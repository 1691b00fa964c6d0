-- ===== src/Capabilities/Silent.antt =====
-- CapabilityRegistry.markLost: exactly which running copies it marks.
use mathlib.Core.Path.{subst}
use sema_core.Prelude.{
  ℕ, ◌≡◌, inl, inr, refl, sym, ap, ◌∙◌, Bool, true, false, Bool-cases, Option, none, some, List, [],
  ◌∷◌, ◌||◌, Text, text_eq, text_eq_iff, lookup, lookup-insert, has, values, filter, map, any, Dict,
  ok, if◌then◌else◌,
}
use sema_core.Core.Exec.{◌>>=◌}
use sema_core.Capabilities.Records.{ServiceInstance, lost, changed_instance}
use sema_core.Capabilities.Registry.{Registry, Issue, is_silent, mark_each, mark_lost}
use sema_core.Capabilities.Entries.{IsMap, Named}
use sema_core.Capabilities.Consistent.{IsConsistent}
use sema_core.Capabilities.Losing.{
  losing, AllMarkable, AllMarkable-marked, marked, update-marked, all_markable,
}

abbrev lost_if : Bool → Option ServiceInstance → Option ServiceInstance
lost_if b none = none
lost_if b (some i) = some (if b then record i { state = lost } else i)

lost_if-lost :
    (b : Bool) (i : ServiceInstance)
    → lost_if b (some (record i { state = lost })) ≡ some (record i { state = lost })
lost_if-lost true i = refl
lost_if-lost false i = refl

abbrev bears : Text → ServiceInstance → Bool
bears k i = text_eq i.id k

abbrev ids_of : List ServiceInstance → List Text
ids_of is = map (λ (i : ServiceInstance). i.id) is

module _ {W : Type 0} (issue : Issue W) (time : ℕ) where
  -- The instance as it is marked when it is silent.
  abbrev pub marked_if_silent : ℕ → Option ServiceInstance → Option ServiceInstance
  marked_if_silent silent none = none
  marked_if_silent silent (some i) =
      some (if is_silent issue time silent i then record i { state = lost } else i)

  mark_each_lem :
      (is : List ServiceInstance) (s : Registry W)
      → AllMarkable is s.records
      → (t : Registry W) × (mark_each issue time is s ≡ (ok (ids_of is), t))
        × ((k : Text)
            → lookup k t.records.instances
              ≡ lost_if (any (bears k) is) (lookup k s.records.instances))
  unfolding mark_each ◌>>=◌
  mark_each_lem [] s h = (s, refl, λ k. unchanged (lookup k s.records.instances))
    where
      unchanged : (o : Option ServiceInstance) → o ≡ lost_if false o
      unchanged none = refl
      unchanged (some i) = refl
  mark_each_lem (i ∷ is) s ((j, found, live), rest) =
      let next : Registry W = record s { records = marked i.id j s.records } in
      let (t, run, later) = mark_each_lem is next (AllMarkable-marked i.id j is s.records rest) in
      (
        t,
        rw (update-marked issue time i j s found, run) refl,
        λ k. elim (Bool-cases (text_eq i.id k)) [
          | inl e ↦
              later k
              ∙ ap (lost_if (any (bears k) is)) (
                  lookup-insert i.id k (changed_instance losing j) s.records.instances
                  ∙ ap
                      (λ b.
                        if b
                        then some (changed_instance losing j)
                        else lookup k s.records.instances)
                      e)
              ∙ lost_if-lost (any (bears k) is) j
              ∙ ap (lost_if true) (
                  sym (
                    ap (λ x. lookup x s.records.instances) (sym ((text_eq_iff i.id k).0 e))
                    ∙ found))
              ∙ ap (λ b. lost_if (b || any (bears k) is) (lookup k s.records.instances)) (sym e)
          | inr e ↦
              later k
              ∙ ap (lost_if (any (bears k) is)) (
                  lookup-insert i.id k (changed_instance losing j) s.records.instances
                  ∙ ap
                      (λ b.
                        if b
                        then some (changed_instance losing j)
                        else lookup k s.records.instances)
                      e)
              ∙ ap (λ b. lost_if (b || any (bears k) is) (lookup k s.records.instances)) (sym e)
        ],
      )

  -- No silent instance bears an ID that is not there.
  none_bears :
      (silent : ℕ) (k : Text) (m : Dict ServiceInstance)
      → Named (λ i. i.id) m
      → has k m ≡ false
      → any (bears k) (filter (is_silent issue time silent) (values m)) ≡ false
  unfolding lookup
  none_bears silent k [] named absent = refl
  none_bears silent k ((j, i) ∷ m) named absent = elim (Bool-cases (text_eq j k)) [
    | inl e ↦ let no : true ≡ false = rw e at absent in cc
    | inr e ↦
        let rest = none_bears silent k m (λ l x h. named l x (inr h)) (rw e at absent) in
        let other : text_eq i.id k ≡ false =
          ap (λ x. text_eq x k) (named j i (inl (refl, refl))) ∙ e in
        elim (Bool-cases (is_silent issue time silent i)) [
          | inl f ↦ rw (f, other) rest
          | inr f ↦ rw f rest
        ]
  ]

  silent_marked :
      (silent : ℕ) (k : Text) (m : Dict ServiceInstance)
      → IsMap m
      → Named (λ i. i.id) m
      → lost_if (any (bears k) (filter (is_silent issue time silent) (values m))) (lookup k m)
        ≡ marked_if_silent silent (lookup k m)
  unfolding lookup
  silent_marked silent k [] h named = refl
  silent_marked silent k ((j, i) ∷ m) (absent, h) named =
      let same : i.id ≡ j = named j i (inl (refl, refl)) in
      elim (Bool-cases (text_eq j k)) [
        | inl e ↦
            let here : text_eq i.id k ≡ true = ap (λ x. text_eq x k) same ∙ e in
            let none_else =
              none_bears silent k m (λ l x p. named l x (inr p))
                (subst (λ x. has x m ≡ false) ((text_eq_iff j k).0 e) absent) in
            elim (Bool-cases (is_silent issue time silent i)) [
              | inl f ↦ rw (e, f, here) refl
              | inr f ↦ rw (e, f, none_else) refl
            ]
        | inr e ↦
            let other : text_eq i.id k ≡ false = ap (λ x. text_eq x k) same ∙ e in
            let rest = silent_marked silent k m h (λ l x p. named l x (inr p)) in
            elim (Bool-cases (is_silent issue time silent i)) [
              | inl f ↦ rw (e, f, other) rest
              | inr f ↦ rw (e, f) rest
            ]
      ]

  -- From consistent records a marking of the lost never throws. It says the IDs of the instances
  -- that run and were last heard of before the cutoff; those are lost afterwards, unchanged
  -- otherwise, and every other instance is as it was, or not there as before.
  pub mark_lost-marked :
      (silent : ℕ) (s : Registry W)
      → IsConsistent s.records
      → (t : Registry W) × (mark_lost issue time silent s
          ≡ (ok (ids_of (filter (is_silent issue time silent) (values s.records.instances))), t))
        × ((k : Text)
            → lookup k t.records.instances ≡ marked_if_silent silent (lookup k s.records.instances))
  unfolding mark_lost ◌>>=◌
  mark_lost-marked silent s good =
      let (t, run, later) =
        mark_each_lem (filter (is_silent issue time silent) (values s.records.instances)) s
          (all_markable issue time silent s.records good) in
      (
        t,
        run,
        λ k.
            later k ∙ silent_marked silent k s.records.instances good.instance_map good.instance_id,
      )
