-- ===== src/Work/Enough.antt =====
-- Which machines shortfalls of src/capabilities/work.ts lets pass, and what it calls permanent.
use mathlib.Core.Path.{subst}
use sema_core.Prelude.{
  Text, ◌≡◌, ◌↔◌, refl, Bool, true, false, ◌&&◌, Bool-cases, inl, inr, Option, none, some, List, [],
  ◌∷◌, ◌++◌, codes, if◌then◌else◌, arith, All, All-append,
}
use sema_core.Core.Types.{Json}
use sema_core.Capabilities.Offers.{Decimal}
use sema_core.Work.Needs.{
  Kind, network, memory, disk, graphics, processor, Lasting, temporary, permanent, Reason, Needs,
  less, number_of, part, is_false, is_null, asked, is_asked, when_less, short_of, measured, said,
  without_network, without_graphics, without_processor, shortfalls, only_number,
}

-- An amount that is not said is not held against the machine.
abbrev Suffices : Decimal → Option Decimal → Type 0
Suffices needed none = Unit
Suffices needed (some amount) = less amount needed ≡ false

abbrev HasEnough : (needed total free : Option Decimal) → Type 0
HasEnough none total free = Unit
HasEnough (some needed) none free = Unit
HasEnough (some needed) (some total) free = (less total needed ≡ false) × Suffices needed free

abbrev HasMegabytes : Option Decimal → Option Json → Type 0
HasMegabytes needed there =
    HasEnough (asked needed) (number_of (part (codes "totalMb") there))
      (number_of (part (codes "freeMb") there))

-- A machine that reports no part short of what a service needs.
pub record Meets (needs : Needs) (report : Option Json) : Type 0 where
  pub network : needs.network ≡ true → is_false (part (codes "network") report) ≡ false
  pub memory_mb : HasMegabytes needs.memory_mb (part (codes "memory") report)
  pub disk_mb : HasMegabytes needs.disk_mb (part (codes "disk") report)
  pub card :
      is_asked (asked needs.graphics_mb) ≡ true → is_null (part (codes "graphics") report) ≡ false
  pub graphics_mb : HasMegabytes needs.graphics_mb (part (codes "graphics") report)
  pub cores :
      HasEnough
        (asked needs.cores)
        (number_of (part (codes "cores") (part (codes "processor") report)))
        (number_of (part (codes "freeCores") (part (codes "processor") report)))

nil_both : {A : Type 0} (xs ys : List A) → xs ++ ys ≡ [] → (xs ≡ []) × (ys ≡ [])
nil_both [] ys h = (refl, h)
nil_both (x ∷ xs) ys h = cc

short_of-nil :
    (kind : Kind) (needed total free : Option Decimal) (shown : Option Json)
    → short_of kind needed total free shown ≡ []
    → HasEnough needed total free
short_of-nil kind none total free shown h = tt
short_of-nil kind (some n) none free shown h = tt
short_of-nil kind (some n) (some t) none shown h = (ground (arith), tt)
short_of-nil kind (some n) (some t) (some f) shown h = (ground (arith), ground (arith))

short_of-HasEnough :
    (kind : Kind) (needed total free : Option Decimal) (shown : Option Json)
    → HasEnough needed total free
    → short_of kind needed total free shown ≡ []
short_of-HasEnough kind none total free shown h = refl
short_of-HasEnough kind (some n) none free shown h = refl
short_of-HasEnough kind (some n) (some t) none shown (all_, free) = rw all_ refl
short_of-HasEnough kind (some n) (some t) (some f) shown (all_, free) = rw (all_, free) refl

-- What is put down where a test holds.
put_down :
    (b : Bool) (reason : Reason) (rest : List Reason)
    → (if b then reason ∷ [] else rest) ≡ []
    → (b ≡ false) × (rest ≡ [])
put_down true reason rest h = cc
put_down false reason rest h = (refl, h)

apart : (a b : Bool) → (a && b) ≡ false → a ≡ true → b ≡ false
apart a b h up = ground (arith)

together : (a b : Bool) → (a ≡ true → b ≡ false) → (a && b) ≡ false
together true b h = h refl
together false b h = refl

module _ (needs : Needs) (report : Option Json) where
  Meets-of_nil : shortfalls needs report ≡ [] → Meets needs report
  unfolding shortfalls
  Meets-of_nil h =
      let (network_, h1) = nil_both (without_network needs report) _ h in
      let (memory_, h2) =
        nil_both (measured memory needs.memory_mb (part (codes "memory") report)) _ h1 in
      let (disk_, h3) = nil_both (measured disk needs.disk_mb (part (codes "disk") report)) _ h2 in
      let (graphics_, cores) =
        nil_both (without_graphics needs report) (without_processor needs report) h3 in
      let (card, rest) = put_down _ _ _ graphics_ in
      record {
        network = apart _ _ (put_down _ _ _ network_).0;
        memory_mb = short_of-nil _ _ _ _ _ memory_;
        disk_mb = short_of-nil _ _ _ _ _ disk_;
        card = apart _ _ card;
        graphics_mb = short_of-nil _ _ _ _ _ rest;
        cores = short_of-nil _ _ _ _ _ cores;
      }

  nil-of_Meets : Meets needs report → shortfalls needs report ≡ []
  unfolding shortfalls
  nil-of_Meets h =
      rw
        (
          together _ _ h.network,
          short_of-HasEnough memory _ _ _ (part (codes "freeMb") (part (codes "memory") report))
              h.memory_mb,
          short_of-HasEnough disk _ _ _ (part (codes "freeMb") (part (codes "disk") report))
              h.disk_mb,
          together _ _ h.card,
          short_of-HasEnough graphics _ _ _ (part (codes "freeMb") (part (codes "graphics") report))
              h.graphics_mb,
        )
        (short_of-HasEnough processor _ _ _
          (only_number (part (codes "freeCores") (part (codes "processor") report))) h.cores)

  -- The shortfalls are none exactly when the machine meets the needs: with the network where it is
  -- needed and its want is reported, a card where one is needed, and of each measured part, as far
  -- as the machine reports it, as much as is needed in all and free.
  pub shortfalls-Meets : (shortfalls needs report ≡ []) ↔ Meets needs report
  shortfalls-Meets = (Meets-of_nil, nil-of_Meets)

-- A reason that says what is needed and what the machine has in all is permanent exactly when the
-- machine has less in all.
abbrev pub IsJudged : Reason → Type 0
IsJudged reason =
    (needed total : Decimal)
    → reason.needed ≡ some needed
    → reason.total ≡ some total
    → (reason.lasting ≡ permanent) ↔ (less total needed ≡ true)

IsJudged-of :
    (kind : Kind) (lasting : Lasting) (n t : Decimal) (shown : Option Json)
    → (lasting ≡ permanent) ↔ (less t n ≡ true)
    → IsJudged (record {
      kind = kind;
      lasting = lasting;
      needed = some n;
      free = shown;
      total = some t;
      note = none;
    })
IsJudged-of kind lasting n t shown h needed total p q =
    let same_needed : n ≡ needed = cc in
    let same_total : t ≡ total = cc in
    subst (λ x. (lasting ≡ permanent) ↔ (less total x ≡ true)) same_needed
      (subst (λ y. (lasting ≡ permanent) ↔ (less y n ≡ true)) same_total h)

IsJudged-said : (kind : Kind) (lasting : Lasting) (note : Text) → IsJudged (said kind lasting note)
IsJudged-said kind lasting note needed total p q = cc

-- A reason that is put down only where a test holds.
All-if :
    (b : Bool) (reason : Reason) (rest : List Reason)
    → IsJudged reason
    → All IsJudged rest
    → All IsJudged (if b then reason ∷ [] else rest)
All-if true reason rest h k = (h, tt)
All-if false reason rest h k = k

when_less-IsJudged :
    (amount : Option Decimal) (n : Decimal) (reason : Reason)
    → IsJudged reason
    → All IsJudged (when_less amount n reason)
when_less-IsJudged none n reason h = tt
when_less-IsJudged (some f) n reason h = All-if (less f n) reason [] h tt

short_of-IsJudged :
    (kind : Kind) (needed total free : Option Decimal) (shown : Option Json)
    → All IsJudged (short_of kind needed total free shown)
short_of-IsJudged kind none total free shown = tt
short_of-IsJudged kind (some n) none free shown = tt
short_of-IsJudged kind (some n) (some t) free shown = elim (Bool-cases (less t n)) [
  | inl e ↦ rw e (IsJudged-of kind permanent n t shown ((λ h. e), (λ h. refl)), tt)
  | inr e ↦
      rw e
        (when_less-IsJudged free n _ (IsJudged-of kind temporary n t shown ((λ h. cc), (λ h. cc))))
]

module _ (needs : Needs) (report : Option Json) where
  measured-IsJudged :
      (kind : Kind) (needed : Option Decimal) (there : Option Json)
      → All IsJudged (measured kind needed there)
  measured-IsJudged kind needed there =
      short_of-IsJudged kind (asked needed) (number_of (part (codes "totalMb") there))
        (number_of (part (codes "freeMb") there)) (part (codes "freeMb") there)

  graphics-IsJudged : All IsJudged (without_graphics needs report)
  graphics-IsJudged =
      All-if (is_asked (asked needs.graphics_mb) && is_null (part (codes "graphics") report))
        (said graphics permanent (codes "this machine has no graphics card it can use"))
        (measured graphics needs.graphics_mb (part (codes "graphics") report))
        (IsJudged-said graphics permanent (codes "this machine has no graphics card it can use"))
        (measured-IsJudged graphics needs.graphics_mb (part (codes "graphics") report))

  processor-IsJudged : All IsJudged (without_processor needs report)
  processor-IsJudged =
      short_of-IsJudged processor (asked needs.cores)
        (number_of (part (codes "cores") (part (codes "processor") report)))
        (number_of (part (codes "freeCores") (part (codes "processor") report)))
        (only_number (part (codes "freeCores") (part (codes "processor") report)))

  -- Whatever is needed and reported, a shortfall that says what is needed and what the machine has
  -- in all is permanent exactly when the machine has less in all.
  pub shortfalls-IsJudged : All IsJudged (shortfalls needs report)
  unfolding shortfalls
  shortfalls-IsJudged =
      let last = without_graphics needs report ++ without_processor needs report in
      let third = measured disk needs.disk_mb (part (codes "disk") report) in
      let second = measured memory needs.memory_mb (part (codes "memory") report) in
      All-append IsJudged (without_network needs report) (second ++ (third ++ last))
        (All-if (needs.network && is_false (part (codes "network") report)) _ []
          (IsJudged-said network temporary (codes "no network")) tt)
        (All-append IsJudged second (third ++ last)
          (measured-IsJudged memory needs.memory_mb (part (codes "memory") report))
          (All-append IsJudged third last
            (measured-IsJudged disk needs.disk_mb (part (codes "disk") report))
            (All-append IsJudged (without_graphics needs report) (without_processor needs report)
              graphics-IsJudged processor-IsJudged)))
