-- ===== src/Capabilities/Steps.antt =====
-- Rules for the operations of CapabilityRegistry: which records the state holds at each step.
use mathlib.Core.Path.{subst}
use sema_core.Prelude.{ℕ, ◌≡◌, refl, sym, Text, ok, err}
use sema_core.Core.Exec.{Exec, ◌>>=◌, read}
use sema_core.Core.Rules.{IsLeft, Ensures}
use sema_core.Core.Types.{JsonObject}
use sema_core.Capabilities.Values.{RecordError, Checked}
use sema_core.Capabilities.Records.{Records, ServiceInstance, InstanceChange, update_instance}
use sema_core.Capabilities.Registry.{Registry, Issue, new_id, store, stored, update, updated}
use sema_core.Capabilities.Consistent.{IsConsistent, Extends-refl, Extends-trans}
use sema_core.Capabilities.Adding.{Kept}

pub Kept-trans : (base r t : Records) → Kept base r → Kept r t → Kept base t
Kept-trans base r t (good, first) (better, then_) = (better, Extends-trans base r t first then_)

pub Kept-refl : (r : Records) → IsConsistent r → Kept r r
Kept-refl r good = (good, Extends-refl r)

module _ {W : Type 0} where
  -- The records are consistent and extend `base`.
  abbrev pub Good : Records → Registry W → Type 0
  Good base s = Kept base s.records

  -- The records are `r`.
  abbrev pub At : Records → Registry W → Type 0
  At r s = s.records ≡ r

  -- An operation that leaves good records, whether it returns or throws.
  abbrev pub Keeps : {A : Type 0} → Records → Exec (Registry W) RecordError A → Type 0
  Keeps base m = Ensures (Good base) m (λ a. Good base) (Good base)

  pub At-Good : (base r : Records) → Kept base r → (s : Registry W) → At r s → Good base s
  At-Good base r good s at = subst (Kept base) (sym at) good

  -- After a read the records are those that were read.
  pub At-read :
      {B : Type 0} {P : Registry W → Type 0} (f : Registry W → Exec (Registry W) RecordError B)
      {Q : B → Registry W → Type 0} {R : Registry W → Type 0}
      → ((s : Registry W) → P s → Ensures (At s.records) (f s) Q R)
      → Ensures P (read >>= f) Q R
  unfolding ◌>>=◌
  At-read f rest = record { run = λ s h. (rest s h).run s refl }

  -- What is proved for the records as they stand holds from any state.
  pub as_it_stands :
      {A : Type 0} {P : Registry W → Type 0} {m : Exec (Registry W) RecordError A}
      {Q : A → Registry W → Type 0} {R : Registry W → Type 0}
      → ((s : Registry W) → P s → Ensures (At s.records) m Q R)
      → Ensures P m Q R
  as_it_stands rest = record { run = λ s h. (rest s h).run s refl }

  module _ (issue : Issue W) (time : ℕ) (base r : Records) (good : Kept base r) where
    -- Issuing an ID leaves the records.
    issued_Good :
        (left : Checked Text × W)
        → IsLeft {S = Registry W}
            (λ (a : Text). At r)
            (Good base)
            (left.0, record { records = r; world = left.1 })
    issued_Good (ok id, world) = refl
    issued_Good (err e, world) = good

    Good-after_id :
        (q : Records) (left : Checked Text × W)
        → r ≡ q
        → IsLeft {S = Registry W}
            (λ (a : Text). At r)
            (Good base)
            (left.0, record { records = q; world = left.1 })
    Good-after_id q left same =
        subst
          (λ x.
            IsLeft {S = Registry W} (λ (a : Text). At r) (Good base)
              (left.0, record { records = x; world = left.1 }))
          same (issued_Good left)

    pub Ensures-new_id :
        (type_code : Text) (metadata : JsonObject)
        → Ensures (At r) (new_id issue time type_code metadata) (λ id. At r) (Good base)
    unfolding new_id
    Ensures-new_id type_code metadata = record {
      run = λ s h. Good-after_id s.records (issue type_code metadata s.world) (sym h);
    }

    stored_to :
        {Q : Records → Type 0} (s : Registry W) (left : Checked Records)
        → At r s
        → ((t : Records) → left ≡ ok t → Q t)
        → IsLeft
            (λ (a : Unit {0}) (t : Registry W). Q t.records)
            (Good base)
            (stored issue time s left)
    stored_to s (ok t) at keeps = keeps t refl
    stored_to s (err e) at keeps = At-Good base r good s at

    -- An addition to `r` that makes `Q` hold.
    pub Ensures-store_to :
        {Q : Records → Type 0} (add : Records → Checked Records)
        → ((t : Records) → add r ≡ ok t → Q t)
        → Ensures (At r) (store issue time add) (λ a s. Q s.records) (Good base)
    unfolding store
    Ensures-store_to {Q} add keeps = record {
      run = λ s h.
          stored_to {Q = Q} s (add s.records) h (λ t e. keeps t (subst (λ q. add q ≡ ok t) h e));
    }

    -- An addition that keeps `r` good.
    pub Ensures-store :
        (add : Records → Checked Records)
        → ((t : Records) → add r ≡ ok t → Kept r t)
        → Ensures (At r) (store issue time add) (λ a. Good base) (Good base)
    Ensures-store add keeps =
        Ensures-store_to {Q = Kept base} add (λ t e. Kept-trans base r t good (keeps t e))

    updated-Good :
        (s : Registry W) (left : Checked (ServiceInstance × Records))
        → At r s
        → ((i : ServiceInstance) (t : Records) → left ≡ ok (i, t) → Kept r t)
        → IsLeft (λ (a : ServiceInstance). Good base) (Good base) (updated issue time s left)
    updated-Good s (ok (i, t)) at keeps = Kept-trans base r t good (keeps i t refl)
    updated-Good s (err e) at keeps = At-Good base r good s at

    -- A change of an instance that keeps `r` good.
    pub Ensures-update :
        (id : Text) (change : InstanceChange)
        → ((i : ServiceInstance) (t : Records) → update_instance id change r ≡ ok (i, t) → Kept r t)
        → Ensures (At r) (update issue time id change) (λ a. Good base) (Good base)
    unfolding update
    Ensures-update id change keeps = record {
      run = λ s h.
          updated-Good s (update_instance id change s.records) h
            (λ i t e. keeps i t (subst (λ q. update_instance id change q ≡ ok (i, t)) h e));
    }
