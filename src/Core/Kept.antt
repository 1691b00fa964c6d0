-- ===== src/Core/Kept.antt =====
-- What the store's calls keep of its identifiers.
use Prim.Native.Nat.{◌<◌, ◌≤◌}
use mathlib.Core.Path.{subst}
use sema_core.Prelude.{
  ℕ, ◌+◌, ◌≡◌, ◌≢◌, inl, inr, refl, sym, ◌∙◌, ap, arith, some, Text, lookup, lookup-insert,
  lookup-insert_cases, text_eq, text_eq_iff, Bool-cases,
}
use sema_core.Identity.Segments.{IsInstallationId}
use sema_core.Core.Types.{IdentityState, Identifier, issued}
use sema_core.Core.Store.{CoreStore, first_state}
use sema_core.Core.Reserving.{key_of, key_of_eq, lookup-put_from, put_from-kept}
use sema_core.Core.Consuming.{consumed}
use sema_core.Core.Sound.{IsNumbered, IsSoundCore, Effect, nothing, starts, reserves, consumes}

-- Later on an identifier is the same one, and once issued it stays so.
pub record IsLater (x y : Identifier) : Type 0 where
  pub same_value : y.local_value ≡ x.local_value
  pub still_issued : x.status ≡ issued → y.status ≡ issued

IsNumbered-later :
    (st : IdentityState) (more : ℕ) (id : Text) (x : Identifier)
    → IsNumbered st id x
    → IsNumbered (record st { next_local_id = st.next_local_id + more }) id x
IsNumbered-later st more id x h = record {
  own_id = h.own_id;
  key = h.key;
  above = h.above;
  below = omega (arith, h.below);
}

abbrev IsValid : IdentityState → Type 0
IsValid st = IsInstallationId st.installation_id × (0 < st.next_local_id)

module _ {s : CoreStore} (sound : IsSoundCore s) where
  pub IsNumbered-in :
      (st : IdentityState) (id : Text) (x : Identifier)
      → s.state ≡ some st
      → lookup id s.identifiers ≡ some x
      → IsNumbered st id x
  IsNumbered-in st id x there held =
      let (st', there', number) = sound.numbered id x held in
      let same : st' ≡ st = cc in subst (λ y. IsNumbered y id x) same number

  pub fresh_key :
      (st : IdentityState) (id : Text) (x : Identifier) (n : ℕ)
      → s.state ≡ some st
      → lookup id s.identifiers ≡ some x
      → st.next_local_id ≤ n
      → key_of st.installation_id n ≢ id
  fresh_key st id x n there held later same =
      let number = IsNumbered-in st id x there held in
      let (valid, above) = sound.valid st there in
      let e =
        key_of_eq st.installation_id n x.local_value valid (omega arith) number.above
          (same ∙ number.key) in
      omega (arith, number.below, e)

  pub Effect-kept :
      (t : CoreStore) (id : Text) (x : Identifier)
      → Effect s t
      → lookup id s.identifiers ≡ some x
      → (y : Identifier) × (lookup id t.identifiers ≡ some y) × IsLater x y
  Effect-kept t id x (nothing e same) held =
      (x, ap (lookup id) (sym same) ∙ held, record { same_value = refl; still_issued = λ i. i })
  Effect-kept t id x (starts n valid open_place e same) held =
      (x, ap (lookup id) (sym same) ∙ held, record { same_value = refl; still_issued = λ i. i })
  Effect-kept t id x (reserves st input time there e) held = (
    x,
    ap (λ (u : CoreStore). lookup id u.identifiers) (sym e)
        ∙ put_from-kept st.installation_id (key_of st.installation_id st.next_local_id) input
            input.count st.next_local_id s.identifiers id x
            (λ n later. fresh_key st id x n there held later) held,
    record { same_value = refl; still_issued = λ i. i },
  )
  Effect-kept t id x (consumes j z metadata there unused e same) held =
      elim (Bool-cases (text_eq j id)) [
        | inr other ↦ (
          x,
          ap (lookup id) (sym same)
              ∙ (lookup-insert j id (consumed z metadata) s.identifiers ∙ rw other held),
          record { same_value = refl; still_issued = λ i. i },
        )
        | inl here ↦
            let at : j ≡ id = (text_eq_iff j id).0 here in
            let is_x : z ≡ x = cc in
            (
              consumed z metadata,
              ap (lookup id) (sym same)
                  ∙ (lookup-insert j id (consumed z metadata) s.identifiers ∙ rw here refl),
              record {
                same_value = ap (λ (i : Identifier). i.local_value) is_x;
                still_issued = λ i. refl;
              },
            )
      ]

  pub Effect-IsSoundCore : (t : CoreStore) → Effect s t → IsSoundCore t
  Effect-IsSoundCore t (nothing e same) = record {
    valid = λ st there. sound.valid st (e ∙ there);
    numbered = λ id x held.
        let (st, there, number) = sound.numbered id x (ap (lookup id) same ∙ held) in
        (st, sym e ∙ there, number);
  }
  Effect-IsSoundCore t (starts n good open_place e same) = record {
    valid = λ st there.
        let is_first : first_state n ≡ st = cc in subst IsValid is_first (good, omega arith);
    numbered = λ id x held.
        let (st, there, number) = sound.numbered id x (ap (lookup id) same ∙ held) in absurd (cc);
  }
  Effect-IsSoundCore t (reserves st input time there e) = subst IsSoundCore e (record {
    valid = λ st' there'.
        let (good, above) = sound.valid st there in
        let same : record st { next_local_id = st.next_local_id + input.count } ≡ st' = cc in
        subst IsValid same (good, omega arith);
    numbered = λ id x held.
        elim (lookup-put_from st.installation_id (key_of st.installation_id st.next_local_id) input
          input.count st.next_local_id s.identifiers id x held) [
            | inl (n, low, high, is_n, is_made) ↦
                let value : x.local_value ≡ n = ap (λ (i : Identifier). i.local_value) is_made in
                (
                  record st { next_local_id = st.next_local_id + input.count },
                  refl,
                  record {
                    own_id = ap (λ (i : Identifier). i.id) is_made ∙ sym is_n;
                    key = is_n ∙ ap (key_of st.installation_id) (sym value);
                    above = (let (good, above) = sound.valid st there in omega arith);
                    below = omega arith;
                  },
                )
            | inr before ↦
                (_, refl, IsNumbered-later st input.count id x (IsNumbered-in st id x there before))
          ];
  })
  Effect-IsSoundCore t (consumes j z metadata there unused e same) = record {
    valid = λ st there'. sound.valid st (e ∙ there');
    numbered = λ id x held.
        elim (lookup-insert_cases j id (consumed z metadata) x s.identifiers
          (ap (lookup id) same ∙ held)) [
            | inl (here, is_x) ↦
                let (st, there', number) = sound.numbered j z there in
                (
                  st,
                  sym e ∙ there',
                  subst (IsNumbered st id) is_x (record {
                    own_id = number.own_id ∙ here;
                    key = sym here ∙ number.key;
                    above = number.above;
                    below = number.below;
                  }),
                )
            | inr (other, before) ↦
                let (st, there', number) = sound.numbered id x before in
                (st, sym e ∙ there', number)
          ];
  }
