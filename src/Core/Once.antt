-- ===== src/Core/Once.antt =====
-- An identifier is reserved once and consumed once.
use sema_core.Prelude.{
  ◌≡◌, inl, inr, refl, sym, ◌∙◌, ap, some, List, [], ◌∷◌, Text, lookup, insert, lookup-insert_self,
  ok, err,
}
use sema_core.Core.Types.{Identifier, reserved, issued, JsonObject, CoreError}
use sema_core.Core.Store.{CoreStore, consume_reserved_identifier}
use sema_core.Core.Consuming.{consumed, consume_cases}
use sema_core.Core.Requests.{Call, call_on, calls_on}
use sema_core.Core.Sound.{IsSoundCore, consumes, call_on-Effect}
use sema_core.Core.Kept.{Effect-kept, Effect-IsSoundCore}

-- From a sound store, whatever calls come and whether they return or throw, every identifier
-- stands under its own ID, which is the KeyID of its local value under the installation, and its
-- local value is above zero and below the next one.
pub calls_on-IsSoundCore :
    (cs : List Call) (s : CoreStore) → IsSoundCore s → IsSoundCore (calls_on cs s)
unfolding calls_on
calls_on-IsSoundCore [] s sound = sound
calls_on-IsSoundCore (c ∷ cs) s sound =
    calls_on-IsSoundCore cs (call_on c s)
      (Effect-IsSoundCore sound (call_on c s) (call_on-Effect c s sound))

calls_on-issued :
    (cs : List Call) (s : CoreStore) (id : Text) (x : Identifier)
    → IsSoundCore s
    → lookup id s.identifiers ≡ some x
    → x.status ≡ issued
    → (y : Identifier) × (lookup id (calls_on cs s).identifiers ≡ some y) × (y.status ≡ issued)
unfolding calls_on
calls_on-issued [] s id x sound held out = (x, held, out)
calls_on-issued (c ∷ cs) s id x sound held out =
    let effect = call_on-Effect c s sound in
    let (y, there, later) = Effect-kept sound (call_on c s) id x effect held in
    calls_on-issued cs (call_on c s) id y (Effect-IsSoundCore sound (call_on c s) effect) there
      (later.still_issued out)

-- In a sound store, an identifier that was consumed is never consumed again: whatever calls come
-- in between, the second attempt throws and changes nothing.
pub consumed_once :
    (s t : CoreStore) (reservation_id id : Text) (metadata : JsonObject) (x : Identifier)
    → IsSoundCore s
    → consume_reserved_identifier reservation_id id metadata s ≡ (ok x, t)
    → (cs : List Call) (again : Text) (more : JsonObject)
    → (e : CoreError) × (consume_reserved_identifier again id more (calls_on cs t)
        ≡ (err e, calls_on cs t))
consumed_once s t reservation_id id metadata x sound first cs again more =
    elim (consume_cases reservation_id id metadata s) [
      | inl (e, refused) ↦ cc
      | inr done ↦
          let written : record s {
            identifiers = insert id (consumed done.identifier metadata) s.identifiers;
          }
              ≡ t =
            ap (λ p. p.1) (sym done.returned ∙ first) in
          let sound_after = Effect-IsSoundCore sound t (
            consumes id done.identifier metadata done.held done.is_reserved
              (ap (λ (u : CoreStore). u.state) written)
              (ap (λ (u : CoreStore). u.identifiers) written)) in
          let there : lookup id t.identifiers ≡ some (consumed done.identifier metadata) =
            ap (λ (u : CoreStore). lookup id u.identifiers) (sym written)
            ∙ lookup-insert_self id (consumed done.identifier metadata) s.identifiers in
          let (y, still, out) =
            calls_on-issued cs t id (consumed done.identifier metadata) sound_after there refl in
          elim (consume_cases again id more (calls_on cs t)) [
            | inl refused ↦ refused
            | inr twice ↦
                let same : twice.identifier ≡ y = cc (twice.held, still) in
                let clash : reserved ≡ issued =
                  sym twice.is_reserved ∙ ap (λ (i : Identifier). i.status) same ∙ out in
                cc
          ]
    ]
