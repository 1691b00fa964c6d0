-- ===== src/Core/Issuing.antt =====
-- What issuing an identifier does.
use Prim.Native.Nat.{◌<◌}
use sema_core.Prelude.{
  ℕ, ◌+◌, ◌≡◌, refl, arith, Option, none, some, [], ◌∷◌, Text, lookup, insert, lookup-insert_self,
  text_eq_refl, truthy, ltb, ok, false,
}
use sema_core.Identity.{pos}
use sema_core.Topology.Types.{whole}
use sema_core.Core.Exec.{◌>>=◌}
use sema_core.Core.Types.{IdentityState, Identifier, issued, JsonObject}
use sema_core.Core.Store.{CoreStore, NewIdentifiers, consume_reserved_identifier}
use sema_core.Core.Sema.{issue_identifier, reserve, consume}
use sema_core.Core.Inputs.{checked_type_code}
use sema_core.Core.Reserving.{key_of, made, store_after, reserve_identifiers-made, reservation_of}
use sema_core.Core.Consuming.{consumed}
use sema_core.Core.Sound.{IsSoundCore}
use sema_core.Core.Fresh.{lookup-none}
use sema_core.Core.Kept.{fresh_key}

-- One identifier of the given type.
abbrev one : Option Text → JsonObject → NewIdentifiers
one code metadata = record { count = 1; type_code = code; metadata = metadata }

module _ (s : CoreStore) (st : IdentityState) (sound : IsSoundCore s) (there : s.state ≡ some st)
    (code : Option Text) (metadata : JsonObject) (time : ℕ) where
  abbrev key : Text
  key = key_of st.installation_id st.next_local_id

  abbrev reserved_store : CoreStore
  reserved_store = store_after st (one code metadata) time s

  abbrev new_identifier : Identifier
  new_identifier = made st.installation_id key (one code metadata) st.next_local_id

  abbrev issued_store : CoreStore
  issued_store = record reserved_store {
    identifiers = insert key (consumed new_identifier metadata) reserved_store.identifiers;
  }

  consume-new :
      consume_reserved_identifier key key metadata reserved_store
      ≡ (ok (consumed new_identifier metadata), issued_store)
  unfolding ◌>>=◌ consume_reserved_identifier
  consume-new =
      rw
        (
          lookup-insert_self key (reservation_of st (one code metadata) time) s.reservations,
          lookup-insert_self key new_identifier s.identifiers,
          text_eq_refl key,
        )
        refl

  reserve-one :
      (max : ℕ) (type_code : Option Text)
      → 0 < max
      → checked_type_code (truthy type_code) s ≡ (ok code, s)
      → reserve max time (whole (pos 1)) type_code metadata s
        ≡ (ok (reservation_of st (one code metadata) time, new_identifier ∷ []), reserved_store)
  unfolding ◌>>=◌ reserve
  reserve-one max type_code room typed =
      let (valid, above) = sound.valid st there in
      let fits : ltb max 1 ≡ false = ground arith in
      rw (fits, typed) (reserve_identifiers-made s st (one code metadata) time there valid above)

  -- What an identifier that is issued is, and what the store holds after it.
  pub record IsIssued (x : Identifier) (t : CoreStore) : Type 0 where
    pub own_key : x.id ≡ key_of st.installation_id st.next_local_id
    pub is_issued : x.status ≡ issued
    pub is_typed : x.type_code ≡ code
    pub was_new : lookup x.id s.identifiers ≡ none
    pub is_held : lookup x.id t.identifiers ≡ some x
    pub counted : t.state ≡ some (record st { next_local_id = st.next_local_id + 1 })

  -- In a sound store that is initialised, with a maximum above zero and a type code that is
  -- accepted, issuing an identifier returns: the identifier is the installation's next one, it is
  -- new, it is held as issued, and the next local value is one higher.
  pub issue_identifier-IsIssued :
      (max : ℕ) (type_code : Option Text)
      → 0 < max
      → checked_type_code (truthy type_code) s ≡ (ok code, s)
      → (x : Identifier) × (t : CoreStore) × (issue_identifier max time type_code metadata s
          ≡ (ok x, t))
        × IsIssued x t
  unfolding ◌>>=◌ issue_identifier consume
  issue_identifier-IsIssued max type_code room typed = (
    consumed new_identifier metadata,
    issued_store,
    rw (reserve-one max type_code room typed) consume-new,
    record {
      own_key = refl;
      is_issued = refl;
      is_typed = refl;
      was_new =
          lookup-none s.identifiers key
            (λ x held. fresh_key sound st key x st.next_local_id there held (omega arith) refl);
      is_held =
          lookup-insert_self key (consumed new_identifier metadata) reserved_store.identifiers;
      counted = refl;
    },
  )
