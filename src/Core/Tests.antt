-- ===== src/Core/Tests.antt =====
-- Runs of the store, and instances of the theorems about it.
use sema_core.Prelude.{
  arith, ◌≡◌, refl, ok, err, none, some, List, [], ◌∷◌, codes, lookup, insert, trim, trim_start,
  is_space, split, text_eq,
}
use sema_core.Identity.{
  normalize_type_code, to_upper, is_type_code, encode, encode_base56, symbol, parse_installation_id,
  format_key_id, check_segments, decode_base56, assert_segment, in_alphabet, index_of, total_of,
}
use sema_core.Core.Exec.{◌>>=◌}
use sema_core.Core.Types.{CoreError, IdentityState, Identifier, Reservation, issued, active, merge}
use sema_core.Core.Store
use sema_core.Core.Store.{
  CoreStore, NewIdentifiers, empty, reserve_identifiers, consume_reserved_identifier,
  make_identifiers,
}
use sema_core.Core.Sema.{issue_identifier}
use sema_core.Core.Inputs.{checked_type_code}
use sema_core.Core.Issuing.{IsIssued, issue_identifier-IsIssued}
use sema_core.Core.Requests
use sema_core.Core.Requests.{Call, call_on, calls_on}
use sema_core.Core.Sound.{IsSoundCore}
use sema_core.Core.Once.{calls_on-IsSoundCore, consumed_once}
use sema_core.Core.Fresh.{IsGiven, reserve_identifiers-IsGiven}

core : Unit {0}
unfolding ◌>>=◌ lookup insert trim trim_start is_space split text_eq encode symbol
    parse_installation_id format_key_id encode_base56 check_segments decode_base56 assert_segment
    in_alphabet index_of total_of reserve_identifiers consume_reserved_identifier make_identifiers
    Store.initialize_identity call_on calls_on merge
core = tt

empty-IsSoundCore : IsSoundCore empty
unfolding ◌>>=◌ lookup
empty-IsSoundCore = record { valid = λ st there. cc; numbered = λ id x held. cc }

abbrev two : NewIdentifiers
two = record { count = 2; type_code = none; metadata = [] }

abbrev opening : List Call
opening = Requests.initialize_identity (codes "3-4") ∷ Requests.reserve_identifiers two 5 ∷ []

calls_on-IsSoundCore_example : IsSoundCore (calls_on opening empty)
calls_on-IsSoundCore_example = calls_on-IsSoundCore opening empty empty-IsSoundCore

abbrev opened_state : IdentityState
opened_state = record { installation_id = codes "3-4"; next_local_id = 1; status = active }

abbrev opened : CoreStore
opened = record empty {
  state = some (record { installation_id = codes "3-4"; next_local_id = 1; status = active });
}

opened_store : call_on (Requests.initialize_identity (codes "3-4")) empty ≡ opened
unfolding core
opened_store = refl

opened-IsSoundCore : IsSoundCore opened
unfolding calls_on
opened-IsSoundCore =
    rw opened_store at (
      calls_on-IsSoundCore (Requests.initialize_identity (codes "3-4") ∷ []) empty
        empty-IsSoundCore)

reserve_identifiers-IsGiven_example :
    (r : Reservation) × (xs : List Identifier) × (t : CoreStore) × (reserve_identifiers two 5 opened
      ≡ (ok (r, xs), t))
    × IsGiven opened t 2 xs
reserve_identifiers-IsGiven_example =
    reserve_identifiers-IsGiven opened
      (record { installation_id = codes "3-4"; next_local_id = 1; status = active }) two 5
      opened-IsSoundCore refl

abbrev stocked : CoreStore
stocked = call_on (Requests.reserve_identifiers two 5) opened

abbrev second : Identifier
second = record {
  id = codes "3-4-4";
  reservation_id = codes "3-4-3";
  installation_id = codes "3-4";
  local_value = 2;
  local_code = codes "4";
  type_code = none;
  status = issued;
  metadata = [];
}

abbrev spent : CoreStore
spent = call_on (Requests.consume_reserved_identifier (codes "3-4-3") (codes "3-4-4") []) stocked

second_consumed :
    consume_reserved_identifier (codes "3-4-3") (codes "3-4-4") [] stocked ≡ (ok second, spent)
unfolding core
second_consumed = refl

consumed_once_example :
    (e : CoreError) × (consume_reserved_identifier
        (codes "3-4-3")
        (codes "3-4-4")
        []
        (calls_on opening spent)
      ≡ (err e, calls_on opening spent))
unfolding calls_on
consumed_once_example =
    consumed_once stocked spent (codes "3-4-3") (codes "3-4-4") [] second
      (calls_on-IsSoundCore (Requests.reserve_identifiers two 5 ∷ []) opened opened-IsSoundCore)
      second_consumed opening (codes "3-4-3") []

issue_identifier-IsIssued_example :
    (x : Identifier) × (t : CoreStore) × (issue_identifier 10 5 (some (codes "command ")) [] opened
      ≡ (ok x, t))
    × IsIssued opened opened_state opened-IsSoundCore refl (some (codes "COMMAND")) [] 5 x t
unfolding core normalize_type_code to_upper is_type_code
issue_identifier-IsIssued_example =
    issue_identifier-IsIssued opened opened_state opened-IsSoundCore refl (some (codes "COMMAND"))
      [] 5 10 (some (codes "command ")) (omega arith) typed
  where
    typed :
        checked_type_code (some (codes "command ")) opened ≡ (ok (some (codes "COMMAND")), opened)
    typed = refl
