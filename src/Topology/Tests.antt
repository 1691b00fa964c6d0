-- ===== src/Topology/Tests.antt =====
-- Runs of LocalNodes, and instances of the theorems about requests.
use sema_core.Prelude.{
  ◌≡◌, ◌≢◌, refl, Bool, none, some, [], ◌∷◌, Text, codes, err, lookup, insert, remove, text_eq,
  split, trim, trim_start, is_space,
}
use sema_core.Identity.{encode, symbol}
use sema_core.Topology.Types.{
  organization, user, machine, active, retired, instant, order, LocalNode, Shutdown, empty_seats,
  may_hold, require_may_hold, valid_id, entry, cannot_sit_under, node_suspended,
}
use sema_core.Topology.Counter.{advance, next_value}
use sema_core.Topology.Store
use sema_core.Topology.Store.{Store, empty}
use sema_core.Topology.Node.{require_usable, require_active, count, describe_node}
use sema_core.Topology.Placing
use sema_core.Topology.Placing.{fresh_node}
use sema_core.Topology.Issuing
use sema_core.Topology.Issuing.{issue_child_id, issue_basis}
use sema_core.Topology.Requests
use sema_core.Topology.Requests.{Request, perform, serve, run}
use sema_core.Topology.Requests.Invariants.{AllSound, serve-AllSound}
use sema_core.Topology.Requests.Frozen.{
  with_list_mark, serve-retired, perform-shut, serve-same, IsUntouched,
}
use sema_core.Topology.Requests.Held.{AllHeld}
use sema_core.Topology.Requests.Lawful.{serve-AllHeld}
use sema_core.Topology.Requests.Fresh.{Issues, child, basis, issued_once}

topology : Unit {0}
unfolding Store.insert Store.mutate Store.list_of Store.put_children Store.children
    Store.count_entries lookup insert remove text_eq split trim valid_id entry may_hold
    require_may_hold advance next_value encode symbol require_usable require_active count
    describe_node Placing.accept Placing.set_shutdown Placing.checked_reason Placing.retire
    Placing.set_parent issue_child_id issue_basis Issuing.set_basis Issuing.segments
    Issuing.set_next_basis Requests.run Requests.perform Requests.serve
topology = tt

abbrev company : Text
company = codes "3"

abbrev new_company : Request
new_company =
    Requests.accept
      (record { id = company; type = some organization; parent_id = none; parent_address = none })

abbrev new_user : Request
new_user = Requests.issue_child_id company (record { type = some user; address = none })

abbrev founded : Store
founded = serve (new_company ∷ new_user ∷ []) empty

founded_node :
    Store.get company founded
    ≡ some
        (record (fresh_node company organization active) { seats = some empty_seats; issued = 1 })
unfolding topology
founded_node = refl

no_machine :
    run (Requests.issue_child_id company (record { type = some machine; address = none })) founded
    ≡ err (cannot_sit_under machine organization)
unfolding topology
no_machine = refl

empty-AllSound : AllSound empty
unfolding lookup
empty-AllSound id n held = cc

serve-AllSound_example : AllSound (serve (new_company ∷ new_user ∷ []) empty)
serve-AllSound_example = serve-AllSound (new_company ∷ new_user ∷ []) empty empty-AllSound

abbrev gone : Store
gone = perform (Requests.retire company) founded

abbrev company_node : LocalNode
company_node = record (fresh_node company organization active) {
  seats = some empty_seats;
  issued = 1;
}

gone_node : Store.get company gone ≡ some (record company_node { status = retired })
unfolding topology
gone_node = refl

serve-retired_example :
    (complete : Bool) × (Store.get company (serve (new_user ∷ []) gone)
      ≡ some (with_list_mark (record company_node { status = retired }) complete))
serve-retired_example =
    serve-retired (new_user ∷ []) gone company (record company_node { status = retired }) gone_node
      refl

abbrev stop : Shutdown
stop = record { node_id = company; reason = codes "lost"; by = none; at = instant 5; via = order }

abbrev down : Store
down =
    perform
      (Requests.set_shutdown company (
        some (record {
          node_id = company;
          reason = some (codes " lost");
          by = some [];
          at = instant 5;
          via = some order;
        })))
      founded

down_node : Store.get company down ≡ some (record company_node { shutdown = some stop })
unfolding topology is_space trim_start
down_node = refl

refused_while_down : run new_user down ≡ err node_suspended
unfolding topology is_space trim_start
refused_while_down = refl

perform-shut_example :
    (m : LocalNode) × (Store.get company (perform new_user down) ≡ some m)
    × IsUntouched (record company_node { shutdown = some stop }) m
perform-shut_example =
    perform-shut new_user down company (record company_node { shutdown = some stop }) stop down_node
      refl

serve-same_example :
    (m : LocalNode) × (Store.get company (serve (Requests.retire company ∷ []) founded) ≡ some m)
    × (m.id ≡ company)
    × (m.type ≡ organization)
serve-same_example =
    serve-same (Requests.retire company ∷ []) founded company company_node founded_node

abbrev twice : Store
twice = perform new_user founded

twice_node : Store.get company twice ≡ some (record company_node { issued = 2 })
unfolding topology
twice_node = refl

first_issue : Issues company founded (codes "3-4") twice
unfolding topology
first_issue =
    child (record { type = some user; address = none })
      (record { value = codes "3-4"; child_count = 2 }) refl refl

second_issue :
    Issues company (serve (Requests.set_parent company (codes "4") none ∷ []) twice) (codes "3-5") (
      perform
        (Requests.issue_basis company)
        (serve (Requests.set_parent company (codes "4") none ∷ []) twice))
unfolding topology
second_issue = basis refl

founded-AllSound : AllSound twice
unfolding serve
founded-AllSound = serve-AllSound (new_company ∷ new_user ∷ new_user ∷ []) empty empty-AllSound

issued_once_example : codes "3-4" ≢ codes "3-5"
issued_once_example =
    issued_once company founded twice
      (perform (Requests.issue_basis company)
        (serve (Requests.set_parent company (codes "4") none ∷ []) twice))
      (codes "3-4") (codes "3-5") (record company_node { issued = 2 })
      (Requests.set_parent company (codes "4") none ∷ []) founded-AllSound first_issue twice_node
      ((λ e. cc), tt) second_issue

empty-AllHeld : AllHeld empty
unfolding lookup
empty-AllHeld id es found = cc

serve-AllHeld_example : AllHeld (serve (new_company ∷ new_user ∷ []) empty)
serve-AllHeld_example = serve-AllHeld (new_company ∷ new_user ∷ []) empty empty-AllHeld
