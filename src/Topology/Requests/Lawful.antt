-- ===== src/Topology/Requests/Lawful.antt =====
-- The lists of children, whatever the requests.
use mathlib.Core.Path.{subst}
use sema_core.Prelude.{
  ◌≡◌, refl, List, [], ◌∷◌, ok, err, >>=-eq-ok, refuse_if, require, not, is_empty, text_eq,
  if◌then◌else◌, true,
}
use sema_core.Topology.Types.{
  Outcome, valid_id, bad_node_id, bad_node_type, own_parent, no_replacement,
}
use sema_core.Topology.Store
use sema_core.Topology.Store.{Store}
use sema_core.Topology.Placing
use sema_core.Topology.Placing.{NewNode, LostNode, is_text}
use sema_core.Topology.Requests.{
  Request, state, or_same, run, perform, serve, accept, accept_retired, issue_child_id, issue_basis,
  set_parent, set_basis, set_next_basis, add_children, check_in, set_shutdown, mark_child,
  retire_child, remove_child, set_child_list_complete, set_key_limits, change_seats,
  set_seat_limits, set_seats_used, retire,
}
use sema_core.Topology.Requests.Held.{AllHeld, Evolves-AllHeld, insert-AllHeld}
use sema_core.Topology.Requests.Holding
use sema_core.Topology.Requests.Same
use sema_core.Topology.Requests.Serving.{run-Evolves}

module _ (s : Store) (held : AllHeld s) where
  accept-AllHeld :
      (input : NewNode) (out : _ × Store) → Placing.accept input s ≡ ok out → AllHeld (out.1)
  unfolding Placing.accept
  accept-AllHeld input out h =
      let (u, valid, h₁) = >>=-eq-ok (refuse_if (not (valid_id input.id)) bad_node_id) _ h in
      let (type, known, h₂) = >>=-eq-ok (require input.type bad_node_type) _ h₁ in
      let (v, other, h₃) =
        >>=-eq-ok (refuse_if (is_text input.parent_id input.id) own_parent) _ h₂ in
      let (t, inserted, h₄) = >>=-eq-ok (Store.insert _ s) _ h₃ in
      let last : t ≡ out.1 = cc in subst AllHeld last (insert-AllHeld _ s t inserted held)

  accept_retired-AllHeld :
      (input : LostNode) (out : _ × Store)
      → Placing.accept_retired input s ≡ ok out
      → AllHeld (out.1)
  unfolding Placing.accept_retired
  accept_retired-AllHeld input out h =
      let (u, valid, h₁) = >>=-eq-ok (refuse_if (not (valid_id input.id)) bad_node_id) _ h in
      let (type, known, h₂) = >>=-eq-ok (require input.type bad_node_type) _ h₁ in
      let (v, other, h₃) =
        >>=-eq-ok
          (refuse_if
            (if is_empty input.replacement_id then true else text_eq input.replacement_id input.id)
            no_replacement)
          _ h₂ in
      let (t, inserted, h₄) = >>=-eq-ok (Store.insert _ s) _ h₃ in
      let last : t ≡ out.1 = cc in subst AllHeld last (insert-AllHeld _ s t inserted held)

  of_state :
      {A : Type 0} {t : Store} (m : Outcome (A × Store))
      → ((out : A × Store) → m ≡ ok out → AllHeld (out.1))
      → state m ≡ ok t
      → AllHeld t
  of_state m holds h =
      let (out, e, h₁) = >>=-eq-ok m _ h in
      let last : out.1 ≡ _ = cc in subst AllHeld last (holds out e)

  -- A request that leaves every list as it was.
  of_same :
      {A : Type 0} {t : Store} (r : Request) (m : Outcome (A × Store))
      → run r s ≡ ok t
      → state m ≡ ok t
      → ((out : A × Store) → m ≡ ok out → s.lists ≡ (out.1).lists)
      → AllHeld t
  of_same {t} r m ran h same =
      let (out, e, h₁) = >>=-eq-ok m _ h in
      let last : out.1 ≡ t = cc in
      Evolves-AllHeld s t (run-Evolves r s t ran)
        (subst (λ (x : Store). s.lists ≡ x.lists) last (same out e)) held

  run-AllHeld : (r : Request) (t : Store) → run r s ≡ ok t → AllHeld t
  unfolding run
  run-AllHeld (accept input) t h = of_state (Placing.accept input s) (accept-AllHeld input) h
  run-AllHeld (accept_retired input) t h =
      of_state (Placing.accept_retired input s) (accept_retired-AllHeld input) h
  run-AllHeld (issue_child_id id child) t h =
      of_state _ (Holding.issue_child_id-AllHeld s held id child) h
  run-AllHeld (add_children id given) t h =
      of_state _ (Holding.add_children-AllHeld s held id given) h
  run-AllHeld (check_in id child time) t h =
      of_state _ (Holding.check_in-AllHeld s held id child time) h
  run-AllHeld (mark_child id child mark) t h =
      of_state _ (Holding.mark_child-AllHeld s held id child mark) h
  run-AllHeld (retire_child id child mark) t h =
      of_state _ (Holding.retire_child-AllHeld s held id child mark) h
  run-AllHeld (remove_child id c) t h = of_state _ (Holding.remove_child-AllHeld s held id c) h
  run-AllHeld (issue_basis id) t h = of_same (issue_basis id) _ h h (Same.lists-issue_basis s id)
  run-AllHeld (set_parent id p a) t h =
      of_same (set_parent id p a) _ h h (Same.lists-set_parent s id p a)
  run-AllHeld (set_basis id b) t h = of_same (set_basis id b) _ h h (Same.lists-set_basis s id b)
  run-AllHeld (set_next_basis id b at) t h =
      of_same (set_next_basis id b at) _ h h (Same.lists-set_next_basis s id b at)
  run-AllHeld (set_shutdown id given) t h =
      of_same (set_shutdown id given) _ h h (Same.lists-set_shutdown s id given)
  run-AllHeld (set_child_list_complete id c) t h =
      of_same (set_child_list_complete id c) _ h h (Same.lists-set_child_list_complete s id c)
  run-AllHeld (set_key_limits id input) t h =
      of_same (set_key_limits id input) _ h h (Same.lists-set_key_limits s id input)
  run-AllHeld (change_seats id u m) t h =
      of_same (change_seats id u m) _ h h (Same.lists-change_seats s id u m)
  run-AllHeld (set_seat_limits id u m) t h =
      of_same (set_seat_limits id u m) _ h h (Same.lists-set_seat_limits s id u m)
  run-AllHeld (set_seats_used id u m c) t h =
      of_same (set_seats_used id u m c) _ h h (Same.lists-set_seats_used s id u m c)
  run-AllHeld (retire id) t h = of_same (retire id) _ h h (Same.lists-retire s id)

perform-AllHeld : (r : Request) (s : Store) → AllHeld s → AllHeld (perform r s)
unfolding perform
perform-AllHeld r s held = served (run r s) refl
  where
    served : (x : Outcome Store) → run r s ≡ x → AllHeld (or_same x s)
    served (ok t) e = run-AllHeld s held r t e
    served (err f) e = held

-- From a store in which it holds, whatever the requests, every list of children is the list of a
-- node that is held, each entry stands in it under the entry's own ID, and an entry that is not
-- marked as retired is of a type that the node may hold.
pub serve-AllHeld : (rs : List Request) (s : Store) → AllHeld s → AllHeld (serve rs s)
unfolding serve
serve-AllHeld [] s held = held
serve-AllHeld (r ∷ rs) s held = serve-AllHeld rs (perform r s) (perform-AllHeld r s held)
