-- ===== src/Prelude/Maps.antt =====
-- A JavaScript `Map` with text keys: its entries in the order of insertion. Writing a key that is
-- there keeps its place.
use mathlib.Core.Path.{◌≡◌, refl, sym, ap, ◌∙◌}
use mathlib.Core.Logic.{◌≢◌, ◌⊎◌, inl, inr}
use mathlib.Core.Bool.{false, Bool}
use mathlib.Core.Option.{Option, none, some}
use mathlib.Core.List.{List, [], ◌∷◌}
use native.Mathlib.Omega.{arith}
use sema_core.Prelude.Tests.{Bool-cases, if◌then◌else◌, is_some}
use sema_core.Prelude.Strings.{Text, text_eq, text_eq_iff, text_eq_refl}

abbrev pub Dict {ℓ} : Type ℓ → Type ℓ
Dict V = List (Text × V)

module _ {ℓ} {V : Type ℓ} where
  -- `map.get(key)`
  unfoldable pub lookup : Text → Dict V → Option V
  lookup key [] = none
  lookup key ((other, value) ∷ rest) = if text_eq other key then some value else lookup key rest

  -- `map.has(key)`
  abbrev pub has : Text → Dict V → Bool
  has k m = is_some (lookup k m)

  -- `map.set(key, value)`
  unfoldable pub insert : Text → V → Dict V → Dict V
  insert key new [] = (key, new) ∷ []
  insert key new ((other, old) ∷ rest) =
      if text_eq other key then (other, new) ∷ rest else (other, old) ∷ insert key new rest

  -- `map.delete(key)`
  unfoldable pub remove : Text → Dict V → Dict V
  remove k [] = []
  remove k ((j, w) ∷ m) = let rest = remove k m in if text_eq j k then rest else (j, w) ∷ rest

  -- `[...map.values()]`
  abbrev pub values : Dict V → List V
  values [] = []
  values ((k, v) ∷ m) = v ∷ values m

  pub lookup-insert :
      (k j : Text) (v : V) (m : Dict V)
      → lookup j (insert k v m) ≡ (if text_eq k j then some v else lookup j m)
  unfolding lookup insert
  lookup-insert k j v [] = refl
  lookup-insert k j v ((i, w) ∷ m) =
      ground (arith, text_eq_iff k j, text_eq_iff i k, text_eq_iff i j, lookup-insert k j v m)

  pub lookup-remove :
      (k j : Text) (m : Dict V) → lookup j (remove k m) ≡ (if text_eq k j then none else lookup j m)
  unfolding lookup remove
  lookup-remove k j [] = ground arith
  lookup-remove k j ((i, w) ∷ m) =
      ground (arith, text_eq_iff k j, text_eq_iff i k, text_eq_iff i j, lookup-remove k j m)

  -- A key that was not there hides no other.
  pub lookup-insert_new :
      (k j : Text) (w v : V) (m : Dict V)
      → has k m ≡ false
      → lookup j m ≡ some v
      → lookup j (insert k w m) ≡ some v
  lookup-insert_new k j w v m absent held = lookup-insert k j w m ∙ ground (arith, text_eq_iff k j)

  pub lookup-insert_self : (k : Text) (v : V) (m : Dict V) → lookup k (insert k v m) ≡ some v
  lookup-insert_self k v m = lookup-insert k k v m ∙ ground (arith, text_eq_refl k)

  -- What is found after a write is what was written, or what was there.
  pub lookup-insert_cases :
      (k j : Text) (v w : V) (m : Dict V)
      → lookup j (insert k v m) ≡ some w
      → ((k ≡ j) × (v ≡ w)) ⊎ ((k ≢ j) × (lookup j m ≡ some w))
  lookup-insert_cases k j v w m h = elim (Bool-cases (text_eq k j)) [
    | inl e ↦
        let same : some v ≡ some w = sym (lookup-insert k j v m ∙ ap (choice v m) e) ∙ h in
        inl ((text_eq_iff k j).0 e, cc)
    | inr e ↦
        inr (ground (arith, text_eq_iff k j), sym (lookup-insert k j v m ∙ ap (choice v m) e) ∙ h)
  ]
    where
      choice : V → Dict V → Bool → Option V
      choice x n b = if b then some x else lookup j n
