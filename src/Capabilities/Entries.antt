-- ===== src/Capabilities/Entries.antt =====
-- The entries of a map, and what finding, adding and changing one does to them.
use mathlib.Core.Path.{subst}
use sema_core.Prelude.{
  ◌≡◌, ◌≢◌, ◌⊎◌, inl, inr, refl, sym, ◌∙◌, ap, arith, Bool, true, false, Bool-cases, some,
  Option-cases, [], ◌∷◌, Text, Dict, lookup, lookup-insert, insert, has, text_eq, text_eq_iff,
  if◌then◌else◌,
}
use sema_core.Capabilities.Records.{find_in, is_found}

module _ {V : Type 0} where
  -- The key and the value stand together in the map.
  abbrev pub IsIn : Text → V → Dict V → Type 0
  IsIn k v [] = ⊥
  IsIn k v ((j, w) ∷ m) = ((j ≡ k) × (w ≡ v)) ⊎ IsIn k v m

  pub IsIn-lookup : (k : Text) (v : V) (m : Dict V) → lookup k m ≡ some v → IsIn k v m
  unfolding lookup
  IsIn-lookup k v [] h = cc
  IsIn-lookup k v ((j, w) ∷ m) h = elim (Bool-cases (text_eq j k)) [
    | inl e ↦ inl ((text_eq_iff j k).0 e, let same : some w ≡ some v = rw e at h in cc)
    | inr e ↦ inr (IsIn-lookup k v m (rw e at h))
  ]

  pub IsIn-find :
      (test : V → Bool) (v : V) (m : Dict V)
      → find_in test m ≡ some v
      → (k : Text) × IsIn k v m × (test v ≡ true)
  unfolding find_in
  IsIn-find test v [] h = cc
  IsIn-find test v ((j, w) ∷ m) h = elim (Bool-cases (test w)) [
    | inl e ↦
        let same : some w ≡ some v = rw e at h in
        let at : w ≡ v = cc in (j, inl (refl, at), ap test (sym at) ∙ e)
    | inr e ↦ let (k, there, passed) = IsIn-find test v m (rw e at h) in (k, inr there, passed)
  ]

  -- A search that finds nothing has tested every value.
  pub find_none :
      (test : V → Bool) (k : Text) (v : V) (m : Dict V)
      → is_found (find_in test m) ≡ false
      → IsIn k v m
      → test v ≡ false
  unfolding find_in
  find_none test k v [] h there = absurd there
  find_none test k v ((j, w) ∷ m) h there = elim (Bool-cases (test w)) [
    | inl e ↦ let no : true ≡ false = rw e at h in cc
    | inr e ↦ elim there [
      | inl (_, same) ↦ ap test (sym same) ∙ e
      | inr later ↦ find_none test k v m (rw e at h) later
    ]
  ]

  pub IsIn-insert_cases :
      (j : Text) (w : V) (m : Dict V) (k : Text) (v : V)
      → IsIn k v (insert j w m)
      → ((j ≡ k) × (w ≡ v)) ⊎ IsIn k v m
  unfolding insert
  IsIn-insert_cases j w [] k v there = there
  IsIn-insert_cases j w ((i, u) ∷ m) k v there = elim (Bool-cases (text_eq i j)) [
    | inl e ↦
        elim (subst (IsIn k v) (ap (λ b. if b then (i, w) ∷ m else (i, u) ∷ insert j w m) e)
          there) [
            | inl (here, same) ↦ inl (sym ((text_eq_iff i j).0 e) ∙ here, same)
            | inr later ↦ inr (inr later)
          ]
    | inr e ↦
        elim (subst (IsIn k v) (ap (λ b. if b then (i, w) ∷ m else (i, u) ∷ insert j w m) e)
          there) [
            | inl here ↦ inr (inl here)
            | inr later ↦ elim (IsIn-insert_cases j w m k v later) [
              | inl new ↦ inl new
              | inr old ↦ inr (inr old)
            ]
          ]
  ]

  -- A new key leaves every entry where it was.
  pub IsIn-insert_new :
      (j : Text) (w : V) (m : Dict V) (k : Text) (v : V)
      → has j m ≡ false
      → IsIn k v m
      → IsIn k v (insert j w m)
  unfolding insert lookup
  IsIn-insert_new j w [] k v absent there = absurd there
  IsIn-insert_new j w ((i, u) ∷ m) k v absent there = elim (Bool-cases (text_eq i j)) [
    | inl e ↦ let no : true ≡ false = rw e at absent in cc
    | inr e ↦ rw e (elim there [
      | inl here ↦ inl here
      | inr later ↦ inr (IsIn-insert_new j w m k v (rw e at absent) later)
    ])
  ]

  pub IsIn-insert_self : (j : Text) (w : V) (m : Dict V) → IsIn j w (insert j w m)
  unfolding insert
  IsIn-insert_self j w [] = inl (refl, refl)
  IsIn-insert_self j w ((i, u) ∷ m) = elim (Bool-cases (text_eq i j)) [
    | inl e ↦ rw e (inl ((text_eq_iff i j).0 e, refl))
    | inr e ↦ rw e (inr (IsIn-insert_self j w m))
  ]

  -- Every key stands once.
  abbrev pub IsMap : Dict V → Type 0
  IsMap [] = Unit
  IsMap ((k, v) ∷ m) = (has k m ≡ false) × IsMap m

  has-insert :
      (k j : Text) (w : V) (m : Dict V) → k ≢ j → has k m ≡ false → has k (insert j w m) ≡ false
  has-insert k j w m other absent = ground (arith, lookup-insert j k w m, text_eq_iff j k)

  pub IsMap-insert : (j : Text) (w : V) (m : Dict V) → IsMap m → IsMap (insert j w m)
  unfolding insert lookup
  IsMap-insert j w [] h = (refl, tt)
  IsMap-insert j w ((i, u) ∷ m) (absent, h) = elim (Bool-cases (text_eq i j)) [
    | inl e ↦ rw e (absent, h)
    | inr e ↦
        rw e (has-insert i j w m (ground (arith, text_eq_iff i j)) absent, IsMap-insert j w m h)
  ]

  absent-IsIn : (k : Text) (v : V) (m : Dict V) → has k m ≡ false → IsIn k v m → ⊥
  unfolding lookup
  absent-IsIn k v [] h there = there
  absent-IsIn k v ((j, w) ∷ m) h there = elim (Bool-cases (text_eq j k)) [
    | inl e ↦ let no : true ≡ false = rw e at h in cc
    | inr e ↦ elim there [
      | inl (here, _) ↦ ground (arith, text_eq_iff j k)
      | inr later ↦ absent-IsIn k v m (rw e at h) later
    ]
  ]

  pub lookup-IsIn : (k : Text) (v : V) (m : Dict V) → IsMap m → IsIn k v m → lookup k m ≡ some v
  unfolding lookup
  lookup-IsIn k v [] h there = absurd there
  lookup-IsIn k v ((j, w) ∷ m) (absent, h) there = elim there [
    | inl (here, same) ↦ rw ((text_eq_iff j k).1 here) (ap some same)
    | inr later ↦ elim (Bool-cases (text_eq j k)) [
      | inl e ↦
          absurd
            (absent-IsIn k v m (subst (λ x. has x m ≡ false) ((text_eq_iff j k).0 e) absent) later)
      | inr e ↦ rw e (lookup-IsIn k v m h later)
    ]
  ]

  -- The key of an entry is the ID that the record bears.
  abbrev pub Named : (V → Text) → Dict V → Type 0
  Named id m = (k : Text) (v : V) → IsIn k v m → id v ≡ k

  -- What `R` relates stands under one key.
  abbrev pub Once : (V → V → Type 0) → Dict V → Type 0
  Once R m = (j k : Text) (v w : V) → IsIn j v m → IsIn k w m → R v w → j ≡ k

  pub Named-insert :
      (id : V → Text) (v : V) (m : Dict V) → Named id m → Named id (insert (id v) v m)
  Named-insert id v m h k w there = elim (IsIn-insert_cases (id v) v m k w there) [
    | inl (here, same) ↦ ap id (sym same) ∙ here
    | inr old ↦ h k w old
  ]

  -- A record that a search for its like did not find.
  pub Once-insert :
      (R : V → V → Type 0) (test : V → Bool) (j : Text) (v : V) (m : Dict V)
      → ((w : V) → R v w ⊎ R w v → test w ≡ true)
      → is_found (find_in test m) ≡ false
      → Once R m
      → Once R (insert j v m)
  Once-insert R test j v m finds none_there once k l w x at_k at_l alike =
      elim (IsIn-insert_cases j v m k w at_k) [
        | inl (j_k, v_w) ↦ elim (IsIn-insert_cases j v m l x at_l) [
          | inl (j_l, _) ↦ sym j_k ∙ j_l
          | inr old ↦
              let found = finds x (inl (subst (λ y. R y x) (sym v_w) alike)) in
              let not_found = find_none test l x m none_there old in cc
        ]
        | inr old ↦ elim (IsIn-insert_cases j v m l x at_l) [
          | inl (_, v_x) ↦
              let found = finds w (inr (subst (R w) (sym v_x) alike)) in
              let not_found = find_none test k w m none_there old in cc
          | inr also ↦ once k l w x old also alike
        ]
      ]

  -- The search finds the one value that it fits.
  pub find_the_one :
      (R : V → V → Type 0) (test : V → Bool) (k : Text) (v : V) (m : Dict V)
      → IsMap m
      → Once R m
      → ((w : V) → test w ≡ true → R v w)
      → IsIn k v m
      → test v ≡ true
      → find_in test m ≡ some v
  find_the_one R test k v m h once alike there passed = elim (Option-cases (find_in test m)) [
    | inl e ↦ let not_found = find_none test k v m (ap is_found e) there in cc
    | inr (w, e) ↦
        let (l, at_l, passes) = IsIn-find test w m e in
        let same : k ≡ l = once k l v w there at_l (alike w passes) in
        let first : lookup k m ≡ some v = lookup-IsIn k v m h there in
        let second : lookup k m ≡ some w = ap (λ x. lookup x m) same ∙ lookup-IsIn l w m h at_l in
        cc
  ]
