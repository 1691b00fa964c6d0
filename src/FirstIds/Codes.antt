-- ===== src/FirstIds/Codes.antt =====
-- An install code is read back as it was written.
use Prim.Native.Nat.{◌<◌, ◌≤◌}
use sema_core.Prelude.{
  ℕ, ◌≡◌, refl, sym, ◌∙◌, ap, arith, ok, >>=-eq-ok, >>=-of-ok, ok-injective, refuse_if, List, [],
  ◌∷◌, Text, text_eq, text_eq_iff, text_eq_refl, trim, split, join, join-split, split-join,
  trim-NoSpace, NoSpace, is_space, All-append, Lacks, not, ltb, leb, ◌||◌, ◌==◌, true, false,
  all-elem, Bool,
}
use sema_core.Identity.{encode, in_alphabet, alphabet}
use sema_core.Identity.Digits.{InAlphabet}
use sema_core.Identity.Segments.{NoSpace-InAlphabet}
use sema_core.Identity.RoundTrip.{encode-IsSegment, decode-encode}
use sema_core.FirstIds.{
  reserved_limit, dot, version, check, format_install_code, parse_install_code, read_parts,
  read_value, not_a_code, mistyped_code,
}

not_dot : ℕ → Bool
not_dot c = not (c == dot)

plain : (c : ℕ) → in_alphabet c ≡ true → (c == dot) ≡ false
unfolding in_alphabet not_dot
plain c h = ground (arith, all-elem not_dot alphabet c refl h)

Lacks-dot : (s : Text) → InAlphabet s → Lacks dot s
Lacks-dot [] h = tt
Lacks-dot (c ∷ s) (p, h) = (ground (arith, plain c p), Lacks-dot s h)

read_parts-ok :
    (ps : List Text) (id given : Text)
    → read_parts ps ≡ ok (id, given)
    → ps ≡ version ∷ id ∷ given ∷ []
read_parts-ok [] id given h = cc
read_parts-ok (a ∷ []) id given h = cc
read_parts-ok (a ∷ b ∷ []) id given h = cc
read_parts-ok (a ∷ b ∷ c ∷ []) id given h =
    let (u, tested, same) = >>=-eq-ok (refuse_if (not (text_eq a version)) not_a_code) _ h in
    let v : a ≡ version = (text_eq_iff a version).0 (ground arith) in cc
read_parts-ok (a ∷ b ∷ c ∷ d ∷ ps) id given h = cc

read_value-encode : (n : ℕ) → read_value (encode n) ≡ ok n
read_value-encode n = rw (decode-encode n, read_value) refl

module _ (sha256 : Text → List ℕ) where
  check-InAlphabet : (id : Text) → InAlphabet (check sha256 id)
  unfolding check
  check-InAlphabet id = (encode-IsSegment _).0

  abbrev parts : Text → List Text
  parts id = version ∷ id ∷ check sha256 id ∷ []

  format-parts : (id : Text) → format_install_code sha256 id ≡ join dot (parts id)
  unfolding format_install_code join
  format-parts id = refl

  split-format :
      (id : Text) → InAlphabet id → split dot (trim (format_install_code sha256 id)) ≡ parts id
  unfolding format_install_code is_space
  split-format id h =
      let unspaced : NoSpace (format_install_code sha256 id) = (
        refl,
        (
          refl,
          (
            refl,
            All-append _ id (dot ∷ check sha256 id) (NoSpace-InAlphabet id h)
                (refl, NoSpace-InAlphabet (check sha256 id) (check-InAlphabet id)),
          ),
        ),
      ) in
      ap (split dot) (trim-NoSpace (format_install_code sha256 id) unspaced ∙ format-parts id)
      ∙ split-join dot version (id ∷ check sha256 id ∷ []) (
        (omega arith, (omega arith, tt)),
        (Lacks-dot id h, (Lacks-dot _ (check-InAlphabet id), tt)),
      )

  read-format :
      (id : Text)
      → InAlphabet id
      → read_parts (split dot (trim (format_install_code sha256 id))) ≡ ok (id, check sha256 id)
  read-format id h = ap read_parts (split-format id h) ∙ rw (text_eq_refl version) refl

  -- The install code of a first ID of the reserve is read back as that ID.
  pub parse_install_code-format :
      (value : ℕ)
      → 1 ≤ value
      → value < reserved_limit
      → parse_install_code sha256 (format_install_code sha256 (encode value)) ≡ ok (encode value)
  unfolding parse_install_code
  parse_install_code-format value low high =
      let at_least : ltb value 1 ≡ false = ground arith in
      let below : leb reserved_limit value ≡ false = ground arith in
      let id = encode value in
      >>=-of-ok _ (read-format id (encode-IsSegment value).0)
      ∙ (>>=-of-ok _ (read_value-encode value)
          ∙ rw (at_least, below, text_eq_refl id, text_eq_refl (check sha256 id)) refl)

  -- A text that is read as an install code is, but for space around it, the install code of a
  -- first ID of the reserve, and what is read is that ID.
  pub parse_install_code-ok :
      (code id : Text)
      → parse_install_code sha256 code ≡ ok id
      → (value : ℕ) × (1 ≤ value)
        × (value < reserved_limit)
        × (id ≡ encode value)
        × (trim code ≡ format_install_code sha256 id)
  unfolding parse_install_code
  parse_install_code-ok code id h =
      let (pair, read, h₁) = >>=-eq-ok (read_parts (split dot (trim code))) _ h in
      let (value, decoded, h₂) = >>=-eq-ok (read_value pair.0) _ h₁ in
      let (u, fits, h₃) =
        >>=-eq-ok
          (refuse_if
            (ltb value 1 || leb reserved_limit value || not (text_eq (encode value) pair.0))
            not_a_code)
          _ h₂ in
      let (v, checked, h₄) =
        >>=-eq-ok (refuse_if (not (text_eq (check sha256 pair.0) pair.1)) mistyped_code) _ h₃ in
      let same : pair.0 ≡ id = ok-injective h₄ in
      let own : encode value ≡ pair.0 = (text_eq_iff (encode value) pair.0).0 (ground arith) in
      let given : check sha256 pair.0 ≡ pair.1 =
        (text_eq_iff (check sha256 pair.0) pair.1).0 (ground arith) in
      let split_parts = read_parts-ok (split dot (trim code)) pair.0 pair.1 read in
      (
        value,
        ground arith,
        ground arith,
        sym (own ∙ same),
        sym (join-split dot (trim code))
            ∙ ap (join dot) split_parts
            ∙ ap (λ g. join dot (version ∷ pair.0 ∷ g ∷ [])) (sym given)
            ∙ sym (format-parts pair.0)
            ∙ ap (format_install_code sha256) same,
      )
