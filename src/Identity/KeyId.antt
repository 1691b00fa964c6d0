-- ===== src/Identity/KeyId.antt =====
-- formatKeyId and parseKeyId undo one another.
use Prim.Native.Nat.{◌<◌}
use mathlib.Core.Path.{subst, ap₂}
use sema_core.Prelude.{
  ℕ, ◌≡◌, ◌≢◌, refl, sym, ◌∙◌, ap, false, ◌||◌, List, [], ◌∷◌, ◌++◌, Text, ◌==◌, arith, ok,
  >>=-eq-ok, refuse_if, append_assoc, All, All-append, any, is_empty, length, ltb, split,
  split_from, join, trim, Lacks, NoSpace, is_space, split-ne-nil, split-join, join-split,
  trim-NoSpace,
}
use sema_core.Identity.{
  pos, KeyIdParts, encode, total_of, decode_base56, encode_base56, check_segments, hyphen,
  parse_installation_id, format_key_id, parse_key_id, last_of, but_last, empty_segment,
  zero_local_id, incomplete_key_id,
}
use sema_core.Identity.Segments.{
  IsSegment, NoSpace-InAlphabet, IsObjectSegment, IsInstallationId, All-Lacks, NoSpace-join,
  All-IsSegment, any_empty, check_segments-ok, check_segments-All, decode-segment,
}
use sema_core.Identity.Digits.{total_of-encode}
use sema_core.Identity.RoundTrip.{encode-IsSegment, encode-decode}

NoSpace-IsInstallationId : (s : Text) → IsInstallationId s → NoSpace s
NoSpace-IsInstallationId s h =
    rw (join-split hyphen s) at (NoSpace-join (split hyphen s) (All-IsSegment (split hyphen s) h))

not_empty : (s : Text) → IsInstallationId s → is_empty s ≡ false
unfolding split split_from
not_empty [] h = absurd h.0.0.1
not_empty (c ∷ s) h = refl

-- What parseInstallationId accepts: the trimmed text, when each segment is a number above zero.
pub parse_installation_id-ok :
    (s : Text) → IsInstallationId (trim s) → parse_installation_id s ≡ ok (trim s)
unfolding parse_installation_id
parse_installation_id-ok s h =
    rw (not_empty (trim s) h, any_empty _ (All-IsSegment _ h), check_segments-ok _ h)

pub parse_installation_id-IsInstallationId :
    (s i : Text) → parse_installation_id s ≡ ok i → (i ≡ trim s) × IsInstallationId i
unfolding parse_installation_id
parse_installation_id-IsInstallationId s i h =
    let (u, full, h₁) =
      >>=-eq-ok
        (refuse_if (is_empty (trim s) || any is_empty (split hyphen (trim s))) empty_segment) _ h in
    let (v, checked, h₂) = >>=-eq-ok (check_segments (split hyphen (trim s))) _ h₁ in
    let same : i ≡ trim s = cc in (same, rw same (check_segments-All _ checked))

join-concat :
    (p : Text) (ps : List Text) (own : Text)
    → join hyphen ((p ∷ ps) ++ own ∷ []) ≡ join hyphen (p ∷ ps) ++ hyphen ∷ own
unfolding join
join-concat p [] own = refl
join-concat p (q ∷ ps) own =
    ap (λ (t : Text). p ++ hyphen ∷ t) (join-concat q ps own)
    ∙ sym (append_assoc p (hyphen ∷ join hyphen (q ∷ ps)) (hyphen ∷ own))

last_of-concat : (ps : List Text) (own : Text) → last_of (ps ++ own ∷ []) ≡ own
last_of-concat [] own = refl
last_of-concat (p ∷ []) own = refl
last_of-concat (p ∷ q ∷ ps) own = last_of-concat (q ∷ ps) own

but_last-concat : (ps : List Text) (own : Text) → but_last (ps ++ own ∷ []) ≡ ps
but_last-concat [] own = refl
but_last-concat (p ∷ []) own = refl
but_last-concat (p ∷ q ∷ ps) own = ap (λ r. p ∷ r) (but_last-concat (q ∷ ps) own)

but_last-append-last :
    (p : Text) (ps : List Text) → but_last (p ∷ ps) ++ last_of (p ∷ ps) ∷ [] ≡ p ∷ ps
but_last-append-last p [] = refl
but_last-append-last p (q ∷ ps) = ap (λ r. p ∷ r) (but_last-append-last q ps)

-- The segments of a KeyID: those of its InstallationID, and its own.
split-key :
    (i own : Text)
    → IsInstallationId i
    → IsSegment own
    → split hyphen (i ++ hyphen ∷ own) ≡ split hyphen i ++ own ∷ []
split-key i own h k = go (split hyphen i) refl h
  where
    go :
        (ps : List Text)
        → split hyphen i ≡ ps
        → All IsObjectSegment ps
        → split hyphen (i ++ hyphen ∷ own) ≡ ps ++ own ∷ []
    go [] e a = absurd (split-ne-nil hyphen i e)
    go (p ∷ ps) e a =
        let joined : join hyphen (p ∷ ps) ≡ i = ap (join hyphen) (sym e) ∙ join-split hyphen i in
        ap (split hyphen)
          (ap (λ (t : Text). t ++ hyphen ∷ own) (sym joined) ∙ sym (join-concat p ps own))
        ∙ split-join hyphen p (ps ++ own ∷ []) (
            All-append (Lacks hyphen) (p ∷ ps) (own ∷ [])
              (All-Lacks (p ∷ ps) (All-IsSegment (p ∷ ps) a)) (All-Lacks (own ∷ []) (k, tt)))

abbrev pub parts_of : Text → Text → KeyIdParts
parts_of i own = record { installation_id = i; local_id = own; local_value = total_of 0 own }

two_segments : (ps : List Text) (own : Text) → ps ≢ [] → ltb (length (ps ++ own ∷ [])) 2 ≡ false
two_segments [] own h = absurd (h refl)
two_segments (p ∷ []) own h = refl
two_segments (p ∷ q ∷ ps) own h = ground arith

parse_installation_id_self : (i : Text) → IsInstallationId i → parse_installation_id i ≡ ok i
parse_installation_id_self i h =
    let same = trim-NoSpace i (NoSpace-IsInstallationId i h) in
    rw same at (parse_installation_id-ok i (rw same h))

-- Reading a text whose trim is an InstallationID, a hyphen and a number above zero.
parse-parts :
    (s i own : Text)
    → trim s ≡ i ++ hyphen ∷ own
    → IsInstallationId i
    → IsObjectSegment own
    → parse_key_id s ≡ ok (parts_of i own)
unfolding parse_key_id
parse-parts s i own e h (k, above) =
    let segments = split-key i own h k in
    let all_full : any is_empty (split hyphen i ++ own ∷ []) ≡ false =
      any_empty _ (All-append IsSegment (split hyphen i) (own ∷ []) (All-IsSegment _ h) (k, tt)) in
    let positive : (total_of 0 own == 0) ≡ false = ground arith in
    rw
      (
        e,
        segments,
        two_segments (split hyphen i) own (split-ne-nil hyphen i),
        all_full,
        last_of-concat (split hyphen i) own,
      )
      (rw (decode-segment own k) (
        rw (positive, but_last-concat (split hyphen i) own, join-split hyphen i)
          (rw (parse_installation_id_self i h))))

format-parts :
    (i k : Text) (n : ℕ)
    → format_key_id i (pos n) ≡ ok k
    → (0 < n) × IsInstallationId (trim i) × (k ≡ trim i ++ hyphen ∷ encode n)
unfolding format_key_id encode_base56
format-parts i k n h =
    let (u, above, h₁) = >>=-eq-ok (refuse_if (ltb n 1) zero_local_id) _ h in
    let (j, parsed, h₂) = >>=-eq-ok (parse_installation_id i) _ h₁ in
    let (same, valid) = parse_installation_id-IsInstallationId i j parsed in
    (ground arith, rw same at valid, rw same at (let e : k ≡ j ++ hyphen ∷ encode n = cc in e))

encode-IsObjectSegment : (n : ℕ) → 0 < n → IsObjectSegment (encode n)
encode-IsObjectSegment n h = (encode-IsSegment n, rw (total_of-encode n) (omega arith))

-- Reading a KeyID that was formatted gives back its parts: the InstallationID without the spaces
-- around it, the text of the LocalID, and its value.
pub parse-format :
    (i k : Text) (n : ℕ)
    → format_key_id i (pos n) ≡ ok k
    → parse_key_id k
      ≡ ok (record { installation_id = trim i; local_id = encode n; local_value = n })
parse-format i k n h =
    let (above, valid, e) = format-parts i k n h in
    let object = encode-IsObjectSegment n above in
    let whole : NoSpace (trim i ++ hyphen ∷ encode n) =
      All-append (λ c. is_space c ≡ false) (trim i) (hyphen ∷ encode n)
        (NoSpace-IsInstallationId _ valid)
        (unfold is_space in refl, NoSpace-InAlphabet (encode n) object.0.0) in
    rw e (
      parse-parts (trim i ++ hyphen ∷ encode n) (trim i) (encode n) (trim-NoSpace _ whole) valid
        object
      ∙ ap
          (λ (m : ℕ).
            ok (record { installation_id = trim i; local_id = encode n; local_value = m }))
          (total_of-encode n))

-- The parts that stand in a text: in their shortest form, with a value above zero.
pub record IsReadFrom (s : Text) (p : KeyIdParts) : Type 0 where
  pub parent : p.installation_id ≡ trim (join hyphen (but_last (split hyphen (trim s))))
  pub own : p.local_id ≡ last_of (split hyphen (trim s))
  pub valid : IsInstallationId p.installation_id
  pub shortest : encode p.local_value ≡ p.local_id
  pub above_zero : 0 < p.local_value

parse-IsReadFrom : (s : Text) (p : KeyIdParts) → parse_key_id s ≡ ok p → IsReadFrom s p
unfolding parse_key_id
parse-IsReadFrom s p h =
    let segments = split hyphen (trim s) in
    let (u, enough, h₁) =
      >>=-eq-ok (refuse_if (ltb (length segments) 2 || any is_empty segments) incomplete_key_id) _
        h in
    let (n, decoded, h₂) = >>=-eq-ok (decode_base56 (last_of segments)) _ h₁ in
    let (v, above, h₃) = >>=-eq-ok (refuse_if (n == 0) zero_local_id) _ h₂ in
    let (i, parsed, h₄) =
      >>=-eq-ok (parse_installation_id (join hyphen (but_last segments))) _ h₃ in
    let (same, valid) = parse_installation_id-IsInstallationId _ i parsed in
    let r : KeyIdParts = record {
      installation_id = i;
      local_id = last_of segments;
      local_value = n;
    } in
    let e : r ≡ p = cc in
    subst (IsReadFrom s) e (record {
      parent = same;
      own = refl;
      valid = valid;
      shortest = encode-decode (last_of segments) n decoded;
      above_zero = ground arith;
    })

pub format_key_id-ok :
    (i : Text) (n : ℕ)
    → IsInstallationId i
    → 0 < n
    → format_key_id i (pos n) ≡ ok (i ++ hyphen ∷ encode n)
unfolding format_key_id encode_base56
format_key_id-ok i n valid above =
    let positive : ltb n 1 ≡ false = ground arith in
    rw (positive, parse_installation_id_self i valid)

format-IsReadFrom :
    (s : Text) (p : KeyIdParts)
    → IsReadFrom s p
    → format_key_id p.installation_id (pos p.local_value)
      ≡ ok (p.installation_id ++ hyphen ∷ p.local_id)
unfolding format_key_id encode_base56
format-IsReadFrom s p r =
    let positive : ltb p.local_value 1 ≡ false = ground (arith, r.above_zero) in
    rw (positive, parse_installation_id_self p.installation_id r.valid, r.shortest)

-- A text that parseKeyId accepts has parts that format to a KeyID, which parses to them again.
pub format-parse :
    (s : Text) (p : KeyIdParts)
    → parse_key_id s ≡ ok p
    → (k : Text) × (format_key_id p.installation_id (pos p.local_value) ≡ ok k)
      × (parse_key_id k ≡ ok p)
format-parse s p h =
    let r = parse-IsReadFrom s p h in
    let formatted = format-IsReadFrom s p r in
    (
      p.installation_id ++ hyphen ∷ p.local_id,
      formatted,
      parse-format p.installation_id _ p.local_value formatted
          ∙ ap₂
              (λ i own.
                ok (record { installation_id = i; local_id = own; local_value = p.local_value }))
              (trim-NoSpace _ (NoSpace-IsInstallationId _ r.valid)) r.shortest,
    )

-- Two KeyIDs are the same text only when they name the same object of the same installation.
pub format-injective :
    (i j k : Text) (m n : ℕ)
    → format_key_id i (pos m) ≡ ok k
    → format_key_id j (pos n) ≡ ok k
    → (trim i ≡ trim j) × (m ≡ n)
format-injective i j k m n h h' =
    let e = sym (parse-format i k m h) ∙ parse-format j k n h' in (cc, cc)
