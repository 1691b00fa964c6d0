-- ===== src/Capabilities/Fitted.antt =====
-- The tests of valueProblems of src/capabilities/schema.ts against what it means to suit a schema.
use native.Mathlib.Nat.{pow-suc, div-add-mod', mul-mod_left}
use mathlib.Core.Path.{subst}
use sema_core.Prelude.{
  ℕ, zero, suc, ◌*◌, ◌/◌, ◌%◌, ◌^◌, ◌≤◌, ◌≡◌, ◌⊎◌, ◌↔◌, inl, inr, refl, sym, ap, ◌∙◌, Bool, true,
  false, ◌||◌, ◌&&◌, Option, none, some, List, [], ◌∷◌, Text, codes, text_eq, text_eq_iff, any,
  arith, Bool-cases,
}
use sema_core.Identity.{ℤ, pos, negsuc}
use sema_core.Core.Types.{
  Json, json_null, json_boolean, json_number, json_text, json_array, json_object, Fields, no_fields,
  json_field,
}
use sema_core.Capabilities.Values.{items_of, get_field}
use sema_core.Capabilities.Answers.{
  field_of, has_type, is_integer, magnitude, is_less, is_under, is_over, fits, in_enum, has_field,
  fits_in, enum_in,
}
use sema_core.Capabilities.Schema.{types_of}
use sema_core.Capabilities.Fitting.{
  IsAmong, IsWhole, IsOfType, TypeNamed, Typed, AtMost, NotUnder, NotOver, HasName, Listed,
}

pow-pos : (k : ℕ) → 1 ≤ 10 ^ k
pow-pos zero = omega arith
pow-pos (suc k) = omega (arith, pow-pos k, pow-suc 10 k)

is_integer-IsWhole :
    (m : ℤ) (scale : ℕ) → (is_integer (json_number m scale) ≡ true) ↔ IsWhole m scale
is_integer-IsWhole m scale = (
  (λ h. (
    magnitude m / 10 ^ scale,
    let zero_left : magnitude m % 10 ^ scale ≡ 0 = ground arith in
        omega (arith, div-add-mod' (magnitude m) (10 ^ scale)),
  )),
  (λ (q, e).
      let zero_left : magnitude m % 10 ^ scale ≡ 0 =
        ap (λ n. n % 10 ^ scale) e ∙ mul-mod_left q (10 ^ scale) in
      ground arith),
)

times-pos : (a k : ℕ) → 1 ≤ k → 1 ≤ suc a * k
times-pos a zero h = omega arith
times-pos a (suc k) h = omega arith

lt_int-AtMost : (a : ℤ) (s : ℕ) (b : ℤ) (t : ℕ) → (is_less b t a s ≡ false) ↔ AtMost a s b t
lt_int-AtMost (pos a) s (pos b) t = ground arith
lt_int-AtMost (pos a) s (negsuc b) t = ((λ h. cc), (λ h. absurd h))
lt_int-AtMost (negsuc a) s (pos b) t = ((λ h. tt), (λ h. refl))
lt_int-AtMost (negsuc a) s (negsuc b) t =
    let left = times-pos a (10 ^ t) (pow-pos t) in
    let right = times-pos b (10 ^ s) (pow-pos s) in ground arith

pub is_under-NotUnder :
    (a : ℤ) (s : ℕ) (o : Option Json) → (is_under a s o ≡ false) ↔ NotUnder a s o
is_under-NotUnder a s none = ((λ h. tt), (λ h. refl))
is_under-NotUnder a s (some json_null) = ((λ h. tt), (λ h. refl))
is_under-NotUnder a s (some (json_boolean b)) = ((λ h. tt), (λ h. refl))
is_under-NotUnder a s (some (json_number b t)) = lt_int-AtMost b t a s
is_under-NotUnder a s (some (json_text x)) = ((λ h. tt), (λ h. refl))
is_under-NotUnder a s (some (json_array items)) = ((λ h. tt), (λ h. refl))
is_under-NotUnder a s (some (json_object parts)) = ((λ h. tt), (λ h. refl))

pub is_over-NotOver : (a : ℤ) (s : ℕ) (o : Option Json) → (is_over a s o ≡ false) ↔ NotOver a s o
is_over-NotOver a s none = ((λ h. tt), (λ h. refl))
is_over-NotOver a s (some json_null) = ((λ h. tt), (λ h. refl))
is_over-NotOver a s (some (json_boolean b)) = ((λ h. tt), (λ h. refl))
is_over-NotOver a s (some (json_number b t)) = lt_int-AtMost a s b t
is_over-NotOver a s (some (json_text x)) = ((λ h. tt), (λ h. refl))
is_over-NotOver a s (some (json_array items)) = ((λ h. tt), (λ h. refl))
is_over-NotOver a s (some (json_object parts)) = ((λ h. tt), (λ h. refl))

any-IsAmong :
    (p : Json → Bool) (js : List Json)
    → (any p js ≡ true) ↔ ((k : Json) × IsAmong k js × (p k ≡ true))
any-IsAmong p [] = ((λ h. cc), (λ (k, among, h). absurd among))
any-IsAmong p (j ∷ js) = (
  (λ h. elim (Bool-cases (p j)) [
    | inl e ↦ (j, inl refl, e)
    | inr e ↦ let (k, among, t) = (any-IsAmong p js).0 (rw e at h) in (k, inr among, t)
  ]),
  (λ (k, among, h). elim among [
    | inl e ↦ let t : p j ≡ true = ap p e ∙ h in ground arith
    | inr more ↦ let t : any p js ≡ true = (any-IsAmong p js).1 (k, more, h) in ground arith
  ]),
)

is_type :
    (name : Text) (value : Json) → (has_type value (json_text name) ≡ true) ↔ IsOfType name value
is_type name json_null = ground (arith, text_eq_iff name (codes "null"))
is_type name (json_boolean b) = ground (arith, text_eq_iff name (codes "boolean"))
is_type name (json_number m scale) = is_number_type
  where
    is_number_type :
        (text_eq name (codes "number")
            || (text_eq name (codes "integer") && is_integer (json_number m scale))
          ≡ true)
        ↔ ((name ≡ codes "number") ⊎ ((name ≡ codes "integer") × IsWhole m scale))
    is_number_type = ground (
      arith,
      text_eq_iff name (codes "number"),
      text_eq_iff name (codes "integer"),
      is_integer-IsWhole m scale,
    )
is_type name (json_text t) = ground (arith, text_eq_iff name (codes "string"))
is_type name (json_array items) = ground (arith, text_eq_iff name (codes "array"))
is_type name (json_object parts) = ground (arith, text_eq_iff name (codes "object"))

pub has_field-HasName :
    (name : Text) (parts : Fields) → (has_field parts name ≡ true) ↔ HasName name parts
unfolding get_field
has_field-HasName name no_fields = ((λ h. cc), (λ h. absurd h))
has_field-HasName name (json_field key value rest) = (
  (λ h. elim (Bool-cases (text_eq key name)) [
    | inl e ↦ inl ((text_eq_iff key name).0 e)
    | inr e ↦ inr ((has_field-HasName name rest).0 (rw e at h))
  ]),
  (λ h. elim (Bool-cases (text_eq key name)) [
    | inl e ↦ rw e refl
    | inr e ↦ elim h [
      | inl same ↦ let t : text_eq key name ≡ true = (text_eq_iff key name).1 same in cc
      | inr more ↦ rw e ((has_field-HasName name rest).1 more)
    ]
  ]),
)

type_in :
    (js : List Json) (value : Json)
    → (any (has_type value) js ≡ true)
      ↔ ((name : Text) × IsAmong (json_text name) js × IsOfType name value)
type_in js value = (
  (λ h. let (k, among, fit) = (any-IsAmong (has_type value) js).0 h in named k among fit),
  (λ (name, among, fit).
      (any-IsAmong (has_type value) js).1 (json_text name, among, (is_type name value).1 fit)),
)
  where
    named :
        (k : Json)
        → IsAmong k js
        → has_type value k ≡ true
        → (name : Text) × IsAmong (json_text name) js × IsOfType name value
    named (json_text name) among fit = (name, among, (is_type name value).0 fit)
    named json_null among fit = cc
    named (json_boolean b) among fit = cc
    named (json_number m scale) among fit = cc
    named (json_array items) among fit = cc
    named (json_object parts) among fit = cc

one_type :
    (types value : Json)
    → (any (has_type value) (types_of types) ≡ true)
      ↔ ((name : Text) × TypeNamed types name × IsOfType name value)
one_type (json_array items) value = type_in (items_of items) value
one_type (json_text t) value = (
  (λ h. (t, refl, (is_type t value).0 (ground arith))),
  (λ (name, same, fit).
      let fits_it : has_type value (json_text t) ≡ true =
        (is_type t value).1 (subst (λ n. IsOfType n value) (sym same) fit) in
      ground arith),
)
one_type json_null value = ((λ h. cc), (λ (name, none_, fit). absurd none_))
one_type (json_boolean b) value = ((λ h. cc), (λ (name, none_, fit). absurd none_))
one_type (json_number m scale) value = ((λ h. cc), (λ (name, none_, fit). absurd none_))
one_type (json_object parts) value = ((λ h. cc), (λ (name, none_, fit). absurd none_))

fits_in-Typed : (value : Json) (o : Option Json) → (fits_in value o ≡ true) ↔ Typed o value
fits_in-Typed value none = ((λ h. tt), (λ h. refl))
fits_in-Typed value (some types) = one_type types value

pub fits-Typed :
    (s : Fields) (value : Json) → (fits s value ≡ true) ↔ Typed (field_of s (codes "type")) value
fits-Typed s value = fits_in-Typed value (field_of s (codes "type"))

module _ (stringify : Json → Text) where
  same_texts :
      (js : List Json) (value : Json)
      → (any (λ allowed. text_eq (stringify allowed) (stringify value)) js ≡ true)
        ↔ ((k : Json) × IsAmong k js × (stringify k ≡ stringify value))
  same_texts js value =
      let found = any-IsAmong (λ allowed. text_eq (stringify allowed) (stringify value)) js in
      (
        (λ h. let (k, among, e) = found.0 h in (k, among, (text_eq_iff _ _).0 e)),
        (λ (k, among, e). found.1 (k, among, (text_eq_iff _ _).1 e)),
      )

  enum_in-Listed :
      (value : Json) (o : Option Json)
      → (enum_in stringify value o ≡ true) ↔ Listed stringify o value
  enum_in-Listed value none = ((λ h. tt), (λ h. refl))
  enum_in-Listed value (some (json_array items)) = same_texts (items_of items) value
  enum_in-Listed value (some json_null) = ((λ h. cc), (λ h. absurd h))
  enum_in-Listed value (some (json_boolean b)) = ((λ h. cc), (λ h. absurd h))
  enum_in-Listed value (some (json_number m scale)) = ((λ h. cc), (λ h. absurd h))
  enum_in-Listed value (some (json_text t)) = ((λ h. cc), (λ h. absurd h))
  enum_in-Listed value (some (json_object parts)) = ((λ h. cc), (λ h. absurd h))

  pub in_enum-Listed :
      (s : Fields) (value : Json)
      → (in_enum stringify s value ≡ true) ↔ Listed stringify (field_of s (codes "enum")) value
  in_enum-Listed s value = enum_in-Listed value (field_of s (codes "enum"))
