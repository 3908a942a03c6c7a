-- ===== src/SdJwt/Claims/Laws.antt =====
-- What `mapToCredentialClaims` keeps.
use online_verifier.Prelude.{
  String, ◌≡◌, refl, sym, ◌∙◌, subst, ◌⊎◌, inl, inr, Bool, true, false, not, ◌&&◌, ◌||◌, Option,
  none, some, if◌then◌else◌, ◌==◌, ℕ_eq, string_eq, ==_refl, Bool-cases, Option-cases, includes,
}
use online_verifier.Text.{starts_with}
use online_verifier.SdJwt.Json.{Json, null, bool, num, str, arr, obj, Fields, end, field, get}
use online_verifier.SdJwt.Claims.{
  append, if_boolean, if_string, set_known, inherited, is_some, has_key, is_reserved, copy_rest,
  known_claims, map_to_credential_claims,
}

get-append_same :
    (key : String) (v : Json) (fs : Fields) → get key fs ≡ none → get key (append key v fs) ≡ some v
unfolding get
get-append_same key v end h = rw (==_refl key)
get-append_same key v (field k w fs) h = elim (Bool-cases (k == key)) [
  | inl e ↦ let bad : some w ≡ none = rw e at h in cc
  | inr e ↦ let rest : get key fs ≡ none = rw e at h in rw e (get-append_same key v fs rest)
]

get-append_found :
    (key k : String) (v w : Json) (fs : Fields)
    → get key fs ≡ some w
    → get key (append k v fs) ≡ some w
unfolding get
get-append_found key k v w end h = cc
get-append_found key k v w (field l u fs) h = elim (Bool-cases (l == key)) [
  | inl e ↦ rw e (rw e at h)
  | inr e ↦ rw e (get-append_found key k v w fs (rw e at h))
]

get-append_other :
    (key k : String) (v : Json) (fs : Fields)
    → (k == key) ≡ false
    → get key (append k v fs) ≡ get key fs
unfolding get
get-append_other key k v end h = rw h
get-append_other key k v (field l u fs) h = elim (Bool-cases (l == key)) [
  | inl e ↦ rw e
  | inr e ↦ rw e (get-append_other key k v fs h)
]

-- A field of the claims that is missing, or as in `raw`.
Agrees : String → Fields → Fields → Type 0
Agrees key raw claims = (get key claims ≡ none) ⊎ (get key claims ≡ get key raw)

append-Agrees :
    (key k : String) (v : Json) (raw claims : Fields)
    → get k raw ≡ some v
    → Agrees key raw claims
    → Agrees key raw (append k v claims)
unfolding Agrees
append-Agrees key k v raw claims e a = elim (Bool-cases (k == key)) [
  | inl same ↦
      let name : k ≡ key = (string_eq.decides k key).0 same in
      let value : get key raw ≡ some v = subst (λ x. get x raw ≡ some v) name e in
      elim a [
        | inl missing ↦ inr (
            subst (λ x. get key (append x v claims) ≡ get key raw) (sym name)
              (get-append_same key v claims missing ∙ sym value))
        | inr found ↦ inr (get-append_found key k v v claims (found ∙ value) ∙ sym value)
      ]
  | inr other ↦
      subst (λ x. (x ≡ none) ⊎ (x ≡ get key raw)) (sym (get-append_other key k v claims other)) a
]

if_boolean-some : (o : Option Json) (v : Json) → if_boolean o ≡ some v → o ≡ some v
unfolding if_boolean
if_boolean-some none v h = cc
if_boolean-some (some (bool b)) v h = h
if_boolean-some (some null) v h = cc
if_boolean-some (some (num n)) v h = cc
if_boolean-some (some (str s)) v h = cc
if_boolean-some (some (arr xs)) v h = cc
if_boolean-some (some (obj fs)) v h = cc

if_string-some : (o : Option Json) (v : Json) → if_string o ≡ some v → o ≡ some v
unfolding if_string
if_string-some none v h = cc
if_string-some (some (str s)) v h = h
if_string-some (some null) v h = cc
if_string-some (some (num n)) v h = cc
if_string-some (some (bool b)) v h = cc
if_string-some (some (arr xs)) v h = cc
if_string-some (some (obj fs)) v h = cc

set_known-Agrees :
    (key k : String) (raw claims : Fields) (o : Option Json)
    → ((v : Json) → o ≡ some v → get k raw ≡ some v)
    → Agrees key raw claims
    → Agrees key raw (set_known k o claims)
set_known-Agrees key k raw claims none from a = a
set_known-Agrees key k raw claims (some v) from a = append-Agrees key k v raw claims (from v refl) a

known_claims-Agrees : (key : String) (raw : Fields) → Agrees key raw (known_claims raw)
unfolding known_claims Agrees get
known_claims-Agrees key raw = set_known-Agrees key _ raw _ _ (if_string-some _) (
    set_known-Agrees key _ raw _ _ (if_string-some _) (
      set_known-Agrees key _ raw _ _ (if_string-some _) (
        set_known-Agrees key _ raw _ _ (if_boolean-some _)
          (set_known-Agrees key _ raw end _ (if_boolean-some _) (inl refl)))))

-- The names that the claims never have: those that every object inherits, and the reserved ones.
unfoldable is_hidden : String → Bool
is_hidden key = includes inherited key || is_reserved key

copy_rest-found :
    (key : String) (w : Json) (fs claims : Fields)
    → get key claims ≡ some w
    → get key (copy_rest fs claims) ≡ some w
unfolding copy_rest
copy_rest-found key w end claims h = h
copy_rest-found key w (field k v fs) claims h =
    elim (Bool-cases (not (has_key k claims) && not (is_reserved k))) [
      | inl e ↦
          rw e (copy_rest-found key w fs (append k v claims) (get-append_found key k v w claims h))
      | inr e ↦ rw e (copy_rest-found key w fs claims h)
    ]

both_open : (i g r : Bool) → (i || r) ≡ false → g ≡ false → (not (i || g) && not r) ≡ true
both_open true g r h k = cc
both_open false true r h k = cc
both_open false false true h k = cc
both_open false false false h k = refl

open_both : (i g r : Bool) → (not (i || g) && not r) ≡ true → (i || r) ≡ false
open_both true g r h = cc
open_both false true r h = cc
open_both false false true h = cc
open_both false false false h = refl

visible :
    (key : String) (claims : Fields)
    → is_hidden key ≡ false
    → get key claims ≡ none
    → (not (has_key key claims) && not (is_reserved key)) ≡ true
unfolding is_hidden
visible key claims shown h =
    both_open (includes inherited key) (is_some (get key claims)) (is_reserved key) shown
      (rw h refl)

copy_rest-missing :
    (key : String) (fs claims : Fields)
    → is_hidden key ≡ false
    → get key claims ≡ none
    → get key (copy_rest fs claims) ≡ get key fs
unfolding copy_rest get
copy_rest-missing key end claims shown h = h
copy_rest-missing key (field k v fs) claims shown h = elim (Bool-cases (k == key)) [
  | inl same ↦
      let name : key ≡ k = sym ((string_eq.decides k key).0 same) in
      let e =
        subst (λ x. (not (has_key x claims) && not (is_reserved x)) ≡ true) name
          (visible key claims shown h) in
      let put =
        subst (λ x. get x (append k v claims) ≡ some v) (sym name)
          (get-append_same k v claims (subst (λ x. get x claims ≡ none) name h)) in
      rw (e, same) (copy_rest-found key v fs (append k v claims) put)
  | inr other ↦ elim (Bool-cases (not (has_key k claims) && not (is_reserved k))) [
    | inl e ↦
        rw (e, other)
          (copy_rest-missing key fs (append k v claims) shown
            (get-append_other key k v claims other ∙ h))
    | inr e ↦ rw (e, other) (copy_rest-missing key fs claims shown h)
  ]
]

shown_by :
    (k : String) (claims : Fields)
    → (not (has_key k claims) && not (is_reserved k)) ≡ true
    → is_hidden k ≡ false
unfolding is_hidden
shown_by k claims e = open_both (includes inherited k) (is_some (get k claims)) (is_reserved k) e

differ : (k key : String) → is_hidden k ≡ false → is_hidden key ≡ true → (k == key) ≡ false
differ k key shown hidden = elim (Bool-cases (k == key)) [
  | inl same ↦
      let bad : is_hidden key ≡ false =
        subst (λ x. is_hidden x ≡ false) ((string_eq.decides k key).0 same) shown in
      cc
  | inr other ↦ other
]

copy_rest-hidden :
    (key : String) (fs claims : Fields)
    → is_hidden key ≡ true
    → get key claims ≡ none
    → get key (copy_rest fs claims) ≡ none
unfolding copy_rest get
copy_rest-hidden key end claims hidden h = h
copy_rest-hidden key (field k v fs) claims hidden h =
    elim (Bool-cases (not (has_key k claims) && not (is_reserved k))) [
      | inl e ↦ rw e (
          copy_rest-hidden key fs (append k v claims) hidden
            (get-append_other key k v claims (differ k key (shown_by k claims e) hidden) ∙ h))
      | inr e ↦ rw e (copy_rest-hidden key fs claims hidden h)
    ]

IsMissing : String → Fields → Type 0
IsMissing key claims = get key claims ≡ none

end-IsMissing : (key : String) → IsMissing key end
unfolding IsMissing get
end-IsMissing key = refl

set_known-IsMissing :
    (key k : String) (o : Option Json) (claims : Fields)
    → is_hidden k ≡ false
    → is_hidden key ≡ true
    → IsMissing key claims
    → IsMissing key (set_known k o claims)
unfolding IsMissing
set_known-IsMissing key k none claims shown hidden h = h
set_known-IsMissing key k (some v) claims shown hidden h =
    get-append_other key k v claims (differ k key shown hidden) ∙ h

known_claims-IsMissing :
    (key : String) (raw : Fields) → is_hidden key ≡ true → IsMissing key (known_claims raw)
unfolding known_claims is_hidden is_reserved starts_with
known_claims-IsMissing key raw h =
    set_known-IsMissing key "family_name_birth" (if_string (get "family_name_birth" raw)) _ refl h (
      set_known-IsMissing key "nationality" (if_string (get "nationality" raw)) _ refl h (
        set_known-IsMissing key "resident_country" (if_string (get "resident_country" raw)) _ refl h
          (set_known-IsMissing key "age_over_21" (if_boolean (get "age_over_21" raw)) _ refl h (
            set_known-IsMissing key "age_over_18" (if_boolean (get "age_over_18" raw)) end refl h
              (end-IsMissing key)))))

-- The claims of a result are the fields of the resolved object, under the same names and with the
-- same values, but for the fields that are reserved for the issuer's own data and those whose name
-- every JavaScript object inherits: these the claims never have.
pub get-map_to_credential_claims :
    (key : String) (raw : Fields)
    → get key (map_to_credential_claims raw)
      ≡ (if includes inherited key || is_reserved key then none else get key raw)
unfolding map_to_credential_claims is_hidden IsMissing Agrees
get-map_to_credential_claims key raw =
    elim (Bool-cases (includes inherited key || is_reserved key)) [
      | inl h ↦
          rw h (copy_rest-hidden key raw (known_claims raw) h (known_claims-IsMissing key raw h))
      | inr h ↦ rw h (elim (Option-cases (get key (known_claims raw))) [
        | inl missing ↦ copy_rest-missing key raw (known_claims raw) h missing
        | inr (w, found) ↦ elim (known_claims-Agrees key raw) [
          | inl missing ↦ cc
          | inr same ↦ copy_rest-found key w raw (known_claims raw) found ∙ (sym found ∙ same)
        ]
      ])
    ]
