-- ===== src/SdJwt/Claims.antt =====
-- src/parsers/sd-jwt.parser.ts: `mapToCredentialClaims` and `extractCountryHint`. An object is its
-- fields in order; `key in claims` is also true of what every object inherits.
pub mod Laws
use online_verifier.Prelude.{
  ℕ, ◌-◌, String, Bool, true, false, not, ◌&&◌, ◌||◌, Option, none, some, List, [], ◌∷◌, map, leb,
  nat_eq, if◌then◌else◌, ℕ_eq, string_eq, length, last?, includes,
}
use online_verifier.Text.{Text, codes, starts_with, split}
use online_verifier.SdJwt.Json.{Json, bool, str, Fields, end, field, get}

abbrev pub append : String → Json → Fields → Fields
append key v end = field key v end
append key v (field k w fs) = field k w (append key v fs)

-- The value, where `typeof` says that it is a boolean or a string.
unfoldable pub if_boolean : Option Json → Option Json
if_boolean (some (bool b)) = some (bool b)
if_boolean _ = none

unfoldable pub if_string : Option Json → Option Json
if_string (some (str s)) = some (str s)
if_string _ = none

abbrev pub set_known : String → Option Json → Fields → Fields
set_known key none claims = claims
set_known key (some v) claims = append key v claims

-- The properties of `Object.prototype`.
abbrev pub inherited : List String
inherited =
    "constructor" ∷ "toString" ∷ "toLocaleString" ∷ "valueOf" ∷ "hasOwnProperty" ∷ "isPrototypeOf"
    ∷ "propertyIsEnumerable" ∷ "__defineGetter__" ∷ "__defineSetter__" ∷ "__lookupGetter__"
    ∷ "__lookupSetter__" ∷ "__proto__" ∷ []

abbrev pub is_some {ℓ} : {A : Type ℓ} → Option A → Bool
is_some none = false
is_some (some a) = true

abbrev pub has_key : String → Fields → Bool
has_key key claims = includes inherited key || is_some (get key claims)

unfoldable pub is_reserved : String → Bool
is_reserved key =
    starts_with (codes key) (codes "_sd")
    || includes ("iss" ∷ "exp" ∷ "iat" ∷ "cnf" ∷ "vct" ∷ []) key

-- The loop over the entries of `raw`.
unfoldable pub copy_rest : Fields → Fields → Fields
copy_rest end claims = claims
copy_rest (field key v raw) claims =
    copy_rest raw
      (if not (has_key key claims) && not (is_reserved key) then append key v claims else claims)

unfoldable pub known_claims : Fields → Fields
known_claims raw = set_known "family_name_birth" (if_string (get "family_name_birth" raw)) (
    set_known "nationality" (if_string (get "nationality" raw)) (
      set_known "resident_country" (if_string (get "resident_country" raw)) (
        set_known "age_over_21" (if_boolean (get "age_over_21" raw))
          (set_known "age_over_18" (if_boolean (get "age_over_18" raw)) end))))

unfoldable pub map_to_credential_claims : Fields → Fields
map_to_credential_claims raw = copy_rest raw (known_claims raw)

unfoldable pub upper_char : ℕ → ℕ
upper_char c = if leb b'a' c && leb c b'z' then c - 32 else c

-- The last label of the host, if it has two letters. `hostname` is that of `new URL(…)`.
unfoldable pub country_of : Option String → Text
country_of none = []
country_of (some host) = elim (last? (split b'.' (codes host))) [
  | none ↦ []
  | some tld ↦ if nat_eq (length tld) 2 then map upper_char tld else []
]

unfoldable pub extract_country_hint : (String → Option String) → String → Text
extract_country_hint hostname issuer = country_of (hostname issuer)
