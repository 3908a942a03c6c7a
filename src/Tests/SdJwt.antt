-- ===== src/Tests/SdJwt.antt =====
-- Base64 texts and an SD-JWT presentation, and the theorems on them.
use online_verifier.Prelude.{
  ℕ, ◌≡◌, refl, ◌≢◌, true, false, ◌||◌, none, some, List, [], ◌∷◌, arith, if◌then◌else◌, ℕ_eq,
  string_eq, includes, ok,
}
use online_verifier.Text.{index_of, starts_with, text_eq}
use online_verifier.Text.Laws.{text_eq_instance}
use online_verifier.Trust.Cert.{bytes_equal, same_bytes}
use online_verifier.Base64.{
  base64_to_bytes, base64_url_to_bytes, bytes_to_base64url, strip_padding, lenient_groups,
  base64_char, btoa, url_char,
}
use online_verifier.Base64.Roundtrip.{
  third, base64_url_to_bytes-bytes_to_base64url, base64_to_bytes-misreads,
}
use online_verifier.SdJwt.Json.{
  bool, num, str, arr, obj, nil, cons, Fields, end, field, get, as_string,
}
use online_verifier.SdJwt.Anchors.{
  strings_of, placeholder, sd_entries, visit, visit_items, visit_fields, add_values, expand,
  all_anchored,
}
use online_verifier.SdJwt.Claims.{
  if_boolean, if_string, inherited, is_reserved, copy_rest, known_claims, map_to_credential_claims,
  country_of, extract_country_hint,
}
use online_verifier.SdJwt.Claims.Laws.{get-map_to_credential_claims}
use online_verifier.SdJwt.Toolkit.{Toolkit, ParseOptions, PresentationResult, x5c_leaf}
use online_verifier.SdJwt.Parser.{
  non_empty, is_text, no_disclosures, sd_jwt_for_hash, if_anchored, allowed_algorithm, select_key,
  verify_issuer, check_byte_equality, check_trust, to_disclosure, decode_disclosure,
  decode_disclosures, check_disclosures, truthy, holder_jwk, verify_key_binding, check_key_binding,
  check_presented, parse_steps, parse,
}

abbrev some_bytes : List ℕ
some_bytes = 97 ∷ 0 ∷ 63 ∷ 255 ∷ []

base64_url_to_bytes-bytes_to_base64url_example :
    base64_url_to_bytes (bytes_to_base64url some_bytes) ≡ some some_bytes
base64_url_to_bytes-bytes_to_base64url_example =
    base64_url_to_bytes-bytes_to_base64url some_bytes
      (omega arith, (omega arith, (omega arith, (omega arith, tt))))

base64_to_bytes-misreads_example :
    (third (base64_to_bytes (bytes_to_base64url some_bytes)) ≡ 255)
    × (base64_to_bytes (bytes_to_base64url some_bytes) ≢ some_bytes)
base64_to_bytes-misreads_example =
    base64_to_bytes-misreads 97 0 63 (255 ∷ [])
      (omega arith, (omega arith, (omega arith, (omega arith, tt)))) (omega arith) (omega arith)

abbrev raw_claims : Fields
raw_claims = field "iss" (str "i") (field "age_over_18" (bool true) (field "valueOf" (str "x") end))

get-map_to_credential_claims_example : get "age_over_18" (map_to_credential_claims raw_claims) ≡ (
    if includes inherited "age_over_18" || is_reserved "age_over_18"
    then none
    else get "age_over_18" raw_claims)
get-map_to_credential_claims_example = get-map_to_credential_claims "age_over_18" raw_claims

-- The payload of the issuer's token, and of the KB-JWT.
abbrev payload : Fields
payload = field "_sd" (arr (cons (str "AQ") nil)) (
    field "cnf" (obj (field "jwk" (obj end) end))
      (field "nonce" (str "n") (field "sd_hash" (str "AQ") (field "vct" (str "pid") end))))

abbrev header : Fields
header = field "alg" (str "ES256") (field "x5c" (arr (cons (str "AQ==") nil)) end)

abbrev pub tools : Toolkit
tools = record {
  split_sd_jwt = λ t. some (record { jwt = "j"; disclosures = "d" ∷ []; kb_jwt = some "k" });
  decode_protected_header = λ t. some header;
  import_x509 = λ p a. some (7 ∷ []);
  import_jwk = λ j a. some (8 ∷ []);
  jwt_verify = λ t k a d. some payload;
  parse_json = λ b. some (arr (cons (str "salt") (cons (str "age") (cons (num "18") nil))));
  sha256 = λ t. 1 ∷ [];
  resolve_claims = λ t. some (field "age" (num "18") end);
  hostname = λ u. none;
  is_zero = λ n. false;
  evaluate = λ c. none;
}

abbrev pub options : ParseOptions
options = record {
  allowed_algorithms = none;
  trusted_issuer_jwks = [];
  has_trust_store = false;
  trusted_certificates = (1 ∷ []) ∷ [];
  skip_trust_check = false;
  require_key_binding = true;
  nonce = some "n";
  audience = none;
}

abbrev pub presentation : PresentationResult
presentation = record {
  valid = true;
  claims = field "age" (num "18") end;
  certificate = 1 ∷ [];
  country = [];
  vct = some "pid";
  trust = none;
  error = none;
}

pub parsed : parse tools options "j~d~k" ≡ ok presentation
unfolding parse parse_steps allowed_algorithm select_key x5c_leaf verify_issuer check_trust
    check_byte_equality check_presented check_disclosures decode_disclosures decode_disclosure
    to_disclosure check_key_binding verify_key_binding holder_jwk truthy non_empty is_text
    no_disclosures sd_jwt_for_hash if_anchored all_anchored expand visit visit_items visit_fields
    strings_of placeholder sd_entries add_values base64_to_bytes strip_padding lenient_groups
    index_of bytes_to_base64url btoa base64_char url_char map_to_credential_claims known_claims
    copy_rest if_boolean if_string is_reserved starts_with extract_country_hint country_of get
    as_string text_eq bytes_equal same_bytes
parsed = refl
