-- ===== src/SdJwt/Parser.antt =====
-- src/parsers/sd-jwt.parser.ts: `SdJwtParser.parse`, on a token that is a string, step by step.
pub mod Laws
pub mod Valid
use online_verifier.Prelude.{
  ℕ, suc, String, Bool, true, false, not, ◌||◌, Option, none, some, List, [], ◌∷◌, ◌++◌, map,
  if◌then◌else◌, ◌==◌, ℕ_eq, string_eq, length, any, find, includes, Result, ok, err, ◌>>=◌, guard,
}
use online_verifier.Text.{Text, codes, includes_char}
use online_verifier.Text.Laws.{text_eq_instance}
use online_verifier.Trust.Cert.{bytes_equal}
use online_verifier.Base64.{base64_to_bytes, bytes_to_base64url}
use online_verifier.Trust.Evaluator.{TrustEvaluationResult}
use online_verifier.SdJwt.Json.{
  Json, null, bool, num, str, arr, obj, nil, cons, Fields, end, get, as_string,
}
use online_verifier.SdJwt.Anchors.{Kind, kv, elem, Disclosure, all_anchored}
use online_verifier.SdJwt.Claims.{map_to_credential_claims, extract_country_hint}
use online_verifier.SdJwt.Toolkit.{
  Parts, Toolkit, ParseOptions, Rejection, unsupported_algorithm, no_matching_jwk, issuer_signature,
  not_trusted, disclosure_not_json, disclosure_not_array, disclosure_mismatch, key_binding_missing,
  nonce_required, kb_algorithm, kb_signature, kb_nonce, kb_sd_hash, malformed, failed, rejects,
  Step, PresentationResult, required, algorithms, join, der_to_pem, x5c_leaf,
}

-- The key of the x5c leaf with its bytes, or the JWKs that the caller trusts.
pub data IssuerKey : Type 0 where
  certified : List ℕ → List ℕ → IssuerKey
  by_jwks : IssuerKey

abbrev pub kid_is : String → Option String → Bool
kid_is kid none = false
kid_is kid (some k) = k == kid

abbrev pub must_have_jwks : List Fields → Step IssuerKey
must_have_jwks [] = err malformed
must_have_jwks (_ ∷ _) = ok by_jwks

-- The JWKs to try: the first with the header's `kid`, or all if the header has none.
unfoldable pub candidates : Option String → List Fields → Step (List Fields)
candidates none jwks = ok jwks
candidates (some kid) jwks = elim (find (λ jwk. kid_is kid (as_string (get "kid" jwk))) jwks) [
  | none ↦ err (rejects no_matching_jwk)
  | some matched ↦ ok (matched ∷ [])
]

abbrev pub is_some {ℓ} : {A : Type ℓ} → Option A → Bool
is_some none = false
is_some (some a) = true

-- `!!value` of a text that may be absent.
unfoldable pub non_empty : Option String → Option String
non_empty none = none
non_empty (some s) = if s == "" then none else some s

-- `value === s`.
unfoldable pub is_text : Text → Option Json → Bool
is_text s value = elim (as_string value) [ none ↦ false | some t ↦ codes t == s ]

unfoldable pub no_disclosures : List String → Bool
no_disclosures [] = true
no_disclosures (_ ∷ _) = false

-- What the `sd_hash` of the KB-JWT is taken of.
unfoldable pub sd_jwt_for_hash : Parts → Text
unfolding no_disclosures
sd_jwt_for_hash parts =
    let disclosure_part = join b'~' (map codes parts.disclosures) ++ b'~' ∷ [] in
    codes parts.jwt ++ b'~' ∷ (if no_disclosures parts.disclosures then [] else disclosure_part)

abbrev pub some_trust : TrustEvaluationResult → Step (Option TrustEvaluationResult)
some_trust r = ok (some r)

-- `{ valid: false, claims: {}, … }` of an outcome of the check that all are anchored. The fuel does
-- not run out.
unfoldable pub if_anchored : Option Bool → Step (Unit {0})
if_anchored (some true) = ok tt
if_anchored _ = err (rejects disclosure_mismatch)

module _ (tools : Toolkit) (opts : ParseOptions) where
  abbrev pub allowed : List String
  allowed = algorithms opts.allowed_algorithms

  unfoldable pub allowed_algorithm : Fields → Option String
  allowed_algorithm header = elim (as_string (get "alg" header)) [
    | none ↦ none
    | some alg ↦ if includes allowed alg then some alg else none
  ]

  -- Step 4.
  unfoldable pub select_key : Fields → String → Step IssuerKey
  select_key header alg = elim (x5c_leaf header) [
    | some leaf ↦ required malformed (tools.import_x509 (der_to_pem leaf) alg) >>= λ key.
        ok (certified key (base64_to_bytes (codes leaf)))
    | none ↦ must_have_jwks opts.trusted_issuer_jwks
  ]

  -- The payload under the first candidate that is a key for the algorithm and verifies the token.
  unfoldable pub try_candidates : String → String → List Fields → Option Fields
  try_candidates jwt alg [] = none
  try_candidates jwt alg (jwk ∷ jwks) = elim (tools.import_jwk (obj jwk) alg) [
    | none ↦ try_candidates jwt alg jwks
    | some key ↦ elim (tools.jwt_verify jwt key allowed none) [
      | none ↦ try_candidates jwt alg jwks
      | some payload ↦ some payload
    ]
  ]

  -- Step 5.
  unfoldable pub verify_issuer : String → Fields → String → IssuerKey → Step Fields
  verify_issuer jwt header alg (certified key cert) =
      required (rejects issuer_signature) (tools.jwt_verify jwt key allowed none)
  verify_issuer jwt header alg by_jwks =
      candidates (as_string (get "kid" header)) opts.trusted_issuer_jwks >>= λ jwks.
      required (rejects issuer_signature) (try_candidates jwt alg jwks)

  unfoldable pub check_byte_equality : List ℕ → List (List ℕ) → Step (Unit {0})
  check_byte_equality cert [] = guard opts.skip_trust_check malformed
  check_byte_equality cert (t ∷ trusted) =
      guard (any (λ c. bytes_equal c cert) (t ∷ trusted)) (rejects not_trusted)

  -- Step 6.
  unfoldable pub check_trust : IssuerKey → Step (Option TrustEvaluationResult)
  check_trust by_jwks = ok none
  check_trust (certified key cert) =
      if opts.has_trust_store
      then required failed (tools.evaluate cert) >>= some_trust
      else check_byte_equality cert opts.trusted_certificates >>= λ _. ok none

  abbrev pub hashed : String → Kind → Json → Step Disclosure
  hashed disclosure kind value = ok (record {
    kind = kind;
    hash = bytes_to_base64url (tools.sha256 (codes disclosure));
    value = value;
  })

  unfoldable pub to_disclosure : String → Json → Step Disclosure
  to_disclosure disclosure (arr (cons salt (cons value nil))) = hashed disclosure elem value
  to_disclosure disclosure (arr (cons salt (cons name (cons value nil)))) =
      hashed disclosure kv value
  to_disclosure disclosure _ = err (rejects disclosure_not_array)

  unfoldable pub decode_disclosure : String → Step Disclosure
  decode_disclosure disclosure =
      required (rejects disclosure_not_json) (tools.parse_json (base64_to_bytes (codes disclosure)))
      >>= to_disclosure disclosure

  unfoldable pub decode_disclosures : List String → Step (List Disclosure)
  decode_disclosures [] = ok []
  decode_disclosures (d ∷ disclosures) = decode_disclosure d >>= λ decoded.
      decode_disclosures disclosures >>= λ rest. ok (decoded ∷ rest)

  -- Step 7. A round of the loop takes away one disclosure at least, and the last one none.
  unfoldable pub check_disclosures : Fields → List String → Step (Unit {0})
  check_disclosures payload disclosures =
      if no_disclosures disclosures
      then ok tt
      else decode_disclosures disclosures >>= λ decoded.
          if_anchored (all_anchored (suc (length decoded)) (obj payload) decoded)

  unfoldable pub truthy : Json → Bool
  truthy null = false
  truthy (bool b) = b
  truthy (num n) = not (tools.is_zero n)
  truthy (str s) = not (s == "")
  truthy (arr xs) = true
  truthy (obj fs) = true

  abbrev pub if_truthy : Option Json → Option Json
  if_truthy none = none
  if_truthy (some jwk) = if truthy jwk then some jwk else none

  -- `cnf.jwk`; `isHolderBound` is that there is one.
  unfoldable pub holder_jwk : Fields → Option Json
  holder_jwk payload = elim (get "cnf" payload) [
    | some (obj cnf) ↦ if_truthy (get "jwk" cnf)
    | _ ↦ none
  ]

  unfoldable pub verify_key_binding : Parts → String → Option Json → Step (Unit {0})
  verify_key_binding parts kb_jwt none = err malformed
  verify_key_binding parts kb_jwt (some jwk) =
      required (rejects nonce_required) (non_empty opts.nonce) >>= λ nonce.
      required malformed (tools.decode_protected_header kb_jwt) >>= λ kb_header.
      required (rejects kb_algorithm) (allowed_algorithm kb_header) >>= λ kb_alg.
      required malformed (tools.import_jwk jwk kb_alg) >>= λ holder_key.
      required (rejects kb_signature)
        (tools.jwt_verify kb_jwt holder_key allowed (non_empty opts.audience))
      >>= λ kb_payload.
          guard (is_text (codes nonce) (get "nonce" kb_payload)) (rejects kb_nonce) >>= λ _.
          guard
            (is_text (bytes_to_base64url (tools.sha256 (sd_jwt_for_hash parts)))
              (get "sd_hash" kb_payload))
            (rejects kb_sd_hash)

  -- Step 8.
  unfoldable pub check_key_binding : Parts → Fields → Step (Unit {0})
  check_key_binding parts payload = elim (non_empty parts.kb_jwt) [
    | none ↦
        guard (not (is_some (holder_jwk payload) || opts.require_key_binding))
          (rejects key_binding_missing)
    | some kb_jwt ↦ verify_key_binding parts kb_jwt (holder_jwk payload)
  ]

  abbrev pub certificate_of : IssuerKey → List ℕ
  certificate_of (certified key cert) = cert
  certificate_of by_jwks = []

  abbrev pub text_or_empty : Option String → String
  text_or_empty none = ""
  text_or_empty (some s) = s

  abbrev pub presented :
      IssuerKey → Fields → Option TrustEvaluationResult → Fields → PresentationResult
  presented key payload trust claims = record {
    valid = true;
    claims = map_to_credential_claims claims;
    certificate = certificate_of key;
    country = extract_country_hint tools.hostname (text_or_empty (as_string (get "iss" payload)));
    vct = as_string (get "vct" payload);
    trust = trust;
    error = none;
  }

  -- Steps 7 to 9.
  unfoldable pub check_presented :
      String → Parts → IssuerKey → Fields → Option TrustEvaluationResult → Step PresentationResult
  check_presented vp_token parts key payload trust =
      check_disclosures payload parts.disclosures >>= λ _. check_key_binding parts payload >>= λ _.
      required malformed (tools.resolve_claims vp_token) >>= λ claims.
      ok (presented key payload trust claims)

  unfoldable pub parse_steps : String → Step PresentationResult
  parse_steps vp_token = required malformed (tools.split_sd_jwt vp_token) >>= λ parts.
      required malformed (tools.decode_protected_header parts.jwt) >>= λ header.
      required (rejects unsupported_algorithm) (allowed_algorithm header) >>= λ alg.
      select_key header alg >>= λ key. verify_issuer parts.jwt header alg key >>= λ payload.
      check_trust key >>= λ trust. check_presented vp_token parts key payload trust

abbrev pub invalid_result : Rejection → PresentationResult
invalid_result message = record {
  valid = false;
  claims = end;
  certificate = [];
  country = [];
  vct = none;
  trust = none;
  error = some message;
}

-- The exceptions of `parse`.
pub data ParseError : Type 0 where
  malformed_credential evaluation_failed : ParseError

abbrev pub finish : Step PresentationResult → Result ParseError PresentationResult
finish (ok r) = ok r
finish (err (rejects message)) = ok (invalid_result message)
finish (err malformed) = err malformed_credential
finish (err failed) = err evaluation_failed

unfoldable pub parse : Toolkit → ParseOptions → String → Result ParseError PresentationResult
parse tools opts vp_token = finish (parse_steps tools opts vp_token)

-- `canParse` of a string.
unfoldable pub can_parse : String → Bool
can_parse vp_token = includes_char b'~' (codes vp_token)
