-- ===== src/SdJwt/Toolkit.antt =====
-- src/parsers/sd-jwt.parser.ts: what `SdJwtParser.parse` calls, its options and its outcomes, and
-- `derToPem`. `Toolkit` is the third-party code, and the evaluator of src/trust/TrustEvaluator.ts.
use online_verifier.Prelude.{
  ℕ, zero, suc, String, Bool, ◌||◌, Option, none, some, List, [], ◌∷◌, ◌++◌, nat_eq, if◌then◌else◌,
  ℕ_eq, string_eq, Result, ok, err,
}
use online_verifier.Text.{Text, codes}
use online_verifier.Text.Laws.{text_eq_instance}
use online_verifier.Trust.Evaluator.{TrustEvaluationResult}
use online_verifier.SdJwt.Json.{Json, str, arr, cons, Fields, get}

-- What `splitSdJwt` returns; an empty KB-JWT counts as none.
pub record Parts : Type 0 where
  pub jwt : String
  pub disclosures : List String
  pub kb_jwt : Option String

-- A call that throws is `none`. `import_x509` takes a PEM text and an algorithm, `jwt_verify` the
-- token, the key, the allowed algorithms and the expected audience, and answers with the payload.
-- `parse_json` is JSON.parse of the bytes as UTF-8, `sha256` hashes the UTF-8 of a text,
-- `resolve_claims` is decodeSdJwt and getClaims, `is_zero` tells of a number's text if it is zero.
pub record Toolkit : Type 0 where
  pub split_sd_jwt : String → Option Parts
  pub decode_protected_header : String → Option Fields
  pub import_x509 : Text → String → Option (List ℕ)
  pub import_jwk : Json → String → Option (List ℕ)
  pub jwt_verify : String → List ℕ → List String → Option String → Option Fields
  pub parse_json : List ℕ → Option Json
  pub sha256 : Text → List ℕ
  pub resolve_claims : String → Option Fields
  pub hostname : String → Option String
  pub is_zero : String → Bool
  pub evaluate : List ℕ → Option TrustEvaluationResult

-- The options that the parser reads. An absent list of JWKs is the empty one.
pub record ParseOptions : Type 0 where
  pub allowed_algorithms : Option (List String)
  pub trusted_issuer_jwks : List Fields
  pub has_trust_store : Bool
  pub trusted_certificates : List (List ℕ)
  pub skip_trust_check : Bool
  pub require_key_binding : Bool
  pub nonce : Option String
  pub audience : Option String

-- The messages of `invalidResult`.
pub data Rejection : Type 0 where
  unsupported_algorithm no_matching_jwk issuer_signature not_trusted : Rejection
  disclosure_not_json disclosure_not_array disclosure_mismatch : Rejection
  key_binding_missing nonce_required kb_algorithm kb_signature kb_nonce kb_sd_hash : Rejection

-- How the method ends early: with a MalformedCredentialError, with an exception of the evaluator, or
-- with `invalidResult`.
pub data Exit : Type 0 where
  malformed failed : Exit
  rejects : Rejection → Exit

abbrev pub Step : Type 0 → Type 0
Step A = Result Exit A

pub record PresentationResult : Type 0 where
  pub valid : Bool
  pub claims : Fields
  pub certificate : List ℕ
  pub country : Text
  pub vct : Option String
  pub trust : Option TrustEvaluationResult
  pub error : Option Rejection

abbrev pub required : {A : Type 0} → Exit → Option A → Step A
required e none = err e
required e (some a) = ok a

abbrev pub default_allowed_algorithms : List String
default_allowed_algorithms = "ES256" ∷ "ES384" ∷ "ES512" ∷ []

abbrev pub algorithms : Option (List String) → List String
algorithms none = default_allowed_algorithms
algorithms (some allowed) = allowed

-- The line terminators, which `.` of a regular expression does not match.
abbrev pub is_terminator : ℕ → Bool
is_terminator c = nat_eq c 10 || nat_eq c 13 || nat_eq c 8232 || nat_eq c 8233

abbrev pub close_line : Text → List Text → List Text
close_line [] lines = lines
close_line (c ∷ line) lines = (c ∷ line) ∷ lines

-- `match(/.{1,64}/g) || []`; `room` is what is left of 64 in the open line.
unfoldable pub lines_from : ℕ → Text → Text → List Text
lines_from room line [] = close_line line []
lines_from zero line (c ∷ text) =
    let fresh = close_line line (lines_from 64 [] text) in
    let next = close_line line (lines_from 63 (c ∷ []) text) in
    if is_terminator c then fresh else next
lines_from (suc room) line (c ∷ text) =
    let fresh = close_line line (lines_from 64 [] text) in
    let longer = lines_from room (line ++ c ∷ []) text in if is_terminator c then fresh else longer

abbrev pub join : ℕ → List Text → Text
join separator [] = []
join separator (t ∷ []) = t
join separator (t ∷ u ∷ rest) = t ++ separator ∷ join separator (u ∷ rest)

unfoldable pub der_to_pem : String → Text
unfolding lines_from
der_to_pem base64_der =
    codes "-----BEGIN CERTIFICATE-----"
    ++ b'\n' ∷ join b'\n' (lines_from 64 [] (codes base64_der))
    ++ b'\n' ∷ codes "-----END CERTIFICATE-----"

-- `header.x5c` if it is an array that starts with a string.
unfoldable pub x5c_leaf : Fields → Option String
x5c_leaf header = elim (get "x5c" header) [ some (arr (cons (str leaf) _)) ↦ some leaf | _ ↦ none ]
