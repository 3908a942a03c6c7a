-- ===== src/Response.antt =====
-- src/presentation.ts, src/decrypt-response.ts and `verifyPresentation` of src/verify.ts; its child
-- Envelope has `verifyAuthorizationResponse`.
pub mod Envelope
pub mod Laws
use online_verifier.Prelude.{
  ℕ, ◌+◌, ◌-◌, String, Bool, false, ◌&&◌, Option, none, some, List, [], ◌∷◌, if◌then◌else◌, Result,
  ok, err, ◌>>=◌, ◌>>◌,
}
use online_verifier.Text.{Text}
use online_verifier.Trust.Evaluator.{TrustEvaluationResult}
use online_verifier.SdJwt.Json.{Json, Fields, end}
use online_verifier.SdJwt.Toolkit.{
  Toolkit, ParseOptions as SdJwtOptions, PresentationResult as SdJwtResult,
}
use online_verifier.SdJwt.Parser.{ParseError, can_parse, parse as sd_jwt_parse}
use online_verifier.Mdoc.Mso.{CredentialError}
use online_verifier.Mdoc.Claims.{Claims}
use online_verifier.Mdoc.Parser.{
  Modules, ParseOptions as MdocOptions, PresentationResult as MdocResult, parse as mdoc_parse,
}

-- A VP token: a string, bytes, or any other value.
pub data Token : Type 0 where
  text : String → Token
  bytes : List ℕ → Token
  other : Token

-- The options that the parsers and the envelope read. `mdoc_session_transcript` may be built later.
pub record VerifyOptions : Type 0 where
  pub allowed_algorithms : Option (List String)
  pub has_trust_store : Bool
  pub trusted_certificates : List (List ℕ)
  pub skip_trust_check : Bool
  pub trusted_issuer_jwks : List Fields
  pub require_key_binding : Bool
  pub nonce : Option String
  pub audience : Option String
  pub expected_doc_type : Option String
  pub allow_digest_mismatch : Bool
  pub mdoc_session_transcript : Option (List ℕ)

abbrev pub sd_jwt_options : VerifyOptions → SdJwtOptions
sd_jwt_options opts = record {
  allowed_algorithms = opts.allowed_algorithms;
  trusted_issuer_jwks = opts.trusted_issuer_jwks;
  has_trust_store = opts.has_trust_store;
  trusted_certificates = opts.trusted_certificates;
  skip_trust_check = opts.skip_trust_check;
  require_key_binding = opts.require_key_binding;
  nonce = opts.nonce;
  audience = opts.audience;
}

abbrev pub mdoc_options : VerifyOptions → MdocOptions
mdoc_options opts = record {
  allowed_algorithms = opts.allowed_algorithms;
  has_trust_store = opts.has_trust_store;
  trusted_certificates = opts.trusted_certificates;
  skip_trust_check = opts.skip_trust_check;
  expected_doc_type = opts.expected_doc_type;
  allow_digest_mismatch = opts.allow_digest_mismatch;
  mdoc_session_transcript = opts.mdoc_session_transcript;
}

-- A result of either parser, or that of a token that no parser takes.
pub data Parsed : Type 0 where
  sd_jwt : SdJwtResult → Parsed
  mdoc : MdocResult → Parsed
  unsupported : Parsed

abbrev pub valid_of : Parsed → Bool
valid_of (sd_jwt r) = r.valid
valid_of (mdoc r) = r.valid
valid_of unsupported = false

-- What the functions of src/verify.ts throw.
pub data VerifyError : Type 0 where
  sd_jwt_error : ParseError → VerifyError
  mdoc_error : CredentialError → VerifyError
  missing_decryption_key missing_verifier_encryption_key multiple_credentials : VerifyError
  unsupported_jwe decryption_failed type_error transcript_failed : VerifyError

abbrev pub from_sd_jwt : Result ParseError SdJwtResult → Result VerifyError Parsed
from_sd_jwt (ok r) = ok (sd_jwt r)
from_sd_jwt (err e) = err (sd_jwt_error e)

abbrev pub from_mdoc : Result CredentialError MdocResult → Result VerifyError Parsed
from_mdoc (ok r) = ok (mdoc r)
from_mdoc (err e) = err (mdoc_error e)

-- The entry of a DCQL query that is read: its id and its format.
pub record CredentialQuery : Type 0 where
  pub id : String
  pub format : String

pub record DcqlQuery : Type 0 where
  pub credentials : List CredentialQuery
  pub constraints : Json

-- The claims that a DCQL path addresses: those of an SD-JWT, or those of an mdoc, by namespace if it
-- has them.
pub data DecodedClaims : Type 0 where
  flat : Fields → DecodedClaims
  flat_mdoc : Claims → DecodedClaims
  by_namespace : List (String × Claims) → DecodedClaims

pub record DecodedCredential : Type 0 where
  pub id : String
  pub format : String
  pub claims : DecodedClaims
  pub vct : Option String
  pub doctype : Option String
  pub trusted_authority_ids : Option (List Text)

pub record DcqlMatch : Type 0 where
  pub satisfied : Bool
  pub details : Json

-- `@openeudi/dcql`.
pub record Dcql : Type 0 where
  pub match_query : DcqlQuery → List DecodedCredential → DcqlMatch
  pub build_submission : DcqlQuery → DcqlMatch → Json

pub record VerifyResult : Type 0 where
  pub parsed : Parsed
  pub matched : DcqlMatch
  pub submission : Option Json
  pub valid : Bool

unfoldable pub first_id : List CredentialQuery → String
first_id [] = "presented"
first_id (c ∷ _) = c.id

unfoldable pub authority_ids : Option TrustEvaluationResult → Option (List Text)
authority_ids none = none
authority_ids (some trust) = elim trust.trusted_authority_ids [
  | [] ↦ none
  | id ∷ ids ↦ some (id ∷ ids)
]

abbrev pub nothing_decoded : String → DecodedCredential
nothing_decoded id = record {
  id = id;
  format = "dc+sd-jwt";
  claims = flat end;
  vct = none;
  doctype = none;
  trusted_authority_ids = none;
}

-- Only a valid mdoc result has `namespacedClaims`.
unfoldable pub decoded_of : String → Parsed → DecodedCredential
decoded_of id (sd_jwt r) = record {
  id = id;
  format = "dc+sd-jwt";
  claims = flat r.claims;
  vct = r.vct;
  doctype = none;
  trusted_authority_ids = authority_ids r.trust;
}
decoded_of id (mdoc r) = record {
  id = id;
  format = "mso_mdoc";
  claims = if r.valid then by_namespace r.namespaced_claims else flat_mdoc r.claims;
  vct = none;
  doctype = r.doc_type;
  trusted_authority_ids = authority_ids r.trust;
}
decoded_of id unsupported = nothing_decoded id

module _ (tools : Toolkit) (modules : Modules) (dcql : Dcql) (now : ℕ) where
  -- The parsers in their order.
  unfoldable pub parse_presentation : VerifyOptions → Token → Result VerifyError Parsed
  parse_presentation opts (text vp_token) =
      if can_parse vp_token
      then from_sd_jwt (sd_jwt_parse tools (sd_jwt_options opts) vp_token)
      else ok unsupported
  parse_presentation opts (bytes vp_token) =
      from_mdoc (mdoc_parse modules (mdoc_options opts) now vp_token)
  parse_presentation opts other = ok unsupported

  abbrev pub verdict : DcqlQuery → Parsed → DcqlMatch → VerifyResult
  verdict query parsed found = record {
    parsed = parsed;
    matched = found;
    submission = if found.satisfied then some (dcql.build_submission query found) else none;
    valid = valid_of parsed && found.satisfied;
  }

  unfoldable pub verify_presentation :
      DcqlQuery → VerifyOptions → Token → Result VerifyError VerifyResult
  verify_presentation query opts vp_token = parse_presentation opts vp_token >>= λ parsed. ok (
      verdict query parsed
        (dcql.match_query query (decoded_of (first_id query.credentials) parsed ∷ [])))
