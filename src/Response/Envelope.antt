-- ===== src/Response/Envelope.antt =====
-- src/verify.ts: `verifyAuthorizationResponse`, on an envelope that is a JSON value, with
-- src/decrypt-response.ts. A decrypted envelope may be encrypted again, so the recursion takes fuel;
-- `none` means that it has not ended.
pub mod Laws
use online_verifier.Prelude.{
  ℕ, zero, suc, ◌+◌, ◌-◌, String, Bool, true, false, ◌&&◌, Option, none, some, List, [], ◌∷◌, ltb,
  if◌then◌else◌, ◌==◌, ℕ_eq, string_eq, length, includes, Result, ok, err, ◌>>=◌, ◌>>◌, guard,
}
use online_verifier.Text.{codes}
use online_verifier.Base64.{base64_url_to_bytes}
use online_verifier.SdJwt.Json.{
  Json, str, arr, obj, Items, nil, cons, Fields, end, field, get, as_string,
}
use online_verifier.SdJwt.Toolkit.{Toolkit}
use online_verifier.Mdoc.Parser.{Modules}
use online_verifier.Mdoc.Transcript.{
  Encoders, Jwk, build_oid4vp_session_transcript, build_openid4vp_handover_session_transcript,
}
use online_verifier.Response.{
  Token, text, bytes, other, VerifyOptions, VerifyError, missing_decryption_key,
  missing_verifier_encryption_key, multiple_credentials, unsupported_jwe, decryption_failed,
  type_error, transcript_failed, CredentialQuery, DcqlQuery, Dcql, VerifyResult,
  verify_presentation,
}

pub data Profile : Type 0 where
  iso_18013_7 openid4vp_1_0 : Profile

-- VerifyAuthorizationResponseOptions.
pub record EnvelopeOptions : Type 0 where
  pub verify : VerifyOptions
  pub decryption_key : Option (List ℕ)
  pub client_id : Option String
  pub response_uri : Option String
  pub session_transcript_profile : Option Profile
  pub verifier_encryption_jwk : Option Jwk

-- Third-party code: `decodeProtectedHeader` and `compactDecrypt` of jose, JSON.parse and TextDecoder
-- on bytes. `none` is an exception.
pub record Jose : Type 0 where
  pub decode_protected_header : String → Option Fields
  pub compact_decrypt : String → List ℕ → Option (List ℕ)
  pub parse_json : List ℕ → Option Json
  pub decode_text : List ℕ → String

-- `{ response: string }` and nothing else.
unfoldable pub encrypted_response : Json → Option String
encrypted_response (obj (field k (str jwe) end)) = if k == "response" then some jwe else none
encrypted_response _ = none

-- `Object.keys(vp_token)` in order, with the values.
unfoldable pub values_of : Fields → List Json
values_of end = []
values_of (field k v fs) = v ∷ values_of fs

unfoldable pub items_of : Items → List Json
items_of nil = []
items_of (cons x xs) = x ∷ items_of xs

-- `vp_token` if it is an object; an array is one, whose keys are its indices.
unfoldable pub vp_token_of : Json → Option (List Json)
unfolding values_of items_of
vp_token_of (obj envelope) = elim (get "vp_token" envelope) [
  | some (obj entries) ↦ some (values_of entries)
  | some (arr entries) ↦ some (items_of entries)
  | _ ↦ none
]
vp_token_of _ = none

-- Every entry must be an array.
unfoldable pub presentations_of : List Json → Option (List (List Json))
unfolding items_of
presentations_of [] = some []
presentations_of (arr xs ∷ entries) = elim (presentations_of entries) [
  | none ↦ none
  | some rest ↦ some (items_of xs ∷ rest)
]
presentations_of (_ ∷ entries) = none

unfoldable pub presentation_count : List (List Json) → ℕ
presentation_count [] = 0
presentation_count (xs ∷ entries) = length xs + presentation_count entries

unfoldable pub is_mdoc_query : List CredentialQuery → Bool
is_mdoc_query [] = false
is_mdoc_query (c ∷ _) = c.format == "mso_mdoc"

-- The presentation as the parsers take it: a string is decoded for an mdoc query.
unfoldable pub token_of : Bool → List Json → Result VerifyError Token
token_of true (str s ∷ _) = elim (base64_url_to_bytes (codes s)) [
  | none ↦ err type_error
  | some b ↦ ok (bytes b)
]
token_of false (str s ∷ _) = ok (text s)
token_of is_mdoc _ = ok other

-- The checks on the entries of `vp_token`, which is not empty: one query id, and one presentation.
unfoldable pub single_presentation : List (List Json) → Result VerifyError (List Json)
unfolding presentation_count
single_presentation [] = err type_error
single_presentation (xs ∷ []) =
    if ltb 1 (presentation_count (xs ∷ [])) then err multiple_credentials else ok xs
single_presentation (xs ∷ _ ∷ _) = err multiple_credentials

unfoldable pub must_be_envelope : Json → Result VerifyError (List (List Json))
must_be_envelope envelope = elim (vp_token_of envelope) [
  | none ↦ err type_error
  | some entries ↦ elim (presentations_of entries) [ none ↦ err type_error | some ps ↦ ok ps ]
]

abbrev pub text_or_empty : Option String → String
text_or_empty none = ""
text_or_empty (some s) = s

abbrev pub supported_enc : List String
supported_enc = "A128GCM" ∷ "A256GCM" ∷ []

module _ (jose : Jose) where
  unfoldable pub is_supported : Fields → Bool
  is_supported header =
      text_or_empty (as_string (get "alg" header)) == "ECDH-ES"
      && includes supported_enc (text_or_empty (as_string (get "enc" header)))

  abbrev pub required : {A : Type 0} → VerifyError → Option A → Result VerifyError A
  required e none = err e
  required e (some a) = ok a

  unfoldable pub decrypt_authorization_response : String → List ℕ → Result VerifyError Json
  decrypt_authorization_response jwe private_key =
      required decryption_failed (jose.decode_protected_header jwe) >>= λ header.
      guard (is_supported header) unsupported_jwe >>= λ _.
      required decryption_failed (jose.compact_decrypt jwe private_key) >>= λ plaintext.
      required decryption_failed (jose.parse_json plaintext)

  abbrev pub decode_apu : Option String → Option String
  decode_apu none = none
  decode_apu (some apu) = if apu == "" then none else elim (base64_url_to_bytes (codes apu)) [
    | none ↦ none
    | some b ↦ some (jose.decode_text b)
  ]

  unfoldable pub extract_mdoc_generated_nonce : String → Option String
  extract_mdoc_generated_nonce jwe = elim (jose.decode_protected_header jwe) [
    | none ↦ none
    | some header ↦ decode_apu (as_string (get "apu" header))
  ]

  module _ (encoders : Encoders) where
    abbrev pub built : Option (List ℕ) → Result VerifyError (Option (List ℕ))
    built none = err transcript_failed
    built (some transcript) = ok (some transcript)

    -- The layout of the profile. Without `apu` the transcript stays unset.
    unfoldable pub build_transcript :
        Option Profile
        → Option Jwk
        → String
        → String
        → String
        → String
        → Result VerifyError (Option (List ℕ))
    build_transcript (some openid4vp_1_0) none jwe client_id response_uri nonce =
        err missing_verifier_encryption_key
    build_transcript (some openid4vp_1_0) (some jwk) jwe client_id response_uri nonce = built (
        build_openid4vp_handover_session_transcript encoders client_id nonce response_uri
          (some jwk))
    build_transcript _ jwk jwe client_id response_uri nonce =
        elim (extract_mdoc_generated_nonce jwe) [
          | none ↦ ok none
          | some mdoc_nonce ↦ ok (
              some
                (build_oid4vp_session_transcript encoders client_id response_uri nonce mdoc_nonce))
        ]

    -- `mdocSessionTranscript` of the next call: the caller's, or one that is built of the request, or
    -- none if the request is not known.
    unfoldable pub next_transcript :
        Option (List ℕ)
        → Option Profile
        → Option Jwk
        → String
        → Option String
        → Option String
        → Option String
        → Result VerifyError (Option (List ℕ))
    next_transcript none profile jwk jwe (some client_id) (some response_uri) (some nonce) =
        build_transcript profile jwk jwe client_id response_uri nonce
    next_transcript transcript profile jwk jwe _ _ _ = ok transcript

    abbrev pub transcript_of : EnvelopeOptions → String → Result VerifyError (Option (List ℕ))
    transcript_of opts jwe =
        next_transcript opts.verify.mdoc_session_transcript opts.session_transcript_profile
          opts.verifier_encryption_jwk jwe opts.client_id opts.response_uri opts.verify.nonce

    abbrev pub with_transcript : EnvelopeOptions → Option (List ℕ) → EnvelopeOptions
    with_transcript opts transcript = record {
      verify = record {
        allowed_algorithms = opts.verify.allowed_algorithms;
        has_trust_store = opts.verify.has_trust_store;
        trusted_certificates = opts.verify.trusted_certificates;
        skip_trust_check = opts.verify.skip_trust_check;
        trusted_issuer_jwks = opts.verify.trusted_issuer_jwks;
        require_key_binding = opts.verify.require_key_binding;
        nonce = opts.verify.nonce;
        audience = opts.verify.audience;
        expected_doc_type = opts.verify.expected_doc_type;
        allow_digest_mismatch = opts.verify.allow_digest_mismatch;
        mdoc_session_transcript = transcript;
      };
      decryption_key = opts.decryption_key;
      client_id = opts.client_id;
      response_uri = opts.response_uri;
      session_transcript_profile = opts.session_transcript_profile;
      verifier_encryption_jwk = opts.verifier_encryption_jwk;
    }

    -- The encrypted branch up to the recursive call: the options and the envelope of that call.
    unfoldable pub open_response :
        EnvelopeOptions → String → Result VerifyError (EnvelopeOptions × Json)
    open_response opts jwe = required missing_decryption_key opts.decryption_key >>= λ key.
        transcript_of opts jwe >>= λ transcript.
        decrypt_authorization_response jwe key >>= λ envelope.
        ok (with_transcript opts transcript, envelope)

    module _ (tools : Toolkit) (modules : Modules) (dcql : Dcql) (now : ℕ) (query : DcqlQuery) where
      -- The branch of an envelope in the clear.
      unfoldable pub verify_plain : EnvelopeOptions → Json → Result VerifyError VerifyResult
      verify_plain opts envelope = must_be_envelope envelope >>= λ entries.
          single_presentation entries >>= λ presentations.
          token_of (is_mdoc_query query.credentials) presentations >>= λ token.
          verify_presentation tools modules dcql now query opts.verify token

      unfoldable pub verify_authorization_response :
          ℕ → EnvelopeOptions → Json → Option (Result VerifyError VerifyResult)
      verify_authorization_response zero opts envelope = none
      verify_authorization_response (suc fuel) opts envelope = elim (encrypted_response envelope) [
        | none ↦ some (verify_plain opts envelope)
        | some jwe ↦ elim (open_response opts jwe) [
          | err e ↦ some (err e)
          | ok (next, decrypted) ↦ verify_authorization_response fuel next decrypted
        ]
      ]
