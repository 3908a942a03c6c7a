-- ===== src/Tests/Response.antt =====
-- A response in the clear and an encrypted one, and the theorems on them.
use online_verifier.Prelude.{
  ℕ, suc, ◌<◌, String, ◌≡◌, refl, sym, ap, subst, ◌⊎◌, true, false, Option, none, some, List, [],
  ◌∷◌, ◌++◌, arith, ℕ_eq, string_eq, length, Result, ok,
}
use online_verifier.Text.{codes, includes_char}
use online_verifier.SdJwt.Json.{Json, null, str, arr, obj, nil, cons, end, field, get, as_string}
use online_verifier.Mdoc.Transcript.{
  Item, Items, item, end as end_items, array, text as item_text, two, handover_info,
  build_oid4vp_session_transcript, bytes as item_bytes, Encoders, truthy, thumbprint_input,
  jwk_sha256_thumbprint, handover_transcript, build_openid4vp_handover_session_transcript,
}
use online_verifier.Mdoc.Transcript.Binding.{
  Collision, build_oid4vp_session_transcript-binds, handover_transcript-binds,
}
use online_verifier.Response.{
  text, VerifyOptions, sd_jwt, DcqlQuery, Dcql, VerifyResult, parse_presentation,
  verify_presentation,
}
use online_verifier.SdJwt.Parser.{can_parse}
use online_verifier.Response.Laws.{IsVerified, verify_presentation-IsVerified}
use online_verifier.Response.Envelope.{
  openid4vp_1_0, EnvelopeOptions, Jose, encrypted_response, values_of, items_of, vp_token_of,
  presentations_of, presentation_count, is_mdoc_query, token_of, single_presentation,
  must_be_envelope, is_supported, decrypt_authorization_response, build_transcript, next_transcript,
  with_transcript, open_response, verify_plain, verify_authorization_response,
}
use online_verifier.Response.Envelope.Laws.{
  clear, opened, Keeps, Opened-Keeps, IsSettled, verify_authorization_response-IsSettled,
  verify_authorization_response_ends,
}
use online_verifier.Tests.SdJwt.{tools, presentation, parsed}
use online_verifier.Tests.Credentials.{modules}

abbrev with : Option (List ℕ) → VerifyOptions
with transcript = record {
  allowed_algorithms = none;
  has_trust_store = false;
  trusted_certificates = (1 ∷ []) ∷ [];
  skip_trust_check = false;
  trusted_issuer_jwks = [];
  require_key_binding = true;
  nonce = some "n";
  audience = none;
  expected_doc_type = none;
  allow_digest_mismatch = false;
  mdoc_session_transcript = transcript;
}

abbrev query : DcqlQuery
query = record { credentials = record { id = "c"; format = "dc+sd-jwt" } ∷ []; constraints = null }

abbrev dcql : Dcql
dcql = record {
  match_query = λ q ds. record { satisfied = true; details = null };
  build_submission = λ q m. null;
}

abbrev result : VerifyResult
result = record {
  parsed = sd_jwt presentation;
  matched = record { satisfied = true; details = null };
  submission = some null;
  valid = true;
}

verified :
    (t : Option (List ℕ))
    → verify_presentation tools modules dcql 50 query (with t) (text "j~d~k") ≡ ok result
unfolding verify_presentation parse_presentation can_parse includes_char
verified t = rw parsed refl

verify_presentation-IsVerified_example :
    IsVerified tools modules dcql 50 (with none) query (text "j~d~k") result
verify_presentation-IsVerified_example =
    verify_presentation-IsVerified tools modules dcql 50 (with none) query (text "j~d~k") result
      (verified none) refl

abbrev inner : Json
inner = obj (field "vp_token" (obj (field "c" (arr (cons (str "j~d~k") nil)) end)) end)

abbrev envelope : Json
envelope = obj (field "response" (str "jwe") end)

abbrev jose : Jose
jose = record {
  decode_protected_header =
      λ t. some (field "alg" (str "ECDH-ES") (field "enc" (str "A128GCM") end));
  compact_decrypt = λ t k. some (1 ∷ []);
  parse_json = λ b. some inner;
  decode_text = λ b. "";
}

abbrev encoders : Encoders
encoders = record { encode = λ i. 9 ∷ []; sha256 = λ b. b; utf8 = λ t. t }

abbrev opts : EnvelopeOptions
opts = record {
  verify = with none;
  decryption_key = some (5 ∷ []);
  client_id = some "v";
  response_uri = some "u";
  session_transcript_profile = some openid4vp_1_0;
  verifier_encryption_jwk =
      some (record { kty = some "EC"; crv = some "P-256"; x = some "x"; y = some "y" });
}

abbrev last : EnvelopeOptions
last = with_transcript jose encoders opts (some (9 ∷ []))

step : open_response jose encoders opts "jwe" ≡ ok (last, inner)
unfolding open_response next_transcript build_transcript build_openid4vp_handover_session_transcript
    jwk_sha256_thumbprint thumbprint_input truthy handover_transcript decrypt_authorization_response
    is_supported get as_string
step = refl

is_clear : encrypted_response inner ≡ none
unfolding encrypted_response
is_clear = refl

is_encrypted : encrypted_response envelope ≡ some "jwe"
unfolding encrypted_response
is_encrypted = refl

Opened-Keeps_example : Keeps jose encoders opts last
Opened-Keeps_example =
    Opened-Keeps jose encoders opts envelope last inner
      (opened "jwe" is_encrypted step (clear is_clear))

plain : verify_plain jose encoders tools modules dcql 50 query last inner ≡ ok result
unfolding verify_plain must_be_envelope vp_token_of values_of items_of presentations_of
    presentation_count single_presentation token_of is_mdoc_query get
plain = verified (some (9 ∷ []))

settled :
    verify_authorization_response jose encoders tools modules dcql 50 query 2 opts envelope
    ≡ some (ok result)
unfolding verify_authorization_response
settled = rw (is_encrypted, step, is_clear, verify_authorization_response) (ap some plain)

verify_authorization_response-IsSettled_example :
    IsSettled jose encoders tools modules dcql 50 query opts envelope result
verify_authorization_response-IsSettled_example =
    verify_authorization_response-IsSettled jose encoders tools modules dcql 50 query 2 opts
      envelope result settled refl

never_again :
    (jwe again : String) (key : List ℕ) (decrypted : Json)
    → decrypt_authorization_response jose jwe key ≡ ok decrypted
    → encrypted_response decrypted ≡ some again
    → length (codes again) < length (codes jwe)
unfolding decrypt_authorization_response is_supported get as_string
never_again jwe again key decrypted h e =
    let same : inner ≡ decrypted = cc in
    let bad : encrypted_response inner ≡ some again =
      subst (λ x. encrypted_response x ≡ some again) (sym same) e in
    cc (is_clear, bad)

short : (jwe : String) → encrypted_response envelope ≡ some jwe → suc (length (codes jwe)) < 9
unfolding encrypted_response
short jwe h =
    let same : "jwe" ≡ jwe = cc in subst (λ s. suc (length (codes s)) < 9) same (omega arith)

verify_authorization_response_ends_example :
    (answer : Result _ VerifyResult) × (verify_authorization_response jose encoders tools modules
        dcql 50 query 9 opts envelope
      ≡ some answer)
verify_authorization_response_ends_example =
    verify_authorization_response_ends jose encoders tools modules dcql 50 query never_again 9 opts
      envelope short (omega arith)

abbrev client : String
client = "v"

abbrev stranger : String
stranger = "w"

abbrev uri : String
uri = "u"

abbrev once : String
once = "n"

abbrev made : String
made = "m"

abbrev thumb : Item
thumb = item_bytes (4 ∷ [])

-- What stands for the CBOR encoder tells arrays of texts apart; the hash is constant.
abbrev plainly : Items → List ℕ
plainly end_items = []
plainly (item (item_text s) items) = codes s ++ 0 ∷ plainly items
plainly (item _ items) = 1 ∷ plainly items

abbrev first_of : List ℕ → ℕ
first_of [] = 0
first_of (b ∷ bytes) = b

abbrev encode_plainly : Item → List ℕ
encode_plainly (array items) = plainly items
encode_plainly _ = []

abbrev weak : Encoders
weak = record { encode = encode_plainly; sha256 = λ b. 0 ∷ []; utf8 = λ t. t }

same_transcript :
    build_oid4vp_session_transcript weak client uri once made
    ≡ build_oid4vp_session_transcript weak stranger uri once made
unfolding build_oid4vp_session_transcript
same_transcript = refl

same_handover :
    handover_transcript weak client once thumb uri
    ≡ handover_transcript weak stranger once thumb uri
unfolding handover_transcript
same_handover = refl

build_oid4vp_session_transcript-binds_example :
    ((client ≡ stranger) × (uri ≡ uri) × (once ≡ once) × (made ≡ made))
    ⊎ Collision weak
        (two (item_text client) (item_text made))
        (two (item_text stranger) (item_text made))
    ⊎ Collision weak (two (item_text uri) (item_text made)) (two (item_text uri) (item_text made))
build_oid4vp_session_transcript-binds_example =
    build_oid4vp_session_transcript-binds weak client uri once made stranger uri once made
      (λ e. refl) (λ e. let apart : 118 ≡ 119 = ap first_of e in absurd (omega arith)) (λ e. refl)
      same_transcript

handover_transcript-binds_example :
    ((client ≡ stranger) × (once ≡ once) × (thumb ≡ thumb) × (uri ≡ uri))
    ⊎ Collision weak
        (handover_info weak client once thumb uri)
        (handover_info weak stranger once thumb uri)
handover_transcript-binds_example =
    handover_transcript-binds weak client once thumb uri stranger once thumb uri (λ e. refl)
      (λ e. let apart : 118 ≡ 119 = ap first_of e in absurd (omega arith)) same_handover
