-- ===== src/Tests/Credentials.antt =====
-- Queries, disclosures and mdoc credentials, and the theorems on them.
use online_verifier.Prelude.{
  String, ◌≡◌, refl, ◌↔◌, Bool, true, false, none, some, List, [], ◌∷◌, arith, nat_eq,
  if◌then◌else◌, ℕ_eq, string_eq, length, All, ok, err,
}
use online_verifier.Trust.Cert.{bytes_equal, same_bytes}
use online_verifier.SdJwt.Json.{Json, str, arr, obj, nil, cons, end, field}
use online_verifier.Text.{codes}
use online_verifier.SdJwt.Anchors.{kv, Disclosure, all_anchored}
use online_verifier.SdJwt.Anchors.Laws.{Known, all_anchored_iff}
use online_verifier.Haip.{
  mso_mdoc, HaipQueryInput, DcqlQuery, one_credential, namespace_of, build_haip_query,
  validate_haip_query,
}
use online_verifier.Haip.Laws.{
  IsHaip, validate_haip_query_iff, build_haip_query-validate_haip_query,
}
use online_verifier.Mdoc.Bytes.{wrap_issuer_signed_item_bytes}
use online_verifier.Mdoc.Bytes.Roundtrip.{read_tag24, read_tag24-wrap_issuer_signed_item_bytes}
use online_verifier.Mdoc.Cbor.{
  bytes, text, number, array, table, tag, no_items, item, Entries, no_entries, entry, get,
  inner_bytes, lookup,
}
use online_verifier.Mdoc.Mso.{
  malformed, expired, time, InWindow, IsOver, MobileSecurityObject, validate_mso_validity,
  validate_mso_validity_iff, validate_mso_validity_expired_iff,
}
use online_verifier.Mdoc.Digest.{
  Codec, DigestLogEntry, NameSpaces, as_table, as_number, as_text, compute_item_digest,
  decode_inner, unwrap_item_map, log_entry, log_items, build_digest_log, verify_all_digests,
}
use online_verifier.Mdoc.Digest.Laws.{AllCommitted, verify_all_digests-AllCommitted}
use online_verifier.Mdoc.Parser.{Modules, ParseOptions, PresentationResult}

-- The payload anchors "h", whose value anchors "i".
abbrev payload : Json
payload = obj (field "_sd" (arr (cons (str "h") nil)) end)

abbrev disclosures : List Disclosure
disclosures =
    record { kind = kv; hash = codes "i"; value = str "v" }
    ∷ record {
      kind = kv;
      hash = codes "h";
      value = obj (field "_sd" (arr (cons (str "i") nil)) end);
    }
    ∷ []

all_anchored_iff_example :
    (passed : Bool) × (all_anchored 3 payload disclosures ≡ some passed)
    × ((passed ≡ true) ↔ All (λ d. Known payload disclosures d.kind d.hash) disclosures)
all_anchored_iff_example = all_anchored_iff 3 payload disclosures (omega arith)

abbrev input : HaipQueryInput String
input = record {
  credential_id = "pid";
  format = mso_mdoc;
  vct_values = none;
  doctype_value = some "org.iso.18013.5.1.mDL";
  claims = "age" ∷ [];
  trusted_authorities = none;
}

abbrev query : DcqlQuery String
query =
    one_credential input
      (record { vct_values = none; doctype_value = some "org.iso.18013.5.1.mDL" })
      (("org.iso.18013.5.1" ∷ "age" ∷ []) ∷ [])

query_built : build_haip_query input ≡ ok query
unfolding build_haip_query namespace_of
query_built = refl

build_haip_query-validate_haip_query_example : (validate_haip_query query ≡ ok tt) × IsHaip query
build_haip_query-validate_haip_query_example =
    build_haip_query-validate_haip_query input query query_built

validate_haip_query_iff_example : (validate_haip_query query ≡ ok tt) ↔ IsHaip query
validate_haip_query_iff_example = validate_haip_query_iff query

read_tag24-wrap_issuer_signed_item_bytes_example :
    read_tag24 (wrap_issuer_signed_item_bytes (5 ∷ 6 ∷ [])) ≡ some (5 ∷ 6 ∷ [])
read_tag24-wrap_issuer_signed_item_bytes_example =
    read_tag24-wrap_issuer_signed_item_bytes (5 ∷ 6 ∷ []) (omega arith)

abbrev mso : MobileSecurityObject
mso = record {
  digest_algorithm = "SHA-256";
  value_digests = ("ns", (0, 7 ∷ []) ∷ []) ∷ [];
  doc_type = "pid";
  device_key = some (8 ∷ []);
  validity_info = record { signed = time 20; valid_from = time 10; valid_until = time 90 };
}

validate_mso_validity_iff_example :
    (validate_mso_validity mso 50 ≡ ok tt) ↔ InWindow mso.validity_info 50
validate_mso_validity_iff_example = validate_mso_validity_iff mso 50

validate_mso_validity_expired_iff_example :
    (validate_mso_validity mso 95 ≡ err expired) ↔ IsOver mso.validity_info 95
validate_mso_validity_expired_iff_example = validate_mso_validity_expired_iff mso 95

abbrev pub fields : Entries
fields = entry (text "digestID") (number 0) (
    entry (text "elementIdentifier") (text "age")
      (entry (text "elementValue") (number 18) no_entries))

abbrev document : Entries
document =
    entry (text "issuerSigned")
      (table (
        entry (text "issuerAuth") (array no_items) (
          entry (text "nameSpaces")
            (table
              (entry (text "ns") (array (item (tag 24 (bytes (5 ∷ 6 ∷ []))) no_items)) no_entries))
            no_entries)))
      (entry (text "deviceSigned") (table no_entries) no_entries)

-- The token is one byte, an item's bytes are two, and its wrapper five.
abbrev codec : Codec
codec = record {
  decode = λ b.
      if nat_eq (length b) 1
      then some
          (table (entry (text "documents") (array (item (table document) no_items)) no_entries))
      else if nat_eq (length b) 2
      then some (table fields)
      else some (tag 24 (bytes (5 ∷ 6 ∷ [])));
  digest = λ algorithm b. 7 ∷ [];
}

abbrev name_spaces : NameSpaces
name_spaces = ("ns", (216 ∷ 24 ∷ 66 ∷ 5 ∷ 6 ∷ []) ∷ []) ∷ []

abbrev log : List DigestLogEntry
log =
    record {
      namespace = "ns";
      element_identifier = some "age";
      digest_id = 0;
      expected_digest = 7 ∷ [];
      computed_digest = 7 ∷ [];
      matches = true;
    }
    ∷ []

digests_verified : verify_all_digests codec name_spaces mso ≡ ok (log, false)
unfolding verify_all_digests build_digest_log log_items log_entry compute_item_digest
    unwrap_item_map decode_inner inner_bytes as_table as_number as_text get lookup bytes_equal
    same_bytes
digests_verified = refl

verify_all_digests-AllCommitted_example : AllCommitted codec mso name_spaces
verify_all_digests-AllCommitted_example =
    verify_all_digests-AllCommitted codec mso name_spaces log digests_verified

abbrev pub modules : Modules
modules = record {
  codec = codec;
  encode = λ c. [];
  import_key = λ c a. ok (4 ∷ []);
  decode_cose_sign1 = λ b. ok (record {
    alg = "ES256";
    x5chain = (3 ∷ []) ∷ [];
    payload = [];
    protected_header_bytes = [];
    signature = [];
  });
  verify_cose_sign1 = λ c k a. ok tt;
  decode_mso = λ b. ok mso;
  evaluate = λ c. err malformed;
  verify_device_auth = λ d k t s a. ok tt;
}

abbrev pub parse_options : ParseOptions
parse_options = record {
  allowed_algorithms = none;
  has_trust_store = false;
  trusted_certificates = (3 ∷ []) ∷ [];
  skip_trust_check = false;
  expected_doc_type = some "pid";
  allow_digest_mismatch = false;
  mdoc_session_transcript = some (1 ∷ []);
}

abbrev pub presentation : PresentationResult
presentation = record {
  valid = true;
  claims = ("age", some (number 18)) ∷ [];
  namespaced_claims = ("ns", ("age", some (number 18)) ∷ []) ∷ [];
  certificate = 3 ∷ [];
  doc_type = some "pid";
  digest_log = some log;
  trust = none;
  digest_mismatch_ignored = false;
}
