-- ===== src/Tests/Ocsp.antt =====
-- An OCSP responder and a cache, and the theorems on them.
use online_verifier.Prelude.{
  ℕ, ◌≤◌, ◌≡◌, refl, ◌↔◌, ◌⊎◌, inl, inr, true, Option, none, some, List, [], ◌∷◌, ◌++◌, arith, ℕ_eq,
  ok,
}
use online_verifier.Text.{codes, text_eq}
use online_verifier.Trust.Cert.{Bytes}
use online_verifier.Trust.Crl.{
  hex_value, clean_digits, big_int_from, big_int, upper_digit, lower_digit, hex_digits,
  normalize_hex_unsigned_int, bytes_to_hex,
}
use online_verifier.Trust.Evaluator.{pair_digits}
use online_verifier.Trust.Revocation.{
  good, ocsp, require, result, Sources, check, check_unless_skipped, check_sources, try_ocsp,
  extract_ocsp_url, first_ocsp_url, truthy,
}
use online_verifier.Trust.Revocation.Urls.{IsCrlUrl}
use online_verifier.Trust.Revocation.Laws.{FreshCrl, CrlSays}
use online_verifier.Trust.Cache.{Entry, get, set, delete, evict, entry_of}
use online_verifier.Trust.Cache.Runs.{Op, put, query, run, latest, IsValid, run-IsValid}
use online_verifier.Trust.Cache.Refinement.{get-Refines}
use online_verifier.Trust.Ecdsa.{place, read_s, read_r, ecdsa_der_to_ieee}
use online_verifier.Trust.Ecdsa.Laws.{IsPlaced, der_signature, ecdsa_der_to_ieee-der_signature}
use online_verifier.Trust.OcspResponse.{
  is_good, SingleResponse, BasicOcspResponse, Responder, hex_to_big_int_bytes, find_single,
  verdict_of, too_old, extract_verdict, ttl_seconds,
}
use online_verifier.Trust.Ocsp.{
  compute_issuer_key_hash, build_request, basic_of, read_http, send_request, verify_sig,
  verify_response, judge, fetch, on_miss, after_look_up, check_cached,
}
use online_verifier.Trust.Ocsp.Laws.{HasEvidence, ttl_seconds_bounds, check_cached-HasEvidence}
use online_verifier.Trust.Ocsp.Signed.{IsSigned, verify_response_iff}
use online_verifier.Trust.Ocsp.Checker.{with_client, check-with_client-HasEvidence}
use online_verifier.Tests.Trust.{library, leaf, root}

ecdsa_der_to_ieee-der_signature_example :
    (a b : Bytes) × (ecdsa_der_to_ieee (der_signature (0 ∷ 200 ∷ 1 ∷ []) (5 ∷ [])) 2
      ≡ some (a ++ b))
    × IsPlaced 2 (0 ∷ 200 ∷ 1 ∷ []) a
    × IsPlaced 2 (5 ∷ []) b
ecdsa_der_to_ieee-der_signature_example =
    ecdsa_der_to_ieee-der_signature 2 (0 ∷ 200 ∷ 1 ∷ []) (5 ∷ []) (inr (200 ∷ 1 ∷ [], refl, refl))
      (inl (omega arith)) (omega arith)

abbrev single : SingleResponse
single = record {
  serial_number = 10 ∷ [];
  this_update = 100;
  next_update = some 100000;
  cert_status = is_good;
}

abbrev basic : BasicOcspResponse
basic = record {
  tbs_der = [];
  responses = single ∷ [];
  certs = some [];
  signature = 48 ∷ 6 ∷ 2 ∷ 1 ∷ 5 ∷ 2 ∷ 1 ∷ 7 ∷ [];
}

abbrev responder : Responder
responder = record {
  post = λ u b. some (record { ok = true; body = [] });
  parse_response = λ b.
      some (record { response_status = 0; response_bytes = some ("1.3.6.1.5.5.7.48.1.1", []) });
  parse_basic = λ b. some basic;
  serialize_basic = λ b. [];
  serialize_request = λ c. [];
  sha1 = λ b. [];
  issuer_name = λ c. [];
  subject_public_key = λ b. some b;
  verify_p256 = λ k s t. some true;
}

ttl_seconds_bounds_example :
    (60 ≤ ttl_seconds (single ∷ []) 500) × (ttl_seconds (single ∷ []) 500 ≤ 3600)
ttl_seconds_bounds_example = ttl_seconds_bounds (single ∷ []) 500

verify_response_iff_example :
    (verify_response responder library 500 basic root ≡ true)
    ↔ IsSigned responder library 500 basic root
verify_response_iff_example = verify_response_iff responder library 500 basic root

answered :
    (check_cached responder library 500 9 leaf root "u" 500 none).0 ≡ some (result good ocsp 500)
unfolding check_cached compute_issuer_key_hash after_look_up on_miss fetch build_request
    hex_to_big_int_bytes send_request read_http basic_of judge verify_response verify_sig
    ecdsa_der_to_ieee read_r read_s place extract_verdict find_single too_old verdict_of
    normalize_hex_unsigned_int bytes_to_hex hex_value clean_digits big_int_from big_int upper_digit
    lower_digit hex_digits text_eq pair_digits
answered = refl

check_cached-HasEvidence_example :
    HasEvidence responder library 500 leaf root 500 (result good ocsp 500)
check_cached-HasEvidence_example =
    check_cached-HasEvidence responder library 500 9 leaf root "u" 500 none (result good ocsp 500)
      answered

abbrev sources : Sources
sources = record {
  access_info = λ c. some (record { access_method = "1.3.6.1.5.5.7.48.1"; uri = some "u" } ∷ []);
  distribution_points = λ c. none;
  ocsp_check = λ c i u n. none;
  fetch_crl = λ u n. none;
  verify_crl = λ p i. true;
}

checked :
    check (with_client responder library 500 9 none sources) require leaf root 500
    ≡ ok (result good ocsp 500)
unfolding check check_unless_skipped check_sources try_ocsp extract_ocsp_url first_ocsp_url truthy
    check_cached compute_issuer_key_hash after_look_up on_miss fetch build_request
    hex_to_big_int_bytes send_request read_http basic_of judge verify_response verify_sig
    ecdsa_der_to_ieee read_r read_s place extract_verdict find_single too_old verdict_of
    normalize_hex_unsigned_int bytes_to_hex hex_value clean_digits big_int_from big_int upper_digit
    lower_digit hex_digits text_eq pair_digits
checked = refl

check-with_client-HasEvidence_example :
    ((outcome : Option ℕ) × FreshCrl
        (with_client responder library 500 9 none sources)
        leaf
        root
        500
        (IsCrlUrl (with_client responder library 500 9 none sources) leaf)
        outcome
      × CrlSays 500 outcome (result good ocsp 500))
    ⊎ HasEvidence responder library 500 leaf root 500 (result good ocsp 500)
check-with_client-HasEvidence_example =
    check-with_client-HasEvidence responder library 500 9 none sources leaf root 500
      (result good ocsp 500) checked

-- The first operation is the last of the list.
abbrev ops : List Op
ops = query 7 (codes "a") ∷ put 6 (codes "b") (2 ∷ []) 1 ∷ put 5 (codes "a") (1 ∷ []) 1 ∷ []

run-IsValid_example : IsValid 2 (run 2 ops)
run-IsValid_example = run-IsValid 2 ops

kept : (get 900 (codes "a") (run 2 ops)).0 ≡ some (1 ∷ [])
unfolding get set delete evict entry_of text_eq
kept = refl

get-Refines_example :
    (e : Entry) × (latest (codes "a") ops ≡ some e) × (e.value ≡ 1 ∷ []) × (900 ≤ e.expires_at)
get-Refines_example = get-Refines 2 ops 900 (codes "a") (1 ∷ []) kept
