-- ===== src/Tests/Revocation.antt =====
-- Revocation lists, a self-signed certificate in the pool, a trust store and a cache, and the theorems
-- on them.
use online_verifier.Prelude.{
  ℕ, String, ◌≡◌, refl, ap, ◌↔◌, true, Option, none, some, List, [], ◌∷◌, ◌++◌, arith,
  if◌then◌else◌, ◌==◌, ℕ_eq, string_eq, Any, ok, In, map,
}
use online_verifier.Text.{codes, text_eq}
use online_verifier.Trust.Cert.{Cert, certificates_equal, bytes_equal, same_bytes, get_ski_hex}
use online_verifier.Trust.Chain.{
  check_leaf, check_per_cert, check_validity, check_algorithm, map_x509_algo_to_jwa_name,
  check_leaf_key_usage, try_build,
}
use online_verifier.Trust.Chain.Spec.{IsCurrent, IsIssuingCa}
use online_verifier.Trust.Chain.Termination.{try_build_spins}
use online_verifier.Trust.Crl.{
  ParsedCrl, RevokedCertificate, is_revoked, find_revoked, normalize_hex_unsigned_int, bytes_to_hex,
  hex_value, clean_digits, big_int_from, big_int, upper_digit, lower_digit, hex_digits,
}
use online_verifier.Trust.Crl.Laws.{HasSerials, serial_value, bytes_value, is_revoked_iff}
use online_verifier.Trust.Revocation.{
  require, good, ocsp, result, revoked, crl, Sources, check, extract_crl_urls, extract_ocsp_url,
  crl_urls_of, uris_of, truthy, first_ocsp_url, check_unless_skipped, check_sources, try_ocsp,
}
use online_verifier.Trust.Revocation.Urls.{IsCrlUrl}
use online_verifier.Trust.Revocation.Laws.{verdict, Evidence, check-Evidence}
use online_verifier.Trust.Revocation.Reported.{check-revoked}
use online_verifier.Trust.Stores.Composite.{SameKey, IsDistinct, composite_get_anchors_lem}
use online_verifier.Trust.Stores.{
  static, TrustAnchor, TrustStoreHint, concat, composite_get_anchors,
}
use online_verifier.Trust.Evaluator.{
  reported, TrustEvaluationResult, evaluate, evaluate_with, gather, push_unique, derive_hint,
  aki_bytes, judge_chain, issuer_for_revocation, conclude, conclude_by, status_of,
  derive_authority_ids,
}
use online_verifier.Trust.Evaluator.Laws.{IsEvaluated, evaluate-IsEvaluated}
use online_verifier.Tests.Trust.{library, options, cert, ca, leaf, inter, root, built}

abbrev list : ParsedCrl
list = record {
  next_update = 900;
  revoked_certificates = some (record { user_certificate = 0 ∷ 10 ∷ []; revocation_date = 7 } ∷ []);
  der = [];
}

abbrev listed : List RevokedCertificate
listed = record { user_certificate = 0 ∷ 10 ∷ []; revocation_date = 7 } ∷ []

serials : HasSerials listed
serials = (((omega arith, (omega arith, tt)), λ e. cc), tt)

serial : serial_value (codes "0a") ≡ some 10
unfolding clean_digits hex_value big_int big_int_from
serial = refl

is_revoked_iff_example :
    ((date : ℕ) × (is_revoked list "0a" ≡ some date))
    ↔ Any (λ r. bytes_value 0 r.user_certificate ≡ 10) listed
is_revoked_iff_example = is_revoked_iff list listed "0a" 10 refl serials serial

-- The first CRL cannot be fetched.
abbrev sources : Sources
sources = record {
  access_info = λ c. none;
  distribution_points = λ c. some (some (some "a" ∷ some "b" ∷ []) ∷ []);
  ocsp_check = λ c i u n. none;
  fetch_crl = λ u n. if u == "b" then some list else none;
  verify_crl = λ p i. true;
}

urls : extract_crl_urls sources leaf ≡ ("a" ∷ []) ++ "b" ∷ []
unfolding extract_crl_urls crl_urls_of uris_of truthy
urls = refl

entry : is_revoked list "0a" ≡ some 7
unfolding is_revoked find_revoked normalize_hex_unsigned_int bytes_to_hex hex_value clean_digits
    big_int_from big_int upper_digit lower_digit hex_digits text_eq
entry = refl

no_ocsp :
    (url : String)
    → extract_ocsp_url sources leaf ≡ some url
    → sources.ocsp_check leaf inter url 500 ≡ none
no_ocsp url h = refl

check-revoked_example : check sources require leaf inter 500 ≡ ok (verdict revoked crl (some 7) 500)
check-revoked_example =
    check-revoked sources require leaf inter 500 ("a" ∷ []) [] "b" list 7 (λ e. cc) no_ocsp urls
      (refl, tt) refl refl (omega arith) entry

abbrev responder : Sources
responder = record {
  access_info = λ c. some (record { access_method = "1.3.6.1.5.5.7.48.1"; uri = some "u" } ∷ []);
  distribution_points = λ c. none;
  ocsp_check = λ c i u n. some (result good ocsp n);
  fetch_crl = λ u n. none;
  verify_crl = λ p i. true;
}

answered : check responder require leaf inter 500 ≡ ok (result good ocsp 500)
unfolding check check_unless_skipped check_sources try_ocsp extract_ocsp_url first_ocsp_url truthy
answered = refl

check-Evidence_example :
    Evidence responder leaf inter 500 require (IsCrlUrl responder leaf) (result good ocsp 500)
check-Evidence_example =
    check-Evidence responder require leaf inter 500 (result good ocsp 500) answered

abbrev child : Cert
child = cert "Leaf" "Root" (1 ∷ []) none none

abbrev other : Cert
other = cert "Other" "Other" (4 ∷ []) ca none

leaf_passes : check_leaf library options 500 child ≡ ok tt
unfolding check_leaf check_per_cert check_validity check_algorithm map_x509_algo_to_jwa_name
    check_leaf_key_usage
leaf_passes = refl

root-IsCurrent : IsCurrent library options 500 root
unfolding map_x509_algo_to_jwa_name
root-IsCurrent = record { begun = omega arith; unexpired = omega arith; allowed = refl }

root_issues : (depth : ℕ) → IsIssuingCa root depth
root_issues depth = record {
  constraints = record { ca = true; path_length = none };
  present = refl;
  ca = refl;
  shallow = λ n e. cc;
  signs = λ u e. cc;
}

try_build_spins_example : try_build library options 500 9 child other (root ∷ []) ≡ none
try_build_spins_example =
    try_build_spins library options 500 child other root (root ∷ []) leaf_passes (λ e. cc) (λ e. cc)
      refl refl refl (root-IsCurrent, root_issues 0, λ aki ski e. cc, refl)
      (λ d. (root-IsCurrent, root_issues d, λ aki ski e. cc, refl)) 9

abbrev anchor : TrustAnchor
anchor = record { reference = 0; certificate = root; source = static; trusted_authority_ids = none }

abbrev store : TrustStoreHint → Option (List TrustAnchor)
store hint = some (anchor ∷ [])

abbrev evaluation : TrustEvaluationResult
evaluation = record {
  chain = leaf ∷ inter ∷ root ∷ [];
  anchor = anchor;
  revocation_status = reported good;
  revocation_checked_at = 500;
  trusted_authority_ids = [];
}

gathered : gather store (leaf ∷ inter ∷ []) ([], []) ≡ some ("0a" ∷ [], anchor ∷ [])
unfolding gather push_unique derive_hint aki_bytes
gathered = refl

judged :
    judge_chain library options responder require 500 leaf (anchor ∷ []) (leaf ∷ inter ∷ root ∷ [])
    ≡ ok evaluation
unfolding judge_chain issuer_for_revocation conclude conclude_by status_of derive_authority_ids
    certificates_equal bytes_equal same_bytes get_ski_hex
judged = rw (answered) refl

evaluated_with :
    evaluate_with library options responder require 500 3 leaf (inter ∷ []) (anchor ∷ [])
    ≡ some (ok evaluation)
unfolding evaluate_with
evaluated_with = rw (built, evaluate_with) (ap some judged)

evaluated :
    evaluate library options responder require 500 store 3 leaf (inter ∷ []) ≡ some (ok evaluation)
unfolding evaluate
evaluated = rw (gathered, evaluate) evaluated_with

evaluate-IsEvaluated_example :
    IsEvaluated library options responder require 500 store leaf (inter ∷ []) evaluation
evaluate-IsEvaluated_example =
    evaluate-IsEvaluated library options responder require 500 store leaf (inter ∷ []) 3 evaluation
      evaluated

abbrev stores : List (TrustStoreHint → List TrustAnchor)
stores = (λ hint. anchor ∷ []) ∷ (λ hint. anchor ∷ []) ∷ []

abbrev root_hint : TrustStoreHint
root_hint = record { issuer = some "Root"; aki = none }

composite_get_anchors_lem_example :
    ((a : TrustAnchor)
      → In a (composite_get_anchors stores root_hint)
      → In a (concat (map (λ s. s root_hint) stores)))
    × ((a : TrustAnchor)
        → In a (concat (map (λ s. s root_hint) stores))
        → Any (SameKey a) (composite_get_anchors stores root_hint))
    × IsDistinct (composite_get_anchors stores root_hint)
composite_get_anchors_lem_example = composite_get_anchors_lem stores root_hint
