-- ===== src/Tests/Trust.antt =====
-- Certificates, and the theorems on chains at them.
use online_verifier.Prelude.{
  ℕ, ◌<◌, String, ◌≡◌, refl, ◌↔◌, true, Option, none, some, List, [], ◌∷◌, arith, if◌then◌else◌,
  ◌==◌, ℕ_eq, string_eq, All, Result, ok,
}
use online_verifier.Trust.Cert.{Cert, BasicConstraints, Library}
use online_verifier.Trust.Names.{
  dns, same_type, dns_is_under, under, general_name_to_subtree, subtrees_of, extract_subtrees,
  san_name, san_names, matches_subtree, collect_leaf_names,
}
use online_verifier.Trust.Names.Laws.{Matches, matches_subtree_iff}
use online_verifier.Trust.Failure.{Failure}
use online_verifier.Text.{
  ends_with, includes_char, index_of, is_empty, is_space, lower, lower_char, split, split_from,
  starts_with, text_eq, trim, trim_start,
}
use online_verifier.Trust.Constraints.{
  check_name_constraints, check_permitted, check_not_under, check_excluded, check_permitted_if_any,
  apply_constraints_for_type, apply_constraints, check_ca_constraints, check_cas,
}
use online_verifier.Trust.Constraints.Halves.{ConstrainedBy}
use online_verifier.Trust.Constraints.Laws.{check_name_constraints_iff}
use online_verifier.Trust.Chain.{
  ChainOptions, too_deep, check_basic_constraints, check_ca_and_path_len, check_ca_key_usage,
  check_leaf_key_usage, check_aki_ski_match, check_per_cert, check_validity, check_algorithm,
  map_x509_algo_to_jwa_name, verify_signature, build, build_from, try_build, climb, check_leaf,
  check_issuer, close, close_here, close_at_anchor,
}
use online_verifier.Trust.Chain.Spec.{IsValidPath}
use online_verifier.Trust.Chain.Laws.{build-IsValidPath}
use online_verifier.Trust.Chain.Direct.{build_direct_iff}
use online_verifier.Trust.Chain.Termination.{IsRanked, build_ends}

abbrev pub library : Library
library = record {
  verify = λ child key. some true;
  parse_name_constraints = λ der. some (record {
    permitted_subtrees = some (
        record {
          directory_name = none;
          dns_name = some "example.org";
          rfc822_name = none;
          uniform_resource_identifier = none;
        }
        ∷ []);
    excluded_subtrees = none;
  });
  dn_string = λ der. "CN=x";
  hostname = λ u. some u;
}

abbrev pub options : ChainOptions
options = record { clock_skew_tolerance = none; allowed_algorithms = none }

abbrev pub cert : String → String → List ℕ → Option BasicConstraints → Option (List ℕ) → Cert
cert subject issuer der bc nc = record {
  raw_data = der;
  subject = subject;
  issuer = issuer;
  serial_number = "0a";
  public_key = 1 ∷ [];
  not_before = 100;
  not_after = 900000;
  algorithm_name = "ECDSA";
  algorithm_hash = "SHA-256";
  key_usages = none;
  basic_constraints = bc;
  authority_key_id = none;
  subject_key_id = none;
  alternative_names = some (record { kind = "dns"; value = "a.example.org" } ∷ []);
  name_constraints = nc;
}

abbrev pub ca : Option BasicConstraints
ca = some (record { ca = true; path_length = none })

abbrev pub leaf : Cert
leaf = cert "Leaf" "Inter" (1 ∷ []) none none

abbrev pub inter : Cert
inter = cert "Inter" "Root" (2 ∷ []) ca (some (9 ∷ []))

abbrev pub root : Cert
root = cert "Root" "Root" (3 ∷ []) ca none

pub built :
    build library options 500 3 leaf (root ∷ []) (inter ∷ []) ≡ some (ok (leaf ∷ inter ∷ root ∷ []))
unfolding build build_from try_build climb check_leaf check_issuer close close_here close_at_anchor
    check_per_cert check_validity check_algorithm map_x509_algo_to_jwa_name check_leaf_key_usage
    check_ca_and_path_len check_ca_key_usage check_basic_constraints check_aki_ski_match
    verify_signature check_name_constraints check_cas check_ca_constraints apply_constraints
    apply_constraints_for_type check_permitted_if_any extract_subtrees too_deep check_excluded
    check_not_under check_permitted collect_leaf_names dns_is_under general_name_to_subtree
    matches_subtree same_type san_name san_names subtrees_of under ends_with includes_char index_of
    is_empty is_space lower lower_char split split_from starts_with text_eq trim trim_start
built = refl

build-IsValidPath_example :
    IsValidPath library options 500 leaf (root ∷ []) (inter ∷ []) (leaf ∷ inter ∷ root ∷ [])
build-IsValidPath_example =
    build-IsValidPath library options 500 3 leaf (root ∷ []) (inter ∷ []) (leaf ∷ inter ∷ root ∷ [])
      built

check_name_constraints_iff_example :
    (check_name_constraints library leaf (inter ∷ root ∷ []) ≡ ok tt)
    ↔ All (ConstrainedBy library (collect_leaf_names leaf)) (inter ∷ root ∷ [])
check_name_constraints_iff_example = check_name_constraints_iff library leaf (inter ∷ root ∷ [])

matches_subtree_iff_example :
    (matches_subtree library
        (record { type = dns; value = "a.example.org" })
        (record { type = dns; value = "example.org" })
      ≡ true)
    ↔ Matches library
        (record { type = dns; value = "a.example.org" })
        (record { type = dns; value = "example.org" })
matches_subtree_iff_example =
    matches_subtree_iff library (record { type = dns; value = "a.example.org" })
      (record { type = dns; value = "example.org" })

build_direct_iff_example :
    ((chain : List Cert) × (build library options 500 1 inter (root ∷ []) [] ≡ some (ok chain)))
    ↔ ((chain : List Cert) × IsValidPath library options 500 inter (root ∷ []) [] chain)
build_direct_iff_example = build_direct_iff library options 500 0 inter (root ∷ [])

rank : String → ℕ
rank name = if name == "Inter" then 1 else 0

ranked : IsRanked rank (inter ∷ [])
unfolding rank
ranked = (omega arith, tt)

small : rank leaf.issuer < 2
unfolding rank
small = omega arith

build_ends_example :
    (r : Result Failure (List Cert)) × (build library options 500 2 leaf (root ∷ []) (inter ∷ [])
      ≡ some r)
build_ends_example =
    build_ends library options 500 rank 2 leaf (root ∷ []) (inter ∷ []) ranked small
