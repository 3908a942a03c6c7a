-- ===== src/Tests/Provenance.antt =====
-- A trusted list, and the theorems on the provenance of an anchor.
use online_verifier.Prelude.{String, none, some, List, [], ◌∷◌, ◌≡◌, ◌↔◌, refl, All, Any}
use online_verifier.Text.{text_eq, is_empty, lower, lower_char}
use online_verifier.Trust.Cert.{Cert, get_ski_hex}
use online_verifier.Trust.Provenance.{
  high, loa_of, map_loa, TspService, NationalTlSnapshot, ResolvedProvenance, has_ski,
  build_provenance, first_service, first_list, resolve,
}
use online_verifier.Trust.Provenance.Laws.{map_loa_iff}
use online_verifier.Trust.Provenance.Found.{IsResolved, resolve-IsResolved}

abbrev uris : List String
uris = "other" ∷ "http://uri.etsi.org/TrstSvc/TrustedList/SvcInfoExt/eIDAS-high" ∷ []

map_loa_iff_example :
    ((map_loa uris ≡ some high) ↔ Any (λ u. loa_of u ≡ some high) uris)
    × ((map_loa uris ≡ none) ↔ All (λ u. loa_of u ≡ none) uris)
map_loa_iff_example = map_loa_iff uris

abbrev anchor : Cert
anchor = record {
  raw_data = [];
  subject = "Root";
  issuer = "Root";
  serial_number = "0a";
  public_key = [];
  not_before = 0;
  not_after = 9;
  algorithm_name = "ECDSA";
  algorithm_hash = "SHA-256";
  key_usages = none;
  basic_constraints = none;
  authority_key_id = none;
  subject_key_id = some "AB";
  alternative_names = none;
  name_constraints = none;
}

abbrev service : TspService
service = record {
  country = "DE";
  service_type_identifier = "x/CA/QC";
  service_status = "x/granted";
  service_name = "S";
  certificates = anchor ∷ [];
  additional_service_information_uris = uris;
}

abbrev lists : List NationalTlSnapshot
lists = record { services = [] } ∷ record { services = service ∷ [] } ∷ []

abbrev provenance : ResolvedProvenance
provenance = build_provenance service (97 ∷ 98 ∷ [])

resolved : resolve anchor lists ≡ some provenance
unfolding resolve first_list first_service has_ski get_ski_hex is_empty text_eq lower lower_char
resolved = refl

resolve-IsResolved_example : IsResolved anchor lists provenance
resolve-IsResolved_example = resolve-IsResolved anchor lists provenance resolved
