-- ===== src/Trust/Provenance.antt =====
-- src/trust/lotl-loa-mapping.ts, src/trust/service-metadata.ts, src/trust/ProvenanceResolver.ts and
-- the types that they read of src/trust/lotl-types.ts.
pub mod Laws
pub mod Found
use online_verifier.Prelude.{
  String, Bool, Option, none, some, List, [], ◌∷◌, if◌then◌else◌, Eq, ◌==◌, string_eq, ◌&&◌, ◌||◌,
  not, any, false,
}
use online_verifier.Text.{Text, codes, ends_with, text_eq, is_empty}
use online_verifier.Trust.Cert.{Cert, get_ski_hex}

pub data Loa : Type 0 where
  substantial high : Loa

-- `LOA_MAPPING[uri]`.
unfoldable pub loa_of : String → Option Loa
loa_of uri =
    if uri == "http://uri.etsi.org/TrstSvc/TrustedList/SvcInfoExt/eIDASnotified-substantial"
    then some substantial
    else if uri == "http://uri.etsi.org/TrstSvc/TrustedList/SvcInfoExt/eIDASnotified-high"
    then some high
    else if uri == "http://uri.etsi.org/TrstSvc/TrustedList/SvcInfoExt/eIDAS-substantial"
    then some substantial
    else if uri == "http://uri.etsi.org/TrstSvc/TrustedList/SvcInfoExt/eIDAS-high"
    then some high
    else none

-- The loop of `mapLoA`, with the result so far.
unfoldable pub map_loa_from : Option Loa → List String → Option Loa
map_loa_from result [] = result
map_loa_from result (uri ∷ uris) =
    let noted = map_loa_from (some substantial) uris in
    let rest = map_loa_from result uris in
    elim (loa_of uri) [ some high ↦ some high | some substantial ↦ noted | none ↦ rest ]

unfoldable pub map_loa : List String → Option Loa
map_loa uris = map_loa_from none uris

pub record TspService : Type 0 where
  pub country : String
  pub service_type_identifier : String
  pub service_status : String
  pub service_name : String
  pub certificates : List Cert
  pub additional_service_information_uris : List String

pub record NationalTlSnapshot : Type 0 where
  pub services : List TspService

pub record ResolvedProvenance : Type 0 where
  pub loa : Option Loa
  pub qualified : Bool
  pub service_country : String
  pub name : String
  pub trusted_authority_ids : List Text

pub derive_service_metadata : TspService → Bool × Option Loa
derive_service_metadata service = (
  ends_with (codes service.service_type_identifier) (codes "/CA/QC")
      && ends_with (codes service.service_status) (codes "/granted"),
  map_loa service.additional_service_information_uris,
)

-- `ski && ski === anchorSki`.
unfoldable pub has_ski : Text → Cert → Bool
has_ski anchor_ski cert = elim (get_ski_hex cert) [
  | none ↦ false
  | some ski ↦ not (is_empty ski) && text_eq ski anchor_ski
]

abbrev pub service_matches : Text → TspService → Bool
service_matches anchor_ski service = any (has_ski anchor_ski) service.certificates

unfoldable pub build_provenance : TspService → Text → ResolvedProvenance
build_provenance service anchor_ski =
    let (qualified, loa) = derive_service_metadata service in
    record {
      loa = loa;
      qualified = qualified;
      service_country = service.country;
      name = service.service_name;
      trusted_authority_ids = anchor_ski ∷ [];
    }

unfoldable pub first_service : Text → List TspService → Option ResolvedProvenance
first_service anchor_ski [] = none
first_service anchor_ski (service ∷ services) =
    if service_matches anchor_ski service
    then some (build_provenance service anchor_ski)
    else first_service anchor_ski services

unfoldable pub first_list : Text → List NationalTlSnapshot → Option ResolvedProvenance
first_list anchor_ski [] = none
first_list anchor_ski (tl ∷ national_tls) =
    let rest = first_list anchor_ski national_tls in
    elim (first_service anchor_ski tl.services) [ some found ↦ some found | none ↦ rest ]

-- `if (!anchorSki) return null`.
unfoldable pub resolve : Cert → List NationalTlSnapshot → Option ResolvedProvenance
resolve anchor national_tls = elim (get_ski_hex anchor) [
  | none ↦ none
  | some anchor_ski ↦ if is_empty anchor_ski then none else first_list anchor_ski national_tls
]
