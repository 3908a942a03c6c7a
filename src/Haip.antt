-- ===== src/Haip.antt =====
-- src/haip.ts and src/types/haip.ts: the queries of the HAIP profile. A trusted-authorities entry
-- is third-party data that is passed on, the type `Authority`.
pub mod Laws
use online_verifier.Prelude.{
  ◌+◌, ◌-◌, String, Bool, true, false, not, ◌&&◌, Option, none, some, List, [], ◌∷◌, map,
  if◌then◌else◌, ◌==◌, ℕ_eq, string_eq, includes, Result, ok, err, guard, ◌>>◌,
}

pub data HaipFormat : Type 0 where
  dc_sd_jwt mso_mdoc : HaipFormat

unfoldable pub format_name : HaipFormat → String
format_name dc_sd_jwt = "dc+sd-jwt"
format_name mso_mdoc = "mso_mdoc"

pub record HaipQueryInput (Authority : Type 0) : Type 0 where
  pub credential_id : String
  pub format : HaipFormat
  pub vct_values : Option (List String)
  pub doctype_value : Option String
  pub claims : List String
  pub trusted_authorities : Option (List Authority)

-- `meta`: a `doctype_value` that is no string is `none`.
pub record Meta : Type 0 where
  pub vct_values : Option (List String)
  pub doctype_value : Option String

-- A claim is its path. Of `claim_sets` and `credential_sets` only the presence is read.
pub record CredentialQuery (Authority : Type 0) : Type 0 where
  pub id : String
  pub format : String
  pub meta : Option Meta
  pub claims : Option (List (List String))
  pub has_claim_sets : Bool
  pub trusted_authorities : Option (List Authority)

pub record DcqlQuery (Authority : Type 0) : Type 0 where
  pub credentials : Option (List (CredentialQuery Authority))
  pub has_credential_sets : Bool

-- The codes of HaipValidationError.
pub data HaipError : Type 0 where
  no_claims missing_sdjwt_meta missing_mdoc_meta empty_query : HaipError
  credential_sets_disallowed unsupported_format claim_sets_disallowed : HaipError

-- `HAIP_DOCTYPE_NAMESPACES[d] ?? d`; the other entry of the table, of the PID, maps to itself. The keys
-- that the table inherits, such as `constructor`, are left out.
unfoldable pub namespace_of : String → String
namespace_of doctype = if doctype == "org.iso.18013.5.1.mDL" then "org.iso.18013.5.1" else doctype

-- `!xs || xs.length === 0`.
unfoldable pub lacks {ℓ} : {A : Type ℓ} → Option (List A) → Bool
lacks none = true
lacks (some []) = true
lacks (some (x ∷ xs)) = false

-- A list that is absent or empty is not set on the query.
unfoldable pub non_empty {ℓ} : {A : Type ℓ} → Option (List A) → Option (List A)
non_empty none = none
non_empty (some []) = none
non_empty (some (x ∷ xs)) = some (x ∷ xs)

abbrev pub vct_values_of : Option Meta → Option (List String)
vct_values_of none = none
vct_values_of (some m) = m.vct_values

abbrev pub is_string : Option String → Bool
is_string none = false
is_string (some s) = true

abbrev pub doctype_of : Option Meta → Option String
doctype_of none = none
doctype_of (some m) = m.doctype_value

module _ {Authority : Type 0} where
  abbrev pub one_credential :
      HaipQueryInput Authority → Meta → List (List String) → DcqlQuery Authority
  one_credential input m paths =
      let credential : CredentialQuery Authority = record {
        id = input.credential_id;
        format = format_name input.format;
        meta = some m;
        claims = some paths;
        has_claim_sets = false;
        trusted_authorities = non_empty input.trusted_authorities;
      } in
      record { credentials = some (credential ∷ []); has_credential_sets = false }

  abbrev pub build_sd_jwt :
      HaipQueryInput Authority → Option (List String) → Result HaipError (DcqlQuery Authority)
  build_sd_jwt input none = err missing_sdjwt_meta
  build_sd_jwt input (some []) = err missing_sdjwt_meta
  build_sd_jwt input (some (v ∷ vs)) = ok (
      one_credential input (record { vct_values = some (v ∷ vs); doctype_value = none })
        (map (λ c. c ∷ []) input.claims))

  abbrev pub build_mdoc :
      HaipQueryInput Authority → Option String → Result HaipError (DcqlQuery Authority)
  build_mdoc input none = err missing_mdoc_meta
  build_mdoc input (some doctype) =
      if doctype == ""
      then err missing_mdoc_meta
      else ok (
          one_credential input (record { vct_values = none; doctype_value = some doctype })
            (map (λ c. namespace_of doctype ∷ c ∷ []) input.claims))

  abbrev pub build_by_format :
      HaipQueryInput Authority → HaipFormat → Result HaipError (DcqlQuery Authority)
  build_by_format input dc_sd_jwt = build_sd_jwt input input.vct_values
  build_by_format input mso_mdoc = build_mdoc input input.doctype_value

  abbrev pub build_with_claims :
      HaipQueryInput Authority → List String → Result HaipError (DcqlQuery Authority)
  build_with_claims input [] = err no_claims
  build_with_claims input (c ∷ claims) = build_by_format input input.format

  unfoldable pub build_haip_query :
      HaipQueryInput Authority → Result HaipError (DcqlQuery Authority)
  build_haip_query input = build_with_claims input input.claims

  -- One round of the loop over the credentials.
  unfoldable pub validate_credential : CredentialQuery Authority → Result HaipError (Unit {0})
  validate_credential credential = do
    guard (includes ("dc+sd-jwt" ∷ "mso_mdoc" ∷ []) credential.format) unsupported_format
    guard (not (credential.format == "dc+sd-jwt" && lacks (vct_values_of credential.meta)))
        missing_sdjwt_meta
    guard (not (credential.format == "mso_mdoc" && not (is_string (doctype_of credential.meta))))
        missing_mdoc_meta
    guard (not (lacks credential.claims)) no_claims
    guard (not credential.has_claim_sets) claim_sets_disallowed

  unfoldable pub validate_credentials :
      List (CredentialQuery Authority) → Result HaipError (Unit {0})
  validate_credentials [] = ok tt
  validate_credentials (credential ∷ credentials) = do
    validate_credential credential
    validate_credentials credentials

  unfoldable pub validate_haip_query : DcqlQuery Authority → Result HaipError (Unit {0})
  validate_haip_query query = elim query.credentials [
    | none ↦ err empty_query
    | some [] ↦ err empty_query
    | some (credential ∷ credentials) ↦ do
      guard (not query.has_credential_sets) credential_sets_disallowed
      validate_credentials (credential ∷ credentials)
  ]

  unfoldable pub is_haip_query : DcqlQuery Authority → Bool
  is_haip_query query = elim (validate_haip_query query) [ ok _ ↦ true | err _ ↦ false ]
