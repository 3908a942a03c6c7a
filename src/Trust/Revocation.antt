-- ===== src/Trust/Revocation.antt =====
-- src/trust/RevocationChecker.ts: OCSP first, then the CRLs in order. The OCSP client and the fetch
-- and the signature check of a CRL are the interface `Sources`. `now` is the argument of `check`.
pub mod Urls
pub mod Laws
pub mod Reported
use online_verifier.Prelude.{
  ℕ, ◌+◌, String, Bool, not, Option, none, some, List, [], ◌∷◌, ◌++◌, if◌then◌else◌, ◌==◌, ℕ_eq,
  string_eq, Result, ok, err,
}
use online_verifier.Trust.Cert.{Cert}
use online_verifier.Trust.Crl.{ParsedCrl, is_revoked, is_stale}

pub data Policy : Type 0 where
  skip prefer require : Policy

pub data Status : Type 0 where
  good revoked unknown : Status

pub data Source : Type 0 where
  no_source ocsp crl : Source

-- src/trust/revocation-types.ts.
pub record RevocationResult : Type 0 where
  pub status : Status
  pub source : Source
  pub revoked_at : Option ℕ
  pub revocation_reason : Option String
  pub checked_at : ℕ

-- An AccessDescription: its method and the URI of its location.
pub record AccessDescription : Type 0 where
  pub access_method : String
  pub uri : Option String

-- What the checker calls; `none` is an exception. The parsed extensions are `none` where the
-- certificate has none or the library cannot parse it. A distribution point without a `fullName` is
-- `none`, and so is a name that is no URI.
pub record Sources : Type 0 where
  pub access_info : Cert → Option (List AccessDescription)
  pub distribution_points : Cert → Option (List (Option (List (Option String))))
  pub ocsp_check : Cert → Cert → String → ℕ → Option RevocationResult
  pub fetch_crl : String → ℕ → Option ParsedCrl
  pub verify_crl : ParsedCrl → Cert → Bool

-- RevocationCheckFailedError.
pub data CheckFailed : Type 0 where
  no_sources stale_crl all_failed : CheckFailed

-- `if (uri)`: there is a text, and it is not empty.
unfoldable pub truthy : Option String → Option String
truthy none = none
truthy (some s) = if s == "" then none else some s

unfoldable pub first_ocsp_url : List AccessDescription → Option String
first_ocsp_url [] = none
first_ocsp_url (desc ∷ aia) =
    let later = first_ocsp_url aia in
    if desc.access_method == "1.3.6.1.5.5.7.48.1"
    then elim (truthy desc.uri) [ none ↦ later | some uri ↦ some uri ]
    else later

unfoldable pub uris_of : List (Option String) → List String
uris_of [] = []
uris_of (gn ∷ full_name) = elim (truthy gn) [
  | none ↦ uris_of full_name
  | some uri ↦ uri ∷ uris_of full_name
]

unfoldable pub crl_urls_of : List (Option (List (Option String))) → List String
unfolding uris_of
crl_urls_of [] = []
crl_urls_of (none ∷ cdp) = crl_urls_of cdp
crl_urls_of (some full_name ∷ cdp) = uris_of full_name ++ crl_urls_of cdp

abbrev pub result : Status → Source → ℕ → RevocationResult
result status source now = record {
  status = status;
  source = source;
  revoked_at = none;
  revocation_reason = none;
  checked_at = now;
}

-- `if (policy === 'require') throw e;`
unfoldable pub unless_required : {A : Type 0} → Policy → CheckFailed → A → Result CheckFailed A
unless_required require e a = err e
unless_required skip e a = ok a
unless_required prefer e a = ok a

-- The verdict of a CRL: the date of the serial's entry, or `none` for good.
unfoldable pub crl_outcome : ℕ → Option ℕ → RevocationResult
crl_outcome now none = result good crl now
crl_outcome now (some date) = record {
  status = revoked;
  source = crl;
  revoked_at = some date;
  revocation_reason = none;
  checked_at = now;
}

module _ (sources : Sources) where
  unfoldable pub extract_ocsp_url : Cert → Option String
  unfolding first_ocsp_url truthy
  extract_ocsp_url cert = elim (sources.access_info cert) [
    | none ↦ none
    | some aia ↦ first_ocsp_url aia
  ]

  unfoldable pub extract_crl_urls : Cert → List String
  unfolding crl_urls_of truthy
  extract_crl_urls cert = elim (sources.distribution_points cert) [
    | none ↦ []
    | some cdp ↦ crl_urls_of cdp
  ]

  module _ (policy : Policy) (subject_cert issuer_cert : Cert) (now : ℕ) where
    -- What is done with a CRL that was fetched: `none` is `continue`.
    unfoldable pub judge_crl : ParsedCrl → Result CheckFailed (Option RevocationResult)
    judge_crl parsed =
        if not (sources.verify_crl parsed issuer_cert)
        then ok none
        else if is_stale parsed now
        then unless_required policy stale_crl none
        else ok (some (crl_outcome now (is_revoked parsed subject_cert.serial_number)))

    -- One round of the loop over the CRLs.
    unfoldable pub try_crl : String → Result CheckFailed (Option RevocationResult)
    try_crl url = elim (sources.fetch_crl url now) [
      | none ↦ ok none
      | some parsed ↦ judge_crl parsed
    ]

    -- The loop, and what follows it.
    unfoldable pub try_crls : List String → Result CheckFailed RevocationResult
    try_crls [] = unless_required policy all_failed (result unknown no_source now)
    try_crls (url ∷ urls) = elim (try_crl url) [
      | err e ↦ err e
      | ok (some r) ↦ ok r
      | ok none ↦ try_crls urls
    ]

    -- OCSP, if there is a URL and the client does not throw; the CRLs otherwise.
    unfoldable pub try_ocsp : Option String → List String → Result CheckFailed RevocationResult
    try_ocsp none crl_urls = try_crls crl_urls
    try_ocsp (some url) crl_urls = elim (sources.ocsp_check subject_cert issuer_cert url now) [
      | some r ↦ ok r
      | none ↦ try_crls crl_urls
    ]

    unfoldable pub check_sources : Option String → List String → Result CheckFailed RevocationResult
    check_sources none [] = unless_required policy no_sources (result unknown no_source now)
    check_sources none (url ∷ urls) = try_ocsp none (url ∷ urls)
    check_sources (some url) urls = try_ocsp (some url) urls

    unfoldable pub check_unless_skipped : Policy → Result CheckFailed RevocationResult
    check_unless_skipped skip = ok (result good no_source now)
    check_unless_skipped _ =
        check_sources (extract_ocsp_url subject_cert) (extract_crl_urls subject_cert)

    unfoldable pub check : Result CheckFailed RevocationResult
    check = check_unless_skipped policy
