-- ===== src/Trust/Revocation/Reported.antt =====
-- A certificate on a fresh CRL is reported as revoked.
use online_verifier.Prelude.{
  ℕ, ◌≤◌, String, ◌≡◌, refl, ap, ◌∙◌, ◌≢◌, true, false, Option, none, some, List, [], ◌∷◌, ◌++◌,
  arith, ltb, ℕ_eq, string_eq, All, ok,
}
use online_verifier.Trust.Cert.{Cert}
use online_verifier.Trust.Crl.{ParsedCrl, is_revoked, is_stale}
use online_verifier.Trust.Revocation.{
  Policy, skip, prefer, require, revoked, crl, Sources, extract_ocsp_url, extract_crl_urls,
  crl_outcome, judge_crl, try_crl, try_crls, try_ocsp, check_sources, check_unless_skipped, check,
}
use online_verifier.Trust.Revocation.Laws.{verdict}

-- The OCSP client is not asked, or it throws.
abbrev pub NoOcspAnswer : Sources → Cert → Cert → ℕ → Type 0
NoOcspAnswer sources subject issuer now =
    (url : String)
    → extract_ocsp_url sources subject ≡ some url
    → sources.ocsp_check subject issuer url now ≡ none

check-asked :
    (sources : Sources) (policy : Policy) (subject issuer : Cert) (now : ℕ)
    → policy ≢ skip
    → check sources policy subject issuer now
      ≡ check_sources sources policy subject issuer now
          (extract_ocsp_url sources subject)
          (extract_crl_urls sources subject)
unfolding check check_unless_skipped
check-asked sources skip subject issuer now n = absurd (n refl)
check-asked sources prefer subject issuer now n = refl
check-asked sources require subject issuer now n = refl

check_sources-try_crls :
    (sources : Sources) (policy : Policy) (subject issuer : Cert) (now : ℕ)
    (ocsp_url : Option String) (urls : List String)
    → urls ≢ []
    → ((url : String) → ocsp_url ≡ some url → sources.ocsp_check subject issuer url now ≡ none)
    → check_sources sources policy subject issuer now ocsp_url urls
      ≡ try_crls sources policy subject issuer now urls
unfolding check_sources try_ocsp
check_sources-try_crls sources policy subject issuer now none [] n quiet = absurd (n refl)
check_sources-try_crls sources policy subject issuer now none (url ∷ urls) n quiet = refl
check_sources-try_crls sources policy subject issuer now (some u) urls n quiet =
    rw (quiet u refl, try_ocsp)

try_crls-revoked :
    (sources : Sources) (policy : Policy) (subject issuer : Cert) (now : ℕ)
    (before after : List String) (url : String) (parsed : ParsedCrl) (date : ℕ)
    → All (λ u. sources.fetch_crl u now ≡ none) before
    → sources.fetch_crl url now ≡ some parsed
    → sources.verify_crl parsed issuer ≡ true
    → now ≤ parsed.next_update
    → is_revoked parsed subject.serial_number ≡ some date
    → try_crls sources policy subject issuer now (before ++ url ∷ after)
      ≡ ok (crl_outcome now (some date))
unfolding try_crls try_crl judge_crl is_stale
try_crls-revoked sources policy subject issuer now [] after url parsed date _ fetched verified fresh
      entry =
    let current : ltb parsed.next_update now ≡ false = ground arith in
    rw (fetched, try_crls, try_crl, judge_crl, verified, current, entry)
try_crls-revoked sources policy subject issuer now (u ∷ before) after url parsed date (lost, h)
      fetched verified fresh entry =
    rw (lost, try_crls, try_crl)
      (try_crls-revoked sources policy subject issuer now before after url parsed date h fetched
        verified fresh entry)

-- A revoked certificate is reported: if revocation is not skipped and OCSP gives no answer, then the
-- first CRL that can be fetched decides, and it decides `revoked`, since the date of its entry, if it
-- is fresh, is signed by the issuer and lists the serial number.
pub check-revoked :
    (sources : Sources) (policy : Policy) (subject issuer : Cert) (now : ℕ)
    (before after : List String) (url : String) (parsed : ParsedCrl) (date : ℕ)
    → policy ≢ skip
    → NoOcspAnswer sources subject issuer now
    → extract_crl_urls sources subject ≡ before ++ url ∷ after
    → All (λ u. sources.fetch_crl u now ≡ none) before
    → sources.fetch_crl url now ≡ some parsed
    → sources.verify_crl parsed issuer ≡ true
    → now ≤ parsed.next_update
    → is_revoked parsed subject.serial_number ≡ some date
    → check sources policy subject issuer now ≡ ok (verdict revoked crl (some date) now)
unfolding crl_outcome
check-revoked sources policy subject issuer now before after url parsed date n quiet urls lost
      fetched verified fresh entry =
    check-asked sources policy subject issuer now n
    ∙ check_sources-try_crls sources policy subject issuer now (extract_ocsp_url sources subject)
        (extract_crl_urls sources subject) (nonempty before (extract_crl_urls sources subject) urls)
        quiet
    ∙ ap (λ us. try_crls sources policy subject issuer now us) urls
    ∙ try_crls-revoked sources policy subject issuer now before after url parsed date lost fetched
        verified fresh entry
  where
    nonempty : (xs us : List String) → us ≡ xs ++ url ∷ after → us ≢ []
    nonempty [] us e z = cc
    nonempty (x ∷ xs) us e z = cc
