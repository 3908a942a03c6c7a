-- ===== src/Trust/Ocsp/Checker.antt =====
-- The revocation checker of src/trust/RevocationChecker.ts over the client of src/trust/OcspClient.ts.
use online_verifier.Prelude.{ℕ, ◌≡◌, ◌⊎◌, inl, inr, Option, ℕ_eq, string_eq, ok}
use online_verifier.Trust.Cert.{Cert, Library}
use online_verifier.Trust.Revocation.{require, RevocationResult, Sources, check}
use online_verifier.Trust.Revocation.Laws.{
  CrlSays, FreshCrl, by_crl, by_ocsp, skipped, unanswered, check-Evidence,
}
use online_verifier.Trust.Revocation.Urls.{IsCrlUrl}
use online_verifier.Trust.Cache.{Entries}
use online_verifier.Trust.OcspResponse.{Responder}
use online_verifier.Trust.Ocsp.{check_cached}
use online_verifier.Trust.Ocsp.Laws.{HasEvidence, check_cached-HasEvidence}

module _ (responder : Responder) (lib : Library) (clock max_entries : ℕ)
    (cache : Option Entries) where
  -- `new OcspClient(…)` as the `ocsp` of the checker.
  abbrev pub with_client : Sources → Sources
  with_client sources = record {
    access_info = sources.access_info;
    distribution_points = sources.distribution_points;
    ocsp_check = λ subject issuer url now.
        (check_cached responder lib clock max_entries subject issuer url now cache).0;
    fetch_crl = sources.fetch_crl;
    verify_crl = sources.verify_crl;
  }

  -- Under the policy `require`, every verdict of the checker over the OCSP client rests on a CRL of the
  -- certificate's distribution points that is signed by the issuer and not stale, and is `revoked` or
  -- `good` by the serial number's entry there; or it rests on an OCSP response that is signed for the
  -- issuer, and is what the entry for the certificate says, which is at most seven days old.
  pub check-with_client-HasEvidence :
      (sources : Sources) (subject issuer : Cert) (now : ℕ) (r : RevocationResult)
      → check (with_client sources) require subject issuer now ≡ ok r
      → ((outcome : Option ℕ) × FreshCrl
            (with_client sources)
            subject
            issuer
            now
            (IsCrlUrl (with_client sources) subject)
            outcome
          × CrlSays now outcome r)
        ⊎ HasEvidence responder lib clock subject issuer now r
  check-with_client-HasEvidence sources subject issuer now r h =
      elim (check-Evidence (with_client sources) require subject issuer now r h) [
        | by_crl outcome fresh e ↦ inl (outcome, fresh, e)
        | by_ocsp (url, found, answer) ↦ inr (
            check_cached-HasEvidence responder lib clock max_entries subject issuer url now cache r
              answer)
        | skipped e f ↦ cc
        | unanswered e f ↦ cc
      ]
