-- ===== src/Trust/Revocation/Laws.antt =====
-- What a verdict on revocation rests on.
use online_verifier.Prelude.{
  ℕ, ◌≤◌, String, ◌≡◌, refl, ◌≢◌, ◌⊎◌, inl, inr, true, Option, none, some, List, [], ◌∷◌, arith,
  Option-cases, In, here, there, ok, Result-cases,
}
use online_verifier.Trust.Cert.{Cert}
use online_verifier.Trust.Crl.{ParsedCrl, is_revoked, is_stale}
use online_verifier.Trust.Revocation.Urls.{
  IsOcspUrl, IsCrlUrl, extract_ocsp_url-IsOcspUrl, extract_crl_urls-IsCrlUrl,
}
use online_verifier.Trust.Revocation.{
  Policy, skip, prefer, require, Status, Source, good, revoked, unknown, no_source, crl,
  RevocationResult, Sources, CheckFailed, no_sources, all_failed, result, extract_ocsp_url,
  extract_crl_urls, unless_required, crl_outcome, judge_crl, try_crl, try_crls, try_ocsp,
  check_sources, check_unless_skipped, check,
}

-- A verdict, field by field.
abbrev pub verdict : Status → Source → Option ℕ → ℕ → RevocationResult
verdict status source revoked_at checked_at = record {
  status = status;
  source = source;
  revoked_at = revoked_at;
  revocation_reason = none;
  checked_at = checked_at;
}

-- What a CRL says of a serial number: revoked since the date of its entry, or good without one.
abbrev pub CrlSays : ℕ → Option ℕ → RevocationResult → Type 0
CrlSays now none r = r ≡ verdict good crl none now
CrlSays now (some date) r = r ≡ verdict revoked crl (some date) now

crl_outcome-CrlSays :
    (now : ℕ) (outcome : Option ℕ) (r : RevocationResult)
    → r ≡ crl_outcome now outcome
    → CrlSays now outcome r
unfolding crl_outcome
crl_outcome-CrlSays now none r h = h
crl_outcome-CrlSays now (some date) r h = h

unless_required_sound :
    {A : Type 0} (policy : Policy) (e : CheckFailed) (a b : A)
    → unless_required policy e a ≡ ok b
    → (policy ≢ require) × (b ≡ a)
unfolding unless_required
unless_required_sound require e a b h = cc
unless_required_sound skip e a b h = (λ p. cc, cc)
unless_required_sound prefer e a b h = (λ p. cc, cc)

module _ (sources : Sources) (subject issuer : Cert) (now : ℕ) where
  -- A CRL from a URL of this kind that could be fetched, whose signature the issuer's key verifies, that
  -- is not stale, and that gives this outcome for the serial number.
  abbrev pub FreshCrl : (String → Type 0) → Option ℕ → Type 0
  FreshCrl Named outcome =
      (url : String) × (parsed : ParsedCrl) × Named url
      × (sources.fetch_crl url now ≡ some parsed)
      × (sources.verify_crl parsed issuer ≡ true)
      × (now ≤ parsed.next_update)
      × (is_revoked parsed subject.serial_number ≡ outcome)

  -- The OCSP client answered with this result.
  abbrev pub OcspAnswer : RevocationResult → Type 0
  OcspAnswer r =
      (url : String) × IsOcspUrl sources subject url
      × (sources.ocsp_check subject issuer url now ≡ some r)

  abbrev Among : List String → String → Type 0
  Among urls url = In url urls

  -- Where the verdict comes from: a fresh CRL, the OCSP client, or nothing under a lenient policy.
  pub data Evidence (policy : Policy) (Named : String → Type 0) (r : RevocationResult)
      : Type 0 where
    by_crl :
        (outcome : Option ℕ)
        → FreshCrl Named outcome
        → CrlSays now outcome r
        → Evidence policy Named r
    by_ocsp : OcspAnswer r → Evidence policy Named r
    skipped : policy ≡ skip → r ≡ verdict good no_source none now → Evidence policy Named r
    unanswered : policy ≡ prefer → r ≡ verdict unknown no_source none now → Evidence policy Named r

  module _ (policy : Policy) where
    judge_crl_sound :
        (parsed : ParsedCrl) (r : RevocationResult)
        → judge_crl sources policy subject issuer now parsed ≡ ok (some r)
        → (sources.verify_crl parsed issuer ≡ true)
          × (now ≤ parsed.next_update)
          × (r ≡ crl_outcome now (is_revoked parsed subject.serial_number))
    unfolding judge_crl is_stale unless_required
    judge_crl_sound parsed r h = ground arith

    try_crl_sound :
        (url : String) (r : RevocationResult)
        → try_crl sources policy subject issuer now url ≡ ok (some r)
        → (outcome : Option ℕ) × FreshCrl (Among (url ∷ [])) outcome × (r ≡ crl_outcome now outcome)
    unfolding try_crl
    try_crl_sound url r h = elim (Option-cases (sources.fetch_crl url now)) [
      | inl e ↦ cc (rw (e, try_crl) at h)
      | inr (parsed, e) ↦
          let (verified, fresh, same) = judge_crl_sound parsed r (rw (e, try_crl) at h) in
          (_, (url, parsed, here, e, verified, fresh, refl), same)
    ]

    FreshCrl-later :
        (url : String) (urls : List String) (outcome : Option ℕ)
        → FreshCrl (Among urls) outcome
        → FreshCrl (Among (url ∷ urls)) outcome
    FreshCrl-later url urls outcome (u, parsed, m, a, b, c, d) = (u, parsed, there m, a, b, c, d)

    FreshCrl-first :
        (url : String) (urls : List String) (outcome : Option ℕ)
        → FreshCrl (Among (url ∷ [])) outcome
        → FreshCrl (Among (url ∷ urls)) outcome
    FreshCrl-first url urls outcome (u, parsed, m, a, b, c, d) = (u, parsed, first m, a, b, c, d)
      where
        first : {v : String} → In v (url ∷ []) → In v (url ∷ urls)
        first here = here
        first (there n) = elim n [ ]

    -- Of the loop: a fresh CRL, or every one failed and the policy does not require an answer.
    abbrev CrlsGive : List String → RevocationResult → Type 0
    CrlsGive urls r =
        ((outcome : Option ℕ) × FreshCrl (Among urls) outcome × (r ≡ crl_outcome now outcome))
        ⊎ ((policy ≢ require) × (r ≡ result unknown no_source now))

    try_crls_sound :
        (urls : List String) (r : RevocationResult)
        → try_crls sources policy subject issuer now urls ≡ ok r
        → CrlsGive urls r
    unfolding try_crls
    try_crls_sound [] r h =
        inr (unless_required_sound policy all_failed (result unknown no_source now) r h)
    try_crls_sound (url ∷ urls) r h =
        elim (Result-cases (try_crl sources policy subject issuer now url)) [
          | inr (e, failed) ↦ cc (rw (failed, try_crls) at h)
          | inl (some a, e) ↦
              let found : ok a ≡ ok r = rw (e, try_crls) at h in
              let same : a ≡ r = cc in
              let (outcome, fresh, verdict) = try_crl_sound url r (rw same at e) in
              inl (outcome, FreshCrl-first url urls outcome fresh, verdict)
          | inl (none, e) ↦ elim (try_crls_sound urls r (rw (e, try_crls) at h)) [
            | inl (outcome, fresh, verdict) ↦
                inl (outcome, FreshCrl-later url urls outcome fresh, verdict)
            | inr lenient ↦ inr lenient
          ]
        ]

    lenient : policy ≢ skip → policy ≢ require → policy ≡ prefer
    lenient n m = ground arith

    CrlsGive-Evidence :
        (urls : List String) (r : RevocationResult)
        → policy ≢ skip
        → CrlsGive urls r
        → Evidence policy (Among urls) r
    CrlsGive-Evidence urls r n (inl (outcome, fresh, same)) =
        by_crl outcome fresh (crl_outcome-CrlSays now outcome r same)
    CrlsGive-Evidence urls r n (inr (m, same)) = unanswered (lenient n m) same

    try_ocsp_sound :
        (url : Option String) (urls : List String) (r : RevocationResult)
        → policy ≢ skip
        → extract_ocsp_url sources subject ≡ url
        → try_ocsp sources policy subject issuer now url urls ≡ ok r
        → Evidence policy (Among urls) r
    unfolding try_ocsp
    try_ocsp_sound none urls r n from h = CrlsGive-Evidence urls r n (try_crls_sound urls r h)
    try_ocsp_sound (some url) urls r n from h =
        elim (Option-cases (sources.ocsp_check subject issuer url now)) [
          | inl e ↦ CrlsGive-Evidence urls r n (try_crls_sound urls r (rw (e, try_ocsp) at h))
          | inr (answer, e) ↦
              let found : ok answer ≡ ok r = rw (e, try_ocsp) at h in
              by_ocsp (url, extract_ocsp_url-IsOcspUrl sources subject url from, cc)
        ]

    check_sources_sound :
        (url : Option String) (urls : List String) (r : RevocationResult)
        → policy ≢ skip
        → extract_ocsp_url sources subject ≡ url
        → check_sources sources policy subject issuer now url urls ≡ ok r
        → Evidence policy (Among urls) r
    unfolding check_sources
    check_sources_sound none [] r n from h =
        let (m, same) =
          unless_required_sound policy no_sources (result unknown no_source now) r h in
        unanswered (lenient n m) same
    check_sources_sound none (url ∷ urls) r n from h = try_ocsp_sound none (url ∷ urls) r n from h
    check_sources_sound (some u) urls r n from h = try_ocsp_sound (some u) urls r n from h

Evidence-of_certificate :
    (sources : Sources) (subject issuer : Cert) (now : ℕ) (policy : Policy) (r : RevocationResult)
    → Evidence sources subject issuer now policy
        (Among sources subject issuer now (extract_crl_urls sources subject))
        r
    → Evidence sources subject issuer now policy (IsCrlUrl sources subject) r
Evidence-of_certificate sources subject issuer now policy r
      (by_crl outcome (u, p, m, f, v, n, o) says) =
    by_crl outcome (u, p, extract_crl_urls-IsCrlUrl sources subject u m, f, v, n, o) says
Evidence-of_certificate sources subject issuer now policy r (by_ocsp answer) = by_ocsp answer
Evidence-of_certificate sources subject issuer now policy r (skipped e f) = skipped e f
Evidence-of_certificate sources subject issuer now policy r (unanswered e f) = unanswered e f

-- Every verdict of `check` has its evidence: a CRL of the certificate's distribution points that
-- could be fetched, is signed by the issuer and is not stale, and the verdict is `revoked` since the
-- date of the serial number's entry in it, or `good` without an entry; or an answer of the OCSP client
-- for a responder that the certificate names; or the policy `skip`; or, under the policy `prefer`,
-- nothing, and the verdict is `unknown`. So the policy `require` gives no verdict without an answer.
pub check-Evidence :
    (sources : Sources) (policy : Policy) (subject issuer : Cert) (now : ℕ) (r : RevocationResult)
    → check sources policy subject issuer now ≡ ok r
    → Evidence sources subject issuer now policy (IsCrlUrl sources subject) r
unfolding check check_unless_skipped
check-Evidence sources skip subject issuer now r h = skipped refl cc
check-Evidence sources prefer subject issuer now r h =
    Evidence-of_certificate sources subject issuer now prefer r
      (check_sources_sound sources subject issuer now prefer _ _ r (λ e. cc) refl h)
check-Evidence sources require subject issuer now r h =
    Evidence-of_certificate sources subject issuer now require r
      (check_sources_sound sources subject issuer now require _ _ r (λ e. cc) refl h)
