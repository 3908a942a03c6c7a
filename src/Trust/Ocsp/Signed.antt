-- ===== src/Trust/Ocsp/Signed.antt =====
-- Which OCSP responses are signed for an issuer.
use online_verifier.Prelude.{
  ℕ, String, ◌≡◌, refl, ◌↔◌, ◌⊎◌, inl, inr, Bool, true, false, not, none, some, List, [], ◌∷◌,
  if◌then◌else◌, ℕ_eq, string_eq, Bool-cases, Option-cases, In, here, there, ok, err, includes-In,
  In-includes, subst,
}
use online_verifier.Trust.Cert.{Bytes, Cert, Library}
use online_verifier.Trust.Chain.{ChainOptions, build}
use online_verifier.Trust.Chain.Spec.{IsValidPath}
use online_verifier.Trust.Chain.Direct.{build_direct_iff}
use online_verifier.Trust.Ecdsa.{ecdsa_der_to_ieee}
use online_verifier.Trust.OcspResponse.{BasicOcspResponse, ResponderCert, Responder}
use online_verifier.Trust.Ocsp.{
  verify_sig, builder_options, chains_to, is_responder, try_responders, verify_response,
}

one_passes :
    (a b c rest : Bool)
    → rest ≡ true
    → (if not a then rest else if not b then rest else if c then true else rest) ≡ true
one_passes false b c rest h = h
one_passes true false c rest h = h
one_passes true true false rest h = h
one_passes true true true rest h = refl

module _ (responder : Responder) (lib : Library) (clock : ℕ) where
  -- The signer's key verifies the signature, of two halves of 32 bytes, over the DER of the response.
  abbrev pub IsSignature : BasicOcspResponse → Cert → Type 0
  IsSignature basic signer =
      (ieee : Bytes) × (ecdsa_der_to_ieee basic.signature 32 ≡ some ieee)
      × (responder.verify_p256 signer.public_key ieee basic.tbs_der ≡ some true)

  verify_sig_iff :
      (basic : BasicOcspResponse) (signer : Cert)
      → (verify_sig responder basic signer ≡ true) ↔ IsSignature basic signer
  unfolding verify_sig
  verify_sig_iff basic signer = elim (Option-cases (ecdsa_der_to_ieee basic.signature 32)) [
    | inl e ↦ (
      λ h. let bad : false ≡ true = rw (e, verify_sig) at h in cc,
      λ (ieee, converted, verified). cc,
    )
    | inr (ieee, e) ↦
        elim (Option-cases (responder.verify_p256 signer.public_key ieee basic.tbs_der)) [
          | inr (true, v) ↦ (λ h. (ieee, e, v), λ s. rw (e, verify_sig, v))
          | inr (false, v) ↦ (
            λ h. let bad : false ≡ true = rw (e, verify_sig, v) at h in cc,
            λ (other, converted, verified). cc,
          )
          | inl v ↦ (
            λ h. let bad : false ≡ true = rw (e, verify_sig, v) at h in cc,
            λ (other, converted, verified). cc,
          )
        ]
  ]

  -- What the responder's path is built by.
  abbrev pub path_options : ChainOptions
  path_options = record { clock_skew_tolerance = none; allowed_algorithms = none }

  -- The usage for signing OCSP responses is among those of the certificate.
  abbrev pub IsForOcsp : ResponderCert → Type 0
  IsForOcsp candidate =
      (usages : List String) × (candidate.usages ≡ some usages) × In "1.3.6.1.5.5.7.3.9" usages

  is_responder_iff :
      (candidate : ResponderCert)
      → (is_responder responder lib clock candidate ≡ true) ↔ IsForOcsp candidate
  is_responder_iff candidate = elim (Option-cases candidate.usages) [
    | inl e ↦ (λ h. let bad : false ≡ true = rw e at h in cc, λ (usages, u, m). cc)
    | inr (usages, e) ↦ (
      λ h. (usages, e, includes-In usages "1.3.6.1.5.5.7.3.9" (rw e at h)),
      λ (given, u, m).
          let same : given ≡ usages = cc in
          rw e
            (In-includes "1.3.6.1.5.5.7.3.9" usages (subst (λ l. In "1.3.6.1.5.5.7.3.9" l) same m)),
    )
  ]

  -- A certificate among these has the usage for signing OCSP responses and a valid path to the issuer,
  -- and signed the response.
  pub record IsDelegated (basic : BasicOcspResponse) (issuer : Cert) (certs : List ResponderCert)
      : Type 0 where
    pub candidate : ResponderCert
    pub chain : List Cert
    pub is_embedded : In candidate certs
    pub is_for_ocsp : IsForOcsp candidate
    pub has_path : IsValidPath lib path_options clock candidate.certificate (issuer ∷ []) [] chain
    pub is_signed : IsSignature basic candidate.certificate

  -- The issuer signed the response, or a responder that it authorized.
  abbrev pub IsSigned : BasicOcspResponse → Cert → Type 0
  IsSigned basic issuer =
      IsSignature basic issuer
      ⊎ ((certs : List ResponderCert) × (basic.certs ≡ some certs) × IsDelegated basic issuer certs)

  HasPath : Cert → Cert → Type 0
  HasPath issuer candidate =
      (chain : List Cert) × IsValidPath lib (builder_options responder lib clock) clock candidate
        (issuer ∷ []) [] chain

  chains_to_iff :
      (issuer candidate : Cert)
      → (chains_to responder lib clock issuer candidate ≡ true) ↔ HasPath issuer candidate
  unfolding chains_to HasPath
  chains_to_iff issuer candidate =
      let found =
        build_direct_iff lib (builder_options responder lib clock) clock 0 candidate
          (issuer ∷ []) in
      elim (Option-cases
        (build lib (builder_options responder lib clock) clock 1 candidate (issuer ∷ []) [])) [
          | inl e ↦ (
            λ h. let bad : false ≡ true = rw (e, chains_to) at h in cc,
            λ p. let (c, b) = found.1 p in cc,
          )
          | inr (ok chain, e) ↦ (λ h. found.0 (chain, e), λ p. rw (e, chains_to))
          | inr (err x, e) ↦ (
            λ h. let bad : false ≡ true = rw (e, chains_to) at h in cc,
            λ p. let (c, b) = found.1 p in cc,
          )
        ]

  IsDelegated-later :
      {basic : BasicOcspResponse} {issuer : Cert} (c : ResponderCert) {certs : List ResponderCert}
      → IsDelegated basic issuer certs
      → IsDelegated basic issuer (c ∷ certs)
  IsDelegated-later c d = record {
    candidate = d.candidate;
    chain = d.chain;
    is_embedded = there d.is_embedded;
    is_for_ocsp = d.is_for_ocsp;
    has_path = d.has_path;
    is_signed = d.is_signed;
  }

  try_responders-IsDelegated :
      (basic : BasicOcspResponse) (issuer : Cert) (certs : List ResponderCert)
      → try_responders responder lib clock basic issuer certs ≡ true
      → IsDelegated basic issuer certs
  unfolding try_responders HasPath
  try_responders-IsDelegated basic issuer [] h = cc
  try_responders-IsDelegated basic issuer (c ∷ certs) h =
      elim (Bool-cases (is_responder responder lib clock c)) [
        | inr e ↦ IsDelegated-later c (try_responders-IsDelegated basic issuer certs (rw e at h))
        | inl e ↦ elim (Bool-cases (chains_to responder lib clock issuer c.certificate)) [
          | inr f ↦
              IsDelegated-later c (try_responders-IsDelegated basic issuer certs (rw (e, f) at h))
          | inl f ↦ elim (Bool-cases (verify_sig responder basic c.certificate)) [
            | inr g ↦
                IsDelegated-later c
                  (try_responders-IsDelegated basic issuer certs (rw (e, f, g) at h))
            | inl g ↦
                let (chain, path) = (chains_to_iff issuer c.certificate).0 f in
                record {
                  candidate = c;
                  chain = chain;
                  is_embedded = here;
                  is_for_ocsp = (is_responder_iff c).0 e;
                  has_path = path;
                  is_signed = (verify_sig_iff basic c.certificate).0 g;
                }
          ]
        ]
      ]

  IsDelegated-try_responders :
      (basic : BasicOcspResponse) (issuer : Cert) (c : ResponderCert) (certs : List ResponderCert)
      → In c certs
      → is_responder responder lib clock c ≡ true
      → chains_to responder lib clock issuer c.certificate ≡ true
      → verify_sig responder basic c.certificate ≡ true
      → try_responders responder lib clock basic issuer certs ≡ true
  unfolding try_responders
  IsDelegated-try_responders basic issuer c _ (here {xs = certs}) e f g = rw (e, f, g)
  IsDelegated-try_responders basic issuer c _ (there {x = x} {xs = certs} m) e f g =
      one_passes (is_responder responder lib clock x)
        (chains_to responder lib clock issuer x.certificate)
        (verify_sig responder basic x.certificate) _
        (IsDelegated-try_responders basic issuer c certs m e f g)

  -- `verifyResponse` accepts a response exactly if its DER bears a signature that the key of the issuer
  -- verifies, or, where all embedded certificates parse, the key of one of them, with the usage for signing OCSP responses and a valid path to the issuer.
  pub verify_response_iff :
      (basic : BasicOcspResponse) (issuer : Cert)
      → (verify_response responder lib clock basic issuer ≡ true) ↔ IsSigned basic issuer
  unfolding verify_response HasPath
  verify_response_iff basic issuer = elim (Bool-cases (verify_sig responder basic issuer)) [
    | inl e ↦ (λ h. inl ((verify_sig_iff basic issuer).0 e), λ s. rw (e, verify_response))
    | inr e ↦ (
      λ h. elim (Option-cases basic.certs) [
        | inl c ↦ let bad : false ≡ true = rw (e, verify_response, c) at h in cc
        | inr (certs, c) ↦ inr (
          certs,
          c,
          try_responders-IsDelegated basic issuer certs (rw (e, verify_response, c) at h),
        )
      ],
      λ s. elim s [
        | inl d ↦ let signed = (verify_sig_iff basic issuer).1 d in cc
        | inr (certs, c, d) ↦
            rw (e, verify_response, c)
              (IsDelegated-try_responders basic issuer d.candidate certs d.is_embedded
                ((is_responder_iff d.candidate).1 d.is_for_ocsp)
                ((chains_to_iff issuer d.candidate.certificate).1 (d.chain, d.has_path))
                ((verify_sig_iff basic d.candidate.certificate).1 d.is_signed))
      ],
    )
  ]
