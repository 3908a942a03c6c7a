-- ===== src/Trust/Provenance/Found.antt =====
-- Which service the provenance of an anchor is read off.
use online_verifier.Prelude.{
  true, false, none, some, List, [], ◌∷◌, ◌≡◌, refl, sym, ap, ◌∙◌, not, ◌&&◌, inl, inr, arith, any,
  Any, Option-cases, Bool-cases, In, here, there,
}
use online_verifier.Text.{Text, codes, ends_with, text_eq, is_empty}
use online_verifier.Text.Laws.{text_eq_iff}
use online_verifier.Trust.Cert.{Cert, get_ski_hex}
use online_verifier.Trust.Provenance.{
  TspService, NationalTlSnapshot, ResolvedProvenance, service_matches, build_provenance, has_ski,
  derive_service_metadata, map_loa, first_service, first_list, resolve,
}

-- One of the certificates of the service has the key identifier.
abbrev pub HasSki : Text → TspService → Type 0
HasSki ski service = Any (λ c. get_ski_hex c ≡ some ski) service.certificates

-- What is read off a service for an anchor of the key identifier.
abbrev pub provenance_of : TspService → Text → ResolvedProvenance
provenance_of service ski = record {
  loa = map_loa service.additional_service_information_uris;
  qualified =
      ends_with (codes service.service_type_identifier) (codes "/CA/QC")
      && ends_with (codes service.service_status) (codes "/granted");
  service_country = service.country;
  name = service.service_name;
  trusted_authority_ids = ski ∷ [];
}

build_provenance-provenance_of :
    (service : TspService) (ski : Text) → build_provenance service ski ≡ provenance_of service ski
unfolding build_provenance derive_service_metadata
build_provenance-provenance_of service ski = refl

has_ski_sound : (ski : Text) (c : Cert) → has_ski ski c ≡ true → get_ski_hex c ≡ some ski
unfolding has_ski
has_ski_sound ski c h = elim (Option-cases (get_ski_hex c)) [
  | inl e ↦ let bad : false ≡ true = rw (e, has_ski) at h in cc
  | inr (k, e) ↦
      let tests : (not (is_empty k) && text_eq k ski) ≡ true = rw (e, has_ski) at h in
      let same : text_eq k ski ≡ true = ground arith in e ∙ ap some ((text_eq_iff k ski).0 same)
]

any-has_ski :
    (ski : Text) (certs : List Cert)
    → any (has_ski ski) certs ≡ true
    → Any (λ c. get_ski_hex c ≡ some ski) certs
any-has_ski ski [] h = cc
any-has_ski ski (c ∷ certs) h = elim (Bool-cases (has_ski ski c)) [
  | inl e ↦ inl (has_ski_sound ski c e)
  | inr e ↦ inr (any-has_ski ski certs (rw e at h))
]

first_service-some :
    (ski : Text) (services : List TspService) (p : ResolvedProvenance)
    → first_service ski services ≡ some p
    → (s : TspService) × In s services
      × (service_matches ski s ≡ true)
      × (build_provenance s ski ≡ p)
unfolding first_service
first_service-some ski [] p h = cc
first_service-some ski (s ∷ services) p h = elim (Bool-cases (service_matches ski s)) [
  | inl e ↦
      let found : some (build_provenance s ski) ≡ some p = rw (e, first_service) at h in
      (s, here, e, cc)
  | inr e ↦
      let (t, member, matches, same) =
        first_service-some ski services p (rw (e, first_service) at h) in
      (t, there member, matches, same)
]

first_list-some :
    (ski : Text) (tls : List NationalTlSnapshot) (p : ResolvedProvenance)
    → first_list ski tls ≡ some p
    → (tl : NationalTlSnapshot) × In tl tls × (first_service ski tl.services ≡ some p)
unfolding first_list
first_list-some ski [] p h = cc
first_list-some ski (tl ∷ tls) p h = elim (Option-cases (first_service ski tl.services)) [
  | inl e ↦
      let (found, member, same) = first_list-some ski tls p (rw (e, first_list) at h) in
      (found, there member, same)
  | inr (q, e) ↦ let found : some q ≡ some p = rw (e, first_list) at h in (tl, here, cc)
]

-- What `resolve` reads off: a service of one of the lists that has a certificate with the anchor's key
-- identifier, which is not empty.
pub record IsResolved (anchor : Cert) (tls : List NationalTlSnapshot) (p : ResolvedProvenance)
    : Type 0 where
  pub ski : Text
  pub tl : NationalTlSnapshot
  pub service : TspService
  pub of_anchor : get_ski_hex anchor ≡ some ski
  pub nonempty : is_empty ski ≡ false
  pub listed : In tl tls
  pub in_list : In service tl.services
  pub matched : HasSki ski service
  pub read_off : p ≡ provenance_of service ski

-- The provenance of an anchor is read off a service of one of the national lists that has a
-- certificate with the anchor's key identifier, which the anchor has and which is not empty: the level
-- of assurance of the service's URIs, whether it is a qualified CA that is granted, its country and
-- name, and the key identifier as the only authority id.
pub resolve-IsResolved :
    (anchor : Cert) (tls : List NationalTlSnapshot) (p : ResolvedProvenance)
    → resolve anchor tls ≡ some p
    → IsResolved anchor tls p
unfolding resolve
resolve-IsResolved anchor tls p h = elim (Option-cases (get_ski_hex anchor)) [
  | inl e ↦ let bad : none ≡ some p = rw (e, resolve) at h in cc
  | inr (ski, e) ↦ elim (Bool-cases (is_empty ski)) [
    | inl empty ↦ let bad : none ≡ some p = rw (e, resolve, empty) at h in cc
    | inr full ↦
        let (tl, member, found) = first_list-some ski tls p (rw (e, resolve, full) at h) in
        let (s, in_list, matched, same) = first_service-some ski tl.services p found in
        record {
          ski = ski;
          tl = tl;
          service = s;
          of_anchor = e;
          nonempty = full;
          listed = member;
          in_list = in_list;
          matched = any-has_ski ski s.certificates matched;
          read_off = sym same ∙ build_provenance-provenance_of s ski;
        }
  ]
]
