-- ===== src/Trust/Revocation/Urls.antt =====
-- Where the URLs stand from which the revocation checker asks.
use online_verifier.Prelude.{
  String, ◌≡◌, refl, sym, ap, ◌∙◌, subst, ◌≢◌, ◌⊎◌, inl, inr, Option, none, some, List, [], ◌∷◌,
  ◌==◌, string_eq, Bool-cases, Option-cases, In, here, there, In-append,
}
use online_verifier.Trust.Cert.{Cert}
use online_verifier.Trust.Revocation.{
  AccessDescription, Sources, truthy, first_ocsp_url, uris_of, crl_urls_of, extract_ocsp_url,
  extract_crl_urls,
}

-- One of the descriptions is of an OCSP responder and has the URL, which is not empty, as its location.
abbrev pub OcspLocation : List AccessDescription → String → Type 0
OcspLocation aia url =
    (desc : AccessDescription) × In desc aia
    × (desc.access_method ≡ "1.3.6.1.5.5.7.48.1")
    × (desc.uri ≡ some url)
    × (url ≢ "")

-- One of the distribution points has the URL, which is not empty, as one of its names.
abbrev pub CrlLocation : List (Option (List (Option String))) → String → Type 0
CrlLocation cdp url =
    (full_name : List (Option String)) × In (some full_name) cdp
    × In (some url) full_name
    × (url ≢ "")

-- The certificate names an OCSP responder at the URL.
abbrev pub IsOcspUrl : Sources → Cert → String → Type 0
IsOcspUrl sources subject url =
    (aia : List AccessDescription) × (sources.access_info subject ≡ some aia) × OcspLocation aia url

-- The certificate names a distribution point at the URL.
abbrev pub IsCrlUrl : Sources → Cert → String → Type 0
IsCrlUrl sources subject url =
    (cdp : List (Option (List (Option String)))) × (sources.distribution_points subject ≡ some cdp)
    × CrlLocation cdp url

truthy-some : (o : Option String) (s : String) → truthy o ≡ some s → (o ≡ some s) × (s ≢ "")
unfolding truthy
truthy-some none s h = cc
truthy-some (some t) s h = elim (Bool-cases (t == "")) [
  | inl e ↦ let bad : none ≡ some s = rw (e, truthy) at h in cc
  | inr e ↦
      let same : some t ≡ some s = rw (e, truthy) at h in
      (same, λ empty. let blank : t ≡ "" = cc in cc (e, (string_eq.decides t "").1 blank))
]

OcspLocation-later :
    (d : AccessDescription) (aia : List AccessDescription) (url : String)
    → OcspLocation aia url
    → OcspLocation (d ∷ aia) url
OcspLocation-later d aia url (desc, m, a, u, n) = (desc, there m, a, u, n)

first_ocsp_url-OcspLocation :
    (aia : List AccessDescription) (url : String)
    → first_ocsp_url aia ≡ some url
    → OcspLocation aia url
unfolding first_ocsp_url
first_ocsp_url-OcspLocation [] url h = cc
first_ocsp_url-OcspLocation (d ∷ aia) url h =
    elim (Bool-cases (d.access_method == "1.3.6.1.5.5.7.48.1")) [
      | inr e ↦
          OcspLocation-later d aia url
            (first_ocsp_url-OcspLocation aia url (rw (e, first_ocsp_url) at h))
      | inl e ↦ elim (Option-cases (truthy d.uri)) [
        | inl t ↦
            OcspLocation-later d aia url
              (first_ocsp_url-OcspLocation aia url (rw (e, first_ocsp_url, t) at h))
        | inr (u, t) ↦
            let found : some u ≡ some url = rw (e, first_ocsp_url, t) at h in
            let (named, full) = truthy-some d.uri url (t ∙ found) in
            (d, here, (string_eq.decides d.access_method "1.3.6.1.5.5.7.48.1").0 e, named, full)
      ]
    ]

pub extract_ocsp_url-IsOcspUrl :
    (sources : Sources) (subject : Cert) (url : String)
    → extract_ocsp_url sources subject ≡ some url
    → IsOcspUrl sources subject url
unfolding extract_ocsp_url
extract_ocsp_url-IsOcspUrl sources subject url h =
    elim (Option-cases (sources.access_info subject)) [
      | inl e ↦ let bad : none ≡ some url = rw (e, extract_ocsp_url) at h in cc
      | inr (aia, e) ↦ (aia, e, first_ocsp_url-OcspLocation aia url (rw (e, extract_ocsp_url) at h))
    ]

In-cons : (u v : String) (urls : List String) → In v (u ∷ urls) → (v ≡ u) ⊎ In v urls
In-cons u _ urls here = inl refl
In-cons u v urls (there m) = inr m

uris_of-In :
    (full_name : List (Option String)) (url : String)
    → In url (uris_of full_name)
    → In (some url) full_name × (url ≢ "")
unfolding uris_of
uris_of-In [] url m = elim m [ ]
uris_of-In (gn ∷ full_name) url m = elim (Option-cases (truthy gn)) [
  | inl e ↦
      let (found, full) = uris_of-In full_name url (rw (e, uris_of) at m) in (there found, full)
  | inr (u, e) ↦ elim (In-cons u url (uris_of full_name) (rw (e, uris_of) at m)) [
    | inl same ↦
        let (named, full) = truthy-some gn url (e ∙ ap some (sym same)) in
        (subst (λ o. In o (gn ∷ full_name)) named here, full)
    | inr later ↦ let (found, full) = uris_of-In full_name url later in (there found, full)
  ]
]

crl_urls_of-CrlLocation :
    (cdp : List (Option (List (Option String)))) (url : String)
    → In url (crl_urls_of cdp)
    → CrlLocation cdp url
unfolding crl_urls_of
crl_urls_of-CrlLocation [] url m = elim m [ ]
crl_urls_of-CrlLocation (none ∷ cdp) url m =
    let (names, a, b, n) = crl_urls_of-CrlLocation cdp url m in (names, there a, b, n)
crl_urls_of-CrlLocation (some full_name ∷ cdp) url m =
    elim (In-append (uris_of full_name) (crl_urls_of cdp) m) [
      | inl first ↦
          let (found, full) = uris_of-In full_name url first in (full_name, here, found, full)
      | inr later ↦
          let (names, a, b, n) = crl_urls_of-CrlLocation cdp url later in (names, there a, b, n)
    ]

pub extract_crl_urls-IsCrlUrl :
    (sources : Sources) (subject : Cert) (url : String)
    → In url (extract_crl_urls sources subject)
    → IsCrlUrl sources subject url
unfolding extract_crl_urls
extract_crl_urls-IsCrlUrl sources subject url m =
    elim (Option-cases (sources.distribution_points subject)) [
      | inl e ↦ elim (rw (e, extract_crl_urls) at m) [ ]
      | inr (cdp, e) ↦ (cdp, e, crl_urls_of-CrlLocation cdp url (rw (e, extract_crl_urls) at m))
    ]
