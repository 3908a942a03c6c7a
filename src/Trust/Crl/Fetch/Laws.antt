-- ===== src/Trust/Crl/Fetch/Laws.antt =====
-- What the cache in front of the CRL fetcher changes, and what it does not.
use online_verifier.Prelude.{
  String, ◌≡◌, refl, sym, ap, ◌∙◌, subst, Option, none, some, ◌+◌, ◌*◌, ◌<◌, ℕ, if◌then◌else◌, leb,
  inl, inr, Bool-cases, Option-cases,
}
use online_verifier.Text.{Text}
use online_verifier.Trust.Cert.{Bytes}
use online_verifier.Trust.Cache.{Entries, get, set}
use online_verifier.Trust.Cache.Laws.{get-set}
use online_verifier.Trust.OcspResponse.{HttpResponse}
use online_verifier.Trust.Crl.{ParsedCrl, crl_ttl}
use online_verifier.Trust.Crl.Fetch.{
  CertificateList, normalize_crl, crl_key, read_crl, fetch_and_parse, store, after_look_up,
  fetch_and_parse_cached,
}

module _ (parse : Bytes → Option CertificateList) where
  normalize_crl-der :
      (l : CertificateList) (der : Bytes) (parsed : ParsedCrl)
      → normalize_crl l der ≡ some parsed
      → parsed.der ≡ der
  unfolding normalize_crl
  normalize_crl-der l der parsed h = elim (Option-cases l.next_update) [
    | inl e ↦ let bad : none ≡ some parsed = rw e at h in cc
    | inr (u, e) ↦
        let one : some
              (record { next_update = u; revoked_certificates = l.revoked_certificates; der = der })
            ≡ some parsed =
          rw e at h in
        let same : record {
          next_update = u;
          revoked_certificates = l.revoked_certificates;
          der = der;
        }
            ≡ parsed =
          cc in
        sym (ap (λ p. p.der) same)
  ]

  read_crl-der :
      (der : Bytes) (parsed : ParsedCrl) → read_crl parse der ≡ some parsed → parsed.der ≡ der
  unfolding read_crl
  read_crl-der der parsed h = elim (Option-cases (parse der)) [
    | inl e ↦ let bad : none ≡ some parsed = rw (e, read_crl) at h in cc
    | inr (l, e) ↦ normalize_crl-der l der parsed (rw (e, read_crl) at h)
  ]

  -- A CRL that was read keeps the bytes that it was read from, so reading these gives it again.
  read_crl-again :
      (der : Bytes) (parsed : ParsedCrl)
      → read_crl parse der ≡ some parsed
      → read_crl parse parsed.der ≡ some parsed
  read_crl-again der parsed h =
      subst (λ b. read_crl parse b ≡ some parsed) (sym (read_crl-der der parsed h)) h

  fetch_and_parse-read_crl :
      (fetcher : String → Option HttpResponse) (url : String) (parsed : ParsedCrl)
      → fetch_and_parse parse fetcher url ≡ some parsed
      → read_crl parse parsed.der ≡ some parsed
  unfolding fetch_and_parse
  fetch_and_parse-read_crl fetcher url parsed h = elim (Option-cases (fetcher url)) [
    | inl e ↦ let bad : none ≡ some parsed = rw (e, fetch_and_parse) at h in cc
    | inr (r, e) ↦ elim (Bool-cases r.ok) [
      | inl fine ↦ read_crl-again r.body parsed (rw (e, fetch_and_parse, fine) at h)
      | inr failed ↦ let bad : none ≡ some parsed = rw (e, fetch_and_parse, failed) at h in cc
    ]
  ]

  abbrev answer : (String → Option HttpResponse) → String → Option Bytes → Option ParsedCrl
  answer fetcher url none = fetch_and_parse parse fetcher url
  answer fetcher url (some hit) = read_crl parse hit

  store-given :
      (max_entries clock : ℕ) (key : Text) (now : ℕ) (o : Option ParsedCrl) (cache : Option Entries)
      → (store parse max_entries clock key now o cache).0 ≡ o
  store-given max_entries clock key now none cache = refl
  store-given max_entries clock key now (some parsed) none = refl
  store-given max_entries clock key now (some parsed) (some entries) = refl

  after_look_up-answer :
      (fetcher : String → Option HttpResponse) (max_entries clock : ℕ) (url : String) (now : ℕ)
      (o : Option Bytes) (cache : Option Entries)
      → (after_look_up parse fetcher max_entries clock url now (o, cache)).0 ≡ answer fetcher url o
  after_look_up-answer fetcher max_entries clock url now none cache =
      store-given max_entries clock (crl_key url) now (fetch_and_parse parse fetcher url) cache
  after_look_up-answer fetcher max_entries clock url now (some hit) cache = refl

  -- A call gives what the cache has, or else what is fetched.
  fetch_and_parse_cached-answer :
      (fetcher : String → Option HttpResponse) (max_entries clock stored : ℕ) (url : String)
      (now : ℕ) (entries : Entries)
      → (fetch_and_parse_cached parse fetcher max_entries clock stored url now (some entries)).0
        ≡ answer fetcher url (get clock (crl_key url) entries).0
  unfolding fetch_and_parse_cached
  fetch_and_parse_cached-answer fetcher max_entries clock stored url now entries =
      after_look_up-answer fetcher max_entries stored url now (get clock (crl_key url) entries).0
        (some (get clock (crl_key url) entries).1)

  -- What a fetched CRL leaves in the cache.
  fetch_and_parse_cached-stored :
      (fetcher : String → Option HttpResponse) (max_entries clock stored : ℕ) (url : String)
      (now : ℕ) (entries : Entries) (parsed : ParsedCrl)
      → (get clock (crl_key url) entries).0 ≡ none
      → fetch_and_parse parse fetcher url ≡ some parsed
      → (fetch_and_parse_cached parse fetcher max_entries clock stored url now (some entries)).1
        ≡ some (
            set max_entries stored
              (crl_key url)
              parsed.der
              (crl_ttl parsed now)
              (get clock (crl_key url) entries).1)
  unfolding fetch_and_parse_cached
  fetch_and_parse_cached-stored fetcher max_entries clock stored url now entries parsed missed
        fetched =
      rw (missed, fetched) refl

  -- A CRL that was fetched, since the cache had none, is what the next call for the URL gives while its
  -- time to live, from when it was stored, lasts, whatever the fetcher does then; after it the CRL is
  -- fetched anew. The cache has room for at least one entry.
  pub fetch_and_parse_cached-again :
      (fetcher later_fetcher : String → Option HttpResponse)
      (max_entries clock stored later later_stored : ℕ) (url : String) (now later_now : ℕ)
      (entries : Entries) (parsed : ParsedCrl)
      → 0 < max_entries
      → (get clock (crl_key url) entries).0 ≡ none
      → fetch_and_parse parse fetcher url ≡ some parsed
      → (fetch_and_parse_cached parse later_fetcher max_entries later later_stored url later_now
          (fetch_and_parse_cached parse fetcher max_entries clock stored url now
            (some entries)).1).0
        ≡ (if leb later (stored + crl_ttl parsed now * 1000)
            then some parsed
            else fetch_and_parse parse later_fetcher url)
  fetch_and_parse_cached-again fetcher later_fetcher max_entries clock stored later later_stored url
        now later_now entries parsed room missed fetched =
      let after =
        set max_entries stored (crl_key url) parsed.der (crl_ttl parsed now)
          (get clock (crl_key url) entries).1 in
      let kept : (get later (crl_key url) after).0
          ≡ (if leb later (stored + crl_ttl parsed now * 1000) then some parsed.der else none) =
        get-set max_entries stored later (crl_key url) parsed.der (crl_ttl parsed now)
          (get clock (crl_key url) entries).1 room in
      ap
        (λ c.
          (fetch_and_parse_cached parse later_fetcher max_entries later later_stored url later_now
            c).0)
        (fetch_and_parse_cached-stored fetcher max_entries clock stored url now entries parsed
          missed fetched)
      ∙ fetch_and_parse_cached-answer later_fetcher max_entries later later_stored url later_now
          after
      ∙ ap (answer later_fetcher url) kept
      ∙ elim (Bool-cases (leb later (stored + crl_ttl parsed now * 1000))) [
        | inl soon ↦ rw soon (fetch_and_parse-read_crl fetcher url parsed fetched)
        | inr late ↦ rw late refl
      ]
