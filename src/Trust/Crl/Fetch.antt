-- ===== src/Trust/Crl/Fetch.antt =====
-- src/trust/CrlFetcher.ts: the fetching, caching and verifying of a CRL. An exception is `none`; the
-- fetcher, the ASN.1 parser and the signature check are parameters.
pub mod Laws
use online_verifier.Prelude.{
  String, Bool, true, false, Option, none, some, List, ◌++◌, ℕ, if◌then◌else◌,
}
use online_verifier.Text.{Text, codes}
use online_verifier.Trust.Cert.{Bytes, Cert}
use online_verifier.Trust.Ecdsa.{ecdsa_der_to_ieee}
use online_verifier.Trust.Cache.{Entries, get, set}
use online_verifier.Trust.OcspResponse.{HttpResponse}
use online_verifier.Trust.Crl.{RevokedCertificate, ParsedCrl, crl_ttl}

-- What is read of a CertificateList. `tbs_der` is the encoding of its `tbsCertList`.
pub record CertificateList : Type 0 where
  pub next_update : Option ℕ
  pub revoked_certificates : Option (List RevokedCertificate)
  pub tbs_der : Bytes
  pub signature : Bytes

-- `nextUpdate!.getTime()` throws where there is none.
unfoldable pub normalize_crl : CertificateList → Bytes → Option ParsedCrl
normalize_crl parsed der = elim parsed.next_update [
  | none ↦ none
  | some next_update ↦ some (record {
    next_update = next_update;
    revoked_certificates = parsed.revoked_certificates;
    der = der;
  })
]

-- Whether `verifyCrl` does not throw. `verify_p256` imports the key and verifies by it.
unfoldable pub verify_crl : (Bytes → Bytes → Bytes → Option Bool) → CertificateList → Cert → Bool
verify_crl verify_p256 raw issuer = elim (ecdsa_der_to_ieee raw.signature 32) [
  | none ↦ false
  | some ieee ↦ elim (verify_p256 issuer.public_key ieee raw.tbs_der) [
    | some true ↦ true
    | _ ↦ false
  ]
]

abbrev pub crl_key : String → Text
crl_key url = codes "crl:" ++ codes url

abbrev pub look_up : ℕ → Text → Option Entries → Option Bytes × Option Entries
look_up clock key none = (none, none)
look_up clock key (some entries) = let (hit, after) = get clock key entries in (hit, some after)

module _ (parse : Bytes → Option CertificateList) where
  -- The bytes of a cached CRL, or of one that was fetched and has its nextUpdate.
  unfoldable pub read_crl : Bytes → Option ParsedCrl
  read_crl der = elim (parse der) [ none ↦ none | some parsed ↦ normalize_crl parsed der ]

  unfoldable pub fetch_and_parse : (String → Option HttpResponse) → String → Option ParsedCrl
  fetch_and_parse fetcher url = elim (fetcher url) [
    | none ↦ none
    | some response ↦ if response.ok then read_crl response.body else none
  ]

  abbrev pub store :
      ℕ → ℕ → Text → ℕ → Option ParsedCrl → Option Entries → Option ParsedCrl × Option Entries
  store max_entries clock key now none cache = (none, cache)
  store max_entries clock key now (some parsed) none = (some parsed, none)
  store max_entries clock key now (some parsed) (some entries) =
      (some parsed, some (set max_entries clock key parsed.der (crl_ttl parsed now) entries))

  -- What follows on the look-up, by whether it hit. `stored` is `Date.now()` when the CRL is stored.
  abbrev pub after_look_up :
      (String → Option HttpResponse)
      → ℕ
      → ℕ
      → String
      → ℕ
      → Option Bytes × Option Entries
      → Option ParsedCrl × Option Entries
  after_look_up fetcher max_entries stored url now (some hit, cache) = (read_crl hit, cache)
  after_look_up fetcher max_entries stored url now (none, cache) =
      store max_entries stored (crl_key url) now (fetch_and_parse fetcher url) cache

  -- The CRL or an exception, and the cache that is left. `clock` is `Date.now()` at the look-up.
  unfoldable pub fetch_and_parse_cached :
      (String → Option HttpResponse)
      → ℕ
      → ℕ
      → ℕ
      → String
      → ℕ
      → Option Entries
      → Option ParsedCrl × Option Entries
  fetch_and_parse_cached fetcher max_entries clock stored url now cache =
      after_look_up fetcher max_entries stored url now (look_up clock (crl_key url) cache)
