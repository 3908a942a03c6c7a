-- ===== src/Tests/Crl.antt =====
-- A CRL that is fetched and cached, and the theorem on it.
use online_verifier.Prelude.{
  String, ◌≡◌, refl, ◌+◌, ◌*◌, true, Option, none, some, [], ◌∷◌, leb, if◌then◌else◌, arith,
}
use online_verifier.Trust.Cert.{Bytes}
use online_verifier.Trust.Cache.{get, entry_of}
use online_verifier.Trust.OcspResponse.{HttpResponse}
use online_verifier.Trust.Crl.{ParsedCrl, crl_ttl}
use online_verifier.Trust.Crl.Fetch.{
  CertificateList, crl_key, normalize_crl, read_crl, fetch_and_parse, fetch_and_parse_cached,
}
use online_verifier.Trust.Crl.Fetch.Laws.{fetch_and_parse_cached-again}

abbrev parse_list : Bytes → Option CertificateList
parse_list der = some (record {
  next_update = some 90000;
  revoked_certificates = none;
  tbs_der = der;
  signature = [];
})

abbrev online : String → Option HttpResponse
online url = some (record { ok = true; body = 7 ∷ [] })

abbrev offline : String → Option HttpResponse
offline url = none

abbrev fetched_crl : ParsedCrl
fetched_crl = record { next_update = 90000; revoked_certificates = none; der = 7 ∷ [] }

missed : (get 1000 (crl_key "u") []).0 ≡ none
unfolding get entry_of
missed = refl

fetched : fetch_and_parse parse_list online "u" ≡ some fetched_crl
unfolding fetch_and_parse read_crl normalize_crl
fetched = refl

-- The fetcher fails in the second call.
fetch_and_parse_cached-again_example :
    (fetch_and_parse_cached parse_list offline 4 60000 60001 "u" 60000
      (fetch_and_parse_cached parse_list online 4 1000 1200 "u" 1000 (some [])).1).0
    ≡ (if leb 60000 (1200 + crl_ttl fetched_crl 1000 * 1000)
        then some fetched_crl
        else fetch_and_parse parse_list offline "u")
fetch_and_parse_cached-again_example =
    fetch_and_parse_cached-again parse_list online offline 4 1000 1200 60000 60001 "u" 1000 60000 []
      fetched_crl (omega arith) missed fetched
