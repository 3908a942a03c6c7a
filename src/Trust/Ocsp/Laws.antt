-- ===== src/Trust/Ocsp/Laws.antt =====
-- What a verdict of the OCSP client rests on.
use online_verifier.Prelude.{
  ℕ, ◌+◌, ◌≤◌, String, ◌≡◌, inl, inr, Option, none, some, List, [], ◌∷◌, arith, ℕ_eq, string_eq,
  Bool-cases, Option-cases, In, find-some,
}
use online_verifier.Text.{Text, codes, text_eq}
use online_verifier.Trust.Cert.{Bytes, Cert, Library}
use online_verifier.Trust.Crl.{normalize_hex_unsigned_int, bytes_to_hex}
use online_verifier.Trust.Crl.Laws.{serial_value, same_serial_iff}
use online_verifier.Trust.Revocation.{good, revoked, unknown, ocsp, RevocationResult}
use online_verifier.Trust.Revocation.Laws.{verdict}
use online_verifier.Trust.Cache.{Entries}
use online_verifier.Trust.OcspResponse.{
  CertStatus, is_good, is_revoked, is_unknown, SingleResponse, BasicOcspResponse, Responder,
  default_max_response_age_ms, find_single, verdict_of, too_old, extract_verdict, ttl_seconds,
}
use online_verifier.Trust.Ocsp.{
  compute_issuer_key_hash, verify_response, judge, cache_key, fetch, store, keep_verdict, on_miss,
  on_hit, look_up, after_look_up, check_cached,
}
use online_verifier.Trust.Ocsp.Signed.{IsSigned, verify_response_iff}

-- The time for which a response is cached is between a minute and an hour.
pub ttl_seconds_bounds :
    (responses : List SingleResponse) (now : ℕ)
    → (60 ≤ ttl_seconds responses now) × (ttl_seconds responses now ≤ 3600)
unfolding ttl_seconds
ttl_seconds_bounds [] now = (omega arith, omega arith)
ttl_seconds_bounds (single ∷ responses) now = elim (Option-cases single.next_update) [
  | inl e ↦ rw e (omega arith, omega arith)
  | inr (t, e) ↦ rw e (omega arith, omega arith)
]

-- What the status of an entry says, field by field.
abbrev pub StatusSays : ℕ → CertStatus → RevocationResult → Type 0
StatusSays now is_good r = r ≡ verdict good ocsp none now
StatusSays now (is_revoked time reason) r = r ≡ record {
  status = revoked;
  source = ocsp;
  revoked_at = some time;
  revocation_reason = reason;
  checked_at = now;
}
StatusSays now is_unknown r = r ≡ verdict unknown ocsp none now

verdict_of-StatusSays :
    (now : ℕ) (status : CertStatus) (r : RevocationResult)
    → r ≡ verdict_of now status
    → StatusSays now status r
unfolding verdict_of
verdict_of-StatusSays now is_good r h = h
verdict_of-StatusSays now (is_revoked time reason) r h = h
verdict_of-StatusSays now is_unknown r h = h

-- The entry for the number of the certificate, which is at most seven days old, says this.
pub record IsVerdict (basic : BasicOcspResponse) (subject : Cert) (now : ℕ) (r : RevocationResult)
    : Type 0 where
  pub single : SingleResponse
  pub is_listed : In single basic.responses
  pub same_serial :
      serial_value (bytes_to_hex single.serial_number) ≡ serial_value (codes subject.serial_number)
  pub is_fresh : now ≤ single.this_update + default_max_response_age_ms
  pub is_read : StatusSays now single.cert_status r

extract_verdict-IsVerdict :
    (basic : BasicOcspResponse) (subject : Cert) (now : ℕ) (r : RevocationResult)
    → extract_verdict none basic subject now ≡ some r
    → IsVerdict basic subject now r
unfolding extract_verdict find_single too_old
extract_verdict-IsVerdict basic subject now r h =
    let norm = normalize_hex_unsigned_int (codes subject.serial_number) in
    elim (Option-cases (find_single norm basic.responses)) [
      | inl e ↦ let bad : none ≡ some r = rw (e, extract_verdict) at h in cc
      | inr (single, e) ↦
          let (listed, same) =
            find-some
              (λ x. text_eq (normalize_hex_unsigned_int (bytes_to_hex x.serial_number)) norm)
              basic.responses e in
          elim (Bool-cases (too_old default_max_response_age_ms now single)) [
            | inl old ↦ let bad : none ≡ some r = rw (e, extract_verdict, old) at h in cc
            | inr fresh ↦
                let made : some (verdict_of now single.cert_status) ≡ some r =
                  rw (e, extract_verdict, fresh) at h in
                record {
                  single = single;
                  is_listed = listed;
                  same_serial = (same_serial_iff _ _).0 same;
                  is_fresh = ground arith;
                  is_read = verdict_of-StatusSays now single.cert_status r cc;
                }
          ]
    ]

module _ (responder : Responder) (lib : Library) (clock : ℕ) where
  -- A verdict is read off a response that is signed for the issuer.
  pub record HasEvidence (subject issuer : Cert) (now : ℕ) (r : RevocationResult) : Type 0 where
    pub basic : BasicOcspResponse
    pub is_signed : IsSigned responder lib clock basic issuer
    pub is_verdict : IsVerdict basic subject now r

  judge-HasEvidence :
      (basic : BasicOcspResponse) (subject issuer : Cert) (now : ℕ) (r : RevocationResult)
      → judge responder lib clock basic subject issuer now ≡ some r
      → HasEvidence subject issuer now r
  unfolding judge
  judge-HasEvidence basic subject issuer now r h =
      elim (Bool-cases (verify_response responder lib clock basic issuer)) [
        | inl e ↦ record {
          basic = basic;
          is_signed = (verify_response_iff responder lib clock basic issuer).0 e;
          is_verdict = extract_verdict-IsVerdict basic subject now r (rw (e, judge) at h);
        }
        | inr e ↦ let bad : none ≡ some r = rw (e, judge) at h in cc
      ]

  keep_verdict-some :
      (v : Option RevocationResult) (before after : Option Entries) {r : RevocationResult}
      → (keep_verdict responder lib clock v before after).0 ≡ some r
      → v ≡ some r
  keep_verdict-some none before after h = cc
  keep_verdict-some (some x) before after h = h

  on_hit-HasEvidence :
      (hit : Bytes) (subject issuer : Cert) (now : ℕ) (r : RevocationResult)
      → on_hit responder lib clock hit subject issuer now ≡ some r
      → HasEvidence subject issuer now r
  unfolding on_hit
  on_hit-HasEvidence hit subject issuer now r h = elim (Option-cases (responder.parse_basic hit)) [
    | inl e ↦ let bad : none ≡ some r = rw (e, on_hit) at h in cc
    | inr (basic, e) ↦ judge-HasEvidence basic subject issuer now r (rw (e, on_hit) at h)
  ]

  after_look_up-HasEvidence :
      (max_entries : ℕ) (key : Text) (subject issuer : Cert) (url : String) (now : ℕ)
      (looked : Option Bytes × Option Entries) (r : RevocationResult)
      → (after_look_up responder lib clock max_entries key subject issuer url now looked).0 ≡ some r
      → HasEvidence subject issuer now r
  unfolding after_look_up on_miss on_hit
  after_look_up-HasEvidence max_entries key subject issuer url now (some hit, cache) r h =
      on_hit-HasEvidence hit subject issuer now r h
  after_look_up-HasEvidence max_entries key subject issuer url now (none, cache) r h =
      elim (Option-cases (fetch responder lib clock subject issuer url)) [
        | inl e ↦ let bad : none ≡ some r = rw (e, after_look_up, on_miss) at h in cc
        | inr (basic, e) ↦ judge-HasEvidence basic subject issuer now r (
            keep_verdict-some _ cache (store responder lib clock max_entries key basic now cache)
              (rw (e, after_look_up, on_miss) at h))
      ]

  -- Every verdict of `checkCached`, whatever the cache holds, is read off a response that the issuer
  -- signed, or a responder that it authorized: it is what the entry for
  -- the number of the certificate says, and this is at most seven days old.
  pub check_cached-HasEvidence :
      (max_entries : ℕ) (subject issuer : Cert) (url : String) (now : ℕ) (cache : Option Entries)
      (r : RevocationResult)
      → (check_cached responder lib clock max_entries subject issuer url now cache).0 ≡ some r
      → HasEvidence subject issuer now r
  unfolding check_cached
  check_cached-HasEvidence max_entries subject issuer url now cache r h =
      elim (Option-cases (compute_issuer_key_hash responder issuer)) [
        | inl e ↦ let bad : none ≡ some r = rw (e, check_cached) at h in cc
        | inr (hash, e) ↦
            let key = cache_key responder lib clock hash subject in
            after_look_up-HasEvidence max_entries key subject issuer url now
              (look_up responder lib clock key cache) r (rw (e, check_cached) at h)
      ]
