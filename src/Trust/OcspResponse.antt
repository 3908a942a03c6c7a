-- ===== src/Trust/OcspResponse.antt =====
-- src/trust/OcspClient.ts: what an OCSP response says, and for how long it is cached. Third-party code
-- and the platform are the interface `Responder`. `bytesToHex` and `normalizeHexUnsignedInt` stand in Trust.Crl.
use online_verifier.Prelude.{
  ℕ, ◌+◌, ◌-◌, ◌*◌, ◌/◌, ◌%◌, min, max, String, Bool, Option, none, some, List, [], ◌∷◌, ltb,
  nat_eq, if◌then◌else◌, ℕ_eq, string_eq, length, find,
}
use online_verifier.Text.{Text, codes, text_eq}
use online_verifier.Trust.Cert.{Bytes, Cert}
use online_verifier.Trust.Crl.{clean_digits, normalize_hex_unsigned_int, bytes_to_hex}
use online_verifier.Trust.Chain.{or_else}
use online_verifier.Trust.Revocation.{good, revoked, unknown, ocsp, RevocationResult, result}
use online_verifier.Trust.Evaluator.{pair_digits}

-- The CHOICE of CertStatus. With none of the three set, the code answers as for `unknown`.
pub data CertStatus : Type 0 where
  is_good : CertStatus
  is_revoked : ℕ → Option String → CertStatus
  is_unknown : CertStatus

pub record SingleResponse : Type 0 where
  pub serial_number : Bytes
  pub this_update : ℕ
  pub next_update : Option ℕ
  pub cert_status : CertStatus

-- A certificate that a response embeds, with the usages of its ExtendedKeyUsage extension.
pub record ResponderCert : Type 0 where
  pub certificate : Cert
  pub usages : Option (List String)

-- BasicOCSPResponse. `tbs_der` is the DER that is signed; `certs` is `none` where one of the embedded
-- certificates is no certificate to the library.
pub record BasicOcspResponse : Type 0 where
  pub tbs_der : Bytes
  pub responses : List SingleResponse
  pub certs : Option (List ResponderCert)
  pub signature : Bytes

pub record HttpResponse : Type 0 where
  pub ok : Bool
  pub body : Bytes

-- OCSPResponse: its status, and the type and the bytes of its response.
pub record OcspResponse : Type 0 where
  pub response_status : ℕ
  pub response_bytes : Option (String × Bytes)

pub record CertId : Type 0 where
  pub hash_algorithm : String
  pub issuer_name_hash : Bytes
  pub issuer_key_hash : Bytes
  pub serial_number : Bytes

-- `verify_p256` imports the SPKI as a P-256 key and checks an IEEE P1363 signature; `issuer_name` is the
-- DER of the subject, `subject_public_key` the BIT STRING of the SPKI, and `serialize_basic` and
-- `parse_basic` the DER of a BasicOCSPResponse.
pub record Responder : Type 0 where
  pub post : String → Bytes → Option HttpResponse
  pub parse_response : Bytes → Option OcspResponse
  pub parse_basic : Bytes → Option BasicOcspResponse
  pub serialize_basic : BasicOcspResponse → Bytes
  pub serialize_request : CertId → Bytes
  pub sha1 : Bytes → Bytes
  pub issuer_name : Cert → Bytes
  pub subject_public_key : Bytes → Option Bytes
  pub verify_p256 : Bytes → Bytes → Bytes → Option Bool

abbrev pub default_max_response_age_ms : ℕ
default_max_response_age_ms = 7 * 24 * 3600 * 1000

-- `hexToBigIntBytes`: an odd number of digits gets a leading 0.
unfoldable pub hex_to_big_int_bytes : Text → Bytes
hex_to_big_int_bytes hex =
    let clean = clean_digits hex in
    pair_digits (if nat_eq (length clean % 2) 0 then clean else 0 ∷ clean)

unfoldable pub find_single : Text → List SingleResponse → Option SingleResponse
find_single subject_serial_norm responses =
    find
      (λ r. text_eq (normalize_hex_unsigned_int (bytes_to_hex r.serial_number)) subject_serial_norm)
      responses

unfoldable pub verdict_of : ℕ → CertStatus → RevocationResult
verdict_of now is_good = result good ocsp now
verdict_of now (is_revoked time reason) = record {
  status = revoked;
  source = ocsp;
  revoked_at = some time;
  revocation_reason = reason;
  checked_at = now;
}
verdict_of now is_unknown = result unknown ocsp now

-- `now - thisUpdate > maxAge`.
unfoldable pub too_old : ℕ → ℕ → SingleResponse → Bool
too_old max_age now single = ltb (single.this_update + max_age) now

unfoldable pub extract_verdict : Option ℕ → BasicOcspResponse → Cert → ℕ → Option RevocationResult
unfolding too_old verdict_of
extract_verdict max_response_age_ms basic subject_cert now =
    let max_age = or_else max_response_age_ms default_max_response_age_ms in
    elim (find_single (normalize_hex_unsigned_int (codes subject_cert.serial_number))
      basic.responses) [
        | none ↦ none
        | some single ↦
            if too_old max_age now single then none else some (verdict_of now single.cert_status)
      ]

-- The seconds for which a response is cached, by the `nextUpdate` of its first entry.
unfoldable pub ttl_seconds : List SingleResponse → ℕ → ℕ
ttl_seconds [] now = 3600
ttl_seconds (single ∷ _) now = elim single.next_update [
  | none ↦ 3600
  | some next_update ↦ max (min ((next_update - now) / 1000) 3600) 60
]
