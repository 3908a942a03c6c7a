-- ===== src/Trust/Crl.antt =====
-- src/trust/CrlFetcher.ts: the lookup of a serial number, staleness, and the cache lifetime. The
-- same `normalizeHexUnsignedInt` and `bytesToHex` stand in src/trust/OcspClient.ts.
pub mod Laws
pub mod Fetch
use online_verifier.Prelude.{
  ℕ, zero, suc, ◌+◌, ◌-◌, ◌*◌, ◌/◌, ◌%◌, max, String, Bool, ◌&&◌, Option, none, some, List, [], ◌∷◌,
  ◌++◌, ltb, leb, nat_eq, if◌then◌else◌, length,
}
use online_verifier.Text.{Text, codes, text_eq}
use online_verifier.Trust.Cert.{Bytes}

-- The value of a hexadecimal digit, if the character is one.
unfoldable pub hex_value : ℕ → Option ℕ
hex_value c =
    if leb b'0' c && leb c b'9'
    then some (c - b'0')
    else if leb b'a' c && leb c b'f'
    then some (c - b'a' + 10)
    else if leb b'A' c && leb c b'F'
    then some (c - b'A' + 10)
    else none

-- `hex.replace(/[^0-9a-fA-F]/g, '')`, as the values of the digits.
unfoldable pub clean_digits : Text → List ℕ
clean_digits [] = []
clean_digits (c ∷ hex) = elim (hex_value c) [
  | none ↦ clean_digits hex
  | some d ↦ d ∷ clean_digits hex
]

-- `BigInt('0x' + clean)`.
unfoldable pub big_int_from : ℕ → List ℕ → ℕ
big_int_from n [] = n
big_int_from n (d ∷ digits) = big_int_from (n * 16 + d) digits

unfoldable pub big_int : List ℕ → ℕ
big_int digits = big_int_from 0 digits

-- The digits 0 to F as characters.
unfoldable pub upper_digit : ℕ → ℕ
upper_digit d = if ltb d 10 then d + b'0' else d - 10 + b'A'

unfoldable pub lower_digit : ℕ → ℕ
lower_digit d = if ltb d 10 then d + b'0' else d - 10 + b'a'

-- `n.toString(16).toUpperCase()`. A number has fewer digits than itself and two.
unfoldable pub hex_digits : ℕ → ℕ → Text
hex_digits zero n = []
hex_digits (suc fuel) n =
    let more = hex_digits fuel (n / 16) ++ upper_digit (n % 16) ∷ [] in
    if ltb n 16 then upper_digit n ∷ [] else more

unfoldable pub normalize_hex_unsigned_int : Text → Text
normalize_hex_unsigned_int hex =
    let clean = clean_digits hex in
    if nat_eq (length clean) 0 then [] else hex_digits (big_int clean + 1) (big_int clean)

-- `byte.toString(16).padStart(2, '0')` for each byte.
unfoldable pub bytes_to_hex : Bytes → Text
bytes_to_hex [] = []
bytes_to_hex (b ∷ bytes) = lower_digit (b / 16) ∷ lower_digit (b % 16) ∷ bytes_to_hex bytes

pub record RevokedCertificate : Type 0 where
  pub user_certificate : Bytes
  pub revocation_date : ℕ

-- Of a parsed CRL, what is read after it is fetched.
pub record ParsedCrl : Type 0 where
  pub next_update : ℕ
  pub revoked_certificates : Option (List RevokedCertificate)
  pub der : Bytes

-- The loop of `isRevoked`: the date of the first entry with the serial, or `none` for good.
unfoldable pub find_revoked : Text → List RevokedCertificate → Option ℕ
find_revoked normalized [] = none
find_revoked normalized (revoked ∷ rest) =
    if text_eq (normalize_hex_unsigned_int (bytes_to_hex revoked.user_certificate)) normalized
    then some revoked.revocation_date
    else find_revoked normalized rest

unfoldable pub is_revoked : ParsedCrl → String → Option ℕ
is_revoked parsed serial_hex = elim parsed.revoked_certificates [
  | none ↦ none
  | some entries ↦ find_revoked (normalize_hex_unsigned_int (codes serial_hex)) entries
]

unfoldable pub is_stale : ParsedCrl → ℕ → Bool
is_stale parsed now = ltb parsed.next_update now

-- The seconds for which a CRL is cached: `Math.max(Math.floor((nextUpdate - now) / 1000), 60)`.
unfoldable pub crl_ttl : ParsedCrl → ℕ → ℕ
crl_ttl parsed now = max ((parsed.next_update - now) / 1000) 60
