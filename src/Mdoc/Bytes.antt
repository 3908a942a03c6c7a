-- ===== src/Mdoc/Bytes.antt =====
-- src/parsers/mdoc.parser.ts: the tag-24 wrapper of an IssuerSignedItem. A byte is a number below 256;
-- `>> 8 * k & 0xff` is the k-th byte of the number, and `0x40 | n` is a sum, since n is below 24.
pub mod Roundtrip
use online_verifier.Prelude.{ℕ, ◌+◌, ◌/◌, ◌%◌, List, [], ◌∷◌, ◌++◌, ltb, if◌then◌else◌, length}

abbrev pub byte_of : ℕ → ℕ → ℕ
byte_of length scale = length / scale % 256

abbrev pub two_bytes : ℕ → List ℕ
two_bytes n = byte_of n 256 ∷ byte_of n 1 ∷ []

abbrev pub four_bytes : ℕ → List ℕ
four_bytes n = byte_of n 16777216 ∷ byte_of n 65536 ∷ byte_of n 256 ∷ byte_of n 1 ∷ []

unfoldable pub cbor_byte_string_header : ℕ → List ℕ
cbor_byte_string_header len =
    if ltb len 24
    then (64 + len) ∷ []
    else if ltb len 256
    then 88 ∷ len ∷ []
    else if ltb len 65536
    then 89 ∷ two_bytes len
    else if ltb len 4294967296
    then 90 ∷ four_bytes len
    else 91 ∷ four_bytes (len / 4294967296) ++ four_bytes (len % 4294967296)

unfoldable pub wrap_issuer_signed_item_bytes : List ℕ → List ℕ
wrap_issuer_signed_item_bytes inner = 216 ∷ 24 ∷ cbor_byte_string_header (length inner) ++ inner
