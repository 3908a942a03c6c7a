-- ===== src/Base64.antt =====
-- Base64: `base64ToBytes` and `bytesToBase64url` of src/parsers/sd-jwt.parser.ts, `base64UrlToBytes`
-- of src/verify.ts, and the `btoa` of the platform. A byte is a number below 256. `indexOf` is `none`
-- for -1, and a shift or a mask of -1 is written as the number that it leaves in a byte.
pub mod Roundtrip
use online_verifier.Prelude.{
  ℕ, ◌+◌, ◌-◌, ◌*◌, ◌/◌, ◌%◌, String, Option, none, some, List, [], ◌∷◌, map, ltb, nat_eq,
  if◌then◌else◌, ℕ_eq, string_eq, length, take, all,
}
use online_verifier.Text.{Text, codes, index_of, includes_char}

abbrev pub base64_chars : String
base64_chars = "ABCDEFGHIJKLMNOPQRSTUVWXYZabcdefghijklmnopqrstuvwxyz0123456789+/"

abbrev pub base64url_chars : String
base64url_chars = "ABCDEFGHIJKLMNOPQRSTUVWXYZabcdefghijklmnopqrstuvwxyz0123456789-_"

-- `replace(/=+$/, '')`: the `=` at the end are dropped, those before another character stay.
abbrev pub before : ℕ → Text → Text
before c [] = if nat_eq c b'=' then [] else c ∷ []
before c (d ∷ rest) = c ∷ d ∷ rest

unfoldable pub strip_padding : Text → Text
strip_padding [] = []
strip_padding (c ∷ text) = before c (strip_padding text)

-- `(a << 2) | (b >> 4)`, `((b & 0x0f) << 4) | (c >> 2)` and `((c & 0x03) << 6) | d` in a byte.
abbrev pub first_byte : Option ℕ → Option ℕ → ℕ
first_byte _ none = 255
first_byte none (some b) = 252 + b / 16
first_byte (some a) (some b) = 4 * a + b / 16

abbrev pub second_byte : Option ℕ → Option ℕ → ℕ
second_byte _ none = 255
second_byte none (some c) = 240 + c / 4
second_byte (some b) (some c) = b % 16 * 16 + c / 4

abbrev pub third_byte : Option ℕ → Option ℕ → ℕ
third_byte _ none = 255
third_byte none (some d) = 192 + d
third_byte (some c) (some d) = c % 4 * 64 + d

abbrev pub group : Option ℕ → Option ℕ → Option ℕ → Option ℕ → List ℕ → List ℕ
group a b c d rest = first_byte a b ∷ second_byte b c ∷ third_byte c d ∷ rest

-- The loops: four characters a round, and 0 for a character that is missing at the end.
unfoldable pub lenient_groups : (ℕ → Option ℕ) → Text → List ℕ
lenient_groups index (a ∷ b ∷ c ∷ d ∷ text) =
    group (index a) (index b) (index c) (index d) (lenient_groups index text)
lenient_groups index (a ∷ b ∷ c ∷ []) = group (index a) (index b) (index c) (some 0) []
lenient_groups index (a ∷ b ∷ []) = group (index a) (index b) (some 0) (some 0) []
lenient_groups index (a ∷ []) = group (index a) (some 0) (some 0) (some 0) []
lenient_groups index [] = []

-- A byte is written only while there is room in the array.
unfoldable pub base64_to_bytes : Text → List ℕ
base64_to_bytes base64 =
    let cleaned = strip_padding base64 in
    take (length cleaned * 3 / 4) (lenient_groups (λ c. index_of c (codes base64_chars)) cleaned)

-- `if (a === -1 || b === -1 || c === -1 || d === -1) throw …` of each round: every character is one of
-- the alphabet.
unfoldable pub base64_url_to_bytes : Text → Option (List ℕ)
base64_url_to_bytes input =
    let cleaned = strip_padding input in
    if all (λ c. includes_char c (codes base64url_chars)) cleaned
    then some (
        take (length cleaned * 3 / 4)
          (lenient_groups (λ c. index_of c (codes base64url_chars)) cleaned))
    else none

-- The character of a sextet in the alphabet of `btoa`.
unfoldable pub base64_char : ℕ → ℕ
base64_char i =
    if ltb i 26
    then b'A' + i
    else if ltb i 52
    then b'a' + (i - 26)
    else if ltb i 62
    then b'0' + (i - 52)
    else if nat_eq i 62
    then b'+'
    else b'/'

unfoldable pub btoa : List ℕ → Text
btoa (x ∷ y ∷ z ∷ bytes) =
    base64_char (x / 4)
    ∷ base64_char (x % 4 * 16 + y / 16)
    ∷ base64_char (y % 16 * 4 + z / 64)
    ∷ base64_char (z % 64)
    ∷ btoa bytes
btoa (x ∷ y ∷ []) =
    base64_char (x / 4) ∷ base64_char (x % 4 * 16 + y / 16) ∷ base64_char (y % 16 * 4) ∷ b'=' ∷ []
btoa (x ∷ []) = base64_char (x / 4) ∷ base64_char (x % 4 * 16) ∷ b'=' ∷ b'=' ∷ []
btoa [] = []

-- `.replace(/\+/g, '-').replace(/\//g, '_')` on a character.
unfoldable pub url_char : ℕ → ℕ
url_char c = if nat_eq c b'+' then b'-' else if nat_eq c b'/' then b'_' else c

unfoldable pub bytes_to_base64url : List ℕ → Text
bytes_to_base64url bytes = strip_padding (map url_char (btoa bytes))
