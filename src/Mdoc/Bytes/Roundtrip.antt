-- ===== src/Mdoc/Bytes/Roundtrip.antt =====
-- A reader of CBOR byte strings under tag 24, as RFC 8949 describes them, and the round trip of the
-- wrapper through it.
use online_verifier.Prelude.{
  ℕ, ◌+◌, ◌-◌, ◌*◌, ◌/◌, ◌%◌, ◌<◌, ◌≡◌, refl, ap, ◌∙◌, inl, inr, true, false, ◌&&◌, Option, none,
  some, List, [], ◌∷◌, ◌++◌, arith, ltb, nat_eq, if◌then◌else◌, ◌==◌, ℕ_eq, string_eq, Bool-cases,
  ltb→lt, length, drop, take,
}
use online_verifier.Mdoc.Bytes.{
  two_bytes, four_bytes, cbor_byte_string_header, wrap_issuer_signed_item_bytes,
}

abbrev value : List ℕ → ℕ → ℕ
value [] sum = sum
value (b ∷ bytes) sum = value bytes (sum * 256 + b)

-- The head of a byte string: its length and the bytes behind it.
unfoldable pub read_head : List ℕ → Option (ℕ × List ℕ)
read_head [] = none
read_head (b ∷ bytes) =
    if ltb b 64
    then none
    else if ltb b 88
    then some (b - 64, bytes)
    else if b == 88
    then some (value (take 1 bytes) 0, drop 1 bytes)
    else if b == 89
    then some (value (take 2 bytes) 0, drop 2 bytes)
    else if b == 90
    then some (value (take 4 bytes) 0, drop 4 bytes)
    else if b == 91
    then some (value (take 8 bytes) 0, drop 8 bytes)
    else none

-- The bytes of a whole byte string: as many as its head says, and no more.
unfoldable pub read_string : List ℕ → Option (List ℕ)
read_string bytes = elim (read_head bytes) [
  | none ↦ none
  | some (len, rest) ↦ if nat_eq (length rest) len then some rest else none
]

unfoldable pub read_tag24 : List ℕ → Option (List ℕ)
read_tag24 (a ∷ b ∷ bytes) = if nat_eq a 216 && nat_eq b 24 then read_string bytes else none
read_tag24 _ = none

short_head : (len : ℕ) (rest : List ℕ) → len < 24 → read_head ((64 + len) ∷ rest) ≡ some (len, rest)
unfolding read_head
short_head len rest h =
    let above : ltb (64 + len) 64 ≡ false = ground arith in
    let below : ltb (64 + len) 88 ≡ true = ground arith in
    rw (above, below) (ap (λ n. some (n, rest)) (omega arith))

two_value : (n : ℕ) → n < 65536 → value (two_bytes n) 0 ≡ n
two_value n h = omega arith

four_value : (n sum : ℕ) → n < 4294967296 → value (four_bytes n) sum ≡ sum * 4294967296 + n
four_value n sum h = omega arith

eight_value :
    (n : ℕ)
    → n < 18446744073709551616
    → value (four_bytes (n / 4294967296) ++ four_bytes (n % 4294967296)) 0 ≡ n
eight_value n h =
    let hi : n / 4294967296 < 4294967296 = omega arith in
    let lo : n % 4294967296 < 4294967296 = omega arith in
    let first = four_value (n / 4294967296) 0 hi in
    let second = four_value (n % 4294967296) (value (four_bytes (n / 4294967296)) 0) lo in
    second ∙ (ap (λ m. m * 4294967296 + n % 4294967296) first ∙ omega arith)

read_head-cbor_byte_string_header :
    (len : ℕ) (rest : List ℕ)
    → len < 18446744073709551616
    → read_head (cbor_byte_string_header len ++ rest) ≡ some (len, rest)
unfolding read_head cbor_byte_string_header
read_head-cbor_byte_string_header len rest h = elim (Bool-cases (ltb len 24)) [
  | inl e ↦ rw e (short_head len rest ((ltb→lt len 24 e)))
  | inr e ↦ elim (Bool-cases (ltb len 256)) [
    | inl f ↦ rw (e, f) (ap (λ n. some (n, rest)) (omega arith))
    | inr f ↦ elim (Bool-cases (ltb len 65536)) [
      | inl g ↦
          let small = ltb→lt len 65536 g in
          rw (e, f, g) (ap (λ n. some (n, rest)) (two_value len small))
      | inr g ↦ elim (Bool-cases (ltb len 4294967296)) [
        | inl k ↦
            let small = ltb→lt len 4294967296 k in
            rw (e, f, g, k) (ap (λ n. some (n, rest)) (four_value len 0 small ∙ omega arith))
        | inr k ↦ rw (e, f, g, k) (ap (λ n. some (n, rest)) (eight_value len h))
      ]
    ]
  ]
]

read_string-header :
    (bytes inner : List ℕ)
    → read_head bytes ≡ some (length inner, inner)
    → read_string bytes ≡ some inner
unfolding read_string
read_string-header bytes inner h =
    let same : nat_eq (length inner) (length inner) ≡ true = ground arith in
    rw (h, read_string) (rw same refl)

-- Reading back what the wrapper writes gives the same bytes, for every item below 2 ^ 64 bytes: the
-- header says the length of the item, in each of its five sizes.
pub read_tag24-wrap_issuer_signed_item_bytes :
    (inner : List ℕ)
    → length inner < 18446744073709551616
    → read_tag24 (wrap_issuer_signed_item_bytes inner) ≡ some inner
unfolding read_tag24 wrap_issuer_signed_item_bytes
read_tag24-wrap_issuer_signed_item_bytes inner h =
    read_string-header (cbor_byte_string_header (length inner) ++ inner) inner
      (read_head-cbor_byte_string_header (length inner) inner h)
