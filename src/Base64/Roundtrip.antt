-- ===== src/Base64/Roundtrip.antt =====
-- What the encoder and the decoders do together.
use online_verifier.Prelude.{
  sym, ℕ, zero, suc, ◌+◌, ◌*◌, ◌/◌, ◌%◌, ◌≤◌, ◌<◌, ◌≡◌, refl, ap, ◌∙◌, ◌≢◌, inl, inr, Bool, true,
  false, not, ◌&&◌, Option, none, some, List, [], ◌∷◌, ◌++◌, map, arith, ltb, nat_eq, nat_eq_iff,
  ℕ_eq, string_eq, Bool-cases, Option-cases, &&_iff, length, take, all, All,
}
use online_verifier.Text.{Text, codes, index_of, includes_char}
use online_verifier.Base64.{
  base64_chars, base64url_chars, strip_padding, before, group, lenient_groups, base64_to_bytes,
  base64_url_to_bytes, base64_char, btoa, url_char, bytes_to_base64url,
}

abbrev up_to : ℕ → List ℕ
up_to zero = []
up_to (suc n) = n ∷ up_to n

all-up_to : (p : ℕ → Bool) (n i : ℕ) → all p (up_to n) ≡ true → i < n → p i ≡ true
all-up_to p zero i h small = absurd (omega arith)
all-up_to p (suc n) i h small =
    let (now, rest) = (&&_iff (p n) (all p (up_to n))).0 h in
    elim (Bool-cases (nat_eq i n)) [
      | inl e ↦ rw ((nat_eq_iff i n).0 e) now
      | inr e ↦ all-up_to p n i rest (ground arith)
    ]

abbrev url_sextet : ℕ → ℕ
url_sextet i = url_char (base64_char i)

abbrev is_found : ℕ → Option ℕ → Bool
is_found i none = false
is_found i (some j) = nat_eq j i

is_found-some : (i : ℕ) (o : Option ℕ) → is_found i o ≡ true → o ≡ some i
is_found-some i none h = cc
is_found-some i (some j) h = ap (λ x. some x) ((nat_eq_iff j i).0 h)

abbrev is_url_index : ℕ → Bool
is_url_index i = is_found i (index_of (url_sextet i) (codes base64url_chars))

table : all is_url_index (up_to 64) ≡ true
unfolding index_of url_char base64_char
table = refl

index_of-url_sextet : (i : ℕ) → i < 64 → index_of (url_sextet i) (codes base64url_chars) ≡ some i
index_of-url_sextet i h = is_found-some i _ (all-up_to is_url_index 64 i table h)

abbrev is_plain : ℕ → Bool
is_plain i =
    includes_char (url_sextet i) (codes base64url_chars) && not (nat_eq (url_sextet i) b'=')

plain_table : all is_plain (up_to 64) ≡ true
unfolding includes_char url_char base64_char
plain_table = refl

abbrev no_index : ℕ → Bool
no_index i = elim (index_of (url_sextet i) (codes base64_chars)) [
  | none ↦ not (ltb i 62)
  | some j ↦ ltb i 62 && nat_eq i j
]

standard_table : all no_index (up_to 64) ≡ true
unfolding index_of url_char base64_char
standard_table = refl

-- The sextets that stand for the bytes.
unfoldable sextets : List ℕ → List ℕ
sextets (x ∷ y ∷ z ∷ bytes) =
    x / 4 ∷ (x % 4 * 16 + y / 16) ∷ (y % 16 * 4 + z / 64) ∷ z % 64 ∷ sextets bytes
sextets (x ∷ y ∷ []) = x / 4 ∷ (x % 4 * 16 + y / 16) ∷ (y % 16 * 4) ∷ []
sextets (x ∷ []) = x / 4 ∷ (x % 4 * 16) ∷ []
sextets [] = []

abbrev IsSextets : List ℕ → Type 0
IsSextets = All (λ i. i < 64)

abbrev AreBytes : List ℕ → Type 0
AreBytes = All (λ b. b < 256)

sextets-IsSextets : (bytes : List ℕ) → AreBytes bytes → IsSextets (sextets bytes)
unfolding sextets
sextets-IsSextets [] h = tt
sextets-IsSextets (x ∷ []) (a, _) = (omega arith, (omega arith, tt))
sextets-IsSextets (x ∷ y ∷ []) (a, (b, _)) = (omega arith, (omega arith, (omega arith, tt)))
sextets-IsSextets (x ∷ y ∷ z ∷ bytes) (a, (b, (c, h))) =
    (omega arith, (omega arith, (omega arith, (omega arith, sextets-IsSextets bytes h))))

before-cons : (c : ℕ) (text : Text) → nat_eq c b'=' ≡ false → before c text ≡ c ∷ text
before-cons c [] h = rw h
before-cons c (d ∷ rest) h = refl

url_sextet-plain :
    (i : ℕ)
    → i < 64
    → (includes_char (url_sextet i) (codes base64url_chars) ≡ true)
      × (nat_eq (url_sextet i) b'=' ≡ false)
url_sextet-plain i h =
    let (a, b) =
      (&&_iff (includes_char (url_sextet i) (codes base64url_chars))
          (not (nat_eq (url_sextet i) b'='))).0
        (all-up_to is_plain 64 i plain_table h) in
    (a, ground arith)

-- The characters of a list of sextets.
abbrev text_of : List ℕ → Text
text_of = map url_sextet

strip_padding-text_of : (s : List ℕ) → IsSextets s → strip_padding (text_of s) ≡ text_of s
unfolding strip_padding
strip_padding-text_of [] h = refl
strip_padding-text_of (i ∷ s) (a, h) =
    rw (strip_padding-text_of s h) (before-cons (url_sextet i) (text_of s) (url_sextet-plain i a).1)

put_before : List ℕ → Text → Text
put_before [] text = text
put_before (i ∷ s) text = before (url_sextet i) (put_before s text)

put_before-text_of :
    (s : List ℕ) (text : Text) → IsSextets s → put_before s text ≡ text_of s ++ text
unfolding put_before
put_before-text_of [] text h = refl
put_before-text_of (i ∷ s) text (a, h) =
    rw (put_before-text_of s text h)
      (before-cons (url_sextet i) (text_of s ++ text) (url_sextet-plain i a).1)

-- The text of `btoa`, without its padding.
bytes_to_base64url-text_of :
    (bytes : List ℕ) → AreBytes bytes → bytes_to_base64url bytes ≡ text_of (sextets bytes)
unfolding bytes_to_base64url strip_padding btoa sextets put_before url_char
bytes_to_base64url-text_of [] h = refl
bytes_to_base64url-text_of (x ∷ []) h =
    put_before-text_of (sextets (x ∷ [])) [] (sextets-IsSextets (x ∷ []) h)
bytes_to_base64url-text_of (x ∷ y ∷ []) h =
    put_before-text_of (sextets (x ∷ y ∷ [])) [] (sextets-IsSextets (x ∷ y ∷ []) h)
bytes_to_base64url-text_of (x ∷ y ∷ z ∷ bytes) (a, (b, (c, h))) =
    rw (bytes_to_base64url-text_of bytes h) (
      put_before-text_of (sextets (x ∷ y ∷ z ∷ [])) (text_of (sextets bytes))
        (sextets-IsSextets (x ∷ y ∷ z ∷ []) (a, (b, (c, tt)))))

all-text_of :
    (s : List ℕ)
    → IsSextets s
    → all (λ c. includes_char c (codes base64url_chars)) (text_of s) ≡ true
all-text_of [] h = refl
all-text_of (i ∷ s) (a, h) = rw ((url_sextet-plain i a).0, all-text_of s h)

abbrev url_index : ℕ → Option ℕ
url_index c = index_of c (codes base64url_chars)

decode : List ℕ → List ℕ
decode s = take (length (text_of s) * 3 / 4) (lenient_groups url_index (text_of s))

group_of : ℕ → ℕ → ℕ → ℕ → List ℕ → List ℕ
group_of i j k l rest = (4 * i + j / 16) ∷ (j % 16 * 16 + k / 4) ∷ (k % 4 * 64 + l) ∷ rest

url_index-group :
    (i j k l : ℕ) (rest : List ℕ)
    → IsSextets (i ∷ j ∷ k ∷ l ∷ [])
    → group
        (url_index (url_sextet i))
        (url_index (url_sextet j))
        (url_index (url_sextet k))
        (url_index (url_sextet l))
        rest
      ≡ group_of i j k l rest
unfolding group_of
url_index-group i j k l rest (a, (b, (c, (d, _)))) = rw (
  index_of-url_sextet i a,
  index_of-url_sextet j b,
  index_of-url_sextet k c,
  index_of-url_sextet l d,
)

-- Four characters more are three bytes more.
decode-group :
    (i j k l : ℕ) (s : List ℕ)
    → IsSextets (i ∷ j ∷ k ∷ l ∷ [])
    → decode (i ∷ j ∷ k ∷ l ∷ s) ≡ group_of i j k l (decode s)
unfolding lenient_groups decode group_of
decode-group i j k l s h =
    let n = length (text_of s) in
    let room : suc (suc (suc (suc n))) * 3 / 4 ≡ suc (suc (suc (n * 3 / 4))) = omega arith in
    let read = url_index-group i j k l (lenient_groups url_index (text_of s)) h in
    rw room (ap (take (suc (suc (suc (n * 3 / 4))))) read)

decoded : (bytes : List ℕ) → AreBytes bytes → decode (sextets bytes) ≡ bytes
unfolding lenient_groups sextets decode group_of
decoded [] h = refl
decoded (x ∷ []) (a, _) =
    rw (index_of-url_sextet (x / 4) (omega arith), index_of-url_sextet (x % 4 * 16) (omega arith))
      (ap (λ n. n ∷ []) (omega arith))
decoded (x ∷ y ∷ []) (a, (b, _)) =
    let i = index_of-url_sextet (x / 4) (omega arith) in
    let j = index_of-url_sextet (x % 4 * 16 + y / 16) (omega arith) in
    let k = index_of-url_sextet (y % 16 * 4) (omega arith) in
    let e : 4 * (x / 4) + (x % 4 * 16 + y / 16) / 16 ≡ x = omega arith in
    let f : (x % 4 * 16 + y / 16) % 16 * 16 + y % 16 * 4 / 4 ≡ y = omega arith in rw (i, j, k, e, f)
decoded (x ∷ y ∷ z ∷ bytes) (a, (b, (c, h))) =
    let sound = sextets-IsSextets (x ∷ y ∷ z ∷ []) (a, (b, (c, tt))) in
    let e : 4 * (x / 4) + (x % 4 * 16 + y / 16) / 16 ≡ x = omega arith in
    let f : (x % 4 * 16 + y / 16) % 16 * 16 + (y % 16 * 4 + z / 64) / 4 ≡ y = omega arith in
    let g : (y % 16 * 4 + z / 64) % 4 * 64 + z % 64 ≡ z = omega arith in
    decode-group _ _ _ _ (sextets bytes) sound ∙ rw (decoded bytes h, e, f, g)

-- The decoder of src/verify.ts reads back every list of bytes from what `bytesToBase64url` writes.
pub base64_url_to_bytes-bytes_to_base64url :
    (bytes : List ℕ)
    → All (λ b. b < 256) bytes
    → base64_url_to_bytes (bytes_to_base64url bytes) ≡ some bytes
unfolding base64_url_to_bytes decode
base64_url_to_bytes-bytes_to_base64url bytes h =
    let s = sextets bytes in
    let sound = sextets-IsSextets bytes h in
    rw (bytes_to_base64url-text_of bytes h, strip_padding-text_of s sound, all-text_of s sound)
      (ap (λ x. some x) (decoded bytes h))

-- `base64ToBytes` of the SD-JWT parser, which reads disclosures, is no decoder of base64url: a byte in
-- a third place whose low six bits are 62 or 63, as those of `>`, `?` and `~`, is read as 255.

standard_index : ℕ → Option ℕ
standard_index c = index_of c (codes base64_chars)

none-no_index : (i : ℕ) → no_index i ≡ true → 62 ≤ i → standard_index (url_sextet i) ≡ none
unfolding standard_index
none-no_index i h large = elim (Option-cases (index_of (url_sextet i) (codes base64_chars))) [
  | inl e ↦ e
  | inr (j, e) ↦
      let bad : (ltb i 62 && nat_eq i j) ≡ true = rw (e, no_index) at h in absurd (ground arith)
]

abbrev pub third : List ℕ → ℕ
third (x ∷ y ∷ z ∷ bytes) = z
third _ = 0

-- `base64ToBytes` of the SD-JWT parser, by which it reads disclosures, is no decoder of base64url: of a
-- byte in the third place whose low six bits are 62 or 63, like those of `>`, `?` and `~`, but
-- which is not 255, it makes 255, so what it decodes to is not what was encoded.
pub base64_to_bytes-misreads :
    (x y z : ℕ) (bytes : List ℕ)
    → All (λ b. b < 256) (x ∷ y ∷ z ∷ bytes)
    → 62 ≤ z % 64
    → z < 255
    → (third (base64_to_bytes (bytes_to_base64url (x ∷ y ∷ z ∷ bytes))) ≡ 255)
      × (base64_to_bytes (bytes_to_base64url (x ∷ y ∷ z ∷ bytes)) ≢ x ∷ y ∷ z ∷ bytes)
unfolding base64_to_bytes lenient_groups standard_index sextets
base64_to_bytes-misreads x y z bytes h large small =
    let s = sextets (x ∷ y ∷ z ∷ bytes) in
    let sound = sextets-IsSextets (x ∷ y ∷ z ∷ bytes) h in
    let in_table = all-up_to no_index 64 (z % 64) standard_table (omega arith) in
    let absent = none-no_index (z % 64) in_table large in
    let n = length (text_of (sextets bytes)) in
    let room : suc (suc (suc (suc n))) * 3 / 4 ≡ suc (suc (suc (n * 3 / 4))) = omega arith in
    let read : third (base64_to_bytes (text_of s)) ≡ 255 =
      rw (strip_padding-text_of s sound, room, absent) refl in
    let decoded : third (base64_to_bytes (bytes_to_base64url (x ∷ y ∷ z ∷ bytes))) ≡ 255 =
      ap (λ t. third (base64_to_bytes t)) (bytes_to_base64url-text_of (x ∷ y ∷ z ∷ bytes) h)
      ∙ read in
    (decoded, λ e. let same : 255 ≡ z = sym decoded ∙ ap third e in absurd (omega arith))
