-- ===== src/Trust/Crl/Laws.antt =====
-- Two serial numbers compare equal exactly if they are the same unsigned number, however they are
-- written.
use online_verifier.Prelude.{
  ℕ, zero, suc, ◌+◌, ◌*◌, ◌/◌, ◌%◌, ◌≤◌, ◌<◌, String, ◌≡◌, refl, sym, ap, ◌∙◌, subst, ◌≢◌, ◌↔◌, inl,
  inr, true, false, Option, none, some, List, [], ◌∷◌, ◌++◌, arith, ltb, nat_eq, if◌then◌else◌,
  Bool-cases, Option-cases, ltb→lt, length, All, Any,
}
use online_verifier.Text.{Text, codes, text_eq}
use online_verifier.Text.Laws.{text_eq_iff}
use online_verifier.Trust.Cert.{Bytes}
use online_verifier.Trust.Crl.{
  hex_value, clean_digits, big_int_from, big_int, upper_digit, lower_digit, hex_digits,
  normalize_hex_unsigned_int, bytes_to_hex, RevokedCertificate, ParsedCrl, find_revoked, is_revoked,
}

hex_value-upper_digit : (d : ℕ) → d < 16 → hex_value (upper_digit d) ≡ some d
unfolding hex_value upper_digit
hex_value-upper_digit d h = ground arith

hex_value-lower_digit : (d : ℕ) → d < 16 → hex_value (lower_digit d) ≡ some d
unfolding hex_value lower_digit
hex_value-lower_digit d h = ground arith

big_int_from-append :
    (n : ℕ) (xs : List ℕ) (d : ℕ) → big_int_from n (xs ++ d ∷ []) ≡ big_int_from n xs * 16 + d
unfolding big_int_from
big_int_from-append n [] d = refl
big_int_from-append n (x ∷ xs) d = big_int_from-append (n * 16 + x) xs d

clean_digits-append : (s t : Text) → clean_digits (s ++ t) ≡ clean_digits s ++ clean_digits t
unfolding clean_digits
clean_digits-append [] t = refl
clean_digits-append (c ∷ s) t = elim (Option-cases (hex_value c)) [
  | inl e ↦ rw (e, clean_digits) (clean_digits-append s t)
  | inr (d, e) ↦ rw (e, clean_digits) (ap (λ (r : List ℕ). d ∷ r) (clean_digits-append s t))
]

clean_digits-digit :
    (c d : ℕ) (s : Text) → hex_value c ≡ some d → clean_digits (c ∷ s) ≡ d ∷ clean_digits s
unfolding clean_digits
clean_digits-digit c d s e = rw (e, clean_digits)

clean_digits-nil : clean_digits [] ≡ []
unfolding clean_digits
clean_digits-nil = refl

clean_digits-one : (c d : ℕ) → hex_value c ≡ some d → clean_digits (c ∷ []) ≡ d ∷ []
clean_digits-one c d e = clean_digits-digit c d [] e ∙ ap (λ (r : List ℕ). d ∷ r) clean_digits-nil

big_int-one : (d : ℕ) → big_int (d ∷ []) ≡ d
unfolding big_int big_int_from
big_int-one d = omega arith

big_int-append : (xs : List ℕ) (d : ℕ) → big_int (xs ++ d ∷ []) ≡ big_int xs * 16 + d
unfolding big_int
big_int-append xs d = big_int_from-append 0 xs d

-- A printed number reads back.
big_int-hex_digits : (fuel n : ℕ) → n < fuel → big_int (clean_digits (hex_digits fuel n)) ≡ n
unfolding hex_digits
big_int-hex_digits zero n h = absurd (omega arith)
big_int-hex_digits (suc fuel) n h = elim (Bool-cases (ltb n 16)) [
  | inl e ↦
      let small = ltb→lt n 16 e in
      rw e (ap big_int (clean_digits-one _ n (hex_value-upper_digit n small)) ∙ big_int-one n)
  | inr e ↦
      let big : 16 ≤ n = ground arith in
      let front = hex_digits fuel (n / 16) in
      let last = n % 16 in
      let read = clean_digits-append front (upper_digit last ∷ []) in
      let one =
        clean_digits-one (upper_digit last) last (hex_value-upper_digit last (omega arith)) in
      let ih = big_int-hex_digits fuel (n / 16) (omega arith) in
      rw (e, read, one, big_int-append, ih) (omega arith)
]

-- Without digits `normalizeHexUnsignedInt` gives the empty text, else the number printed.
hex_digits-ne-nil : (fuel n : ℕ) → hex_digits (suc fuel) n ≢ []
unfolding hex_digits
hex_digits-ne-nil fuel n e = elim (Bool-cases (ltb n 16)) [
  | inl small ↦ cc (rw small at e)
  | inr big ↦ no_end (hex_digits fuel (n / 16)) _ (rw big at e)
]
  where
    no_end : (xs : Text) (c : ℕ) → xs ++ c ∷ [] ≡ [] → ⊥
    no_end [] c h = cc
    no_end (x ∷ xs) c h = cc

-- The number that a text stands for, if it has a digit.
abbrev pub serial_value : Text → Option ℕ
serial_value hex =
    let clean = clean_digits hex in if nat_eq (length clean) 0 then none else some (big_int clean)

print : Option ℕ → Text
print none = []
print (some n) = hex_digits (n + 1) n

normalize-print : (hex : Text) → normalize_hex_unsigned_int hex ≡ print (serial_value hex)
unfolding normalize_hex_unsigned_int print
normalize-print hex = ground arith

print_injective : (a b : Option ℕ) → print a ≡ print b → a ≡ b
unfolding print
print_injective none none h = refl
print_injective none (some n) h =
    let step : n + 1 ≡ suc n = omega arith in absurd (hex_digits-ne-nil n n (sym (rw step at h)))
print_injective (some n) none h =
    let step : n + 1 ≡ suc n = omega arith in absurd (hex_digits-ne-nil n n (rw step at h))
print_injective (some n) (some m) h =
    let read = ap (λ s. big_int (clean_digits s)) h in
    ap some (
      sym (big_int-hex_digits (n + 1) n (omega arith))
      ∙ read
      ∙ big_int-hex_digits (m + 1) m (omega arith))

pub same_serial_iff :
    (a b : Text)
    → (text_eq (normalize_hex_unsigned_int a) (normalize_hex_unsigned_int b) ≡ true)
      ↔ (serial_value a ≡ serial_value b)
same_serial_iff a b = (
  λ h.
      print_injective (serial_value a) (serial_value b)
        (sym (normalize-print a) ∙ (text_eq_iff _ _).0 h ∙ normalize-print b),
  λ e. (text_eq_iff _ _).1 (normalize-print a ∙ ap print e ∙ sym (normalize-print b)),
)

-- The number that big-endian bytes stand for.
abbrev pub bytes_value : ℕ → Bytes → ℕ
bytes_value n [] = n
bytes_value n (b ∷ bytes) = bytes_value (n * 256 + b) bytes

big_int_from-two :
    (n b : ℕ) (ds : List ℕ) → big_int_from n (b / 16 ∷ b % 16 ∷ ds) ≡ big_int_from (n * 256 + b) ds
unfolding big_int_from
big_int_from-two n b ds =
    let same : (n * 16 + b / 16) * 16 + b % 16 ≡ n * 256 + b = omega arith in
    ap (λ k. big_int_from k ds) same

abbrev pub IsBytes : Bytes → Type 0
IsBytes bytes = All (λ b. b < 256) bytes

clean_digits-bytes :
    (b : ℕ) (bytes : Bytes)
    → b < 256
    → clean_digits (bytes_to_hex (b ∷ bytes)) ≡ b / 16 ∷ b % 16 ∷ clean_digits (bytes_to_hex bytes)
unfolding bytes_to_hex
clean_digits-bytes b bytes h =
    let rest = bytes_to_hex bytes in
    clean_digits-digit _ (b / 16) (lower_digit (b % 16) ∷ rest)
      (hex_value-lower_digit (b / 16) (omega arith))
    ∙ ap (λ (r : List ℕ). b / 16 ∷ r)
        (clean_digits-digit _ (b % 16) rest (hex_value-lower_digit (b % 16) (omega arith)))

big_int_from-bytes :
    (n : ℕ) (bytes : Bytes)
    → IsBytes bytes
    → big_int_from n (clean_digits (bytes_to_hex bytes)) ≡ bytes_value n bytes
big_int_from-bytes n [] h = unfold clean_digits big_int_from bytes_to_hex in refl
big_int_from-bytes n (b ∷ bytes) (small, h) = rw (clean_digits-bytes b bytes small) (
    big_int_from-two n b (clean_digits (bytes_to_hex bytes))
    ∙ big_int_from-bytes (n * 256 + b) bytes h)

-- Bytes printed in hexadecimal stand for the number that the bytes stand for.
pub serial_value-bytes :
    (bytes : Bytes)
    → IsBytes bytes
    → bytes ≢ []
    → serial_value (bytes_to_hex bytes) ≡ some (bytes_value 0 bytes)
unfolding big_int
serial_value-bytes [] h n = absurd (n refl)
serial_value-bytes (b ∷ bytes) (small, h) n =
    let value = big_int_from-bytes 0 (b ∷ bytes) (small, h) in
    let shape = clean_digits-bytes b bytes small in
    let nonempty : nat_eq (length (clean_digits (bytes_to_hex (b ∷ bytes)))) 0 ≡ false =
      rw shape (ground arith) in
    rw nonempty (ap some value)

find_revoked_iff :
    (hex : Text) (entries : List RevokedCertificate)
    → ((date : ℕ) × (find_revoked (normalize_hex_unsigned_int hex) entries ≡ some date))
      ↔ Any (λ r. serial_value (bytes_to_hex r.user_certificate) ≡ serial_value hex) entries
unfolding find_revoked
find_revoked_iff hex [] = (λ (date, h). cc, λ h. absurd h)
find_revoked_iff hex (r ∷ entries) =
    let same = same_serial_iff (bytes_to_hex r.user_certificate) hex in
    let later = find_revoked_iff hex entries in
    elim (Bool-cases (
      text_eq (normalize_hex_unsigned_int (bytes_to_hex r.user_certificate))
        (normalize_hex_unsigned_int hex))) [
          | inl e ↦ rw e (λ _. inl (same.0 e), λ _. (r.revocation_date, refl))
          | inr e ↦
              rw e
                (λ h. inr (later.0 h), λ h. elim h [ inl s ↦ cc (e, same.1 s) | inr t ↦ later.1 t ])
        ]

abbrev pub HasSerials : List RevokedCertificate → Type 0
HasSerials entries = All (λ r. IsBytes r.user_certificate × (r.user_certificate ≢ [])) entries

serials_as_numbers :
    (n : ℕ) (entries : List RevokedCertificate)
    → HasSerials entries
    → Any (λ r. serial_value (bytes_to_hex r.user_certificate) ≡ some n) entries
      ↔ Any (λ r. bytes_value 0 r.user_certificate ≡ n) entries
serials_as_numbers n [] h = (λ a. a, λ a. a)
serials_as_numbers n (r ∷ entries) ((bytes, nonempty), h) =
    let value = serial_value-bytes r.user_certificate bytes nonempty in
    let later = serials_as_numbers n entries h in
    (
      λ a. elim a [ inl e ↦ inl (cc (e, value)) | inr t ↦ inr (later.0 t) ],
      λ a. elim a [ inl e ↦ inl (value ∙ ap some e) | inr t ↦ inr (later.1 t) ],
    )

-- `isRevoked` reports a serial number, written in hexadecimal with any case, leading zeros and
-- separators, exactly if an entry of the list has the bytes of the same unsigned number.
pub is_revoked_iff :
    (parsed : ParsedCrl) (entries : List RevokedCertificate) (serial : String) (n : ℕ)
    → parsed.revoked_certificates ≡ some entries
    → HasSerials entries
    → serial_value (codes serial) ≡ some n
    → ((date : ℕ) × (is_revoked parsed serial ≡ some date))
      ↔ Any (λ r. bytes_value 0 r.user_certificate ≡ n) entries
unfolding is_revoked
is_revoked_iff parsed entries serial n listed bytes value =
    let found = find_revoked_iff (codes serial) entries in
    let numbers = serials_as_numbers n entries bytes in
    (
      λ (date, h). numbers.0 (
          subst (λ v. Any (λ r. serial_value (bytes_to_hex r.user_certificate) ≡ v) entries) value
            (found.0 (date, rw (listed, is_revoked) at h))),
      λ a.
          let (date, h) = found.1 (
            subst (λ v. Any (λ r. serial_value (bytes_to_hex r.user_certificate) ≡ v) entries)
              (sym value) (numbers.1 a)) in
          (date, rw (listed, is_revoked) h),
    )
