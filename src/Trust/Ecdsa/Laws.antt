-- ===== src/Trust/Ecdsa/Laws.antt =====
-- The signature that `ecdsaDerToIeee` writes is that of the DER.
use online_verifier.Prelude.{
  ℕ, zero, suc, ◌+◌, ◌-◌, ◌≤◌, ◌<◌, ◌≡◌, refl, ap, ◌⊎◌, inl, inr, some, List, [], ◌∷◌, ◌++◌, arith,
  ℕ_eq, string_eq, length, drop, take, length-append,
}
use online_verifier.Trust.Cert.{Bytes}
use online_verifier.Trust.Crl.Laws.{bytes_value}
use online_verifier.Trust.Ecdsa.{zeros, place, read_s, read_r, ecdsa_der_to_ieee}

take-append {ℓ} : {A : Type ℓ} (xs ys : List A) → take (length xs) (xs ++ ys) ≡ xs
take-append [] ys = refl
take-append (x ∷ xs) ys = ap (λ t. x ∷ t) (take-append xs ys)

drop-append {ℓ} : {A : Type ℓ} (xs ys : List A) → drop (length xs) (xs ++ ys) ≡ ys
drop-append [] ys = refl
drop-append (x ∷ xs) ys = drop-append xs ys

take_all {ℓ} : {A : Type ℓ} (xs : List A) → take (length xs) xs ≡ xs
take_all [] = refl
take_all (x ∷ xs) = ap (λ t. x ∷ t) (take_all xs)

-- A DER INTEGER that fits: at most `coord` bytes, or one zero byte more.
abbrev pub Fits : ℕ → Bytes → Type 0
Fits coord r = (length r ≤ coord) ⊎ ((rest : Bytes) × (r ≡ 0 ∷ rest) × (length rest ≡ coord))

-- SEQUENCE { INTEGER r, INTEGER s } with lengths of one byte, as DER writes it below 128 bytes.
abbrev pub der_signature : Bytes → Bytes → Bytes
der_signature r s = 48 ∷ (length r + length s + 4) ∷ 2 ∷ length r ∷ r ++ 2 ∷ length s ∷ s

-- Bytes of the full width for the same number.
abbrev pub IsPlaced : ℕ → Bytes → Bytes → Type 0
IsPlaced coord r a = (length a ≡ coord) × (bytes_value 0 a ≡ bytes_value 0 r)

zeros-value : (n : ℕ) (r : Bytes) → bytes_value 0 (zeros n ++ r) ≡ bytes_value 0 r
zeros-value zero r = refl
zeros-value (suc n) r = zeros-value n r

length-zeros : (n : ℕ) → length (zeros n) ≡ n
length-zeros zero = refl
length-zeros (suc n) = omega (arith, length-zeros n)

place-IsPlaced : (coord : ℕ) (r : Bytes) → Fits coord r → IsPlaced coord r (place coord r)
unfolding place
place-IsPlaced coord r (inl small) =
    let none_over : length r - coord ≡ 0 = omega arith in
    let n = coord - length r in
    let len : length (zeros n ++ r) ≡ coord =
      omega (arith, length-append (zeros n) r, length-zeros n) in
    rw none_over (len, zeros-value n r)
place-IsPlaced coord r (inr (rest, e, l)) = rw e (
    let one_over : suc (length rest) - coord ≡ 1 = omega arith in
    let no_zeros : coord - suc (length rest) ≡ 0 = omega arith in rw (one_over, no_zeros) (l, refl))

-- Of the DER of two numbers that fit the width, if the sequence is shorter than 128 bytes inside,
-- `ecdsaDerToIeee` makes two halves of exactly this width, and each half stands for the same number as
-- its INTEGER.
pub ecdsa_der_to_ieee-der_signature :
    (coord : ℕ) (r s : Bytes)
    → Fits coord r
    → Fits coord s
    → length r + length s + 4 < 128
    → (a b : Bytes) × (ecdsa_der_to_ieee (der_signature r s) coord ≡ some (a ++ b))
      × IsPlaced coord r a
      × IsPlaced coord s b
unfolding ecdsa_der_to_ieee read_r read_s
ecdsa_der_to_ieee-der_signature coord r s f g short =
    let rest = 2 ∷ length s ∷ s in
    (
      place coord r,
      place coord s,
      rw (take-append r rest, drop-append r rest, take_all s) refl,
      place-IsPlaced coord r f,
      place-IsPlaced coord s g,
    )
