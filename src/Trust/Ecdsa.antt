-- ===== src/Trust/Ecdsa.antt =====
-- src/trust/ecdsa-util.ts: `ecdsaDerToIeee`. A byte that is read behind the end is no byte of a
-- signature, so the tests on it fail; the length of s may be missing, and then s is empty.
pub mod Laws
use online_verifier.Prelude.{
  ℕ, zero, suc, ◌+◌, ◌-◌, Option, none, some, [], ◌∷◌, ◌++◌, nat_eq, if◌then◌else◌, length, drop,
  take,
}
use online_verifier.Trust.Cert.{Bytes}

abbrev pub zeros : ℕ → Bytes
zeros zero = []
zeros (suc n) = 0 ∷ zeros n

-- `if (r.length > coordBytes) r = r.slice(r.length - coordBytes)`, and its place in the output.
unfoldable pub place : ℕ → Bytes → Bytes
place coord r = zeros (coord - length r) ++ drop (length r - coord) r

unfoldable pub read_s : ℕ → Bytes → Bytes → Option Bytes
unfolding place
read_s coord r (t ∷ len ∷ rest) =
    if nat_eq t 2 then some (place coord r ++ place coord (take len rest)) else none
read_s coord r (t ∷ []) = if nat_eq t 2 then some (place coord r ++ place coord []) else none
read_s coord r [] = none

unfoldable pub read_r : ℕ → Bytes → Option Bytes
read_r coord (t ∷ len ∷ rest) =
    if nat_eq t 2 then read_s coord (take len rest) (drop len rest) else none
read_r coord _ = none

unfoldable pub ecdsa_der_to_ieee : Bytes → ℕ → Option Bytes
unfolding read_r
ecdsa_der_to_ieee (t ∷ len ∷ rest) coord = if nat_eq t 48 then read_r coord rest else none
ecdsa_der_to_ieee _ coord = none
