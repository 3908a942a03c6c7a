-- ===== src/Mdoc/Cbor.antt =====
-- What `cbor-x` decodes to, as src/parsers/mdoc.parser.ts and src/crypto/digest.ts read it.
use online_verifier.Prelude.{
  ℕ, String, Bool, false, Option, none, some, List, [], ◌∷◌, nat_eq, if◌then◌else◌, Eq, ◌==◌, ℕ_eq,
  string_eq,
}

-- `embedded` is an object that is neither a tag, a map nor bytes and whose `value` is bytes;
-- `negative n` is the integer -1 - n, and `other` is any other value.
mutual
  pub data Cbor : Type 0 where
    bytes : List ℕ → Cbor
    text : String → Cbor
    number : ℕ → Cbor
    negative : ℕ → Cbor
    array : Items → Cbor
    table : Entries → Cbor
    tag : ℕ → Cbor → Cbor
    embedded : List ℕ → Cbor
    other : Cbor

  pub data Items : Type 0 where
    no_items : Items
    item : Cbor → Items → Items

  -- A Map, in the order of its entries.
  pub data Entries : Type 0 where
    no_entries : Entries
    entry : Cbor → Cbor → Entries → Entries

abbrev pub is_key : Cbor → String → Bool
is_key (text s) key = s == key
is_key _ key = false

unfoldable pub get : Entries → String → Option Cbor
get no_entries key = none
get (entry k v entries) key = if is_key k key then some v else get entries key

-- The bytes inside a tag 24, or inside what stands for one.
unfoldable pub inner_bytes : Cbor → Option (List ℕ)
inner_bytes (tag n (bytes b)) = if nat_eq n 24 then some b else none
inner_bytes (embedded b) = some b
inner_bytes _ = none

-- `lookup` in a Map that has been copied out of the decoded one.
unfoldable pub lookup {ℓ} : {K : Type 0} {A : Type ℓ} ⦃e : Eq K⦄ → K → List (K × A) → Option A
lookup key [] = none
lookup key ((k, a) ∷ entries) = if k == key then some a else lookup key entries
