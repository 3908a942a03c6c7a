-- ===== src/Mdoc/Cose.antt =====
-- src/crypto/cose-sign1.ts and src/crypto/device-auth.ts. The CBOR codec and the platform's keys and
-- signatures are the interface `Crypto`; `none` is an exception.
pub mod Laws
use online_verifier.Prelude.{
  ℕ, ◌+◌, ◌-◌, String, Bool, false, Option, none, some, List, [], ◌∷◌, ◌++◌, nat_eq, if◌then◌else◌,
  ◌==◌, ℕ_eq, string_eq, includes, Result, ok, err, ◌>>=◌, ◌>>◌, guard,
}
use online_verifier.Mdoc.Cbor.{
  Cbor, bytes, text, number, negative, array, table, tag, embedded, Items, no_items, item, Entries,
  no_entries, entry, get,
}
use online_verifier.Mdoc.Mso.{CredentialError, malformed, exception}
use online_verifier.Base64.{bytes_to_base64url}
use online_verifier.Text.{Text}

-- `import_ec` imports a JWK of the curve with the coordinates, `verify` checks an ECDSA signature by the
-- hash, the key, the signature and the input.
pub record Crypto : Type 0 where
  pub decode : List ℕ → Option Cbor
  pub encode : Cbor → List ℕ
  pub import_ec : String → Text → Text → Option (List ℕ)
  pub verify : String → List ℕ → List ℕ → List ℕ → Option Bool

-- CoseSign1, the fields that are read later.
pub record CoseSign1 : Type 0 where
  pub protected_header_bytes : List ℕ
  pub payload : List ℕ
  pub signature : List ℕ
  pub x5chain : List (List ℕ)
  pub alg : String

unfoldable pub same_label : Cbor → Cbor → Bool
same_label (number a) (number b) = nat_eq a b
same_label (negative a) (negative b) = nat_eq a b
same_label _ _ = false

-- `map.get(label)` of an integer.
unfoldable pub get_label : Entries → Cbor → Option Cbor
get_label no_entries label = none
get_label (entry k v entries) label = if same_label k label then some v else get_label entries label

abbrev pub header_alg : Cbor
header_alg = number 1

abbrev pub header_x5chain : Cbor
header_x5chain = number 33

-- COSE_ALG_TO_NAME: -7, -35 and -36.
unfoldable pub cose_alg_name : Option Cbor → Option String
cose_alg_name (some (negative n)) =
    if nat_eq n 6
    then some "ES256"
    else if nat_eq n 34
    then some "ES384"
    else if nat_eq n 35
    then some "ES512"
    else none
cose_alg_name _ = none

-- ALG_TO_HASH.
unfoldable pub hash_name : String → Option String
hash_name alg =
    if alg == "ES256"
    then some "SHA-256"
    else if alg == "ES384"
    then some "SHA-384"
    else if alg == "ES512"
    then some "SHA-512"
    else none

abbrev pub required {ℓ} : {A : Type ℓ} → CredentialError → Option A → Result CredentialError A
required e none = err e
required e (some a) = ok a

abbrev pub must_be_bytes : Option Cbor → Result CredentialError (List ℕ)
must_be_bytes (some (bytes b)) = ok b
must_be_bytes _ = err malformed

abbrev pub must_be_map : Option Cbor → Result CredentialError Entries
must_be_map (some (table entries)) = ok entries
must_be_map _ = err malformed

-- An array of four: the protected and the unprotected header, the payload and the signature.
pub record Four : Type 0 where
  pub first : Cbor
  pub second : Cbor
  pub third : Cbor
  pub fourth : Cbor

unfoldable pub must_be_four : Option Cbor → Result CredentialError Four
must_be_four (some (array (item a (item b (item c (item d no_items)))))) =
    ok (record { first = a; second = b; third = c; fourth = d })
must_be_four _ = err malformed

unfoldable pub payload_of : Cbor → Result CredentialError (List ℕ)
payload_of (bytes b) = ok b
payload_of (tag n (bytes b)) = if nat_eq n 24 then ok b else err malformed
payload_of _ = err malformed

unfoldable pub all_bytes : Items → Result CredentialError (List (List ℕ))
all_bytes no_items = ok []
all_bytes (item (bytes b) items) = all_bytes items >>= λ rest. ok (b ∷ rest)
all_bytes (item _ items) = err malformed

unfoldable pub x5chain_of : Option Cbor → Result CredentialError (List (List ℕ))
unfolding all_bytes
x5chain_of (some (bytes b)) = ok (b ∷ [])
x5chain_of (some (array items)) = all_bytes items
x5chain_of _ = err malformed

-- `extractTag24Inner`.
unfoldable pub extract_tag24_inner : Option Cbor → Result CredentialError (List ℕ)
extract_tag24_inner (some (bytes b)) = ok b
extract_tag24_inner (some (tag n (bytes b))) = if nat_eq n 24 then ok b else err malformed
extract_tag24_inner (some (embedded b)) = ok b
extract_tag24_inner _ = err malformed

abbrev pub curve_name : Option Cbor → Option String
curve_name (some (number n)) =
    if nat_eq n 1
    then some "P-256"
    else if nat_eq n 2
    then some "P-384"
    else if nat_eq n 3
    then some "P-521"
    else none
curve_name _ = none

abbrev pub is_ec2 : Option Cbor → Bool
is_ec2 (some (number n)) = nat_eq n 2
is_ec2 _ = false

module _ (crypto : Crypto) where
  -- The value inside a tag 18, decoded again if it is bytes.
  unfoldable pub untag : Cbor → Result CredentialError Cbor
  untag (tag n (bytes b)) =
      if nat_eq n 18 then required exception (crypto.decode b) else ok (tag n (bytes b))
  untag (tag n value) = if nat_eq n 18 then ok value else ok (tag n value)
  untag outer = ok outer

  unfoldable pub decode_cose_sign1 : List ℕ → Result CredentialError CoseSign1
  decode_cose_sign1 b = required exception (crypto.decode b) >>= λ decoded.
      untag decoded >>= λ outer. must_be_four (some outer) >>= λ parts.
      must_be_bytes (some parts.first) >>= λ protected_header_bytes.
      must_be_map (some parts.second) >>= λ unprotected_header.
      must_be_bytes (some parts.fourth) >>= λ signature.
      must_be_map (crypto.decode protected_header_bytes) >>= λ protected_header.
      required malformed (cose_alg_name (get_label protected_header header_alg)) >>= λ alg.
      payload_of parts.third >>= λ payload.
      x5chain_of (get_label unprotected_header header_x5chain) >>= λ x5chain. ok (record {
        protected_header_bytes = protected_header_bytes;
        payload = payload;
        signature = signature;
        x5chain = x5chain;
        alg = alg;
      })

  -- Sig_structure: the context, the protected header, no external data, and the payload.
  unfoldable pub sig_structure : List ℕ → List ℕ → List ℕ
  sig_structure protected_bytes payload = crypto.encode (
      array (
        item (text "Signature1")
          (item (bytes protected_bytes) (item (bytes []) (item (bytes payload) no_items)))))

  abbrev pub must_verify : Option Bool → Result CredentialError (Unit {0})
  must_verify none = err exception
  must_verify (some passed) = guard passed malformed

  unfoldable pub verify_cose_sign1 :
      CoseSign1 → List ℕ → List String → Result CredentialError (Unit {0})
  verify_cose_sign1 cose public_key allowed = guard (includes allowed cose.alg) malformed >>= λ _.
      required malformed (hash_name cose.alg) >>= λ hash. must_verify (
        crypto.verify hash public_key cose.signature
          (sig_structure cose.protected_header_bytes cose.payload))

  abbrev pub encode_tag24 : List ℕ → List ℕ
  encode_tag24 inner = 216 ∷ 24 ∷ crypto.encode (bytes inner)

  unfoldable pub build_device_authentication_bytes : List ℕ → String → List ℕ → List ℕ
  build_device_authentication_bytes session_transcript doc_type device_name_spaces_inner =
      encode_tag24 (
        132 ∷ crypto.encode (text "DeviceAuthentication")
        ++ session_transcript
        ++ crypto.encode (text doc_type)
        ++ encode_tag24 device_name_spaces_inner)

  unfoldable pub import_device_key_from_cose : Option Cbor → Result CredentialError (List ℕ)
  import_device_key_from_cose cose_key = must_be_map cose_key >>= λ key.
      guard (is_ec2 (get_label key (number 1))) malformed >>= λ _.
      required malformed (curve_name (get_label key (negative 0))) >>= λ crv.
      must_be_bytes (get_label key (negative 1)) >>= λ x.
      must_be_bytes (get_label key (negative 2)) >>= λ y.
      required exception (crypto.import_ec crv (bytes_to_base64url x) (bytes_to_base64url y))

  -- The algorithm of a protected header that decodes, if it is one of the allowed.
  abbrev pub allowed_alg : List String → Option String → Result CredentialError String
  allowed_alg allowed none = err malformed
  allowed_alg allowed (some alg) = if includes allowed alg then ok alg else err malformed

  abbrev pub label_of : Cbor → Option Cbor
  label_of (table entries) = get_label entries header_alg
  label_of _ = none

  -- A DeviceMac alone fails as well, since there is no `deviceSignature` then. The COSE_Key is given as
  -- it is encoded.
  unfoldable pub verify_device_auth :
      Entries → List ℕ → String → List ℕ → List String → Result CredentialError (Unit {0})
  verify_device_auth device_signed device_key_cose doc_type session_transcript allowed =
      must_be_map (get device_signed "deviceAuth") >>= λ device_auth.
      must_be_four (get device_auth "deviceSignature") >>= λ device_signature.
      must_be_bytes (some device_signature.first) >>= λ protected_bytes.
      must_be_bytes (some device_signature.fourth) >>= λ signature.
      required malformed (crypto.decode protected_bytes) >>= λ header.
      allowed_alg allowed (cose_alg_name (label_of header)) >>= λ alg.
      extract_tag24_inner (get device_signed "nameSpaces") >>= λ inner.
      import_device_key_from_cose (crypto.decode device_key_cose) >>= λ device_key.
      required exception (hash_name alg) >>= λ hash. must_verify (
        crypto.verify hash device_key signature (
          sig_structure protected_bytes
            (build_device_authentication_bytes session_transcript doc_type inner)))
