-- ===== src/Mdoc/Digest.antt =====
-- src/crypto/digest.ts: the digests of the items of an mdoc. `decode` is the decoder of `cbor-x`,
-- `none` where it throws, and `digest` is `crypto.subtle.digest`.
pub mod Laws
use online_verifier.Prelude.{
  ℕ, ◌+◌, ◌-◌, String, Bool, not, Option, none, some, List, [], ◌∷◌, ◌++◌, ℕ_eq, string_eq, any,
  includes, Result, ok, err, ◌>>=◌, ◌>>◌, guard,
}
use online_verifier.Trust.Cert.{bytes_equal}
use online_verifier.Mdoc.Cbor.{Cbor, text, number, table, Entries, get, inner_bytes, lookup}
use online_verifier.Mdoc.Mso.{CredentialError, malformed, MobileSecurityObject, exception}

pub record Codec : Type 0 where
  pub decode : List ℕ → Option Cbor
  pub digest : String → List ℕ → List ℕ

-- The digests are kept as bytes; an identifier that is `none` is printed `unknown(…)`.
pub record DigestLogEntry : Type 0 where
  pub namespace : String
  pub element_identifier : Option String
  pub digest_id : ℕ
  pub expected_digest : List ℕ
  pub computed_digest : List ℕ
  pub matches : Bool

-- The namespaces with the bytes of their items.
abbrev pub NameSpaces : Type 0
NameSpaces = List (String × List (List ℕ))

-- `throw new MalformedCredentialError` where a value is missing.
abbrev pub required {ℓ} : {A : Type ℓ} → Option A → Result CredentialError A
required none = err malformed
required (some a) = ok a

-- A call of the decoder outside any `try`.
abbrev pub or_throw {ℓ} : {A : Type ℓ} → Option A → Result CredentialError A
or_throw none = err exception
or_throw (some a) = ok a

unfoldable pub as_table : Cbor → Option Entries
as_table (table entries) = some entries
as_table _ = none

-- A digestID is a natural number; no object has a digest under another one here.
unfoldable pub as_number : Option Cbor → Option ℕ
as_number (some (number n)) = some n
as_number _ = none

unfoldable pub as_text : Option Cbor → Option String
as_text (some (text s)) = some s
as_text _ = none

module _ (codec : Codec) where
  unfoldable pub compute_item_digest : List ℕ → String → Result CredentialError (List ℕ)
  compute_item_digest item_bytes algorithm = do
    guard (includes ("SHA-256" ∷ "SHA-384" ∷ "SHA-512" ∷ []) algorithm) malformed
    ok (codec.digest algorithm item_bytes)

  -- A tag 24 around a Map, or a Map: the decoder's inner call may throw as well.
  unfoldable pub decode_inner : Cbor → Option Cbor
  decode_inner decoded = elim (inner_bytes decoded) [
    | some inner ↦ codec.decode inner
    | none ↦ some decoded
  ]

  unfoldable pub unwrap_item_map : List ℕ → Result CredentialError Entries
  unfolding decode_inner as_table
  unwrap_item_map item_bytes = required (codec.decode item_bytes) >>= λ decoded.
      or_throw (decode_inner decoded) >>= λ inner. required (as_table inner)

  -- The body of the inner loop: one item to one entry of the log.
  unfoldable pub log_entry :
      MobileSecurityObject
      → String
      → List (ℕ × List ℕ)
      → List ℕ
      → Result CredentialError DigestLogEntry
  log_entry mso ns expected item_bytes =
      compute_item_digest item_bytes mso.digest_algorithm >>= λ hash.
      unwrap_item_map item_bytes >>= λ item.
      required (as_number (get item "digestID")) >>= λ digest_id.
      required (lookup digest_id expected) >>= λ expected_digest. ok (record {
        namespace = ns;
        element_identifier = as_text (get item "elementIdentifier");
        digest_id = digest_id;
        expected_digest = expected_digest;
        computed_digest = hash;
        matches = bytes_equal hash expected_digest;
      })

  unfoldable pub log_items :
      MobileSecurityObject
      → String
      → List (ℕ × List ℕ)
      → List (List ℕ)
      → Result CredentialError (List DigestLogEntry)
  log_items mso ns expected [] = ok []
  log_items mso ns expected (item_bytes ∷ items) = log_entry mso ns expected item_bytes >>= λ first.
      log_items mso ns expected items >>= λ rest. ok (first ∷ rest)

  unfoldable pub build_digest_log :
      NameSpaces → MobileSecurityObject → Result CredentialError (List DigestLogEntry)
  build_digest_log [] mso = ok []
  build_digest_log ((ns, items) ∷ name_spaces) mso =
      required (lookup ns mso.value_digests) >>= λ expected.
      log_items mso ns expected items >>= λ first.
      build_digest_log name_spaces mso >>= λ rest. ok (first ++ rest)

  -- `verifyAllDigests` throws the log with a mismatch: the second part of the answer says if it did.
  unfoldable pub verify_all_digests :
      NameSpaces → MobileSecurityObject → Result CredentialError (List DigestLogEntry × Bool)
  verify_all_digests name_spaces mso =
      build_digest_log name_spaces mso >>= λ log. ok (log, any (λ e. not e.matches) log)
