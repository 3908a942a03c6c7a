-- ===== src/Mdoc/Claims.antt =====
-- src/parsers/mdoc.parser.ts: from the decoded namespaces to the bytes of the items, and from those to
-- the claims.
use online_verifier.Prelude.{
  ℕ, String, Bool, false, ◌&&◌, Option, none, some, List, [], ◌∷◌, nat_eq, if◌then◌else◌, ◌==◌,
  ℕ_eq, string_eq, Result, ok, err, ◌>>=◌,
}
use online_verifier.Mdoc.Bytes.{wrap_issuer_signed_item_bytes}
use online_verifier.Mdoc.Cbor.{
  Cbor, bytes, text, array, tag, embedded, Items, no_items, item, Entries, no_entries, entry, get,
}
use online_verifier.Mdoc.Mso.{CredentialError, malformed, exception}
use online_verifier.Mdoc.Digest.{Codec, NameSpaces, as_text, as_table, decode_inner}

unfoldable pub starts_with_tag24 : List ℕ → Bool
starts_with_tag24 (a ∷ b ∷ rest) = nat_eq a 216 && nat_eq b 24
starts_with_tag24 _ = false

unfoldable pub extract_raw_item_bytes : Cbor → Result CredentialError (List ℕ)
unfolding starts_with_tag24
extract_raw_item_bytes (tag n (bytes b)) =
    if nat_eq n 24 then ok (wrap_issuer_signed_item_bytes b) else err malformed
extract_raw_item_bytes (bytes b) =
    if starts_with_tag24 b then ok b else ok (wrap_issuer_signed_item_bytes b)
extract_raw_item_bytes (embedded b) = ok (wrap_issuer_signed_item_bytes b)
extract_raw_item_bytes _ = err malformed

-- `items.map(extractRawItemBytes)`.
unfoldable pub extract_items : Items → Result CredentialError (List (List ℕ))
extract_items no_items = ok []
extract_items (item i items) =
    extract_raw_item_bytes i >>= λ first. extract_items items >>= λ rest. ok (first ∷ rest)

unfoldable pub extract_entry : Cbor → Cbor → Result CredentialError (String × List (List ℕ))
extract_entry (text ns) (array items) = extract_items items >>= λ found. ok (ns, found)
extract_entry _ _ = err malformed

unfoldable pub extract_name_spaces : Entries → Result CredentialError NameSpaces
extract_name_spaces no_entries = ok []
extract_name_spaces (entry k v entries) =
    extract_entry k v >>= λ first. extract_name_spaces entries >>= λ rest. ok (first ∷ rest)

-- A JavaScript object from claim names to values, `none` for undefined.
abbrev pub Claims : Type 0
Claims = List (String × Option Cbor)

-- The assignment of a key; `__proto__` is one like any other here.
unfoldable pub set_claim : String → Option Cbor → Claims → Claims
set_claim id val [] = (id, val) ∷ []
set_claim id val ((k, v) ∷ claims) =
    let rest = set_claim id val claims in if k == id then (k, val) ∷ claims else (k, v) ∷ rest

abbrev pub Buckets : Type 0
Buckets = Claims × Claims

unfoldable pub add_claim : Option String → Option Cbor → Buckets → Buckets
add_claim none val buckets = buckets
add_claim (some id) val (flat, ns_bucket) = (set_claim id val flat, set_claim id val ns_bucket)

module _ (codec : Codec) where
  -- The body of the inner loop. An item that does not decode is skipped; the second call of the decoder
  -- is outside the `try`.
  unfoldable pub map_item : List ℕ → Buckets → Result CredentialError Buckets
  unfolding as_text as_table
  map_item item_bytes buckets = elim (codec.decode item_bytes) [
    | none ↦ ok buckets
    | some decoded ↦ elim (decode_inner codec decoded) [
      | none ↦ err exception
      | some inner ↦ elim (as_table inner) [
        | none ↦ ok buckets
        | some fields ↦ ok (
            add_claim (as_text (get fields "elementIdentifier")) (get fields "elementValue")
              buckets)
      ]
    ]
  ]

  unfoldable pub map_items : List (List ℕ) → Buckets → Result CredentialError Buckets
  map_items [] buckets = ok buckets
  map_items (item_bytes ∷ items) buckets = map_item item_bytes buckets >>= map_items items

  unfoldable pub map_name_spaces :
      NameSpaces → Claims → Result CredentialError (Claims × List (String × Claims))
  map_name_spaces [] flat = ok (flat, [])
  map_name_spaces ((ns, items) ∷ name_spaces) flat =
      map_items items (flat, []) >>= λ (flat', ns_bucket).
      map_name_spaces name_spaces flat' >>= λ (all_flat, namespaced).
      ok (all_flat, (ns, ns_bucket) ∷ namespaced)

  unfoldable pub map_raw_to_claims :
      NameSpaces → Result CredentialError (Claims × List (String × Claims))
  map_raw_to_claims name_spaces = map_name_spaces name_spaces []
