-- ===== src/Mdoc/Transcript.antt =====
-- src/crypto/session-transcript.ts: the two SessionTranscripts. The CBOR encoder, SHA-256 and the UTF-8
-- encoder are the interface `Encoders`.
pub mod Binding
use online_verifier.Prelude.{
  ℕ, ◌+◌, String, false, Option, none, some, List, ◌++◌, if◌then◌else◌, ◌==◌, ℕ_eq, string_eq,
}
use online_verifier.Text.{Text, codes}

-- The values that are encoded.
mutual
  pub data Item : Type 0 where
    nil : Item
    text : String → Item
    bytes : List ℕ → Item
    array : Items → Item

  pub data Items : Type 0 where
    end : Items
    item : Item → Items → Items

pub record Encoders : Type 0 where
  pub encode : Item → List ℕ
  pub sha256 : List ℕ → List ℕ
  pub utf8 : Text → List ℕ

-- The members of a JsonWebKey that are read.
pub record Jwk : Type 0 where
  pub kty : Option String
  pub crv : Option String
  pub x : Option String
  pub y : Option String

-- `!member` is false.
unfoldable pub truthy : Option String → Option String
truthy none = none
truthy (some s) = if s == "" then none else some s

abbrev pub two : Item → Item → Item
two a b = array (item a (item b end))

abbrev pub three : Item → Item → Item → Item
three a b c = array (item a (item b (item c end)))

abbrev pub canonical : String → String → String → Text
canonical crv x y =
    codes "{\"crv\":\""
    ++ codes crv
    ++ codes "\",\"kty\":\"EC\",\"x\":\""
    ++ codes x
    ++ codes "\",\"y\":\""
    ++ codes y
    ++ codes "\"}"

abbrev pub members_text : Option String → Option String → Option String → Option Text
members_text (some crv) (some x) (some y) = some (canonical crv x y)
members_text _ _ _ = none

-- What the thumbprint is the hash of; `none` is an exception.
unfoldable pub thumbprint_input : Jwk → Option Text
unfolding truthy
thumbprint_input jwk =
    if (elim jwk.kty [ none ↦ false | some kty ↦ kty == "EC" ])
    then members_text (truthy jwk.crv) (truthy jwk.x) (truthy jwk.y)
    else none

module _ (encoders : Encoders) where
  abbrev pub hash_of : Item → List ℕ
  hash_of i = encoders.sha256 (encoders.encode i)

  unfoldable pub build_oid4vp_session_transcript : String → String → String → String → List ℕ
  build_oid4vp_session_transcript client_id response_uri nonce mdoc_generated_nonce =
      let client_id_hash = hash_of (two (text client_id) (text mdoc_generated_nonce)) in
      let response_uri_hash = hash_of (two (text response_uri) (text mdoc_generated_nonce)) in
      encoders.encode
        (three nil nil (three (bytes client_id_hash) (bytes response_uri_hash) (text nonce)))

  unfoldable pub jwk_sha256_thumbprint : Jwk → Option (List ℕ)
  jwk_sha256_thumbprint jwk = elim (thumbprint_input jwk) [
    | none ↦ none
    | some input ↦ some (encoders.sha256 (encoders.utf8 input))
  ]

  abbrev pub handover_info : String → String → Item → String → Item
  handover_info client_id nonce thumb response_uri =
      array (item (text client_id) (item (text nonce) (item thumb (item (text response_uri) end))))

  unfoldable pub handover_transcript : String → String → Item → String → List ℕ
  handover_transcript client_id nonce thumb response_uri =
      let info_hash = hash_of (handover_info client_id nonce thumb response_uri) in
      encoders.encode (three nil nil (two (text "OpenID4VPHandover") (bytes info_hash)))

  unfoldable pub build_openid4vp_handover_session_transcript :
      String → String → String → Option Jwk → Option (List ℕ)
  build_openid4vp_handover_session_transcript client_id nonce response_uri none =
      some (handover_transcript client_id nonce nil response_uri)
  build_openid4vp_handover_session_transcript client_id nonce response_uri (some jwk) =
      elim (jwk_sha256_thumbprint jwk) [
        | none ↦ none
        | some thumb ↦ some (handover_transcript client_id nonce (bytes thumb) response_uri)
      ]
