-- ===== src/Mdoc/Transcript/Binding.antt =====
-- What a SessionTranscript binds, up to a collision of the hash.
use online_verifier.Prelude.{ℕ, String, ◌≡◌, ◌≢◌, ◌⊎◌, inl, inr, List, ℕ_eq, string_eq, Bool-cases}
use online_verifier.Text.{text_eq}
use online_verifier.Text.Laws.{text_eq_iff}
use online_verifier.Mdoc.Transcript.{
  Item, nil, text, bytes, Encoders, two, three, hash_of, build_oid4vp_session_transcript,
  handover_info, handover_transcript,
}

-- These two inputs are different and have one hash.
abbrev pub Collide : (List ℕ → List ℕ) → List ℕ → List ℕ → Type 0
Collide hash a b = (a ≢ b) × (hash a ≡ hash b)

same-or_Collide :
    (hash : List ℕ → List ℕ) (a b : List ℕ) → hash a ≡ hash b → (a ≡ b) ⊎ Collide hash a b
same-or_Collide hash a b h = elim (Bool-cases (text_eq a b)) [
  | inl e ↦ inl ((text_eq_iff a b).0 e)
  | inr e ↦ inr (λ s. cc ((text_eq_iff a b).1 s), h)
]

module _ (encoders : Encoders) where
  -- The encoder tells these two values apart.
  abbrev pub Tells : Item → Item → Type 0
  Tells i j = encoders.encode i ≡ encoders.encode j → i ≡ j

  -- The encodings of these two values collide.
  abbrev pub Collision : Item → Item → Type 0
  Collision i j = Collide encoders.sha256 (encoders.encode i) (encoders.encode j)

  item-or_Collision :
      (i j : Item) → Tells i j → hash_of encoders i ≡ hash_of encoders j → (i ≡ j) ⊎ Collision i j
  item-or_Collision i j tells h =
      elim (same-or_Collide encoders.sha256 (encoders.encode i) (encoders.encode j) h) [
        | inl e ↦ inl (tells e)
        | inr c ↦ inr c
      ]

  abbrev pub oid4vp_item : String → String → String → String → Item
  oid4vp_item c r n m = three nil nil (
      three (bytes (hash_of encoders (two (text c) (text m))))
        (bytes (hash_of encoders (two (text r) (text m)))) (text n))

  -- If the encoder tells apart the arrays that are hashed and encoded, two transcripts of ISO 18013-7 that
  -- are the same bytes are of the same client, response URI, nonce and mdoc-generated nonce, or the
  -- different bytes that are hashed for the two clients, or for the two response URIs, have one hash.
  pub build_oid4vp_session_transcript-binds :
      (c r n m c' r' n' m' : String)
      → Tells (oid4vp_item c r n m) (oid4vp_item c' r' n' m')
      → Tells (two (text c) (text m)) (two (text c') (text m'))
      → Tells (two (text r) (text m)) (two (text r') (text m'))
      → build_oid4vp_session_transcript encoders c r n m
        ≡ build_oid4vp_session_transcript encoders c' r' n' m'
      → ((c ≡ c') × (r ≡ r') × (n ≡ n') × (m ≡ m'))
        ⊎ Collision (two (text c) (text m)) (two (text c') (text m'))
        ⊎ Collision (two (text r) (text m)) (two (text r') (text m'))
  unfolding build_oid4vp_session_transcript
  build_oid4vp_session_transcript-binds c r n m c' r' n' m' outer client uri h =
      let e = outer h in
      let first : hash_of encoders (two (text c) (text m))
          ≡ hash_of encoders (two (text c') (text m')) =
        cc in
      let second : hash_of encoders (two (text r) (text m))
          ≡ hash_of encoders (two (text r') (text m')) =
        cc in
      let third : n ≡ n' = cc in
      elim (item-or_Collision _ _ client first) [
        | inr x ↦ inr (inl x)
        | inl a ↦ elim (item-or_Collision _ _ uri second) [
          | inr x ↦ inr (inr x)
          | inl b ↦
              let same_client : c ≡ c' = cc in
              let same_uri : r ≡ r' = cc in
              let made : m ≡ m' = cc in inl (same_client, same_uri, third, made)
        ]
      ]

  abbrev pub handover_item : String → String → Item → String → Item
  handover_item c n t r =
      three nil nil
        (two (text "OpenID4VPHandover") (bytes (hash_of encoders (handover_info encoders c n t r))))

  -- If the encoder tells apart the arrays that are hashed and encoded, two transcripts of OpenID4VP 1.0
  -- that are the same bytes are of the same client, nonce, key thumbprint (or lack of one) and response
  -- URI, or the different bytes of the two handovers that are hashed have one hash.
  pub handover_transcript-binds :
      (c n : String) (t : Item) (r c' n' : String) (t' : Item) (r' : String)
      → Tells (handover_item c n t r) (handover_item c' n' t' r')
      → Tells (handover_info encoders c n t r) (handover_info encoders c' n' t' r')
      → handover_transcript encoders c n t r ≡ handover_transcript encoders c' n' t' r'
      → ((c ≡ c') × (n ≡ n') × (t ≡ t') × (r ≡ r'))
        ⊎ Collision (handover_info encoders c n t r) (handover_info encoders c' n' t' r')
  unfolding handover_transcript
  handover_transcript-binds c n t r c' n' t' r' outer inner h =
      let e = outer h in
      let info : hash_of encoders (handover_info encoders c n t r)
          ≡ hash_of encoders (handover_info encoders c' n' t' r') =
        cc in
      elim (item-or_Collision _ _ inner info) [
        | inr x ↦ inr x
        | inl a ↦
            let client : c ≡ c' = cc in
            let once : n ≡ n' = cc in
            let thumb : t ≡ t' = cc in let uri : r ≡ r' = cc in inl (client, once, thumb, uri)
      ]
