-- ===== src/Mdoc/Cose/Laws.antt =====
-- What the signature checks of an mdoc have checked when they pass.
use online_verifier.Prelude.{
  ℕ, String, ◌≡◌, refl, ap, subst, inl, inr, Bool, true, false, Option, none, some, List, [], ◌∷◌,
  ◌++◌, ℕ_eq, string_eq, Bool-cases, includes, In, ok, err, guard, >>=-eq-ok, >>-eq-ok, guard-eq-ok,
  includes-In,
}
use online_verifier.Mdoc.Cbor.{
  Cbor, bytes, text, number, negative, array, table, tag, item, no_items, embedded, other, Entries,
  get,
}
use online_verifier.Mdoc.Mso.{CredentialError, malformed, exception}
use online_verifier.Mdoc.Cose.{
  Crypto, CoseSign1, cose_alg_name, hash_name, required, must_be_bytes, must_be_map, Four,
  must_be_four, extract_tag24_inner, sig_structure, must_verify, verify_cose_sign1,
  build_device_authentication_bytes, import_device_key_from_cose, allowed_alg, label_of,
  verify_device_auth,
}

required-ok :
    {A : Type 0} (e : CredentialError) (o : Option A) {a : A} → required e o ≡ ok a → o ≡ some a
required-ok e none h = cc
required-ok e (some a) h = cc

must_be_map-ok :
    (o : Option Cbor) (entries : Entries) → must_be_map o ≡ ok entries → o ≡ some (table entries)
must_be_map-ok none e h = cc
must_be_map-ok (some (table t)) e h = cc
must_be_map-ok (some (bytes _)) e h = cc
must_be_map-ok (some (text _)) e h = cc
must_be_map-ok (some (number _)) e h = cc
must_be_map-ok (some (negative _)) e h = cc
must_be_map-ok (some (array _)) e h = cc
must_be_map-ok (some (tag _ _)) e h = cc
must_be_map-ok (some (embedded _)) e h = cc
must_be_map-ok (some other) e h = cc

must_be_bytes-ok : (c : Cbor) (b : List ℕ) → must_be_bytes (some c) ≡ ok b → c ≡ bytes b
must_be_bytes-ok (bytes x) b h = cc
must_be_bytes-ok (table _) b h = cc
must_be_bytes-ok (text _) b h = cc
must_be_bytes-ok (number _) b h = cc
must_be_bytes-ok (negative _) b h = cc
must_be_bytes-ok (array _) b h = cc
must_be_bytes-ok (tag _ _) b h = cc
must_be_bytes-ok (embedded _) b h = cc
must_be_bytes-ok other b h = cc

module _ (crypto : Crypto) where
  must_verify-ok : (o : Option Bool) → must_verify crypto o ≡ ok tt → o ≡ some true
  must_verify-ok none h = cc
  must_verify-ok (some true) h = refl
  must_verify-ok (some false) h = cc

  allowed_alg-ok :
      (allowed : List String) (o : Option String) (alg : String)
      → allowed_alg crypto allowed o ≡ ok alg
      → (o ≡ some alg) × In alg allowed
  allowed_alg-ok allowed none alg h = cc
  allowed_alg-ok allowed (some a) alg h = elim (Bool-cases (includes allowed a)) [
    | inl e ↦
        let one : ok a ≡ ok alg = rw e at h in
        let same : a ≡ alg = cc in
        (ap (λ x. some x) same, subst (λ x. In x allowed) same (includes-In allowed a e))
    | inr e ↦ let bad : err malformed ≡ ok alg = rw e at h in cc
  ]

  -- A Sig_structure without external data (RFC 9052, 4.4).
  abbrev pub signature1 : List ℕ → List ℕ → Cbor
  signature1 protected_bytes payload = array (
      item (text "Signature1")
        (item (bytes protected_bytes) (item (bytes []) (item (bytes payload) no_items))))

  -- Encoded CBOR in a tag 24.
  abbrev pub tagged : List ℕ → List ℕ
  tagged inner = 216 ∷ 24 ∷ crypto.encode (bytes inner)

  -- DeviceAuthenticationBytes (ISO 18013-5, 9.1.3.4), with the transcript as it is.
  abbrev pub device_authentication : List ℕ → String → List ℕ → List ℕ
  device_authentication session_transcript doc_type inner = tagged (
      132 ∷ crypto.encode (text "DeviceAuthentication")
      ++ session_transcript
      ++ crypto.encode (text doc_type)
      ++ tagged inner)

  -- The key verified the signature over the Sig_structure of the protected header and the payload, under
  -- the hash of an allowed algorithm.
  pub record IsCoseSigned (cose : CoseSign1) (key : List ℕ) (allowed : List String) : Type 0 where
    pub hash : String
    pub is_allowed : In cose.alg allowed
    pub has_hash : hash_name cose.alg ≡ some hash
    pub is_verified :
        crypto.verify hash key cose.signature
          (crypto.encode (signature1 cose.protected_header_bytes cose.payload))
        ≡ some true

  pub verify_cose_sign1-IsCoseSigned :
      (cose : CoseSign1) (key : List ℕ) (allowed : List String)
      → verify_cose_sign1 crypto cose key allowed ≡ ok tt
      → IsCoseSigned cose key allowed
  unfolding verify_cose_sign1 sig_structure
  verify_cose_sign1-IsCoseSigned cose key allowed h =
      let (listed, h1) = >>-eq-ok (guard (includes allowed cose.alg) malformed) _ h in
      let (hash, hashed, h2) = >>=-eq-ok (required malformed (hash_name cose.alg)) _ h1 in
      record {
        hash = hash;
        is_allowed = includes-In allowed cose.alg (guard-eq-ok _ malformed listed);
        has_hash = required-ok malformed _ hashed;
        is_verified = must_verify-ok _ h2;
      }

  -- The device's key, which the issuer committed to, verified the device's signature over the bytes of
  -- the session transcript, the document type and the device's own items.
  pub record IsDeviceSigned (device_signed : Entries) (device_key_cose : List ℕ) (doc_type : String)
      (session_transcript : List ℕ) (allowed : List String) : Type 0 where
    pub device_auth : Entries
    pub parts : Four
    pub protected_bytes : List ℕ
    pub signature : List ℕ
    pub header : Cbor
    pub alg : String
    pub inner : List ℕ
    pub device_key : List ℕ
    pub hash : String
    pub has_auth : get device_signed "deviceAuth" ≡ some (table device_auth)
    pub has_signature : must_be_four (get device_auth "deviceSignature") ≡ ok parts
    pub has_protected : parts.first ≡ bytes protected_bytes
    pub has_bytes : parts.fourth ≡ bytes signature
    pub has_header : crypto.decode protected_bytes ≡ some header
    pub has_algorithm : cose_alg_name (label_of crypto header) ≡ some alg
    pub is_allowed : In alg allowed
    pub has_items : extract_tag24_inner (get device_signed "nameSpaces") ≡ ok inner
    pub has_key : import_device_key_from_cose crypto (crypto.decode device_key_cose) ≡ ok device_key
    pub has_hash : hash_name alg ≡ some hash
    pub is_verified :
        crypto.verify hash device_key signature (
          crypto.encode
            (signature1 protected_bytes (device_authentication session_transcript doc_type inner)))
        ≡ some true

  pub verify_device_auth-IsDeviceSigned :
      (device_signed : Entries) (device_key_cose : List ℕ) (doc_type : String)
      (session_transcript : List ℕ) (allowed : List String)
      → verify_device_auth crypto device_signed device_key_cose doc_type session_transcript allowed
        ≡ ok tt
      → IsDeviceSigned device_signed device_key_cose doc_type session_transcript allowed
  unfolding verify_device_auth sig_structure build_device_authentication_bytes
  verify_device_auth-IsDeviceSigned device_signed device_key_cose doc_type session_transcript
        allowed h =
      let (device_auth, a, h1) = >>=-eq-ok (must_be_map (get device_signed "deviceAuth")) _ h in
      let (parts, p, h2) = >>=-eq-ok (must_be_four (get device_auth "deviceSignature")) _ h1 in
      let (protected_bytes, b, h3) = >>=-eq-ok (must_be_bytes (some parts.first)) _ h2 in
      let (signature, s, h4) = >>=-eq-ok (must_be_bytes (some parts.fourth)) _ h3 in
      let (header, d, h5) = >>=-eq-ok (required malformed (crypto.decode protected_bytes)) _ h4 in
      let (alg, g, h6) =
        >>=-eq-ok (allowed_alg crypto allowed (cose_alg_name (label_of crypto header))) _ h5 in
      let (inner, i, h7) = >>=-eq-ok (extract_tag24_inner (get device_signed "nameSpaces")) _ h6 in
      let (key, k, h8) =
        >>=-eq-ok (import_device_key_from_cose crypto (crypto.decode device_key_cose)) _ h7 in
      let (hash, n, h9) = >>=-eq-ok (required exception (hash_name alg)) _ h8 in
      let (named, listed) = allowed_alg-ok allowed (cose_alg_name (label_of crypto header)) alg g in
      record {
        device_auth = device_auth;
        parts = parts;
        protected_bytes = protected_bytes;
        signature = signature;
        header = header;
        alg = alg;
        inner = inner;
        device_key = key;
        hash = hash;
        has_auth = must_be_map-ok (get device_signed "deviceAuth") device_auth a;
        has_signature = p;
        has_protected = must_be_bytes-ok parts.first protected_bytes b;
        has_bytes = must_be_bytes-ok parts.fourth signature s;
        has_header = required-ok malformed (crypto.decode protected_bytes) d;
        has_algorithm = named;
        is_allowed = listed;
        has_items = i;
        has_key = k;
        has_hash = required-ok exception (hash_name alg) n;
        is_verified =
            must_verify-ok
              (crypto.verify hash key signature (
                crypto.encode (
                  signature1 protected_bytes
                    (device_authentication session_transcript doc_type inner))))
              h9;
      }
