-- ===== src/SdJwt/Parser/Laws.antt =====
-- What each step of the SD-JWT parser has checked when it passes.
use online_verifier.Prelude.{
  ℕ, suc, String, ◌≡◌, refl, sym, ap, ◌∙◌, subst, ◌⊎◌, inl, inr, Bool, true, false, not, ◌||◌,
  Option, none, some, List, [], ◌∷◌, arith, ℕ_eq, string_eq, Bool-cases, Option-cases, length, any,
  find, All, Any, In, here, there, ok, err, guard, >>=-eq-ok, >>-eq-ok, guard-eq-ok, any_sound,
  find-some,
}
use online_verifier.Text.{codes}
use online_verifier.Text.Laws.{text_eq_instance}
use online_verifier.Trust.Cert.{bytes_equal, bytes_equal_iff}
use online_verifier.Base64.{base64_to_bytes, bytes_to_base64url}
use online_verifier.Trust.Evaluator.{TrustEvaluationResult}
use online_verifier.SdJwt.Json.{Json, obj, Fields, get, as_string}
use online_verifier.SdJwt.Anchors.{Disclosure}
use online_verifier.SdJwt.Anchors.Laws.{Known, all_anchored_iff}
use online_verifier.SdJwt.Toolkit.{
  Parts, Toolkit, ParseOptions, Exit, malformed, failed, rejects, no_matching_jwk, not_trusted,
  issuer_signature, key_binding_missing, kb_algorithm, kb_signature, kb_nonce, nonce_required,
  required, der_to_pem, x5c_leaf,
}
use online_verifier.SdJwt.Parser.{
  IssuerKey, certified, by_jwks, kid_is, must_have_jwks, candidates, is_some, non_empty, is_text,
  no_disclosures, sd_jwt_for_hash, if_anchored, allowed, allowed_algorithm, select_key,
  try_candidates, verify_issuer, check_byte_equality, check_trust, decode_disclosures,
  check_disclosures, holder_jwk, verify_key_binding, check_key_binding,
}

pub required-ok : {A : Type 0} (e : Exit) (o : Option A) {a : A} → required e o ≡ ok a → o ≡ some a
required-ok e none h = cc
required-ok e (some b) h = cc

-- The `kid` of the header, if it has one, is that of the key.
abbrev pub AgreesOnKid : Fields → Fields → Type 0
AgreesOnKid header jwk =
    (as_string (get "kid" header) ≡ none)
    ⊎ (as_string (get "kid" jwk) ≡ as_string (get "kid" header))

kid_is-some : (kid : String) (o : Option String) → kid_is kid o ≡ true → o ≡ some kid
kid_is-some kid none h = cc
kid_is-some kid (some k) h = ap (λ x. some x) ((string_eq.decides k kid).0 h)

-- Every candidate is a trusted JWK, and has the `kid` that is asked for.
abbrev AreCandidates : Option String → List Fields → List Fields → Type 0
AreCandidates kid jwks chosen =
    (jwk : Fields)
    → In jwk chosen
    → In jwk jwks × ((kid ≡ none) ⊎ (as_string (get "kid" jwk) ≡ kid))

In-one : {A : Type 0} {a b : A} → In a (b ∷ []) → b ≡ a
In-one here = refl
In-one (there m) = elim m [ ]

candidates-AreCandidates :
    (kid : Option String) (jwks chosen : List Fields)
    → candidates kid jwks ≡ ok chosen
    → AreCandidates kid jwks chosen
unfolding candidates
candidates-AreCandidates none jwks chosen h jwk m =
    let same : chosen ≡ jwks = cc in (subst (λ x. In jwk x) same m, inl refl)
candidates-AreCandidates (some kid) jwks chosen h jwk m =
    let test = λ (k : Fields). kid_is kid (as_string (get "kid" k)) in
    elim (Option-cases (find test jwks)) [
      | inl e ↦ let bad : err (rejects no_matching_jwk) ≡ ok chosen = rw (e, candidates) at h in cc
      | inr (matched, e) ↦
          let one : ok (matched ∷ []) ≡ ok chosen = rw (e, candidates) at h in
          let same : chosen ≡ matched ∷ [] = cc in
          let (from, passes) = find-some test jwks e in
          let name : matched ≡ jwk = In-one (subst (λ x. In jwk x) same m) in
          subst (λ k. In k jwks × ((some kid ≡ none) ⊎ (as_string (get "kid" k) ≡ some kid))) name
            (from, inr (kid_is-some kid _ passes))
    ]

module _ (tools : Toolkit) (opts : ParseOptions) where
  -- The certificate is one of the store's, by the evaluator, or one that the caller lists.
  pub data IsTrusted (cert : List ℕ) : Option TrustEvaluationResult → Type 0 where
    by_store :
        {r : TrustEvaluationResult}
        → opts.has_trust_store ≡ true
        → tools.evaluate cert ≡ some r
        → IsTrusted cert (some r)
    by_list :
        opts.has_trust_store ≡ false
        → Any (λ c. c ≡ cert) opts.trusted_certificates
        → IsTrusted cert none
    unchecked :
        opts.has_trust_store ≡ false
        → opts.trusted_certificates ≡ []
        → opts.skip_trust_check ≡ true
        → IsTrusted cert none

  -- The token is signed under the leaf of its x5c, which is trusted, or under a JWK that the caller trusts
  -- and that has the header's `kid`.
  pub data IsIssued (jwt : String) (header : Fields) (alg : String) (payload : Fields)
      : IssuerKey → Option TrustEvaluationResult → Type 0 where
    by_certificate :
        {leaf : String} {key : List ℕ} {trust : Option TrustEvaluationResult}
        → x5c_leaf header ≡ some leaf
        → tools.import_x509 (der_to_pem leaf) alg ≡ some key
        → tools.jwt_verify jwt key (allowed tools opts) none ≡ some payload
        → IsTrusted (base64_to_bytes (codes leaf)) trust
        → IsIssued jwt header alg payload (certified key (base64_to_bytes (codes leaf))) trust
    by_jwk :
        {jwk : Fields} {key : List ℕ}
        → x5c_leaf header ≡ none
        → In jwk opts.trusted_issuer_jwks
        → AgreesOnKid header jwk
        → tools.import_jwk (obj jwk) alg ≡ some key
        → tools.jwt_verify jwt key (allowed tools opts) none ≡ some payload
        → IsIssued jwt header alg payload by_jwks none

  -- The KB-JWT proves the possession of the holder's key for the caller's nonce and this presentation.
  pub record IsBound (parts : Parts) (kb_jwt : String) (jwk : Json) : Type 0 where
    pub nonce : String
    pub kb_header : Fields
    pub kb_alg : String
    pub holder_key : List ℕ
    pub kb_payload : Fields
    pub is_asked : non_empty opts.nonce ≡ some nonce
    pub has_header : tools.decode_protected_header kb_jwt ≡ some kb_header
    pub has_algorithm : allowed_algorithm tools opts kb_header ≡ some kb_alg
    pub has_key : tools.import_jwk jwk kb_alg ≡ some holder_key
    pub is_signed :
        tools.jwt_verify kb_jwt holder_key (allowed tools opts) (non_empty opts.audience)
        ≡ some kb_payload
    pub has_nonce : is_text (codes nonce) (get "nonce" kb_payload) ≡ true
    pub has_hash :
        is_text
          (bytes_to_base64url (tools.sha256 (sd_jwt_for_hash parts)))
          (get "sd_hash" kb_payload)
        ≡ true

  -- A KB-JWT binds the holder's key; without one there is no holder's key and no need of a proof.
  pub data IsHeld (parts : Parts) (payload : Fields) : Type 0 where
    unbound :
        non_empty parts.kb_jwt ≡ none
        → holder_jwk tools opts payload ≡ none
        → opts.require_key_binding ≡ false
        → IsHeld parts payload
    bound :
        {kb_jwt : String} {jwk : Json}
        → non_empty parts.kb_jwt ≡ some kb_jwt
        → holder_jwk tools opts payload ≡ some jwk
        → IsBound parts kb_jwt jwk
        → IsHeld parts payload

  -- The hash of every disclosure is known from the payload.
  pub record IsDisclosed (payload : Fields) (disclosures : List String) : Type 0 where
    pub decoded : List Disclosure
    pub are_decoded : decode_disclosures tools opts disclosures ≡ ok decoded
    pub are_known : All (λ d. Known (obj payload) decoded d.kind d.hash) decoded

  trusted_by :
      (cert : List ℕ) (trusted : List (List ℕ))
      → opts.has_trust_store ≡ false
      → opts.trusted_certificates ≡ trusted
      → check_byte_equality tools opts cert trusted ≡ ok tt
      → IsTrusted cert none
  unfolding check_byte_equality
  trusted_by cert [] n e h = unchecked n e (guard-eq-ok opts.skip_trust_check malformed h)
  trusted_by cert (t ∷ trusted) n e h =
      let found =
        guard-eq-ok (any (λ c. bytes_equal c cert) (t ∷ trusted)) (rejects not_trusted) h in
      let same : Any (λ c. c ≡ cert) (t ∷ trusted) =
        any_sound (λ c. bytes_equal c cert) (λ c. c ≡ cert) (λ c. bytes_equal_iff c cert)
          (t ∷ trusted) found in
      by_list n (subst (λ l. Any (λ c. c ≡ cert) l) (sym e) same)

  check_trust-IsTrusted :
      (key cert : List ℕ) (trust : Option TrustEvaluationResult)
      → check_trust tools opts (certified key cert) ≡ ok trust
      → IsTrusted cert trust
  unfolding check_trust check_byte_equality
  check_trust-IsTrusted key cert trust h = elim (Bool-cases opts.has_trust_store) [
    | inl store ↦
        let (r, evaluated, given) =
          >>=-eq-ok (required failed (tools.evaluate cert)) _ (rw store at h) in
        let same : some r ≡ trust = cc in
        subst (λ x. IsTrusted cert x) same (by_store store (required-ok failed _ evaluated))
    | inr n ↦
        let (_, passed, given) =
          >>=-eq-ok (check_byte_equality tools opts cert opts.trusted_certificates) _ (rw n at h) in
        let same : none ≡ trust = cc in
        subst (λ x. IsTrusted cert x) same (trusted_by cert opts.trusted_certificates n refl passed)
  ]

  record IsCandidate (jwt alg : String) (payload jwk : Fields) : Type 0 where
    key : List ℕ
    imported : tools.import_jwk (obj jwk) alg ≡ some key
    verified : tools.jwt_verify jwt key (allowed tools opts) none ≡ some payload

  abbrev Found : String → String → Fields → List Fields → Type 0
  Found jwt alg payload jwks = (jwk : Fields) × In jwk jwks × IsCandidate jwt alg payload jwk

  Found-later :
      {jwt alg : String} {payload : Fields} (k : Fields) {jwks : List Fields}
      → Found jwt alg payload jwks
      → Found jwt alg payload (k ∷ jwks)
  Found-later k (jwk, m, c) = (jwk, there m, c)

  try_candidates-In :
      (jwt alg : String) (jwks : List Fields) (payload : Fields)
      → try_candidates tools opts jwt alg jwks ≡ some payload
      → (jwk : Fields) × In jwk jwks × IsCandidate jwt alg payload jwk
  unfolding try_candidates
  try_candidates-In jwt alg [] payload h = cc
  try_candidates-In jwt alg (jwk ∷ jwks) payload h =
      elim (Option-cases (tools.import_jwk (obj jwk) alg)) [
        | inl e ↦
            Found-later jwk (try_candidates-In jwt alg jwks payload (rw (e, try_candidates) at h))
        | inr (key, e) ↦ elim (Option-cases (tools.jwt_verify jwt key (allowed tools opts) none)) [
          | inl f ↦
              Found-later jwk
                (try_candidates-In jwt alg jwks payload (rw (e, f, try_candidates) at h))
          | inr (p, f) ↦
              let same : some p ≡ some payload = rw (e, f, try_candidates) at h in
              (jwk, here, record { key = key; imported = e; verified = f ∙ same })
        ]
      ]

  by_candidate :
      (jwt : String) (header : Fields) (alg : String) (payload : Fields) (jwks : List Fields)
      → x5c_leaf header ≡ none
      → candidates (as_string (get "kid" header)) opts.trusted_issuer_jwks ≡ ok jwks
      → Found jwt alg payload jwks
      → IsIssued jwt header alg payload by_jwks none
  by_candidate jwt header alg payload jwks e h (jwk, m, c) =
      let (trusted, kid) = candidates-AreCandidates _ opts.trusted_issuer_jwks jwks h jwk m in
      by_jwk e trusted kid c.imported c.verified

  abbrev Issues :
      String → Fields → String → Fields → Option TrustEvaluationResult → IssuerKey → Type 0
  Issues jwt header alg payload trust key =
      verify_issuer tools opts jwt header alg key ≡ ok payload
      → check_trust tools opts key ≡ ok trust
      → IsIssued jwt header alg payload key trust

  by_jwks-Issues :
      (jwt : String) (header : Fields) (alg : String) (payload : Fields)
      (trust : Option TrustEvaluationResult)
      → x5c_leaf header ≡ none
      → Issues jwt header alg payload trust by_jwks
  unfolding verify_issuer check_trust
  by_jwks-Issues jwt header alg payload trust e v t =
      let (jwks, chosen, rest) =
        >>=-eq-ok (candidates (as_string (get "kid" header)) opts.trusted_issuer_jwks) _ v in
      let found = try_candidates-In jwt alg jwks payload (required-ok _ _ rest) in
      let same : none ≡ trust = cc in
      subst (λ x. IsIssued jwt header alg payload by_jwks x) same
        (by_candidate jwt header alg payload jwks e chosen found)

  certified-Issues :
      (jwt : String) (header : Fields) (alg leaf : String) (key : List ℕ) (payload : Fields)
      (trust : Option TrustEvaluationResult)
      → x5c_leaf header ≡ some leaf
      → tools.import_x509 (der_to_pem leaf) alg ≡ some key
      → Issues jwt header alg payload trust (certified key (base64_to_bytes (codes leaf)))
  unfolding verify_issuer
  certified-Issues jwt header alg leaf key payload trust e i v t =
      by_certificate e i (required-ok (rejects issuer_signature) _ v)
        (check_trust-IsTrusted key _ trust t)

  must_have_jwks-ok :
      (jwks : List Fields) (key : IssuerKey) → must_have_jwks jwks ≡ ok key → by_jwks ≡ key
  must_have_jwks-ok [] key h = cc
  must_have_jwks-ok (_ ∷ _) key h = cc

  -- Steps 4 to 6.
  pub select_key-Issues :
      (jwt : String) (header : Fields) (alg : String) (key : IssuerKey) (payload : Fields)
      (trust : Option TrustEvaluationResult)
      → select_key tools opts header alg ≡ ok key
      → Issues jwt header alg payload trust key
  unfolding select_key
  select_key-Issues jwt header alg key payload trust s = elim (Option-cases (x5c_leaf header)) [
    | inl e ↦
        let same = must_have_jwks-ok opts.trusted_issuer_jwks key (rw (e, select_key) at s) in
        subst (λ x. Issues jwt header alg payload trust x) same
          (by_jwks-Issues jwt header alg payload trust e)
    | inr (leaf, e) ↦
        let (k, imported, made) =
          >>=-eq-ok (required malformed (tools.import_x509 (der_to_pem leaf) alg)) _
            (rw (e, select_key) at s) in
        let same : certified k (base64_to_bytes (codes leaf)) ≡ key = cc in
        subst (λ x. Issues jwt header alg payload trust x) same
          (certified-Issues jwt header alg leaf k payload trust e
            (required-ok malformed _ imported))
  ]

  -- Step 7.
  if_anchored-true : (o : Option Bool) → if_anchored o ≡ ok tt → o ≡ some true
  unfolding if_anchored
  if_anchored-true (some true) h = refl
  if_anchored-true (some false) h = cc
  if_anchored-true none h = cc

  none_disclosed : (ds : List String) → no_disclosures ds ≡ true → ds ≡ []
  unfolding no_disclosures
  none_disclosed [] h = refl
  none_disclosed (d ∷ ds) h = cc

  pub check_disclosures-IsDisclosed :
      (payload : Fields) (ds : List String)
      → check_disclosures tools opts payload ds ≡ ok tt
      → IsDisclosed payload ds
  unfolding check_disclosures decode_disclosures
  check_disclosures-IsDisclosed payload ds h = elim (Bool-cases (no_disclosures ds)) [
    | inl e ↦ record { decoded = []; are_decoded = rw (none_disclosed ds e); are_known = tt }
    | inr e ↦
        let (decoded, d, rest) =
          >>=-eq-ok (decode_disclosures tools opts ds) _ (rw (e, check_disclosures) at h) in
        let passed = if_anchored-true _ rest in
        let (b, ends, known) =
          all_anchored_iff (suc (length decoded)) (obj payload) decoded (omega arith) in
        let yes : b ≡ true = cc in
        record { decoded = decoded; are_decoded = d; are_known = known.0 yes }
  ]

  -- Step 8.
  verify_key_binding-IsBound :
      (parts : Parts) (kb_jwt : String) (jwk : Json)
      → verify_key_binding tools opts parts kb_jwt (some jwk) ≡ ok tt
      → IsBound parts kb_jwt jwk
  unfolding verify_key_binding
  verify_key_binding-IsBound parts kb_jwt jwk h =
      let (nonce, n, h1) =
        >>=-eq-ok (required (rejects nonce_required) (non_empty opts.nonce)) _ h in
      let (header, d, h2) =
        >>=-eq-ok (required malformed (tools.decode_protected_header kb_jwt)) _ h1 in
      let (alg, a, h3) =
        >>=-eq-ok (required (rejects kb_algorithm) (allowed_algorithm tools opts header)) _ h2 in
      let (key, i, h4) = >>=-eq-ok (required malformed (tools.import_jwk jwk alg)) _ h3 in
      let (kb_payload, v, h5) =
        >>=-eq-ok
          (required (rejects kb_signature)
            (tools.jwt_verify kb_jwt key (allowed tools opts) (non_empty opts.audience)))
          _ h4 in
      let (same, h6) =
        >>-eq-ok (guard (is_text (codes nonce) (get "nonce" kb_payload)) (rejects kb_nonce)) _ h5 in
      record {
        nonce = nonce;
        kb_header = header;
        kb_alg = alg;
        holder_key = key;
        kb_payload = kb_payload;
        is_asked = required-ok _ _ n;
        has_header = required-ok _ _ d;
        has_algorithm = required-ok _ _ a;
        has_key = required-ok _ _ i;
        is_signed = required-ok _ _ v;
        has_nonce = guard-eq-ok _ _ same;
        has_hash = guard-eq-ok _ _ h6;
      }

  not_required :
      (o : Option Json) (b : Bool) → not (is_some o || b) ≡ true → (o ≡ none) × (b ≡ false)
  not_required none true h = cc
  not_required none false h = (refl, refl)
  not_required (some j) b h = cc

  pub check_key_binding-IsHeld :
      (parts : Parts) (payload : Fields)
      → check_key_binding tools opts parts payload ≡ ok tt
      → IsHeld parts payload
  unfolding check_key_binding verify_key_binding
  check_key_binding-IsHeld parts payload h = elim (Option-cases (non_empty parts.kb_jwt)) [
    | inl e ↦
        let free = guard-eq-ok _ (rejects key_binding_missing) (rw (e, check_key_binding) at h) in
        let (no_key, no_need) =
          not_required (holder_jwk tools opts payload) opts.require_key_binding free in
        unbound e no_key no_need
    | inr (kb_jwt, e) ↦ elim (Option-cases (holder_jwk tools opts payload)) [
      | inl f ↦ let bad : err malformed ≡ ok tt = rw (e, f, check_key_binding) at h in cc
      | inr (jwk, f) ↦
          bound e f
            (verify_key_binding-IsBound parts kb_jwt jwk (rw (e, f, check_key_binding) at h))
    ]
  ]
