-- ===== src/SdJwt/Parser/Valid.antt =====
-- A presentation that the SD-JWT parser calls valid is authentic.
use online_verifier.Prelude.{
  String, ◌≡◌, sym, ap, ◌∙◌, subst, inl, inr, Bool, true, false, Option, none, some, ℕ_eq,
  string_eq, Bool-cases, Option-cases, includes, In, Result, ok, err, >>=-eq-ok, >>-eq-ok,
  includes-In,
}
use online_verifier.Trust.Evaluator.{TrustEvaluationResult}
use online_verifier.SdJwt.Json.{Fields, get, as_string}
use online_verifier.SdJwt.Toolkit.{
  Parts, Toolkit, ParseOptions, malformed, failed, rejects, unsupported_algorithm, Step,
  PresentationResult, required,
}
use online_verifier.SdJwt.Parser.{
  IssuerKey, allowed, allowed_algorithm, select_key, verify_issuer, check_trust, check_disclosures,
  check_key_binding, presented, check_presented, parse_steps, ParseError, finish, parse,
}
use online_verifier.SdJwt.Parser.Laws.{
  required-ok, IsIssued, IsDisclosed, IsHeld, select_key-Issues, check_disclosures-IsDisclosed,
  check_key_binding-IsHeld,
}

abbrev result_or : PresentationResult → Step PresentationResult → PresentationResult
result_or d (ok r) = r
result_or d (err _) = d

abbrev valid_of : Result ParseError PresentationResult → Bool
valid_of (ok r) = r.valid
valid_of (err _) = true

allowed_algorithm-In :
    (tools : Toolkit) (opts : ParseOptions) (header : Fields) (alg : String)
    → allowed_algorithm tools opts header ≡ some alg
    → In alg (allowed tools opts)
unfolding allowed_algorithm
allowed_algorithm-In tools opts header alg h = elim (Option-cases (as_string (get "alg" header))) [
  | inl e ↦ let bad : none ≡ some alg = rw (e, allowed_algorithm) at h in cc
  | inr (a, e) ↦ elim (Bool-cases (includes (allowed tools opts) a)) [
    | inl f ↦
        let same : some a ≡ some alg = rw (e, allowed_algorithm, f) at h in
        let name : a ≡ alg = cc in
        subst (λ x. In x (allowed tools opts)) name (includes-In (allowed tools opts) a f)
    | inr f ↦ let bad : none ≡ some alg = rw (e, allowed_algorithm, f) at h in cc
  ]
]

module _ (tools : Toolkit) (opts : ParseOptions) where
  -- Of the result, the claims, the certificate, the country and the type are read off what was checked.
  pub record IsPresented (vp_token : String) (parts : Parts) (key : IssuerKey) (payload : Fields)
      (r : PresentationResult) : Type 0 where
    pub claims : Fields
    pub is_disclosed : IsDisclosed tools opts payload parts.disclosures
    pub is_held : IsHeld tools opts parts payload
    pub are_resolved : tools.resolve_claims vp_token ≡ some claims
    pub is_read : r ≡ presented tools opts key payload r.trust claims

  pub record IsAuthentic (vp_token : String) (r : PresentationResult) : Type 0 where
    pub parts : Parts
    pub header : Fields
    pub alg : String
    pub key : IssuerKey
    pub payload : Fields
    pub is_split : tools.split_sd_jwt vp_token ≡ some parts
    pub has_header : tools.decode_protected_header parts.jwt ≡ some header
    pub has_algorithm : In alg (allowed tools opts)
    pub is_issued : IsIssued tools opts parts.jwt header alg payload key r.trust
    pub is_presented : IsPresented vp_token parts key payload r

  check_presented-IsPresented :
      (vp_token : String) (parts : Parts) (key : IssuerKey) (payload : Fields)
      (trust : Option TrustEvaluationResult) (r : PresentationResult)
      → check_presented tools opts vp_token parts key payload trust ≡ ok r
      → IsPresented vp_token parts key payload r × (trust ≡ r.trust)
  unfolding check_presented
  check_presented-IsPresented vp_token parts key payload trust r h =
      let (anchored, h1) = >>-eq-ok (check_disclosures tools opts payload parts.disclosures) _ h in
      let (held, h2) = >>-eq-ok (check_key_binding tools opts parts payload) _ h1 in
      let (claims, c, h3) = >>=-eq-ok (required malformed (tools.resolve_claims vp_token)) _ h2 in
      let made : presented tools opts key payload trust claims ≡ r = ap (result_or r) h3 in
      let same : trust ≡ r.trust = ap (λ x. x.trust) made in
      (
        record {
          claims = claims;
          is_disclosed =
              check_disclosures-IsDisclosed tools opts payload parts.disclosures anchored;
          is_held = check_key_binding-IsHeld tools opts parts payload held;
          are_resolved = required-ok malformed (tools.resolve_claims vp_token) c;
          is_read = sym made ∙ ap (λ x. presented tools opts key payload x claims) same;
        },
        same,
      )

  parse_steps-IsAuthentic :
      (vp_token : String) (r : PresentationResult)
      → parse_steps tools opts vp_token ≡ ok r
      → IsAuthentic vp_token r
  unfolding parse_steps
  parse_steps-IsAuthentic vp_token r h =
      let (parts, s, h1) = >>=-eq-ok (required malformed (tools.split_sd_jwt vp_token)) _ h in
      let (header, d, h2) =
        >>=-eq-ok (required malformed (tools.decode_protected_header parts.jwt)) _ h1 in
      let (alg, a, h3) =
        >>=-eq-ok (required (rejects unsupported_algorithm) (allowed_algorithm tools opts header)) _
          h2 in
      let (key, k, h4) = >>=-eq-ok (select_key tools opts header alg) _ h3 in
      let (payload, v, h5) = >>=-eq-ok (verify_issuer tools opts parts.jwt header alg key) _ h4 in
      let (trust, t, h6) = >>=-eq-ok (check_trust tools opts key) _ h5 in
      let (shown, same) = check_presented-IsPresented vp_token parts key payload trust r h6 in
      let issued = select_key-Issues tools opts parts.jwt header alg key payload trust k v t in
      record {
        parts = parts;
        header = header;
        alg = alg;
        key = key;
        payload = payload;
        is_split = required-ok malformed _ s;
        has_header = required-ok malformed _ d;
        has_algorithm = allowed_algorithm-In tools opts header alg (required-ok _ _ a);
        is_issued = subst (λ x. IsIssued tools opts parts.jwt header alg payload key x) same issued;
        is_presented = shown;
      }

  finish-valid :
      (s : Step PresentationResult) (r : PresentationResult)
      → finish s ≡ ok r
      → r.valid ≡ true
      → s ≡ ok r
  finish-valid (ok x) r h v = cc
  finish-valid (err (rejects message)) r h v = let same : false ≡ r.valid = ap valid_of h in cc
  finish-valid (err malformed) r h v = cc
  finish-valid (err failed) r h v = cc

  pub parse-IsGenuine :
      (vp_token : String) (r : PresentationResult)
      → parse tools opts vp_token ≡ ok r
      → r.valid ≡ true
      → IsAuthentic vp_token r
  unfolding parse
  parse-IsGenuine vp_token r h v =
      parse_steps-IsAuthentic vp_token r (finish-valid (parse_steps tools opts vp_token) r h v)
