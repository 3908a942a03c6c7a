-- ===== src/Response/Laws.antt =====
-- What a valid answer of `verifyPresentation` and of `verifyAuthorizationResponse` rests on.
use online_verifier.Prelude.{
  ℕ, String, ◌≡◌, refl, ap, ◌∙◌, subst, inl, inr, true, false, some, List, [], ◌∷◌, ℕ_eq, string_eq,
  Bool-cases, &&_iff, Result, ok, err, >>=-eq-ok,
}
use online_verifier.SdJwt.Toolkit.{Toolkit}
use online_verifier.SdJwt.Toolkit.{PresentationResult as SdJwtResult}
use online_verifier.SdJwt.Parser.{ParseError, can_parse, parse as sd_jwt_parse}
use online_verifier.SdJwt.Parser.Valid.{IsAuthentic as IsAuthenticSdJwt, parse-IsGenuine}
use online_verifier.Mdoc.Mso.{CredentialError}
use online_verifier.Mdoc.Parser.{Modules, PresentationResult as MdocResult, parse as mdoc_parse}
use online_verifier.Mdoc.Parser.Valid.{IsAuthentic as IsAuthenticMdoc, parse-IsAuthentic}
use online_verifier.Response.{
  Token, text, bytes, other, VerifyOptions, sd_jwt_options, mdoc_options, Parsed, sd_jwt, mdoc,
  unsupported, valid_of, VerifyError, from_sd_jwt, from_mdoc, DcqlQuery, Dcql, VerifyResult,
  first_id, decoded_of, parse_presentation, verdict, verify_presentation,
}

from_sd_jwt-ok :
    (r : Result ParseError SdJwtResult) (p : Parsed)
    → from_sd_jwt r ≡ ok p
    → (x : SdJwtResult) × (r ≡ ok x) × (sd_jwt x ≡ p)
from_sd_jwt-ok (ok x) p h = (x, refl, cc)
from_sd_jwt-ok (err e) p h = cc

from_mdoc-ok :
    (r : Result CredentialError MdocResult) (p : Parsed)
    → from_mdoc r ≡ ok p
    → (x : MdocResult) × (r ≡ ok x) × (mdoc x ≡ p)
from_mdoc-ok (ok x) p h = (x, refl, cc)
from_mdoc-ok (err e) p h = cc

abbrev result_or : VerifyResult → Result VerifyError VerifyResult → VerifyResult
result_or d (ok r) = r
result_or d (err _) = d

module _ (tools : Toolkit) (modules : Modules) (dcql : Dcql) (now : ℕ) (opts : VerifyOptions) where
  -- The token is what one of the parsers found authentic.
  pub data IsGenuine : Token → Parsed → Type 0 where
    by_sd_jwt :
        {s : String} {r : SdJwtResult}
        → IsAuthenticSdJwt tools (sd_jwt_options opts) s r
        → IsGenuine (text s) (sd_jwt r)
    by_mdoc :
        {b : List ℕ} {r : MdocResult}
        → IsAuthenticMdoc modules (mdoc_options opts) now b r
        → IsGenuine (bytes b) (mdoc r)

  text-IsGenuine :
      (s : String) (p : Parsed)
      → from_sd_jwt (sd_jwt_parse tools (sd_jwt_options opts) s) ≡ ok p
      → valid_of p ≡ true
      → IsGenuine (text s) p
  text-IsGenuine s p h v =
      let (r, parsed, same) = from_sd_jwt-ok _ p h in
      let valid : r.valid ≡ true = ap valid_of same ∙ v in
      subst (λ x. IsGenuine (text s) x) same
        (by_sd_jwt (parse-IsGenuine tools (sd_jwt_options opts) s r parsed valid))

  bytes-IsGenuine :
      (b : List ℕ) (p : Parsed)
      → from_mdoc (mdoc_parse modules (mdoc_options opts) now b) ≡ ok p
      → valid_of p ≡ true
      → IsGenuine (bytes b) p
  bytes-IsGenuine b p h v =
      let (r, parsed, same) = from_mdoc-ok _ p h in
      let valid : r.valid ≡ true = ap valid_of same ∙ v in
      subst (λ x. IsGenuine (bytes b) x) same
        (by_mdoc (parse-IsAuthentic modules (mdoc_options opts) now b r parsed valid))

  parse_presentation-IsGenuine :
      (token : Token) (p : Parsed)
      → parse_presentation tools modules dcql now opts token ≡ ok p
      → valid_of p ≡ true
      → IsGenuine token p
  unfolding parse_presentation
  parse_presentation-IsGenuine (text s) p h v = elim (Bool-cases (can_parse s)) [
    | inl e ↦ text-IsGenuine s p (rw (e, parse_presentation) at h) v
    | inr e ↦
        let none_parsed : ok unsupported ≡ ok p = rw (e, parse_presentation) at h in
        let same : unsupported ≡ p = cc in let bad : false ≡ true = ap valid_of same ∙ v in cc
  ]
  parse_presentation-IsGenuine (bytes b) p h v = bytes-IsGenuine b p h v
  parse_presentation-IsGenuine other p h v =
      let same : unsupported ≡ p = cc in let bad : false ≡ true = ap valid_of same ∙ v in cc

  -- A presentation is verified: it is authentic, and the query is satisfied by what was decoded of it.
  pub record IsVerified (query : DcqlQuery) (token : Token) (r : VerifyResult) : Type 0 where
    pub is_genuine : IsGenuine token r.parsed
    pub is_matched :
        r.matched ≡ dcql.match_query query (decoded_of (first_id query.credentials) r.parsed ∷ [])
    pub is_satisfied : r.matched.satisfied ≡ true
    pub has_submission : r.submission ≡ some (dcql.build_submission query r.matched)

  -- An answer of `verifyPresentation` that says valid is about an authentic presentation, as the parser
  -- of its format defines it, from which the DCQL query is satisfied; and then there is a submission.
  pub verify_presentation-IsVerified :
      (query : DcqlQuery) (token : Token) (r : VerifyResult)
      → verify_presentation tools modules dcql now query opts token ≡ ok r
      → r.valid ≡ true
      → IsVerified query token r
  unfolding verify_presentation
  verify_presentation-IsVerified query token r h v =
      let (p, parsed, h1) = >>=-eq-ok (parse_presentation tools modules dcql now opts token) _ h in
      let found = dcql.match_query query (decoded_of (first_id query.credentials) p ∷ []) in
      let made : verdict tools modules dcql now query p found ≡ r = ap (result_or r) h1 in
      let (good, satisfied) =
        (&&_iff (valid_of p) found.satisfied).0 (ap (λ x. x.valid) made ∙ v) in
      let sent : (verdict tools modules dcql now query p found).submission
          ≡ some (dcql.build_submission query found) =
        rw satisfied in
      subst (λ x. IsVerified query token x) made
        (record {
          is_genuine = parse_presentation-IsGenuine token p parsed good;
          is_matched = refl;
          is_satisfied = satisfied;
          has_submission = sent;
        })
