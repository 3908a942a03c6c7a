-- ===== src/Haip/Laws.antt =====
-- What a HAIP query is, and that a built query is one.
use online_verifier.Prelude.{
  String, ◌≡◌, refl, ◌↔◌, ◌⊎◌, inl, inr, Bool, true, false, not, ◌&&◌, Option, none, some, List, [],
  ◌∷◌, map, ◌==◌, ℕ_eq, string_eq, Bool-cases, includes, All, In, here, there, ok, err, >>-eq-ok,
  guard-eq-ok, includes-In,
}
use online_verifier.Haip.{
  HaipFormat, dc_sd_jwt, mso_mdoc, format_name, HaipQueryInput, Meta, CredentialQuery, DcqlQuery,
  no_claims, missing_sdjwt_meta, missing_mdoc_meta, claim_sets_disallowed, namespace_of, lacks,
  one_credential, build_sd_jwt, build_mdoc, build_by_format, build_with_claims, build_haip_query,
  vct_values_of, is_string, doctype_of, validate_credential, validate_credentials,
  validate_haip_query,
}

-- A list that is there and has a member.
abbrev pub IsGiven {ℓ} : {A : Type ℓ} → Option (List A) → Type ℓ
IsGiven {A} xs = (x : A) × (rest : List A) × (xs ≡ some (x ∷ rest))

given {ℓ} : {A : Type ℓ} (xs : Option (List A)) → not (lacks xs) ≡ true → IsGiven xs
unfolding lacks
given none h = cc
given (some []) h = cc
given (some (x ∷ xs)) h = (x, xs, refl)

IsGiven-lacks {ℓ} : {A : Type ℓ} (xs : Option (List A)) → IsGiven xs → lacks xs ≡ false
unfolding lacks
IsGiven-lacks xs (x, rest, e) = rw e refl

is_string-some : (o : Option String) → not (not (is_string o)) ≡ true → (s : String) × (o ≡ some s)
is_string-some none h = cc
is_string-some (some s) h = (s, refl)

not_set : (b : Bool) → not b ≡ true → b ≡ false
not_set true h = cc
not_set false h = refl

In-one : (f b : String) → In f (b ∷ []) → f ≡ b
In-one f _ here = refl
In-one f b (there h) = elim h [ ]

In-two : (f a b : String) → In f (a ∷ b ∷ []) → (f ≡ a) ⊎ (f ≡ b)
In-two f _ b here = inl refl
In-two f a b (there h) = inr (In-one f b h)

mdoc_format :
    (f : String)
    → includes ("dc+sd-jwt" ∷ "mso_mdoc" ∷ []) f ≡ true
    → (f == "dc+sd-jwt") ≡ false
    → (f == "mso_mdoc") ≡ true
mdoc_format f h differs = elim (In-two f _ _ (includes-In ("dc+sd-jwt" ∷ "mso_mdoc" ∷ []) f h)) [
  | inl same ↦ cc ((string_eq.decides f "dc+sd-jwt").1 same)
  | inr same ↦ (string_eq.decides f "mso_mdoc").1 same
]

mapped :
    (f : String → List String) (claims : List String)
    → IsGiven (some claims)
    → IsGiven (some (map f claims))
mapped f [] (c, cs, e) = cc
mapped f (c ∷ cs) _ = (f c, map f cs, refl)

module _ {Authority : Type 0} where
  -- The profile's demands on one credential: an SD-JWT names its types, an mdoc its document type,
  -- some claim is asked for, and there are no claim sets.
  pub data IsMinimal (credential : CredentialQuery Authority) : Type 0 where
    sd_jwt_minimal :
        credential.format ≡ "dc+sd-jwt"
        → IsGiven (vct_values_of credential.meta)
        → IsGiven credential.claims
        → credential.has_claim_sets ≡ false
        → IsMinimal credential
    mdoc_minimal :
        {doctype : String}
        → credential.format ≡ "mso_mdoc"
        → doctype_of credential.meta ≡ some doctype
        → IsGiven credential.claims
        → credential.has_claim_sets ≡ false
        → IsMinimal credential

  abbrev pub IsHaip : DcqlQuery Authority → Type 0
  IsHaip query =
      (first : CredentialQuery Authority) × (rest : List (CredentialQuery Authority))
      × (query.credentials ≡ some (first ∷ rest))
      × (query.has_credential_sets ≡ false)
      × All IsMinimal (first ∷ rest)

  minimal :
      (credential : CredentialQuery Authority)
      → validate_credential credential ≡ ok tt
      → IsMinimal credential
  unfolding validate_credential
  minimal credential h =
      let (a, h1) = >>-eq-ok _ _ h in
      let (b, h2) = >>-eq-ok _ _ h1 in
      let (c, h3) = >>-eq-ok _ _ h2 in
      let (d, h4) = >>-eq-ok _ _ h3 in
      let claims =
        given credential.claims (guard-eq-ok (not (lacks credential.claims)) no_claims d) in
      let sets : credential.has_claim_sets ≡ false =
        not_set _ (guard-eq-ok (not credential.has_claim_sets) claim_sets_disallowed h4) in
      let f = credential.format in
      let format = guard-eq-ok (includes ("dc+sd-jwt" ∷ "mso_mdoc" ∷ []) f) _ a in
      let vct =
        guard-eq-ok (not (f == "dc+sd-jwt" && lacks (vct_values_of credential.meta)))
          missing_sdjwt_meta b in
      let doctype =
        guard-eq-ok (not (f == "mso_mdoc" && not (is_string (doctype_of credential.meta))))
          missing_mdoc_meta c in
      elim (Bool-cases (credential.format == "dc+sd-jwt")) [
        | inl e ↦
            sd_jwt_minimal ((string_eq.decides credential.format "dc+sd-jwt").0 e)
              (given (vct_values_of credential.meta) (rw e at vct)) claims sets
        | inr e ↦
            let other : (credential.format == "mso_mdoc") ≡ true =
              mdoc_format credential.format format e in
            let (d, same) = is_string-some (doctype_of credential.meta) (rw other at doctype) in
            mdoc_minimal ((string_eq.decides credential.format "mso_mdoc").0 other) same claims sets
      ]

  minimal_passes :
      (credential : CredentialQuery Authority)
      → IsMinimal credential
      → validate_credential credential ≡ ok tt
  unfolding validate_credential
  minimal_passes credential (sd_jwt_minimal f m c s) =
      rw (f, s, IsGiven-lacks _ m, IsGiven-lacks _ c) refl
  minimal_passes credential (mdoc_minimal f m c s) = rw (f, m, s, IsGiven-lacks _ c) refl

  IsMinimal-passes-All :
      (credentials : List (CredentialQuery Authority))
      → (validate_credentials credentials ≡ ok tt) ↔ All IsMinimal credentials
  unfolding validate_credentials
  IsMinimal-passes-All [] = (λ _. tt, λ _. refl)
  IsMinimal-passes-All (c ∷ cs) = (
    λ h.
        let (a, b) = >>-eq-ok (validate_credential c) _ h in
        (minimal c a, (IsMinimal-passes-All cs).0 b),
    λ (a, b). rw (minimal_passes c a) ((IsMinimal-passes-All cs).1 b),
  )

  validated_iff :
      (credentials : Option (List (CredentialQuery Authority))) (sets : Bool)
      → (validate_haip_query (record { credentials = credentials; has_credential_sets = sets })
          ≡ ok tt)
        ↔ IsHaip (record { credentials = credentials; has_credential_sets = sets })
  unfolding validate_haip_query
  validated_iff none sets = (λ h. cc, λ (f, r, same, _, _). cc)
  validated_iff (some []) sets = (λ h. cc, λ (f, r, same, _, _). cc)
  validated_iff (some (c ∷ cs)) true = (λ h. cc, λ (f, r, same, unset, _). cc)
  validated_iff (some (c ∷ cs)) false = (
    λ h. (c, cs, refl, refl, (IsMinimal-passes-All (c ∷ cs)).0 h),
    λ (f, r, same, unset, all_minimal).
        let heads : f ≡ c = cc in
        let tails : r ≡ cs = cc in
        (IsMinimal-passes-All (c ∷ cs)).1 (rw (heads, tails) at all_minimal),
  )

  -- The validator accepts a query exactly when it has a credential, no credential sets, and each
  -- credential is minimal: of one of the two formats, with the metadata of its format, some claim and
  -- no claim sets.
  pub validate_haip_query_iff :
      (query : DcqlQuery Authority) → (validate_haip_query query ≡ ok tt) ↔ IsHaip query
  validate_haip_query_iff query = validated_iff query.credentials query.has_credential_sets

  claims-IsGiven :
      (input : HaipQueryInput Authority) (query : DcqlQuery Authority) (claims : List String)
      → build_with_claims input claims ≡ ok query
      → IsGiven (some claims) × (build_by_format input input.format ≡ ok query)
  claims-IsGiven input query [] h = cc
  claims-IsGiven input query (c ∷ cs) h = ((c, cs, refl), h)

  built :
      (input : HaipQueryInput Authority) (query : DcqlQuery Authority) (m : Meta)
      (paths : List (List String))
      → IsGiven (some paths)
      → (input.format ≡ dc_sd_jwt) × IsGiven m.vct_values
        ⊎ ((input.format ≡ mso_mdoc) × (d : String) × (m.doctype_value ≡ some d))
      → one_credential input m paths ≡ query
      → IsHaip query
  unfolding format_name
  built input query m paths claims (inl (format, types)) same =
      rw (← same) (_, [], refl, refl, (sd_jwt_minimal (rw format refl) types claims refl, tt))
  built input query m paths claims (inr (format, d, e)) same =
      rw (← same) (_, [], refl, refl, (mdoc_minimal (rw format refl) e claims refl, tt))

  sd_jwt_built :
      (input : HaipQueryInput Authority) (query : DcqlQuery Authority)
      (values : Option (List String))
      → input.format ≡ dc_sd_jwt
      → IsGiven (some input.claims)
      → build_sd_jwt input values ≡ ok query
      → IsHaip query
  sd_jwt_built input query none format claims h = cc
  sd_jwt_built input query (some []) format claims h = cc
  sd_jwt_built input query (some (v ∷ vs)) format claims h =
      built input query (record { vct_values = some (v ∷ vs); doctype_value = none })
        (map (λ c. c ∷ []) input.claims) (mapped _ _ claims) (inl (format, (v, vs, refl))) cc

  mdoc_built :
      (input : HaipQueryInput Authority) (query : DcqlQuery Authority) (doctype : Option String)
      → input.format ≡ mso_mdoc
      → IsGiven (some input.claims)
      → build_mdoc input doctype ≡ ok query
      → IsHaip query
  mdoc_built input query none format claims h = cc
  mdoc_built input query (some d) format claims h = elim (Bool-cases (d == "")) [
    | inl e ↦ let bad : err missing_mdoc_meta ≡ ok query = rw e at h in cc
    | inr e ↦
        let good : ok (
              one_credential input (record { vct_values = none; doctype_value = some d })
                (map (λ c. namespace_of d ∷ c ∷ []) input.claims))
            ≡ ok query =
          rw e at h in
        built input query (record { vct_values = none; doctype_value = some d })
          (map (λ c. namespace_of d ∷ c ∷ []) input.claims) (mapped _ _ claims)
          (inr (format, d, refl)) cc
  ]

  format_built :
      (input : HaipQueryInput Authority) (query : DcqlQuery Authority) (format : HaipFormat)
      → input.format ≡ format
      → IsGiven (some input.claims)
      → build_by_format input format ≡ ok query
      → IsHaip query
  format_built input query dc_sd_jwt e claims h =
      sd_jwt_built input query input.vct_values e claims h
  format_built input query mso_mdoc e claims h =
      mdoc_built input query input.doctype_value e claims h

  -- Every query that the builder returns is a HAIP query, so the validator accepts it.
  pub build_haip_query-validate_haip_query :
      (input : HaipQueryInput Authority) (query : DcqlQuery Authority)
      → build_haip_query input ≡ ok query
      → (validate_haip_query query ≡ ok tt) × IsHaip query
  unfolding build_haip_query
  build_haip_query-validate_haip_query input query h =
      let claims = claims-IsGiven input query input.claims h in
      let right = format_built input query input.format refl claims.0 claims.1 in
      ((validate_haip_query_iff query).1 right, right)
