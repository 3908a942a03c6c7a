-- ===== src/Response/Envelope/Laws.antt =====
-- The runs of `verifyAuthorizationResponse`: what they end in, what they keep, and when they end.
use online_verifier.Prelude.{
  ℕ, zero, suc, ◌+◌, ◌≤◌, ◌<◌, String, ◌≡◌, refl, sym, ap, ◌∙◌, subst, ◌↔◌, inl, inr, true, Option,
  none, some, List, [], ◌∷◌, arith, ltb, Bool-cases, Option-cases, length, Result, ok, err,
  >>=-eq-ok, Result-cases,
}
use online_verifier.Text.{codes}
use online_verifier.SdJwt.Json.{Json}
use online_verifier.SdJwt.Toolkit.{Toolkit}
use online_verifier.Mdoc.Parser.{Modules}
use online_verifier.Mdoc.Transcript.{
  Encoders, Jwk, build_oid4vp_session_transcript, build_openid4vp_handover_session_transcript,
}
use online_verifier.Response.{
  Token, VerifyError, missing_decryption_key, multiple_credentials, DcqlQuery, Dcql, VerifyResult,
}
use online_verifier.Response.Laws.{IsVerified, verify_presentation-IsVerified}
use online_verifier.Response.Envelope.{
  Profile, iso_18013_7, openid4vp_1_0, EnvelopeOptions, Jose, encrypted_response, is_mdoc_query,
  token_of, presentation_count, single_presentation, must_be_envelope, required,
  decrypt_authorization_response, extract_mdoc_generated_nonce, built, build_transcript,
  next_transcript, transcript_of, with_transcript, open_response, verify_plain,
  verify_authorization_response,
}

required-ok :
    {A : Type 0} (jose : Jose) (e : VerifyError) (o : Option A) {a : A}
    → required jose e o ≡ ok a
    → o ≡ some a
required-ok jose e none h = cc
required-ok jose e (some b) h = cc

just-ok : {A : Type 0} (x : Result VerifyError A) (r : A) → some x ≡ some (ok r) → x ≡ ok r
just-ok x r h = cc

-- One query id and at most one presentation pass, and nothing else does.
single_presentation_iff :
    (entries : List (List Json)) (ps : List Json)
    → (single_presentation entries ≡ ok ps) ↔ ((entries ≡ ps ∷ []) × (length ps ≤ 1))
unfolding single_presentation presentation_count
single_presentation_iff [] ps = (λ h. cc, λ (e, l). cc)
single_presentation_iff (xs ∷ []) ps = elim (Bool-cases (ltb 1 (length xs + 0))) [
  | inl e ↦ (
    λ h. let bad : err multiple_credentials ≡ ok ps = rw e at h in cc,
    λ (same, l).
        let one : xs ≡ ps = cc in absurd (let small : length xs ≤ 1 = rw one l in ground arith),
  )
  | inr e ↦ (
    λ h.
        let one : ok xs ≡ ok ps = rw e at h in
        let same : xs ≡ ps = cc in (ap (λ x. x ∷ []) same, rw (sym same) (ground arith)),
    λ (same, l). let one : xs ≡ ps = cc in rw e (ap (λ x. ok x) one),
  )
]
single_presentation_iff (xs ∷ ys ∷ rest) ps = (λ h. cc, λ (e, l). cc)

module _ (jose : Jose) (encoders : Encoders) where
  -- The encrypted branch is taken, until an envelope stands in the clear.
  pub data Opened : EnvelopeOptions → Json → EnvelopeOptions → Json → Type 0 where
    clear : {opts : EnvelopeOptions} {e : Json} → encrypted_response e ≡ none → Opened opts e opts e
    opened :
        {opts next last : EnvelopeOptions} {e decrypted f : Json} (jwe : String)
        → encrypted_response e ≡ some jwe
        → open_response jose encoders opts jwe ≡ ok (next, decrypted)
        → Opened next decrypted last f
        → Opened opts e last f

  -- A transcript that `verifyAuthorizationResponse` builds is of the request's own client, response URI
  -- and nonce.
  pub data IsBuilt (opts : EnvelopeOptions) (transcript : List ℕ) : Type 0 where
    of_iso :
        {client_id response_uri nonce : String} (mdoc_nonce : String)
        → opts.client_id ≡ some client_id
        → opts.response_uri ≡ some response_uri
        → opts.verify.nonce ≡ some nonce
        → build_oid4vp_session_transcript encoders client_id response_uri nonce mdoc_nonce
          ≡ transcript
        → IsBuilt opts transcript
    of_openid4vp :
        {client_id response_uri nonce : String} {jwk : Jwk}
        → opts.client_id ≡ some client_id
        → opts.response_uri ≡ some response_uri
        → opts.verify.nonce ≡ some nonce
        → opts.verifier_encryption_jwk ≡ some jwk
        → build_openid4vp_handover_session_transcript encoders client_id nonce response_uri
            (some jwk)
          ≡ some transcript
        → IsBuilt opts transcript

  -- Of the options, a step changes the transcript only, and that only if the caller gave none.
  pub record Keeps (opts next : EnvelopeOptions) : Type 0 where
    pub same_rest : next ≡ with_transcript jose encoders opts next.verify.mdoc_session_transcript
    pub given_stays :
        (t : List ℕ)
        → opts.verify.mdoc_session_transcript ≡ some t
        → next.verify.mdoc_session_transcript ≡ some t
    pub made_from :
        (t : List ℕ)
        → opts.verify.mdoc_session_transcript ≡ none
        → next.verify.mdoc_session_transcript ≡ some t
        → IsBuilt opts t

  built-some : (o : Option (List ℕ)) (t : List ℕ) → built jose encoders o ≡ ok (some t) → o ≡ some t
  built-some none t h = cc
  built-some (some x) t h = let same : some x ≡ some t = cc in same

  of_nonce :
      (opts : EnvelopeOptions) (jwk : Option Jwk) (jwe c r n : String) (t : List ℕ)
      → opts.client_id ≡ some c
      → opts.response_uri ≡ some r
      → opts.verify.nonce ≡ some n
      → build_transcript jose encoders (some iso_18013_7) jwk jwe c r n ≡ ok (some t)
      → IsBuilt opts t
  unfolding build_transcript
  of_nonce opts jwk jwe c r n t ec er en h =
      elim (Option-cases (extract_mdoc_generated_nonce jose jwe)) [
        | inl e ↦ let bad : ok none ≡ ok (some t) = rw (e, build_transcript) at h in cc
        | inr (m, e) ↦
            let made : ok (some (build_oid4vp_session_transcript encoders c r n m)) ≡ ok (some t) =
              rw (e, build_transcript) at h in
            of_iso m ec er en cc
      ]

  build_transcript-IsBuilt :
      (opts : EnvelopeOptions) (profile : Option Profile) (jwk : Option Jwk) (jwe c r n : String)
      (t : List ℕ)
      → opts.verifier_encryption_jwk ≡ jwk
      → opts.client_id ≡ some c
      → opts.response_uri ≡ some r
      → opts.verify.nonce ≡ some n
      → build_transcript jose encoders profile jwk jwe c r n ≡ ok (some t)
      → IsBuilt opts t
  unfolding build_transcript
  build_transcript-IsBuilt opts (some openid4vp_1_0) none jwe c r n t ej ec er en h = cc
  build_transcript-IsBuilt opts (some openid4vp_1_0) (some jwk) jwe c r n t ej ec er en h =
      of_openid4vp ec er en ej (built-some _ t h)
  build_transcript-IsBuilt opts (some iso_18013_7) jwk jwe c r n t ej ec er en h =
      of_nonce opts jwk jwe c r n t ec er en h
  build_transcript-IsBuilt opts none jwk jwe c r n t ej ec er en h =
      of_nonce opts jwk jwe c r n t ec er en h

  next_transcript-IsBuilt :
      (opts : EnvelopeOptions) (jwe : String) (c r n : Option String) (t : List ℕ)
      → opts.client_id ≡ c
      → opts.response_uri ≡ r
      → opts.verify.nonce ≡ n
      → next_transcript jose encoders none opts.session_transcript_profile
          opts.verifier_encryption_jwk jwe c r n
        ≡ ok (some t)
      → IsBuilt opts t
  unfolding next_transcript
  next_transcript-IsBuilt opts jwe (some c) (some r) (some n) t ec er en h =
      build_transcript-IsBuilt opts opts.session_transcript_profile opts.verifier_encryption_jwk jwe
        c r n t refl ec er en h
  next_transcript-IsBuilt opts jwe none r n t ec er en h = cc
  next_transcript-IsBuilt opts jwe (some c) none n t ec er en h = cc
  next_transcript-IsBuilt opts jwe (some c) (some r) none t ec er en h = cc

  next_transcript-given :
      (profile : Option Profile) (jwk : Option Jwk) (jwe : String) (c r n : Option String)
      (t : List ℕ) (o : Option (List ℕ))
      → next_transcript jose encoders (some t) profile jwk jwe c r n ≡ ok o
      → o ≡ some t
  unfolding next_transcript
  next_transcript-given profile jwk jwe c r n t o h = cc

  open_response-Keeps :
      (opts next : EnvelopeOptions) (jwe : String) (decrypted : Json)
      → open_response jose encoders opts jwe ≡ ok (next, decrypted)
      → Keeps opts next
  unfolding open_response
  open_response-Keeps opts next jwe decrypted h =
      let (key, k, h1) = >>=-eq-ok (required jose missing_decryption_key opts.decryption_key) _ h in
      let (transcript, made, h2) = >>=-eq-ok (transcript_of jose encoders opts jwe) _ h1 in
      let (envelope, d, h3) = >>=-eq-ok (decrypt_authorization_response jose jwe key) _ h2 in
      let same : with_transcript jose encoders opts transcript ≡ next = cc in
      subst (λ x. Keeps opts x) same
        (record {
          same_rest = refl;
          given_stays = λ t e. next_transcript-given _ _ _ _ _ _ t transcript (rw e at made);
          made_from = λ t e f.
              next_transcript-IsBuilt opts jwe opts.client_id opts.response_uri opts.verify.nonce t
                refl refl refl (rw (e, f) at made);
        })

  Keeps-refl : (opts : EnvelopeOptions) → Keeps opts opts
  Keeps-refl opts = record { same_rest = refl; given_stays = λ t e. e; made_from = λ t e f. cc }

  IsBuilt-with_transcript :
      (opts : EnvelopeOptions) (o : Option (List ℕ)) (t : List ℕ)
      → IsBuilt (with_transcript jose encoders opts o) t
      → IsBuilt opts t
  IsBuilt-with_transcript opts o t (of_iso m c r n h) = of_iso m c r n h
  IsBuilt-with_transcript opts o t (of_openid4vp c r n j h) = of_openid4vp c r n j h

  Keeps-trans : (a b c : EnvelopeOptions) → Keeps a b → Keeps b c → Keeps a c
  Keeps-trans a b c k l = record {
    same_rest =
        l.same_rest
        ∙ ap (λ x. with_transcript jose encoders x c.verify.mdoc_session_transcript) k.same_rest;
    given_stays = λ t e. l.given_stays t (k.given_stays t e);
    made_from = λ t e f. elim (Option-cases b.verify.mdoc_session_transcript) [
      | inl g ↦
          IsBuilt-with_transcript a b.verify.mdoc_session_transcript t
            (subst (λ x. IsBuilt x t) k.same_rest (l.made_from t g f))
      | inr (x, g) ↦
          let stays = l.given_stays x g in
          let same : x ≡ t = cc in subst (λ y. IsBuilt a y) same (k.made_from x e g)
    ];
  }

  -- However often an envelope is opened, the options stay as the caller gave them, but for the mdoc
  -- session transcript; a transcript of the caller's stays as well, and one that is built is of the
  -- caller's own client, response URI and nonce.
  pub Opened-Keeps :
      (opts : EnvelopeOptions) (e : Json) (last : EnvelopeOptions) (f : Json)
      → Opened opts e last f
      → Keeps opts last
  Opened-Keeps opts e last f (clear h) = Keeps-refl opts
  Opened-Keeps opts e last f (opened {next = next} {decrypted = d} jwe h step rest) =
      Keeps-trans opts next last (open_response-Keeps opts next jwe d step)
        (Opened-Keeps next d last f rest)

  module _ (tools : Toolkit) (modules : Modules) (dcql : Dcql) (now : ℕ) (query : DcqlQuery) where
    -- An envelope in the clear holds one presentation, of which the answer is verified.
    pub record IsAnswered (opts : EnvelopeOptions) (envelope : Json) (r : VerifyResult)
        : Type 0 where
      pub presentations : List Json
      pub token : Token
      pub is_single : must_be_envelope envelope ≡ ok (presentations ∷ [])
      pub at_most_one : length presentations ≤ 1
      pub is_read : token_of (is_mdoc_query query.credentials) presentations ≡ ok token
      pub is_verified : IsVerified tools modules dcql now opts.verify query token r

    verify_plain-IsAnswered :
        (opts : EnvelopeOptions) (envelope : Json) (r : VerifyResult)
        → verify_plain jose encoders tools modules dcql now query opts envelope ≡ ok r
        → r.valid ≡ true
        → IsAnswered opts envelope r
    unfolding verify_plain
    verify_plain-IsAnswered opts envelope r h v =
        let (entries, e, h1) = >>=-eq-ok (must_be_envelope envelope) _ h in
        let (ps, one, h2) = >>=-eq-ok (single_presentation entries) _ h1 in
        let (token, t, h3) = >>=-eq-ok (token_of (is_mdoc_query query.credentials) ps) _ h2 in
        let (same, few) = (single_presentation_iff entries ps).0 one in
        record {
          presentations = ps;
          token = token;
          is_single = e ∙ ap (λ x. ok x) same;
          at_most_one = few;
          is_read = t;
          is_verified =
              verify_presentation-IsVerified tools modules dcql now opts.verify query token r h3 v;
        }

    pub record IsSettled (opts : EnvelopeOptions) (envelope : Json) (r : VerifyResult)
        : Type 0 where
      pub last : EnvelopeOptions
      pub inner : Json
      pub is_opened : Opened opts envelope last inner
      pub keeps : Keeps opts last
      pub is_answered : IsAnswered last inner r

    IsSettled-later :
        (opts next : EnvelopeOptions) (e d : Json) (r : VerifyResult) (jwe : String)
        → encrypted_response e ≡ some jwe
        → open_response jose encoders opts jwe ≡ ok (next, d)
        → IsSettled next d r
        → IsSettled opts e r
    IsSettled-later opts next e d r jwe is_jwe step s = record {
      last = s.last;
      inner = s.inner;
      is_opened = opened jwe is_jwe step s.is_opened;
      keeps = Keeps-trans opts next s.last (open_response-Keeps opts next jwe d step) s.keeps;
      is_answered = s.is_answered;
    }

    -- An answer of `verifyAuthorizationResponse` that says valid comes from opening the envelope as far as
    -- it is encrypted; what is in it has one query id with at most one presentation, and this is
    -- authentic and satisfies the query, under the caller's options; only the mdoc session transcript may
    -- have been built on the way, and then of the caller's own client, response URI and nonce.
    pub verify_authorization_response-IsSettled :
        (fuel : ℕ) (opts : EnvelopeOptions) (envelope : Json) (r : VerifyResult)
        → verify_authorization_response jose encoders tools modules dcql now query fuel opts
            envelope
          ≡ some (ok r)
        → r.valid ≡ true
        → IsSettled opts envelope r
    unfolding verify_authorization_response
    verify_authorization_response-IsSettled zero opts envelope r h v = cc
    verify_authorization_response-IsSettled (suc fuel) opts envelope r h v =
        elim (Option-cases (encrypted_response envelope)) [
          | inl e ↦
              let answer : some
                    (verify_plain jose encoders tools modules dcql now query opts envelope)
                  ≡ some (ok r) =
                rw (e, verify_authorization_response) at h in
              record {
                last = opts;
                inner = envelope;
                is_opened = clear e;
                keeps = Keeps-refl opts;
                is_answered = verify_plain-IsAnswered opts envelope r (just-ok _ r answer) v;
              }
          | inr (jwe, e) ↦ elim (Result-cases (open_response jose encoders opts jwe)) [
            | inl ((next, d), step) ↦ IsSettled-later opts next envelope d r jwe e step (
                verify_authorization_response-IsSettled fuel next d r
                  (rw (e, step, verify_authorization_response) at h) v)
            | inr (x, step) ↦
                let bad : some (err x) ≡ some (ok r) =
                  rw (e, step, verify_authorization_response) at h in
                cc
          ]
        ]

    -- If a plaintext never holds an encrypted envelope that is as long as the one it came from, the calls
    -- of `verifyAuthorizationResponse` end, after one more than the envelope has characters.
    pub verify_authorization_response_ends :
        (shrinks : (jwe inner : String) (key : List ℕ) (decrypted : Json)
          → decrypt_authorization_response jose jwe key ≡ ok decrypted
          → encrypted_response decrypted ≡ some inner
          → length (codes inner) < length (codes jwe))
        (fuel : ℕ) (opts : EnvelopeOptions) (envelope : Json)
        → ((jwe : String)
            → encrypted_response envelope ≡ some jwe
            → suc (length (codes jwe)) < fuel)
        → 0 < fuel
        → (answer : Result VerifyError VerifyResult) × (verify_authorization_response jose encoders
              tools modules dcql now query fuel opts envelope
            ≡ some answer)
    unfolding verify_authorization_response open_response
    verify_authorization_response_ends shrinks zero opts envelope short some_fuel =
        absurd (omega arith)
    verify_authorization_response_ends shrinks (suc fuel) opts envelope short some_fuel =
        elim (Option-cases (encrypted_response envelope)) [
          | inl e ↦ (
            verify_plain jose encoders tools modules dcql now query opts envelope,
            rw (e, verify_authorization_response),
          )
          | inr (jwe, e) ↦ elim (Result-cases (open_response jose encoders opts jwe)) [
            | inl ((next, d), step) ↦
                let (key, k, h1) =
                  >>=-eq-ok (required jose missing_decryption_key opts.decryption_key) _ step in
                let (transcript, made, h2) =
                  >>=-eq-ok (transcript_of jose encoders opts jwe) _ h1 in
                let (inner, decrypts, h3) =
                  >>=-eq-ok (decrypt_authorization_response jose jwe key) _ h2 in
                let same : inner ≡ d = cc in
                let room = short jwe e in
                let (answer, run) =
                  verify_authorization_response_ends shrinks fuel next d
                    (λ j g.
                      let less = shrinks jwe j key d (decrypts ∙ ap (λ x. ok x) same) g in
                      omega arith)
                    (omega arith) in
                (answer, rw (e, step, verify_authorization_response) run)
            | inr (x, step) ↦ (err x, rw (e, step, verify_authorization_response))
          ]
        ]
