-- ===== src/Mdoc/Parser/Valid.antt =====
-- A presentation that the mdoc parser calls valid is authentic.
use online_verifier.Prelude.{
  ℕ, ◌≡◌, ap, ◌∙◌, subst, Bool, true, false, Option, none, some, List, [], ◌∷◌, ℕ_eq, string_eq,
  includes, In, Result, ok, err, guard, >>=-eq-ok, >>-eq-ok, guard-eq-ok, includes-In,
}
use online_verifier.Trust.Evaluator.{TrustEvaluationResult}
use online_verifier.Mdoc.Cbor.{Cbor, table, Entries, get}
use online_verifier.Mdoc.Mso.{CredentialError, MobileSecurityObject}
use online_verifier.Mdoc.Digest.{DigestLogEntry, NameSpaces, verify_all_digests, required}
use online_verifier.Mdoc.Digest.Laws.{AllCommitted, verify_all_digests-AllCommitted}
use online_verifier.Mdoc.Claims.{extract_name_spaces, map_raw_to_claims}
use online_verifier.Mdoc.Cose.{CoseSign1}
use online_verifier.Mdoc.Parser.{
  Modules, ParseOptions, PresentationResult, throws, returns, Step, lift, must_be_table,
  first_document, must_be_array, first_certificate, check_digests, allowed, check_trust,
  check_device_auth, check_issuer_auth, check_items, parse_steps, finish, parse,
}
use online_verifier.Mdoc.Parser.Laws.{
  IsTrusted, IsIssued, IsHeld, lift-ok, must_be_table-ok, first_certificate-ok,
  check_trust-IsTrusted, check_issuer_auth-IsIssued, check_device_auth-IsHeld,
}

abbrev result_or : PresentationResult → Step PresentationResult → PresentationResult
result_or d (ok r) = r
result_or d (err _) = d

abbrev valid_of : Result CredentialError PresentationResult → Bool
valid_of (ok r) = r.valid
valid_of (err _) = true

required-ok {ℓ} : {A : Type ℓ} (o : Option A) {a : A} → required o ≡ ok a → o ≡ some a
required-ok none h = cc
required-ok (some b) h = cc

check_digests-ok :
    (allow : Bool) (cert : List ℕ) (v : List DigestLogEntry × Bool) (log : List DigestLogEntry)
    (i : Bool)
    → check_digests allow cert v ≡ ok (log, i)
    → (v ≡ (log, i)) × (allow ≡ false → i ≡ false)
unfolding check_digests
check_digests-ok allow cert (l, false) log i h = (cc, λ _. cc)
check_digests-ok true cert (l, true) log i h = (cc, λ e. cc)
check_digests-ok false cert (l, true) log i h = cc

module _ (modules : Modules) (opts : ParseOptions) (now : ℕ) where
  -- The items of the namespaces are the issuer's, unless the caller allows a mismatch, and the claims
  -- are read off them.
  pub record IsBacked (issuer_signed : Entries) (mso : MobileSecurityObject)
      (r : PresentationResult) : Type 0 where
    pub ns_raw : Entries
    pub name_spaces : NameSpaces
    pub in_document : get issuer_signed "nameSpaces" ≡ some (table ns_raw)
    pub extracted : extract_name_spaces ns_raw ≡ ok name_spaces
    pub mapped_claims :
        map_raw_to_claims modules.codec name_spaces ≡ ok (r.claims, r.namespaced_claims)
    pub all_committed :
        opts.allow_digest_mismatch ≡ false → AllCommitted modules.codec mso name_spaces

  pub record IsAuthentic (vp_token : List ℕ) (r : PresentationResult) : Type 0 where
    pub device_response : Entries
    pub document : Entries
    pub issuer_signed : Entries
    pub issuer_auth : Cbor
    pub cose : CoseSign1
    pub mso : MobileSecurityObject
    pub more_certificates : List (List ℕ)
    pub decoded : modules.codec.decode vp_token ≡ some (table device_response)
    pub is_first : first_document (get device_response "documents") ≡ ok document
    pub has_issuer_signed : get document "issuerSigned" ≡ some (table issuer_signed)
    pub has_issuer_auth : must_be_array (get issuer_signed "issuerAuth") ≡ ok issuer_auth
    pub decoded_cose : modules.decode_cose_sign1 (modules.encode issuer_auth) ≡ ok cose
    pub allowed_algorithm : In cose.alg (allowed modules opts now)
    pub leaf : cose.x5chain ≡ r.certificate ∷ more_certificates
    pub is_trusted : IsTrusted modules opts now r.certificate r.trust
    pub is_issued : IsIssued modules opts now cose r.certificate mso
    pub is_backed : IsBacked issuer_signed mso r
    pub is_held : IsHeld modules opts now document mso

  check_items-ok :
      (document issuer_signed : Entries) (cert : List ℕ) (trust : Option TrustEvaluationResult)
      (mso : MobileSecurityObject) (r : PresentationResult)
      → check_items modules opts now document issuer_signed cert trust mso ≡ ok r
      → IsBacked issuer_signed mso r
        × IsHeld modules opts now document mso
        × (cert ≡ r.certificate)
        × (trust ≡ r.trust)
  unfolding check_items
  check_items-ok document issuer_signed cert trust mso r h =
      let (ns_raw, raw, h1) = >>=-eq-ok (must_be_table (get issuer_signed "nameSpaces")) _ h in
      let (name_spaces, extracted, h2) = >>=-eq-ok (lift (extract_name_spaces ns_raw)) _ h1 in
      let (verdict, verified, h3) =
        >>=-eq-ok (lift (verify_all_digests modules.codec name_spaces mso)) _ h2 in
      let ((log, ignored), allowed_digests, h4) =
        >>=-eq-ok (check_digests opts.allow_digest_mismatch cert verdict) _ h3 in
      let (_, held, h5) = >>=-eq-ok (check_device_auth modules opts now cert document mso) _ h4 in
      let ((flat, namespaced), found, h6) =
        >>=-eq-ok (lift (map_raw_to_claims modules.codec name_spaces)) _ h5 in
      let (same, strict) =
        check_digests-ok opts.allow_digest_mismatch cert verdict log ignored allowed_digests in
      let digests : verify_all_digests modules.codec name_spaces mso ≡ ok (log, ignored) =
        lift-ok _ verified ∙ ap ok same in
      let made = ap (result_or r) h6 in
      (
        record {
          ns_raw = ns_raw;
          name_spaces = name_spaces;
          in_document = must_be_table-ok _ ns_raw raw;
          extracted = lift-ok _ extracted;
          mapped_claims = lift-ok _ found ∙ ap (λ x. ok (x.claims, x.namespaced_claims)) made;
          all_committed = λ a.
              verify_all_digests-AllCommitted modules.codec mso name_spaces log
                (digests ∙ ap (λ b. ok (log, b)) (strict a));
        },
        check_device_auth-IsHeld modules opts now cert document mso held,
        ap (λ x. x.certificate) made,
        ap (λ x. x.trust) made,
      )

  parse_steps-IsAuthentic :
      (vp_token : List ℕ) (r : PresentationResult)
      → parse_steps modules opts now vp_token ≡ ok r
      → IsAuthentic vp_token r
  unfolding parse_steps
  parse_steps-IsAuthentic vp_token r h =
      let (decoded, d, h1) = >>=-eq-ok (lift (required (modules.codec.decode vp_token))) _ h in
      let (response, t, h2) = >>=-eq-ok (must_be_table (some decoded)) _ h1 in
      let (document, first, h3) = >>=-eq-ok (first_document (get response "documents")) _ h2 in
      let (issuer_signed, signed, h4) =
        >>=-eq-ok (must_be_table (get document "issuerSigned")) _ h3 in
      let (issuer_auth, auth, h5) =
        >>=-eq-ok (must_be_array (get issuer_signed "issuerAuth")) _ h4 in
      let (cose, c, h6) =
        >>=-eq-ok (lift (modules.decode_cose_sign1 (modules.encode issuer_auth))) _ h5 in
      let (algorithm, h7) =
        >>-eq-ok (guard (includes (allowed modules opts now) cose.alg) (returns [] none)) _ h6 in
      let (cert, leaf, h8) = >>=-eq-ok (first_certificate cose.x5chain) _ h7 in
      let (trust, trusted, h9) = >>=-eq-ok (check_trust modules opts now cert) _ h8 in
      let (mso, issued, h10) = >>=-eq-ok (check_issuer_auth modules opts now cose cert) _ h9 in
      let (backed, held, same, given) =
        check_items-ok document issuer_signed cert trust mso r h10 in
      let (rest, chain) = first_certificate-ok cose.x5chain cert leaf in
      record {
        device_response = response;
        document = document;
        issuer_signed = issuer_signed;
        issuer_auth = issuer_auth;
        cose = cose;
        mso = mso;
        more_certificates = rest;
        decoded = required-ok _ (lift-ok _ d) ∙ must_be_table-ok (some decoded) response t;
        is_first = first;
        has_issuer_signed = must_be_table-ok _ issuer_signed signed;
        has_issuer_auth = auth;
        decoded_cose = lift-ok _ c;
        allowed_algorithm =
            includes-In (allowed modules opts now) cose.alg
              (guard-eq-ok _ (returns [] none) algorithm);
        leaf = chain ∙ ap (λ x. x ∷ rest) same;
        is_trusted =
            subst (λ x. IsTrusted modules opts now x r.trust) same
              (subst (λ x. IsTrusted modules opts now cert x) given
                (check_trust-IsTrusted modules opts now cert trust trusted));
        is_issued =
            subst (λ x. IsIssued modules opts now cose x mso) same
              (check_issuer_auth-IsIssued modules opts now cose cert mso issued);
        is_backed = backed;
        is_held = held;
      }

  finish-valid :
      (s : Step PresentationResult) (r : PresentationResult)
      → finish s ≡ ok r
      → r.valid ≡ true
      → s ≡ ok r
  finish-valid (ok x) r h v = cc
  finish-valid (err (returns cert log)) r h v =
      let same : false ≡ r.valid = ap (λ x. valid_of x) h in cc
  finish-valid (err (throws e)) r h v = cc

  pub parse-IsAuthentic :
      (vp_token : List ℕ) (r : PresentationResult)
      → parse modules opts now vp_token ≡ ok r
      → r.valid ≡ true
      → IsAuthentic vp_token r
  unfolding parse
  parse-IsAuthentic vp_token r h v =
      parse_steps-IsAuthentic vp_token r
        (finish-valid (parse_steps modules opts now vp_token) r h v)
