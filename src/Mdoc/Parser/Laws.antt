-- ===== src/Mdoc/Parser/Laws.antt =====
-- What stands behind a presentation that the mdoc parser calls valid.
use online_verifier.Prelude.{
  inl, inr, none, some, Bool-cases, Option, ℕ, String, ◌≡◌, refl, sym, ◌∙◌, subst, true, false,
  Option, none, some, List, [], ◌∷◌, ◌==◌, ℕ_eq, string_eq, any, Any, Result, ok, err, >>=-eq-ok,
  guard-eq-ok, any_sound,
}
use online_verifier.Trust.Cert.{bytes_equal, bytes_equal_iff}
use online_verifier.Trust.Evaluator.{TrustEvaluationResult}
use online_verifier.Mdoc.Cbor.{
  Cbor, bytes, text, number, negative, array, table, tag, embedded, other, Entries, get,
}
use online_verifier.Mdoc.Mso.{
  CredentialError, malformed, expired, digest_mismatch, exception, MobileSecurityObject,
  validate_mso_validity, validate_mso_doc_type, validate_mso_validity_iff, InWindow,
}
use online_verifier.Mdoc.Cose.{CoseSign1}
use online_verifier.Mdoc.Parser.{
  Modules, ParseOptions, throws, returns, lift, catch_malformed, catch_expired, must_be_table,
  first_certificate, check_byte_equality, check_doc_type, must_be_signed, must_have_transcript,
  must_have_key, allowed, check_trust, check_device_auth, check_issuer_auth,
}

pub lift-ok : {A : Type 0} (r : Result CredentialError A) {a : A} → lift r ≡ ok a → r ≡ ok a
lift-ok (ok b) h = cc
lift-ok (err e) h = cc

catch_malformed-ok :
    (cert : List ℕ) (r : Result CredentialError (Unit {0}))
    → catch_malformed cert r ≡ ok tt
    → r ≡ ok tt
catch_malformed-ok cert (ok _) h = refl
catch_malformed-ok cert (err malformed) h = cc
catch_malformed-ok cert (err expired) h = cc
catch_malformed-ok cert (err digest_mismatch) h = cc
catch_malformed-ok cert (err exception) h = cc

catch_expired-ok :
    (cert : List ℕ) (r : Result CredentialError (Unit {0}))
    → catch_expired cert r ≡ ok tt
    → r ≡ ok tt
catch_expired-ok cert (ok _) h = refl
catch_expired-ok cert (err malformed) h = cc
catch_expired-ok cert (err expired) h = cc
catch_expired-ok cert (err digest_mismatch) h = cc
catch_expired-ok cert (err exception) h = cc

pub must_be_table-ok : (o : Option Cbor) (e : Entries) → must_be_table o ≡ ok e → o ≡ some (table e)
must_be_table-ok (some (table f)) e h = cc
must_be_table-ok none e h = cc
must_be_table-ok (some (bytes _)) e h = cc
must_be_table-ok (some (text _)) e h = cc
must_be_table-ok (some (number _)) e h = cc
must_be_table-ok (some (negative _)) e h = cc
must_be_table-ok (some (array _)) e h = cc
must_be_table-ok (some (tag _ _)) e h = cc
must_be_table-ok (some (embedded _)) e h = cc
must_be_table-ok (some other) e h = cc

must_be_signed-ok :
    (cert : List ℕ) (o : Option Cbor) (e : Entries)
    → must_be_signed cert o ≡ ok e
    → o ≡ some (table e)
unfolding must_be_signed
must_be_signed-ok cert (some (table f)) e h = cc
must_be_signed-ok cert none e h = cc
must_be_signed-ok cert (some (bytes _)) e h = cc
must_be_signed-ok cert (some (text _)) e h = cc
must_be_signed-ok cert (some (number _)) e h = cc
must_be_signed-ok cert (some (negative _)) e h = cc
must_be_signed-ok cert (some (array _)) e h = cc
must_be_signed-ok cert (some (tag _ _)) e h = cc
must_be_signed-ok cert (some (embedded _)) e h = cc
must_be_signed-ok cert (some other) e h = cc

must_have_transcript-ok :
    (cert : List ℕ) (o : Option (List ℕ)) (t : List ℕ)
    → must_have_transcript cert o ≡ ok t
    → (b : ℕ) × (rest : List ℕ) × (o ≡ some (b ∷ rest)) × (t ≡ b ∷ rest)
unfolding must_have_transcript
must_have_transcript-ok cert none t h = cc
must_have_transcript-ok cert (some []) t h = cc
must_have_transcript-ok cert (some (b ∷ rest)) t h = (b, rest, refl, cc)

must_have_key-ok :
    (cert : List ℕ) (o : Option (List ℕ)) (k : List ℕ) → must_have_key cert o ≡ ok k → o ≡ some k
unfolding must_have_key
must_have_key-ok cert none k h = cc
must_have_key-ok cert (some b) k h = cc

check_doc_type-ok :
    (o : Option String) (cert : List ℕ) (mso : MobileSecurityObject) (d : String)
    → check_doc_type o cert mso ≡ ok tt
    → o ≡ some d
    → mso.doc_type ≡ d
unfolding check_doc_type validate_mso_doc_type
check_doc_type-ok none cert mso d h e = cc
check_doc_type-ok (some x) cert mso d h e =
    let passes = guard-eq-ok (mso.doc_type == x) malformed (catch_malformed-ok cert _ h) in
    (string_eq.decides mso.doc_type x).0 passes ∙ cc

pub first_certificate-ok :
    (chain : List (List ℕ)) (cert : List ℕ)
    → first_certificate chain ≡ ok cert
    → (rest : List (List ℕ)) × (chain ≡ cert ∷ rest)
first_certificate-ok [] cert h = cc
first_certificate-ok (c ∷ rest) cert h = (rest, cc)

module _ (modules : Modules) (opts : ParseOptions) (now : ℕ) where
  -- The issuer's certificate is trusted: the evaluator accepts it, or without a trust store it is one
  -- of the trusted certificates, or there are none and the caller skips the check.
  pub data IsTrusted (cert : List ℕ) : Option TrustEvaluationResult → Type 0 where
    evaluated :
        {r : TrustEvaluationResult}
        → opts.has_trust_store ≡ true
        → modules.evaluate cert ≡ ok r
        → IsTrusted cert (some r)
    listed :
        opts.has_trust_store ≡ false
        → Any (λ t. t ≡ cert) opts.trusted_certificates
        → IsTrusted cert none
    unchecked :
        opts.has_trust_store ≡ false
        → opts.trusted_certificates ≡ []
        → opts.skip_trust_check ≡ true
        → IsTrusted cert none

  -- The issuer signed the object by the certificate's key, the dates of the object that are no Invalid
  -- Dates put now inside its validity window, and it is of the document type that was asked for.
  pub record IsIssued (cose : CoseSign1) (cert : List ℕ) (mso : MobileSecurityObject) : Type 0 where
    pub public_key : List ℕ
    pub of_certificate : modules.import_key cert cose.alg ≡ ok public_key
    pub is_signed : modules.verify_cose_sign1 cose public_key (allowed modules opts now) ≡ ok tt
    pub of_payload : modules.decode_mso cose.payload ≡ ok mso
    pub in_window : InWindow mso.validity_info now
    pub has_type : (d : String) → opts.expected_doc_type ≡ some d → mso.doc_type ≡ d

  -- The holder's device signed the session transcript of the caller by the key that the issuer
  -- committed to.
  pub record IsHeld (document : Entries) (mso : MobileSecurityObject) : Type 0 where
    pub device_signed : Entries
    pub device_key : List ℕ
    pub first_byte : ℕ
    pub more_bytes : List ℕ
    pub in_document : get document "deviceSigned" ≡ some (table device_signed)
    pub committed_key : mso.device_key ≡ some device_key
    pub of_caller : opts.mdoc_session_transcript ≡ some (first_byte ∷ more_bytes)
    pub is_verified :
        modules.verify_device_auth device_signed device_key mso.doc_type
          (first_byte ∷ more_bytes)
          (allowed modules opts now)
        ≡ ok tt

  byte_equality-IsTrusted :
      (cert : List ℕ) (trusted : List (List ℕ))
      → opts.has_trust_store ≡ false
      → opts.trusted_certificates ≡ trusted
      → check_byte_equality opts cert trusted ≡ ok tt
      → IsTrusted cert none
  unfolding check_byte_equality
  byte_equality-IsTrusted cert [] n e h =
      unchecked n e (guard-eq-ok opts.skip_trust_check (throws malformed) h)
  byte_equality-IsTrusted cert (t ∷ trusted) n e h =
      let found = guard-eq-ok (any (λ c. bytes_equal c cert) (t ∷ trusted)) (returns cert none) h in
      let same : Any (λ c. c ≡ cert) (t ∷ trusted) =
        any_sound (λ c. bytes_equal c cert) (λ c. c ≡ cert) (λ c. bytes_equal_iff c cert)
          (t ∷ trusted) found in
      listed n (subst (λ l. Any (λ c. c ≡ cert) l) (sym e) same)

  pub check_trust-IsTrusted :
      (cert : List ℕ) (trust : Option TrustEvaluationResult)
      → check_trust modules opts now cert ≡ ok trust
      → IsTrusted cert trust
  unfolding check_trust check_byte_equality
  check_trust-IsTrusted cert trust h = elim (Bool-cases opts.has_trust_store) [
    | inl store ↦
        let (r, accepts, given) = >>=-eq-ok (lift (modules.evaluate cert)) _ (rw store at h) in
        let same : some r ≡ trust = cc in
        subst (λ x. IsTrusted cert x) same (evaluated store (lift-ok _ accepts))
    | inr n ↦
        let (_, passed, given) =
          >>=-eq-ok (check_byte_equality opts cert opts.trusted_certificates) _ (rw n at h) in
        let same : none ≡ trust = cc in
        subst (λ x. IsTrusted cert x) same
          (byte_equality-IsTrusted cert opts.trusted_certificates n refl passed)
  ]

  pub check_issuer_auth-IsIssued :
      (cose : CoseSign1) (cert : List ℕ) (mso : MobileSecurityObject)
      → check_issuer_auth modules opts now cose cert ≡ ok mso
      → IsIssued cose cert mso
  unfolding check_issuer_auth
  check_issuer_auth-IsIssued cose cert mso h =
      let (key, imported, h1) = >>=-eq-ok (lift (modules.import_key cert cose.alg)) _ h in
      let (_, verified, h2) =
        >>=-eq-ok
          (catch_malformed cert (modules.verify_cose_sign1 cose key (allowed modules opts now))) _
          h1 in
      let (found, decoded, h3) = >>=-eq-ok (lift (modules.decode_mso cose.payload)) _ h2 in
      let (_, fresh, h4) = >>=-eq-ok (catch_expired cert (validate_mso_validity found now)) _ h3 in
      let (_, typed, h5) = >>=-eq-ok (check_doc_type opts.expected_doc_type cert found) _ h4 in
      let same : found ≡ mso = cc in
      subst (λ m. IsIssued cose cert m) same
        (record {
          public_key = key;
          of_certificate = lift-ok _ imported;
          is_signed = catch_malformed-ok cert _ verified;
          of_payload = lift-ok _ decoded;
          in_window = (validate_mso_validity_iff found now).0 (catch_expired-ok cert _ fresh);
          has_type = λ d e. check_doc_type-ok opts.expected_doc_type cert found d typed e;
        })

  pub check_device_auth-IsHeld :
      (cert : List ℕ) (document : Entries) (mso : MobileSecurityObject)
      → check_device_auth modules opts now cert document mso ≡ ok tt
      → IsHeld document mso
  unfolding check_device_auth
  check_device_auth-IsHeld cert document mso h =
      let (signed, s, h1) = >>=-eq-ok (must_be_signed cert (get document "deviceSigned")) _ h in
      let (transcript, t, h2) =
        >>=-eq-ok (must_have_transcript cert opts.mdoc_session_transcript) _ h1 in
      let (key, k, h3) = >>=-eq-ok (must_have_key cert mso.device_key) _ h2 in
      let (b, rest, given, whole) = must_have_transcript-ok cert _ transcript t in
      let verified = catch_malformed-ok cert _ h3 in
      record {
        device_signed = signed;
        device_key = key;
        first_byte = b;
        more_bytes = rest;
        in_document = must_be_signed-ok cert _ signed s;
        committed_key = must_have_key-ok cert _ key k;
        of_caller = given;
        is_verified =
            subst
              (λ x.
                modules.verify_device_auth signed key mso.doc_type x (allowed modules opts now)
                ≡ ok tt)
              whole verified;
      }
