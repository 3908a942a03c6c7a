-- ===== src/Mdoc/Parser.antt =====
-- src/parsers/mdoc.parser.ts: `MdocParser.parse`, on a token that is bytes. The modules that it calls
-- and that stand elsewhere are the interface `Modules`. `now` is the time of `new Date()`.
pub mod Laws
pub mod Valid
pub mod Signed
use online_verifier.Prelude.{
  ℕ, String, Bool, true, false, Option, none, some, List, [], ◌∷◌, if◌then◌else◌, ℕ_eq, string_eq,
  any, includes, Result, ok, err, ◌>>=◌, ◌>>◌, guard,
}
use online_verifier.Trust.Cert.{bytes_equal}
use online_verifier.Trust.Evaluator.{TrustEvaluationResult}
use online_verifier.Mdoc.Cbor.{Cbor, array, table, item, Entries, get}
use online_verifier.Mdoc.Mso.{
  CredentialError, malformed, expired, digest_mismatch, MobileSecurityObject, validate_mso_validity,
  validate_mso_doc_type,
}
use online_verifier.Mdoc.Cose.{CoseSign1}
use online_verifier.Mdoc.Digest.{Codec, DigestLogEntry, verify_all_digests, required}
use online_verifier.Mdoc.Claims.{Claims, extract_name_spaces, map_raw_to_claims}

-- `codec`, `encode` and `import_key` are third-party code. The others are src/crypto/cose-sign1.ts,
-- src/crypto/mso.ts, src/crypto/device-auth.ts and the evaluator of src/trust/TrustEvaluator.ts on
-- the leaf's DER.
pub record Modules : Type 0 where
  pub codec : Codec
  pub encode : Cbor → List ℕ
  pub import_key : List ℕ → String → Result CredentialError (List ℕ)
  pub decode_cose_sign1 : List ℕ → Result CredentialError CoseSign1
  pub verify_cose_sign1 : CoseSign1 → List ℕ → List String → Result CredentialError (Unit {0})
  pub decode_mso : List ℕ → Result CredentialError MobileSecurityObject
  pub evaluate : List ℕ → Result CredentialError TrustEvaluationResult
  pub verify_device_auth :
      Entries → List ℕ → String → List ℕ → List String → Result CredentialError (Unit {0})

pub record ParseOptions : Type 0 where
  pub allowed_algorithms : Option (List String)
  pub has_trust_store : Bool
  pub trusted_certificates : List (List ℕ)
  pub skip_trust_check : Bool
  pub expected_doc_type : Option String
  pub allow_digest_mismatch : Bool
  pub mdoc_session_transcript : Option (List ℕ)

pub record PresentationResult : Type 0 where
  pub valid : Bool
  pub claims : Claims
  pub namespaced_claims : List (String × Claims)
  pub certificate : List ℕ
  pub doc_type : Option String
  pub digest_log : Option (List DigestLogEntry)
  pub trust : Option TrustEvaluationResult
  pub digest_mismatch_ignored : Bool

-- How the method ends early: by an exception, or by a result with `valid: false`, of which the
-- certificate and the digest log vary.
pub data Exit : Type 0 where
  throws : CredentialError → Exit
  returns : List ℕ → Option (List DigestLogEntry) → Exit

abbrev pub Step : Type 0 → Type 0
Step A = Result Exit A

abbrev pub lift : {A : Type 0} → Result CredentialError A → Step A
lift (ok a) = ok a
lift (err e) = err (throws e)

-- `catch (err) { if (err instanceof MalformedCredentialError) return …; throw err; }`. A
-- DigestMismatchError is one as well.
abbrev pub catch_malformed : List ℕ → Result CredentialError (Unit {0}) → Step (Unit {0})
catch_malformed cert (ok _) = ok tt
catch_malformed cert (err malformed) = err (returns cert none)
catch_malformed cert (err digest_mismatch) = err (returns cert none)
catch_malformed cert (err e) = err (throws e)

abbrev pub catch_expired : List ℕ → Result CredentialError (Unit {0}) → Step (Unit {0})
catch_expired cert (ok _) = ok tt
catch_expired cert (err expired) = err (returns cert none)
catch_expired cert (err e) = err (throws e)

abbrev pub must_be_table : Option Cbor → Step Entries
must_be_table (some (table entries)) = ok entries
must_be_table _ = err (throws malformed)

unfoldable pub first_document : Option Cbor → Step Entries
first_document (some (array (item (table document) _))) = ok document
first_document _ = err (throws malformed)

unfoldable pub must_be_array : Option Cbor → Step Cbor
must_be_array (some (array items)) = ok (array items)
must_be_array _ = err (throws malformed)

abbrev pub first_certificate : List (List ℕ) → Step (List ℕ)
first_certificate [] = err (throws malformed)
first_certificate (cert ∷ _) = ok cert

abbrev pub default_allowed_algorithms : List String
default_allowed_algorithms = "ES256" ∷ "ES384" ∷ "ES512" ∷ []

abbrev pub algorithms : Option (List String) → List String
algorithms none = default_allowed_algorithms
algorithms (some allowed) = allowed

-- Without a trust store the leaf is compared with the trusted certificates.
unfoldable pub check_byte_equality : ParseOptions → List ℕ → List (List ℕ) → Step (Unit {0})
check_byte_equality opts cert [] = guard opts.skip_trust_check (throws malformed)
check_byte_equality opts cert (t ∷ trusted) =
    guard (any (λ c. bytes_equal c cert) (t ∷ trusted)) (returns cert none)

unfoldable pub check_doc_type : Option String → List ℕ → MobileSecurityObject → Step (Unit {0})
check_doc_type none cert mso = ok tt
check_doc_type (some doctype) cert mso = catch_malformed cert (validate_mso_doc_type mso doctype)

-- A mismatch ends the method, or is noted where the caller allows it.
unfoldable pub check_digests :
    Bool → List ℕ → List DigestLogEntry × Bool → Step (List DigestLogEntry × Bool)
check_digests allowed cert (log, false) = ok (log, false)
check_digests true cert (log, true) = ok (log, true)
check_digests false cert (log, true) = err (returns cert (some log))

unfoldable pub must_be_signed : List ℕ → Option Cbor → Step Entries
must_be_signed cert (some (table entries)) = ok entries
must_be_signed cert _ = err (returns cert none)

unfoldable pub must_have_transcript : List ℕ → Option (List ℕ) → Step (List ℕ)
must_have_transcript cert (some (b ∷ transcript)) = ok (b ∷ transcript)
must_have_transcript cert _ = err (returns cert none)

unfoldable pub must_have_key : List ℕ → Option (List ℕ) → Step (List ℕ)
must_have_key cert none = err (returns cert none)
must_have_key cert (some key) = ok key

abbrev pub some_trust : TrustEvaluationResult → Step (Option TrustEvaluationResult)
some_trust r = ok (some r)

module _ (modules : Modules) (opts : ParseOptions) (now : ℕ) where
  abbrev pub allowed : List String
  allowed = algorithms opts.allowed_algorithms

  unfoldable pub check_trust : List ℕ → Step (Option TrustEvaluationResult)
  check_trust cert =
      if opts.has_trust_store
      then lift (modules.evaluate cert) >>= some_trust
      else check_byte_equality opts cert opts.trusted_certificates >>= λ _. ok none

  -- Step 7.5.
  unfoldable pub check_device_auth : List ℕ → Entries → MobileSecurityObject → Step (Unit {0})
  check_device_auth cert document mso =
      must_be_signed cert (get document "deviceSigned") >>= λ device_signed.
      must_have_transcript cert opts.mdoc_session_transcript >>= λ transcript.
      must_have_key cert mso.device_key >>= λ device_key.
      catch_malformed cert
        (modules.verify_device_auth device_signed device_key mso.doc_type transcript allowed)

  -- Steps 5 and 6: the signature, and the mobile security object.
  unfoldable pub check_issuer_auth : CoseSign1 → List ℕ → Step MobileSecurityObject
  check_issuer_auth cose cert = lift (modules.import_key cert cose.alg) >>= λ public_key.
      catch_malformed cert (modules.verify_cose_sign1 cose public_key allowed) >>= λ _.
      lift (modules.decode_mso cose.payload) >>= λ mso.
      catch_expired cert (validate_mso_validity mso now) >>= λ _.
      check_doc_type opts.expected_doc_type cert mso >>= λ _. ok mso

  -- Steps 7 to 8.
  unfoldable pub check_items :
      Entries
      → Entries
      → List ℕ
      → Option TrustEvaluationResult
      → MobileSecurityObject
      → Step PresentationResult
  check_items document issuer_signed cert trust mso =
      must_be_table (get issuer_signed "nameSpaces") >>= λ ns_raw.
      lift (extract_name_spaces ns_raw) >>= λ name_spaces.
      lift (verify_all_digests modules.codec name_spaces mso) >>= λ verdict.
      check_digests opts.allow_digest_mismatch cert verdict >>= λ (log, ignored).
      check_device_auth cert document mso >>= λ _.
      lift (map_raw_to_claims modules.codec name_spaces) >>= λ (flat, namespaced). ok (record {
        valid = true;
        claims = flat;
        namespaced_claims = namespaced;
        certificate = cert;
        doc_type = some mso.doc_type;
        digest_log = some log;
        trust = trust;
        digest_mismatch_ignored = ignored;
      })

  unfoldable pub parse_steps : List ℕ → Step PresentationResult
  parse_steps vp_token = lift (required (modules.codec.decode vp_token)) >>= λ decoded.
      must_be_table (some decoded) >>= λ device_response.
      first_document (get device_response "documents") >>= λ document.
      must_be_table (get document "issuerSigned") >>= λ issuer_signed.
      must_be_array (get issuer_signed "issuerAuth") >>= λ issuer_auth.
      lift (modules.decode_cose_sign1 (modules.encode issuer_auth)) >>= λ cose.
      guard (includes allowed cose.alg) (returns [] none) >>= λ _.
      first_certificate cose.x5chain >>= λ cert. check_trust cert >>= λ trust.
      check_issuer_auth cose cert >>= λ mso. check_items document issuer_signed cert trust mso

abbrev pub rejected : List ℕ → Option (List DigestLogEntry) → PresentationResult
rejected cert log = record {
  valid = false;
  claims = [];
  namespaced_claims = [];
  certificate = cert;
  doc_type = none;
  digest_log = log;
  trust = none;
  digest_mismatch_ignored = false;
}

abbrev pub finish : Step PresentationResult → Result CredentialError PresentationResult
finish (ok result) = ok result
finish (err (returns cert log)) = ok (rejected cert log)
finish (err (throws e)) = err e

unfoldable pub parse :
    Modules → ParseOptions → ℕ → List ℕ → Result CredentialError PresentationResult
parse modules opts now vp_token = finish (parse_steps modules opts now vp_token)
