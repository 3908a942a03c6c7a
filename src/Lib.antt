-- ===== src/Lib.antt =====
-- A verification library for the OpenID4VP verifier: its trust decisions and its credential
-- checks.
--
-- The program. A credential parser (src/parsers) takes a presentation, checks the issuer's
-- signature, the disclosed items and the holder's key, and asks the trust modules (src/trust) if
-- the issuer's certificate is trusted. The trust evaluator asks a trust store for anchors, lets
-- the chain builder find a path to one of them, and asks the revocation checker about the leaf.
-- src/haip.ts builds and checks the queries that go to the wallet. src/verify.ts opens the
-- wallet's response, gives the presentation in it to a parser, and matches what was decoded with
-- the query.
--
-- Where each part is modelled:
-- - Trust/Cert.antt, Trust/Names.antt, Trust/Constraints.antt, Trust/Chain.antt:
--   src/trust/ChainBuilder.ts and src/trust/x509-utils.ts. The methods keep their names:
--   `tryBuild` is `try_build`, its loop `climb`, `checkNameConstraints` is
--   `check_name_constraints`.
-- - Trust/Failure.antt: the reasons of CertificateChainError in src/errors.ts.
-- - Trust/Crl.antt: the lookup in a CRL, and Trust/Crl/Fetch.antt its fetching, caching and
--   verifying, src/trust/CrlFetcher.ts.
-- - Trust/Revocation.antt: src/trust/RevocationChecker.ts and src/trust/revocation-types.ts.
-- - Trust/OcspResponse.antt, Trust/Ocsp.antt and Trust/Ocsp/Checker.antt:
--   src/trust/OcspClient.ts, and the revocation checker over it. Trust/Ecdsa.antt:
--   src/trust/ecdsa-util.ts.
-- - Trust/Stores.antt: src/trust/TrustStore.ts and src/trust/TrustAnchor.ts.
-- - Trust/Evaluator.antt: src/trust/TrustEvaluator.ts.
-- - Trust/Cache.antt: src/trust/Cache.ts.
-- - Trust/Provenance.antt: src/trust/ProvenanceResolver.ts, src/trust/service-metadata.ts,
--   src/trust/lotl-loa-mapping.ts and types of src/trust/lotl-types.ts.
-- - Base64.antt: the Base64 helpers of src/parsers/sd-jwt.parser.ts and src/verify.ts.
-- - SdJwt/Toolkit.antt, SdJwt/Parser.antt, SdJwt/Anchors.antt, SdJwt/Claims.antt and
--   SdJwt/Json.antt: src/parsers/sd-jwt.parser.ts. The steps of `parse` are functions:
--   `select_key` (4), `verify_issuer` (5), `check_trust` (6), `check_disclosures` (7),
--   `check_key_binding` (8).
-- - Response.antt: src/presentation.ts and `verifyPresentation` of src/verify.ts.
--   Response/Envelope.antt: `verifyAuthorizationResponse` and src/decrypt-response.ts.
-- - Mdoc/Transcript.antt: src/crypto/session-transcript.ts.
-- - Mdoc/Cbor.antt, Mdoc/Bytes.antt, Mdoc/Claims.antt, Mdoc/Parser.antt:
--   src/parsers/mdoc.parser.ts.
-- - Mdoc/Cose.antt: src/crypto/cose-sign1.ts and src/crypto/device-auth.ts;
--   Mdoc/Parser/Signed.antt puts both into the parser.
-- - Mdoc/Mso.antt: the checks of src/crypto/mso.ts. Mdoc/Digest.antt: src/crypto/digest.ts.
-- - Haip.antt: src/haip.ts and src/types/haip.ts.
-- - Prelude and Text hold shared tests, list lemmas and strings as code points; the files named
--   Laws, and those beside them, hold proofs, and Tests the concrete inputs.
--
-- How it is modelled. A promise or a call that may throw is a Result or an Option; error messages
-- are dropped. Times are milliseconds since the earliest JavaScript date, so natural numbers are
-- enough, and subtraction of the clock tolerance stops at that date. A date of a mobile security
-- object may be an Invalid Date. Letters are lowered for ASCII only. The keys that a JavaScript
-- object has or treats by itself are not special: `constructor` as a document type in
-- src/haip.ts, or `__proto__` as an element identifier in src/parsers/mdoc.parser.ts. A digestID
-- is a natural number. Third-party code is a parameter: the X.509 and CBOR libraries, the hash,
-- the key import, URL. A module of the program that another calls is passed to it, as a field of
-- the interfaces `Sources` (Trust/Revocation.antt), `Modules` (Mdoc/Parser.antt) and `Toolkit`
-- (SdJwt/Toolkit.antt); where it has a model, Mdoc/Parser/Signed.antt and Trust/Ocsp/Checker.antt
-- put that in. Third-party code is also the interfaces `Responder` (OCSP), `Encoders` (CBOR and
-- hashes), `Crypto` (CBOR, keys and signatures), `Jose` and `Dcql`. One call of `checkCached`
-- reads the clock once. The cache is state that is passed on: an operation answers with the cache
-- that is left.
--
-- Fuel. The loop of `tryBuild` and the loop over pending disclosures have no bound in the source.
-- `climb` takes fuel, and one round more than the length of the longest descent of issuers is
-- enough where the pool has no cycle. `expand` needs one round more than there are disclosures,
-- since each round but the last anchors one. A decrypted response may be encrypted again, so
-- `verify_authorization_response` takes fuel, and as many rounds as the response has characters,
-- and two, are enough if decryption shrinks it. The responder's path is built without
-- intermediates, so one round of `climb` ends it.
--
-- Not modelled: the decoding of the mobile security object, the trusted lists, signed requests,
-- binary presentations inside an envelope, the signing anchors (data), re-exports, the
-- conformance scripts and the front end.
pub mod Prelude
pub mod Text
pub mod Base64
pub mod Trust
pub mod SdJwt
pub mod Haip
pub mod Response
pub mod Mdoc
pub mod Tests
