-- ===== src/Trust/Chain.antt =====
-- src/trust/ChainBuilder.ts: the class `ChainBuilder`. The loop of `tryBuild` takes fuel, and
-- `none` means that it has not ended; an exception is `err`. `now` is the clock of the call.
pub mod Spec
mod Checks
mod Turns
pub mod Laws
pub mod Termination
pub mod Direct
use Prim.Native.String
use online_verifier.Prelude.{
  ℕ, zero, suc, ◌+◌, ◌-◌, ◌*◌, String, Bool, true, false, not, ◌&&◌, ◌||◌, Option, none, some, List,
  [], ◌∷◌, ◌++◌, ltb, if◌then◌else◌, ◌==◌, ℕ_eq, string_eq, drop, find, includes, Result, ok, err,
  guard, ◌>>◌,
}
use online_verifier.Text.{Text, codes, lower, text_eq, is_empty}
use online_verifier.Trust.Cert.{BasicConstraints, Cert, Library, certificates_equal}
use online_verifier.Trust.Failure.{
  Failure, chain_invalid, exception, signature, validity, key_usage, basic_constraints, path_length,
  algorithm_disallowed, aki_ski_mismatch, Check,
}
use online_verifier.Trust.Constraints.{check_name_constraints}

pub record ChainOptions : Type 0 where
  pub clock_skew_tolerance : Option ℕ
  pub allowed_algorithms : Option (List String)

abbrev pub default_algorithms : List String
default_algorithms =
    "ES256" ∷ "ES384" ∷ "ES512" ∷ "EdDSA" ∷ "RS256" ∷ "RS384" ∷ "RS512" ∷ "PS256" ∷ "PS384"
    ∷ "PS512" ∷ []

-- `value ?? fallback`.
abbrev pub or_else {ℓ} : {A : Type ℓ} → Option A → A → A
or_else none d = d
or_else (some a) d = a

unfoldable pub map_x509_algo_to_jwa_name : Cert → String
map_x509_algo_to_jwa_name cert =
    let name = cert.algorithm_name in
    let hash = cert.algorithm_hash in
    if name == "ECDSA" && hash == "SHA-256"
    then "ES256"
    else if name == "ECDSA" && hash == "SHA-384"
    then "ES384"
    else if name == "ECDSA" && hash == "SHA-512"
    then "ES512"
    else if name == "Ed25519" || name == "EdDSA"
    then "EdDSA"
    else if name == "RSASSA-PKCS1-v1_5" && hash == "SHA-256"
    then "RS256"
    else if name == "RSASSA-PKCS1-v1_5" && hash == "SHA-384"
    then "RS384"
    else if name == "RSASSA-PKCS1-v1_5" && hash == "SHA-512"
    then "RS512"
    else if name == "RSA-PSS" && hash == "SHA-256"
    then "PS256"
    else if name == "RSA-PSS" && hash == "SHA-384"
    then "PS384"
    else if name == "RSA-PSS" && hash == "SHA-512"
    then "PS512"
    else String.◌++◌ name (String.◌++◌ "-" hash)

unfoldable pub check_leaf_key_usage : Cert → Check
check_leaf_key_usage leaf = elim leaf.key_usages [
  | none ↦ ok tt
  | some usages ↦ guard usages.digital_signature (chain_invalid key_usage)
]

unfoldable pub check_ca_key_usage : Cert → Check
check_ca_key_usage cert = elim cert.key_usages [
  | none ↦ ok tt
  | some usages ↦ guard usages.key_cert_sign (chain_invalid key_usage)
]

-- `typeof bc.pathLength === "number" && nonLeafDepth > bc.pathLength`.
unfoldable pub too_deep : ℕ → Option ℕ → Bool
too_deep non_leaf_depth none = false
too_deep non_leaf_depth (some limit) = ltb limit non_leaf_depth

unfoldable pub check_basic_constraints : Option BasicConstraints → ℕ → Check
unfolding too_deep
check_basic_constraints none non_leaf_depth = err (chain_invalid basic_constraints)
check_basic_constraints (some bc) non_leaf_depth = do
  guard bc.ca (chain_invalid basic_constraints)
  guard (not (too_deep non_leaf_depth bc.path_length)) (chain_invalid path_length)

unfoldable pub check_ca_and_path_len : Cert → ℕ → Check
check_ca_and_path_len cert non_leaf_depth = do
  check_ca_key_usage cert
  check_basic_constraints cert.basic_constraints non_leaf_depth

-- `akiKeyId && skiKeyId && akiKeyId.toLowerCase() !== skiKeyId.toLowerCase()`; an empty text is
-- false.
unfoldable pub key_ids_differ : Text → Text → Bool
key_ids_differ aki ski =
    not (is_empty aki) && (not (is_empty ski) && not (text_eq (lower aki) (lower ski)))

unfoldable pub check_aki_ski_match : Cert → Cert → Check
check_aki_ski_match child issuer = elim child.authority_key_id [
  | none ↦ ok tt
  | some none ↦ ok tt
  | some (some aki) ↦ elim issuer.subject_key_id [
    | none ↦ ok tt
    | some ski ↦
        guard (not (key_ids_differ (codes aki) (codes ski))) (chain_invalid aki_ski_mismatch)
  ]
]

module _ (lib : Library) where
  unfoldable pub verify_signature : Cert → Cert → Check
  verify_signature child issuer = elim (lib.verify child issuer.public_key) [
    | none ↦ err exception
    | some passed ↦ guard passed (chain_invalid signature)
  ]

module _ (opts : ChainOptions) (now : ℕ) where
  abbrev pub skew_ms : ℕ
  skew_ms = or_else opts.clock_skew_tolerance 60 * 1000

  unfoldable pub check_validity : Cert → Check
  check_validity cert = do
    guard (not (ltb (now + skew_ms) cert.not_before)) (chain_invalid validity)
    guard (not (ltb cert.not_after (now - skew_ms))) (chain_invalid validity)

  unfoldable pub check_algorithm : Cert → Check
  check_algorithm cert =
      guard
        (includes (or_else opts.allowed_algorithms default_algorithms)
          (map_x509_algo_to_jwa_name cert))
        (chain_invalid algorithm_disallowed)

  unfoldable pub check_per_cert : Cert → Check
  check_per_cert cert = do check_validity cert; check_algorithm cert

abbrev pub Run : Type 0
Run = Option (Result Failure (List Cert))

module _ (lib : Library) (opts : ChainOptions) (now : ℕ) where
  -- The checks of an issuer, in the order of the loop's body.
  unfoldable pub check_issuer : Cert → Cert → ℕ → Check
  check_issuer current issuer non_leaf_depth = do
    check_per_cert opts now issuer
    check_ca_and_path_len issuer non_leaf_depth
    check_aki_ski_match current issuer
    verify_signature lib current issuer

  -- `this.checkNameConstraints(leaf, chain.slice(1)); return chain;`
  unfoldable pub close : Cert → List Cert → Result Failure (List Cert)
  close leaf chain = do check_name_constraints lib leaf (drop 1 chain); ok chain

  -- No certificate of the pool has the issuer's name: the anchor must.
  unfoldable pub close_at_anchor : Cert → Cert → List Cert → Cert → ℕ → Result Failure (List Cert)
  close_at_anchor leaf anchor chain current non_leaf_depth = do
    guard (current.issuer == anchor.subject) (chain_invalid signature)
    check_issuer current anchor non_leaf_depth
    close leaf (chain ++ anchor ∷ [])

  -- The loop has ended because the names agree: the certificate must be the anchor.
  unfoldable pub close_here : Cert → Cert → List Cert → Cert → Result Failure (List Cert)
  close_here leaf anchor chain current = do
    guard (certificates_equal current anchor) (chain_invalid signature)
    close leaf chain

  -- The `while` loop and what follows it.
  unfoldable pub climb : ℕ → Cert → Cert → List Cert → List Cert → Cert → ℕ → Run
  climb zero leaf anchor pool chain current non_leaf_depth = none
  climb (suc fuel) leaf anchor pool chain current non_leaf_depth =
      elim (current.subject == anchor.subject) [
        | true ↦ some (close_here leaf anchor chain current)
        | false ↦ elim (find (λ c. c.subject == current.issuer) pool) [
          | none ↦ some (close_at_anchor leaf anchor chain current non_leaf_depth)
          | some issuer ↦ elim (check_issuer current issuer non_leaf_depth) [
            | err e ↦ some (err e)
            | ok _ ↦ climb fuel leaf anchor pool (chain ++ issuer ∷ []) issuer (non_leaf_depth + 1)
          ]
        ]
      ]

  unfoldable pub check_leaf : Cert → Check
  check_leaf leaf = do check_per_cert opts now leaf; check_leaf_key_usage leaf

  unfoldable pub try_build : ℕ → Cert → Cert → List Cert → Run
  try_build fuel leaf anchor intermediates = elim (check_leaf leaf) [
    | err e ↦ some (err e)
    | ok _ ↦ climb fuel leaf anchor intermediates (leaf ∷ []) leaf 0
  ]

  -- `last instanceof CertificateChainError ? last : new CertificateChainError("signature")`.
  unfoldable pub final_error : Option Failure → Failure
  final_error (some (chain_invalid reason)) = chain_invalid reason
  final_error (some exception) = chain_invalid signature
  final_error none = chain_invalid signature

  -- The loop of `build` over the anchors; of the errors only the last is read.
  unfoldable pub build_from : ℕ → Cert → List Cert → List Cert → Option Failure → Run
  unfolding final_error
  build_from fuel leaf [] intermediates last = some (err (final_error last))
  build_from fuel leaf (anchor ∷ anchors) intermediates last =
      elim (try_build fuel leaf anchor intermediates) [
        | none ↦ none
        | some (ok chain) ↦ some (ok chain)
        | some (err e) ↦ build_from fuel leaf anchors intermediates (some e)
      ]

  unfoldable pub build : ℕ → Cert → List Cert → List Cert → Run
  build fuel leaf anchors intermediates = build_from fuel leaf anchors intermediates none
