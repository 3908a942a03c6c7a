-- ===== src/Trust/Chain/Spec.antt =====
-- What RFC 5280 asks of a certification path, as far as `ChainBuilder` enforces it, stated without
-- the code's loops and errors.
use online_verifier.Prelude.{
  ℕ, ◌+◌, ◌≤◌, String, ◌≡◌, ◌≢◌, true, some, List, [], ◌∷◌, ℕ_eq, string_eq, includes, All, In,
}
use online_verifier.Text.{codes, lower}
use online_verifier.Trust.Cert.{KeyUsages, BasicConstraints, Cert, Library}
use online_verifier.Trust.Names.{collect_leaf_names}
use online_verifier.Trust.Constraints.Halves.{ConstrainedBy}
use online_verifier.Trust.Chain.{
  ChainOptions, or_else, default_algorithms, map_x509_algo_to_jwa_name, skew_ms,
}

-- The key identifiers agree, if both are there and not empty.
abbrev pub KeyIdsAgree : Cert → Cert → Type 0
KeyIdsAgree child issuer =
    (aki ski : String)
    → child.authority_key_id ≡ some (some aki)
    → issuer.subject_key_id ≡ some ski
    → codes aki ≢ []
    → codes ski ≢ []
    → lower (codes aki) ≡ lower (codes ski)

-- The certificate may sign certificates, at this depth above the leaf.
pub record IsIssuingCa (cert : Cert) (depth : ℕ) : Type 0 where
  pub constraints : BasicConstraints
  pub present : cert.basic_constraints ≡ some constraints
  pub ca : constraints.ca ≡ true
  pub shallow : (n : ℕ) → constraints.path_length ≡ some n → depth ≤ n
  pub signs : (u : KeyUsages) → cert.key_usages ≡ some u → u.key_cert_sign ≡ true

module _ (lib : Library) (opts : ChainOptions) (now : ℕ) where
  -- In force within the tolerance of the clock, and signed by an allowed algorithm.
  pub record IsCurrent (cert : Cert) : Type 0 where
    pub begun : cert.not_before ≤ now + skew_ms opts now
    pub unexpired : now ≤ cert.not_after + skew_ms opts now
    pub allowed :
        includes
          (or_else opts.allowed_algorithms default_algorithms)
          (map_x509_algo_to_jwa_name cert)
        ≡ true

  pub record IsIssuedBy (child issuer : Cert) (depth : ℕ) : Type 0 where
    pub named : child.issuer ≡ issuer.subject
    pub current : IsCurrent issuer
    pub authority : IsIssuingCa issuer depth
    pub key_ids : KeyIdsAgree child issuer
    pub signed : lib.verify child issuer.public_key ≡ some true

  -- From a certificate at a depth up to the anchor, through the pool. The climb ends at the first
  -- certificate that has the anchor's name.
  pub data Ascent (anchor : Cert) (pool : List Cert) : ℕ → Cert → List Cert → Type 0 where
    arrived :
        {depth : ℕ} {current : Cert}
        → current.subject ≡ anchor.subject
        → current.raw_data ≡ anchor.raw_data
        → Ascent anchor pool depth current []
    closed :
        {depth : ℕ} {current : Cert}
        → current.subject ≢ anchor.subject
        → IsIssuedBy current anchor depth
        → Ascent anchor pool depth current (anchor ∷ [])
    through :
        {depth : ℕ} {current issuer : Cert} {above : List Cert}
        → current.subject ≢ anchor.subject
        → In issuer pool
        → IsIssuedBy current issuer depth
        → Ascent anchor pool (depth + 1) issuer above
        → Ascent anchor pool depth current (issuer ∷ above)

  pub record IsValidPath (leaf : Cert) (anchors pool chain : List Cert) : Type 0 where
    pub anchor : Cert
    pub above : List Cert
    pub shape : chain ≡ leaf ∷ above
    pub trusted : In anchor anchors
    pub leaf_current : IsCurrent leaf
    pub leaf_signs : (u : KeyUsages) → leaf.key_usages ≡ some u → u.digital_signature ≡ true
    pub ascent : Ascent anchor pool 0 leaf above
    pub constrained : All (ConstrainedBy lib (collect_leaf_names leaf)) above
