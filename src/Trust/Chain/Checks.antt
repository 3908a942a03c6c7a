-- ===== src/Trust/Chain/Checks.antt =====
-- Each check of the builder passes exactly if the facts of `IsCurrent` and `IsIssuedBy` that it is
-- about hold.
use online_verifier.Prelude.{
  ℕ, ◌+◌, ◌≤◌, ◌≡◌, refl, ap, ◌∙◌, ◌≢◌, ◌↔◌, inl, inr, Bool, true, false, not, Option, none, some,
  [], ◌∷◌, arith, ℕ_eq, string_eq, Option-cases, ok, ◌>>◌, guard,
}
use online_verifier.Text.{Text, codes, lower, is_empty}
use online_verifier.Text.Laws.{text_eq_iff}
use online_verifier.Trust.Cert.{KeyUsages, BasicConstraints, Cert, Library}
use online_verifier.Trust.Failure.{Failure, chain_invalid, basic_constraints, path_length}
use online_verifier.Trust.Constraints.Halves.{>>-ok_iff}
use online_verifier.Trust.Chain.{
  ChainOptions, skew_ms, check_leaf_key_usage, check_ca_key_usage, too_deep,
  check_basic_constraints, check_ca_and_path_len, key_ids_differ, check_aki_ski_match,
  verify_signature, check_validity, check_algorithm, check_per_cert, check_issuer, check_leaf,
}
use online_verifier.Trust.Chain.Spec.{KeyIdsAgree, IsIssuingCa, IsCurrent}

pub guard_iff : (b : Bool) (e : Failure) → (guard b e ≡ ok tt) ↔ (b ≡ true)
guard_iff true e = (λ _. refl, λ _. refl)
guard_iff false e = (λ h. cc, λ h. cc)

pub check_leaf_key_usage_iff :
    (leaf : Cert)
    → (check_leaf_key_usage leaf ≡ ok tt)
      ↔ ((u : KeyUsages) → leaf.key_usages ≡ some u → u.digital_signature ≡ true)
unfolding check_leaf_key_usage
check_leaf_key_usage_iff leaf = (
  λ h u p. (guard_iff u.digital_signature _).0 (rw (p, check_leaf_key_usage) at h),
  λ f. elim (Option-cases leaf.key_usages) [
    | inl e ↦ rw (e, check_leaf_key_usage)
    | inr (u, e) ↦ rw (e, check_leaf_key_usage) ((guard_iff u.digital_signature _).1 (f u e))
  ],
)

check_ca_key_usage_iff :
    (cert : Cert)
    → (check_ca_key_usage cert ≡ ok tt)
      ↔ ((u : KeyUsages) → cert.key_usages ≡ some u → u.key_cert_sign ≡ true)
unfolding check_ca_key_usage
check_ca_key_usage_iff cert = (
  λ h u p. (guard_iff u.key_cert_sign _).0 (rw (p, check_ca_key_usage) at h),
  λ f. elim (Option-cases cert.key_usages) [
    | inl e ↦ rw (e, check_ca_key_usage)
    | inr (u, e) ↦ rw (e, check_ca_key_usage) ((guard_iff u.key_cert_sign _).1 (f u e))
  ],
)

too_deep_iff :
    (depth : ℕ) (limit : Option ℕ)
    → (too_deep depth limit ≡ false) ↔ ((n : ℕ) → limit ≡ some n → depth ≤ n)
unfolding too_deep
too_deep_iff depth none = (λ _ n e. cc, λ _. refl)
too_deep_iff depth (some limit) =
    (λ h n e. ground arith, λ f. let fits = f limit refl in ground arith)

abbrev IsCaTo : Option BasicConstraints → ℕ → Type 0
IsCaTo bc depth =
    (c : BasicConstraints) × (bc ≡ some c)
    × (c.ca ≡ true)
    × ((n : ℕ) → c.path_length ≡ some n → depth ≤ n)

check_basic_constraints_sound :
    (bc : Option BasicConstraints) (depth : ℕ)
    → check_basic_constraints bc depth ≡ ok tt
    → IsCaTo bc depth
unfolding check_basic_constraints
check_basic_constraints_sound none depth h = cc
check_basic_constraints_sound (some c) depth h =
    let both =
      (>>-ok_iff (guard c.ca (chain_invalid basic_constraints))
          (guard (not (too_deep depth c.path_length)) (chain_invalid path_length))).0
        h in
    let shallow =
      (guard_iff (not (too_deep depth c.path_length)) (chain_invalid path_length)).0 both.1 in
    (c, refl, (guard_iff c.ca _).0 both.0, (too_deep_iff depth c.path_length).0 (ground arith))

check_basic_constraints_complete :
    (bc : Option BasicConstraints) (depth : ℕ)
    → IsCaTo bc depth
    → check_basic_constraints bc depth ≡ ok tt
unfolding check_basic_constraints
check_basic_constraints_complete none depth (c, e, _, _) = cc
check_basic_constraints_complete (some b) depth (c, e, ca, shallow) =
    let same : b ≡ c = cc in rw (same, ca, (too_deep_iff depth c.path_length).1 shallow)

pub check_ca_iff :
    (cert : Cert) (depth : ℕ) → (check_ca_and_path_len cert depth ≡ ok tt) ↔ IsIssuingCa cert depth
unfolding check_ca_and_path_len
check_ca_iff cert depth =
    let both =
      >>-ok_iff (check_ca_key_usage cert) (check_basic_constraints cert.basic_constraints depth) in
    (
      λ h.
          let (c, e, ca, shallow) =
            check_basic_constraints_sound cert.basic_constraints depth (both.0 h).1 in
          record {
            constraints = c;
            present = e;
            ca = ca;
            shallow = shallow;
            signs = (check_ca_key_usage_iff cert).0 (both.0 h).0;
          },
      λ r. both.1 (
        (check_ca_key_usage_iff cert).1 r.signs,
        check_basic_constraints_complete cert.basic_constraints depth
            (r.constraints, r.present, r.ca, r.shallow),
      ),
    )

abbrev Agree : Text → Text → Type 0
Agree aki ski = aki ≢ [] → ski ≢ [] → lower aki ≡ lower ski

key_ids_differ_iff : (aki ski : Text) → (key_ids_differ aki ski ≡ false) ↔ Agree aki ski
unfolding key_ids_differ is_empty
key_ids_differ_iff [] ski = (λ _ f. absurd (f refl), λ _. refl)
key_ids_differ_iff (a ∷ aki) [] = (λ _ _ f. absurd (f refl), λ _. refl)
key_ids_differ_iff (a ∷ aki) (b ∷ ski) =
    let same = text_eq_iff (lower (a ∷ aki)) (lower (b ∷ ski)) in
    (λ h _ _. same.0 (ground arith), λ f. rw (same.1 (f (λ e. cc) (λ e. cc))))

pub check_aki_ski_iff :
    (child issuer : Cert) → (check_aki_ski_match child issuer ≡ ok tt) ↔ KeyIdsAgree child issuer
unfolding check_aki_ski_match
check_aki_ski_iff child issuer = (
  λ h aki ski p q. (key_ids_differ_iff (codes aki) (codes ski)).0 (
      not_false _ (
        (guard_iff (not (key_ids_differ (codes aki) (codes ski))) _).0
          (rw (p, check_aki_ski_match, q) at h))),
  λ f. elim (Option-cases child.authority_key_id) [
    | inl e ↦ rw (e, check_aki_ski_match)
    | inr (a, e) ↦ elim (Option-cases a) [
      | inl e' ↦ rw (e, check_aki_ski_match, e')
      | inr (aki, e') ↦ elim (Option-cases issuer.subject_key_id) [
        | inl e'' ↦ rw (e, check_aki_ski_match, e', e'')
        | inr (ski, e'') ↦ rw (
          e,
          check_aki_ski_match,
          e',
          e'',
          (key_ids_differ_iff (codes aki) (codes ski)).1 (f aki ski (rw (e, e')) e''),
        )
      ]
    ]
  ],
)
  where
    not_false : (b : Bool) → not b ≡ true → b ≡ false
    not_false b h = ground arith

verify_signature_iff :
    (lib : Library) (child issuer : Cert)
    → (verify_signature lib child issuer ≡ ok tt) ↔ (lib.verify child issuer.public_key ≡ some true)
unfolding verify_signature
verify_signature_iff lib child issuer = (
  λ h. elim (Option-cases (lib.verify child issuer.public_key)) [
    | inl e ↦ cc (rw (e, verify_signature) at h)
    | inr (b, e) ↦ e ∙ ap some ((guard_iff b _).0 (rw (e, verify_signature) at h))
  ],
  λ e. rw (e, verify_signature),
)

module _ (opts : ChainOptions) (now : ℕ) where
  check_validity_iff :
      (cert : Cert)
      → (check_validity opts now cert ≡ ok tt)
        ↔ ((cert.not_before ≤ now + skew_ms opts now) × (now ≤ cert.not_after + skew_ms opts now))
  unfolding check_validity
  check_validity_iff cert = ground arith

module _ (lib : Library) (opts : ChainOptions) (now : ℕ) where
  pub check_per_cert_iff :
      (cert : Cert) → (check_per_cert opts now cert ≡ ok tt) ↔ IsCurrent lib opts now cert
  unfolding check_per_cert check_algorithm
  check_per_cert_iff cert =
      let both = >>-ok_iff (check_validity opts now cert) (check_algorithm opts now cert) in
      let times = check_validity_iff opts now cert in
      (
        λ h. record {
          begun = (times.0 (both.0 h).0).0;
          unexpired = (times.0 (both.0 h).0).1;
          allowed = (guard_iff _ _).0 (both.0 h).1;
        },
        λ r. both.1 (times.1 (r.begun, r.unexpired), (guard_iff _ _).1 r.allowed),
      )

  -- What `check_issuer` establishes of a certificate and the one above it, besides their names.
  abbrev pub Checked : Cert → Cert → ℕ → Type 0
  Checked child issuer depth =
      IsCurrent lib opts now issuer
      × IsIssuingCa issuer depth
      × KeyIdsAgree child issuer
      × (lib.verify child issuer.public_key ≡ some true)

  pub check_issuer_iff :
      (child issuer : Cert) (depth : ℕ)
      → (check_issuer lib opts now child issuer depth ≡ ok tt) ↔ Checked child issuer depth
  unfolding check_issuer
  check_issuer_iff child issuer depth =
      let k3 = check_aki_ski_match child issuer >> verify_signature lib child issuer in
      let a =
        >>-ok_iff (check_per_cert opts now issuer) (check_ca_and_path_len issuer depth >> k3) in
      let b = >>-ok_iff (check_ca_and_path_len issuer depth) k3 in
      let c = >>-ok_iff (check_aki_ski_match child issuer) (verify_signature lib child issuer) in
      (
        λ h.
            let (h1, r1) = a.0 h in
            let (h2, r2) = b.0 r1 in
            let (h3, h4) = c.0 r2 in
            (
              (check_per_cert_iff issuer).0 h1,
              (check_ca_iff issuer depth).0 h2,
              (check_aki_ski_iff child issuer).0 h3,
              (verify_signature_iff lib child issuer).0 h4,
            ),
        λ (h1, h2, h3, h4). a.1 (
          (check_per_cert_iff issuer).1 h1,
          b.1 (
            (check_ca_iff issuer depth).1 h2,
            c.1 (
              (check_aki_ski_iff child issuer).1 h3,
              (verify_signature_iff lib child issuer).1 h4,
            ),
          ),
        ),
      )

  pub check_leaf_iff :
      (leaf : Cert)
      → (check_leaf lib opts now leaf ≡ ok tt) ↔ (
          IsCurrent lib opts now leaf
          × ((u : KeyUsages) → leaf.key_usages ≡ some u → u.digital_signature ≡ true))
  unfolding check_leaf
  check_leaf_iff leaf =
      let both = >>-ok_iff (check_per_cert opts now leaf) (check_leaf_key_usage leaf) in
      (
        λ h. (
          (check_per_cert_iff leaf).0 (both.0 h).0,
          (check_leaf_key_usage_iff leaf).0 (both.0 h).1,
        ),
        λ (c, u). both.1 ((check_per_cert_iff leaf).1 c, (check_leaf_key_usage_iff leaf).1 u),
      )
