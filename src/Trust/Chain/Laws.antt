-- ===== src/Trust/Chain/Laws.antt =====
-- The builder returns valid paths only, and finds one if there is one of length at most two.
use mathlib.Core.List.{append-nil, append_assoc}
use online_verifier.Prelude.{
  ℕ, zero, suc, ◌+◌, ◌≡◌, sym, ◌∙◌, inl, inr, Option, none, some, List, [], ◌∷◌, ◌++◌, ◌==◌, ℕ_eq,
  string_eq, Option-cases, All, In, here, there, ok, err, ◌>>◌, guard, >>-eq-ok, Result-cases,
  find-some,
}
use online_verifier.Trust.Cert.{Cert, Library, certificates_equal, certificates_equal_iff}
use online_verifier.Trust.Failure.{Failure, chain_invalid, signature}
use online_verifier.Trust.Names.{collect_leaf_names}
use online_verifier.Trust.Constraints.{check_name_constraints}
use online_verifier.Trust.Constraints.Halves.{ConstrainedBy}
use online_verifier.Trust.Constraints.Laws.{check_name_constraints_iff}
use online_verifier.Trust.Chain.{
  ChainOptions, check_issuer, close, close_at_anchor, close_here, climb, check_leaf, try_build,
  build_from, build,
}
use online_verifier.Trust.Chain.Checks.{guard_iff, check_issuer_iff, check_leaf_iff}
use online_verifier.Trust.Chain.Spec.{IsIssuedBy, Ascent, arrived, closed, through, IsValidPath}
use online_verifier.Trust.Chain.Turns.{
  home, top, refused, up, turn, climb-home, climb-top, climb-refused, climb-up,
}

module _ (lib : Library) (opts : ChainOptions) (now : ℕ) where
  issued :
      (child issuer : Cert) (depth : ℕ)
      → child.issuer ≡ issuer.subject
      → check_issuer lib opts now child issuer depth ≡ ok tt
      → IsIssuedBy lib opts now child issuer depth
  issued child issuer depth named h =
      let (current, authority, key_ids, signed) =
        (check_issuer_iff lib opts now child issuer depth).0 h in
      record {
        named = named;
        current = current;
        authority = authority;
        key_ids = key_ids;
        signed = signed;
      }

  close_sound :
      (leaf : Cert) (above chain : List Cert)
      → close lib opts now leaf (leaf ∷ above) ≡ ok chain
      → (chain ≡ leaf ∷ above) × All (ConstrainedBy lib (collect_leaf_names leaf)) above
  unfolding close
  close_sound leaf above chain h =
      let (checked, same) =
        >>-eq-ok (check_name_constraints lib leaf above) (ok (leaf ∷ above)) h in
      (cc, (check_name_constraints_iff lib leaf above).0 checked)

  -- The certificates that the leaf's names are checked against.
  abbrev Constrained : Cert → List Cert → Type 0
  Constrained leaf above = All (ConstrainedBy lib (collect_leaf_names leaf)) above

  close_here_sound :
      (leaf anchor : Cert) (done : List Cert) (current : Cert) (chain : List Cert)
      → close_here lib opts now leaf anchor (leaf ∷ done) current ≡ ok chain
      → (current.raw_data ≡ anchor.raw_data) × (chain ≡ leaf ∷ done) × Constrained leaf done
  unfolding close_here
  close_here_sound leaf anchor done current chain h =
      let (same, closes) =
        >>-eq-ok (guard (certificates_equal current anchor) (chain_invalid signature))
          (close lib opts now leaf (leaf ∷ done)) h in
      let (shape, names) = close_sound leaf done chain closes in
      ((certificates_equal_iff current anchor).0 ((guard_iff _ _).0 same), shape, names)

  close_at_anchor_sound :
      (leaf anchor : Cert) (done : List Cert) (current : Cert) (depth : ℕ) (chain : List Cert)
      → close_at_anchor lib opts now leaf anchor (leaf ∷ done) current depth ≡ ok chain
      → IsIssuedBy lib opts now current anchor depth
        × (chain ≡ leaf ∷ (done ++ anchor ∷ []))
        × Constrained leaf (done ++ anchor ∷ [])
  unfolding close_at_anchor
  close_at_anchor_sound leaf anchor done current depth chain h =
      let closing = close lib opts now leaf ((leaf ∷ done) ++ anchor ∷ []) in
      let checking = check_issuer lib opts now current anchor depth in
      let (same, rest) =
        >>-eq-ok (guard (current.issuer == anchor.subject) (chain_invalid signature))
          (checking >> closing) h in
      let (passed, closes) = >>-eq-ok checking closing rest in
      let (shape, names) = close_sound leaf (done ++ anchor ∷ []) chain closes in
      (
        issued current anchor depth ((string_eq.decides _ _).0 ((guard_iff _ _).0 same)) passed,
        shape,
        names,
      )

  -- What a finished climb has established.
  abbrev Climbed : Cert → Cert → List Cert → List Cert → Cert → ℕ → List Cert → Type 0
  Climbed leaf anchor pool done current depth chain =
      (above : List Cert) × (chain ≡ leaf ∷ (done ++ above))
      × Ascent lib opts now anchor pool depth current above
      × Constrained leaf (done ++ above)

  climb_sound :
      (fuel : ℕ) (leaf anchor : Cert) (pool done : List Cert) (current : Cert) (depth : ℕ)
      (chain : List Cert)
      → climb lib opts now fuel leaf anchor pool (leaf ∷ done) current depth ≡ some (ok chain)
      → Climbed leaf anchor pool done current depth chain
  unfolding climb
  climb_sound zero leaf anchor pool done current depth chain h = cc
  climb_sound (suc fuel) leaf anchor pool done current depth chain h =
      elim (turn lib opts now anchor pool current depth) [
        | home same ↦
            let run =
              climb-home lib opts now anchor pool current depth fuel leaf (leaf ∷ done) same in
            let (raw, shape, names) =
              close_here_sound leaf anchor done current chain (cc (run, h)) in
            ([], rw (append-nil done) shape, arrived same raw, rw (append-nil done) names)
        | top n missed ↦
            let run =
              climb-top lib opts now anchor pool current depth fuel leaf (leaf ∷ done) n missed in
            let (issued, shape, names) =
              close_at_anchor_sound leaf anchor done current depth chain (cc (run, h)) in
            (anchor ∷ [], shape, closed n issued, names)
        | refused issuer e n found failed ↦ cc (
          climb-refused lib opts now anchor pool current depth fuel leaf (leaf ∷ done) issuer e n
              found failed,
          h,
        )
        | up issuer n found passed ↦
            let run =
              climb-up lib opts now anchor pool current depth fuel leaf (leaf ∷ done) issuer n found
                passed in
            let (above, shape, ascent, names) =
              climb_sound fuel leaf anchor pool (done ++ issuer ∷ []) issuer (depth + 1) chain
                (sym run ∙ h) in
            let (member, same) = find-some (λ c. c.subject == current.issuer) pool found in
            let regroup = append_assoc done (issuer ∷ []) above in
            (
              issuer ∷ above,
              rw regroup at shape,
              through n member
                  (issued current issuer depth (sym ((string_eq.decides _ _).0 same)) passed)
                  ascent,
              rw regroup at names,
            )
      ]

  try_build_sound :
      (fuel : ℕ) (leaf anchor : Cert) (pool chain : List Cert)
      → try_build lib opts now fuel leaf anchor pool ≡ some (ok chain)
      → (check_leaf lib opts now leaf ≡ ok tt) × Climbed leaf anchor pool [] leaf 0 chain
  unfolding try_build
  try_build_sound fuel leaf anchor pool chain h =
      elim (Result-cases (check_leaf lib opts now leaf)) [
        | inl (_, passed) ↦ (
          passed,
          climb_sound fuel leaf anchor pool [] leaf 0 chain (rw (passed, try_build) at h),
        )
        | inr (e, failed) ↦ cc (rw (failed, try_build) at h)
      ]

  build_from_sound :
      (fuel : ℕ) (leaf : Cert) (anchors pool : List Cert) (last : Option Failure)
      (chain : List Cert)
      → build_from lib opts now fuel leaf anchors pool last ≡ some (ok chain)
      → (anchor : Cert) × In anchor anchors
        × (try_build lib opts now fuel leaf anchor pool ≡ some (ok chain))
  unfolding build_from
  build_from_sound fuel leaf [] pool last chain h = cc
  build_from_sound fuel leaf (anchor ∷ anchors) pool last chain h =
      elim (Option-cases (try_build lib opts now fuel leaf anchor pool)) [
        | inl e ↦ cc (rw (e, build_from) at h)
        | inr (ok found, e) ↦ (anchor, here, e ∙ (rw (e, build_from) at h))
        | inr (err f, e) ↦
            let (a, member, built) =
              build_from_sound fuel leaf anchors pool (some f) chain (rw (e, build_from) at h) in
            (a, there member, built)
      ]

-- A chain that `build` returns is a valid path: it starts at the leaf and climbs to one of the
-- anchors, each certificate above the leaf is a CA in force, whose key verifies the signature of the
-- one below it, at a depth that its path length allows, and the name constraints of all of them
-- allow the leaf's names.
pub build-IsValidPath :
    (lib : Library) (opts : ChainOptions) (now fuel : ℕ) (leaf : Cert)
    (anchors intermediates chain : List Cert)
    → build lib opts now fuel leaf anchors intermediates ≡ some (ok chain)
    → IsValidPath lib opts now leaf anchors intermediates chain
unfolding build
build-IsValidPath lib opts now fuel leaf anchors pool chain h =
    let (anchor, member, built) =
      build_from_sound lib opts now fuel leaf anchors pool none chain h in
    let (leaf_ok, (above, shape, ascent, names)) =
      try_build_sound lib opts now fuel leaf anchor pool chain built in
    let (current, signs) = (check_leaf_iff lib opts now leaf).0 leaf_ok in
    record {
      anchor = anchor;
      above = above;
      shape = shape;
      trusted = member;
      leaf_current = current;
      leaf_signs = signs;
      ascent = ascent;
      constrained = names;
    }
