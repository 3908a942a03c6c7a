-- ===== src/Trust/Chain/Direct.antt =====
-- Without intermediates, as the parsers call it, the builder finds every valid path.
use online_verifier.Prelude.{
  ℕ, suc, ◌≡◌, refl, sym, ap, ◌∙◌, ◌↔◌, inl, inr, Option, none, some, List, [], ◌∷◌, arith, ℕ_eq,
  string_eq, Option-cases, All, In, here, there, ok, err,
}
use online_verifier.Trust.Cert.{Cert, Library, certificates_equal_iff}
use online_verifier.Trust.Failure.{Failure}
use online_verifier.Trust.Names.{collect_leaf_names}
use online_verifier.Trust.Constraints.Halves.{ConstrainedBy}
use online_verifier.Trust.Constraints.Laws.{check_name_constraints_iff}
use online_verifier.Trust.Chain.{
  ChainOptions, close, close_at_anchor, close_here, climb, try_build, build_from, build,
}
use online_verifier.Trust.Chain.Checks.{check_issuer_iff, check_leaf_iff}
use online_verifier.Trust.Chain.Spec.{Ascent, arrived, closed, through, IsValidPath}
use online_verifier.Trust.Chain.Laws.{build-IsValidPath}
use online_verifier.Trust.Chain.Termination.{try_build_ends}
use online_verifier.Trust.Chain.Turns.{climb-home, climb-top}

module _ (lib : Library) (opts : ChainOptions) (now : ℕ) where
  climb_direct :
      (leaf anchor : Cert) (above : List Cert) (fuel : ℕ)
      → Ascent lib opts now anchor [] 0 leaf above
      → All (ConstrainedBy lib (collect_leaf_names leaf)) above
      → climb lib opts now (suc fuel) leaf anchor [] (leaf ∷ []) leaf 0 ≡ some (ok (leaf ∷ above))
  unfolding close_here close_at_anchor close
  climb_direct leaf anchor above fuel (arrived same raw) names =
      climb-home lib opts now anchor [] leaf 0 fuel leaf (leaf ∷ []) same
      ∙ ap some (
          rw (
            (certificates_equal_iff leaf anchor).1 raw,
            (check_name_constraints_iff lib leaf []).1 tt,
          ))
  climb_direct leaf anchor above fuel (closed n i) names =
      let passed =
        (check_issuer_iff lib opts now leaf anchor 0).1
          (i.current, i.authority, i.key_ids, i.signed) in
      climb-top lib opts now anchor [] leaf 0 fuel leaf (leaf ∷ []) n refl
      ∙ ap some (
          rw (
            (string_eq.decides leaf.issuer anchor.subject).1 i.named,
            passed,
            (check_name_constraints_iff lib leaf (anchor ∷ [])).1 names,
          ))
  climb_direct leaf anchor _ fuel (through {issuer = issuer} {above = above} _ m _ _) names =
      elim m [ ]

  try_build_direct :
      (leaf : Cert) (anchors chain : List Cert) (fuel : ℕ)
      (path : IsValidPath lib opts now leaf anchors [] chain)
      → try_build lib opts now (suc fuel) leaf path.anchor [] ≡ some (ok chain)
  unfolding try_build
  try_build_direct leaf anchors chain fuel path =
      let checked = (check_leaf_iff lib opts now leaf).1 (path.leaf_current, path.leaf_signs) in
      rw (checked, try_build)
        (climb_direct leaf path.anchor path.above fuel path.ascent path.constrained
          ∙ ap (λ (c : List Cert). some (ok c)) (sym path.shape))

  build_from_direct :
      (leaf anchor : Cert) (anchors chain : List Cert) (fuel : ℕ) (last : Option Failure)
      → In anchor anchors
      → try_build lib opts now (suc fuel) leaf anchor [] ≡ some (ok chain)
      → (found : List Cert) × (build_from lib opts now (suc fuel) leaf anchors [] last
          ≡ some (ok found))
  unfolding build_from
  build_from_direct leaf anchor _ chain fuel last (here {xs = anchors}) built =
      (chain, rw (built, build_from))
  build_from_direct leaf anchor _ chain fuel last (there {x = a} {xs = anchors} member) built =
      elim (Option-cases (try_build lib opts now (suc fuel) leaf a [])) [
        | inl e ↦
            absurd (try_build_ends lib opts now (λ _. 0) (suc fuel) leaf a [] tt (omega arith) e)
        | inr (ok found, e) ↦ (found, rw (e, build_from))
        | inr (err f, e) ↦
            let (found, rest) =
              build_from_direct leaf anchor anchors chain fuel (some f) member built in
            (found, rw (e, build_from) rest)
      ]

-- With no intermediates, `build` returns a chain exactly if there is a valid path from the leaf to
-- one of the anchors.
pub build_direct_iff :
    (lib : Library) (opts : ChainOptions) (now fuel : ℕ) (leaf : Cert) (anchors : List Cert)
    → ((chain : List Cert) × (build lib opts now (suc fuel) leaf anchors [] ≡ some (ok chain)))
      ↔ ((chain : List Cert) × IsValidPath lib opts now leaf anchors [] chain)
unfolding build
build_direct_iff lib opts now fuel leaf anchors = (
  λ (chain, h). (chain, build-IsValidPath lib opts now (suc fuel) leaf anchors [] chain h),
  λ (chain, path).
      build_from_direct lib opts now leaf path.anchor anchors chain fuel none path.trusted
        (try_build_direct lib opts now leaf anchors chain fuel path),
)
