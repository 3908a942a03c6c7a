-- ===== src/Trust/Chain/Termination.antt =====
-- When the loop of `tryBuild` ends: it does over a pool without cycles of issuers, and does not where
-- the leaf's issuer is a self-signed certificate of the pool that is not the anchor.
use online_verifier.Prelude.{
  In-All, ℕ, zero, suc, ◌+◌, ◌<◌, String, ◌≡◌, refl, sym, ap, ◌∙◌, ◌≢◌, inl, inr, Option, none,
  some, List, [], ◌∷◌, ◌++◌, arith, ◌==◌, ℕ_eq, string_eq, Option-cases, find, All, Result, ok, err,
  Result-cases, find-some,
}
use online_verifier.Trust.Cert.{Cert, Library}
use online_verifier.Trust.Failure.{Failure}
use online_verifier.Trust.Chain.{ChainOptions, climb, check_leaf, try_build, build_from, build}
use online_verifier.Trust.Chain.Checks.{Checked, check_issuer_iff}
use online_verifier.Trust.Chain.Turns.{
  home, top, refused, up, turn, climb-home, climb-top, climb-refused, climb-up,
}

-- The issuers of the pool's certificates stand lower than the certificates, by some rank of names.
abbrev pub IsRanked : (String → ℕ) → List Cert → Type 0
IsRanked rank pool = All (λ c. rank c.issuer < rank c.subject) pool

module _ (lib : Library) (opts : ChainOptions) (now : ℕ) where
  climb_ends :
      (rank : String → ℕ) (fuel : ℕ) (leaf anchor : Cert) (pool chain : List Cert) (current : Cert)
      (depth : ℕ)
      → IsRanked rank pool
      → rank current.issuer < fuel
      → climb lib opts now fuel leaf anchor pool chain current depth ≢ none
  climb_ends rank zero leaf anchor pool chain current depth ranked h = absurd (omega arith)
  climb_ends rank (suc fuel) leaf anchor pool chain current depth ranked h =
      elim (turn lib opts now anchor pool current depth) [
        | home same ↦
            λ e. cc (climb-home lib opts now anchor pool current depth fuel leaf chain same, e)
        | top n missed ↦
            λ e. cc (climb-top lib opts now anchor pool current depth fuel leaf chain n missed, e)
        | refused issuer f n found failed ↦ λ e. cc (
          climb-refused lib opts now anchor pool current depth fuel leaf chain issuer f n found
              failed,
          e,
        )
        | up issuer n found passed ↦
            let run =
              climb-up lib opts now anchor pool current depth fuel leaf chain issuer n found
                passed in
            let (member, named) = find-some (λ c. c.subject == current.issuer) pool found in
            let same : issuer.subject ≡ current.issuer = (string_eq.decides _ _).0 named in
            let falls = In-All (λ c. rank c.issuer < rank c.subject) member ranked in
            let ends =
              climb_ends rank fuel leaf anchor pool (chain ++ issuer ∷ []) issuer (depth + 1) ranked
                (omega (arith, ap rank same)) in
            λ e. ends (sym run ∙ e)
      ]

  pub try_build_ends :
      (rank : String → ℕ) (fuel : ℕ) (leaf anchor : Cert) (pool : List Cert)
      → IsRanked rank pool
      → rank leaf.issuer < fuel
      → try_build lib opts now fuel leaf anchor pool ≢ none
  unfolding try_build
  try_build_ends rank fuel leaf anchor pool ranked h =
      elim (Result-cases (check_leaf lib opts now leaf)) [
        | inl (_, passed) ↦ λ e.
            climb_ends rank fuel leaf anchor pool (leaf ∷ []) leaf 0 ranked h
              (rw (passed, try_build) at e)
        | inr (f, failed) ↦ λ e. cc (rw (failed, try_build) at e)
      ]

  build_from_ends :
      (rank : String → ℕ) (fuel : ℕ) (leaf : Cert) (anchors pool : List Cert)
      (last : Option Failure)
      → IsRanked rank pool
      → rank leaf.issuer < fuel
      → (r : Result Failure (List Cert)) × (build_from lib opts now fuel leaf anchors pool last
          ≡ some r)
  unfolding build_from
  build_from_ends rank fuel leaf [] pool last ranked h = (_, refl)
  build_from_ends rank fuel leaf (anchor ∷ anchors) pool last ranked h =
      elim (Option-cases (try_build lib opts now fuel leaf anchor pool)) [
        | inl e ↦ absurd (try_build_ends rank fuel leaf anchor pool ranked h e)
        | inr (ok chain, e) ↦ (ok chain, rw (e, build_from))
        | inr (err f, e) ↦
            let (r, built) = build_from_ends rank fuel leaf anchors pool (some f) ranked h in
            (r, rw (e, build_from) built)
      ]

  -- Every round of the loop adds the self-signed certificate once more.
  climb_spins :
      (root anchor leaf : Cert) (pool : List Cert) (fuel : ℕ) (chain : List Cert) (current : Cert)
      (depth : ℕ)
      → find (λ c. c.subject == root.subject) pool ≡ some root
      → root.issuer ≡ root.subject
      → root.subject ≢ anchor.subject
      → ((d : ℕ) → Checked lib opts now root root d)
      → current.issuer ≡ root.subject
      → current.subject ≢ anchor.subject
      → Checked lib opts now current root depth
      → climb lib opts now fuel leaf anchor pool chain current depth ≡ none
  climb_spins root anchor leaf pool zero chain current depth found own n again issued m passed =
      unfold climb in refl
  climb_spins root anchor leaf pool (suc fuel) chain current depth found own n again issued m
        passed =
      climb-up lib opts now anchor pool current depth fuel leaf chain root m (rw issued found)
        ((check_issuer_iff lib opts now current root depth).1 passed)
      ∙ climb_spins root anchor leaf pool fuel (chain ++ root ∷ []) root (depth + 1) found own n
          again own n (again (depth + 1))

-- Over a pool without cycles of issuers (a rank of names falls from each certificate of the pool to
-- its issuer) `build` ends, with a chain or an error, after fewer rounds than the rank of the leaf's
-- issuer and one.
pub build_ends :
    (lib : Library) (opts : ChainOptions) (now : ℕ) (rank : String → ℕ) (fuel : ℕ) (leaf : Cert)
    (anchors intermediates : List Cert)
    → IsRanked rank intermediates
    → rank leaf.issuer < fuel
    → (r : Result Failure (List Cert)) × (build lib opts now fuel leaf anchors intermediates
        ≡ some r)
unfolding build
build_ends lib opts now rank fuel leaf anchors pool ranked h =
    build_from_ends lib opts now rank fuel leaf anchors pool none ranked h

-- If the pool's certificate with the name of the leaf's issuer is self-signed, with no limit on its
-- path length, and does not have the anchor's name, then `tryBuild` never ends: no fuel is enough.
pub try_build_spins :
    (lib : Library) (opts : ChainOptions) (now : ℕ) (leaf anchor root : Cert) (pool : List Cert)
    → check_leaf lib opts now leaf ≡ ok tt
    → leaf.subject ≢ anchor.subject
    → root.subject ≢ anchor.subject
    → leaf.issuer ≡ root.subject
    → root.issuer ≡ root.subject
    → find (λ c. c.subject == root.subject) pool ≡ some root
    → Checked lib opts now leaf root 0
    → ((depth : ℕ) → Checked lib opts now root root depth)
    → (fuel : ℕ) → try_build lib opts now fuel leaf anchor pool ≡ none
unfolding try_build
try_build_spins lib opts now leaf anchor root pool checked m n issued own found first again fuel =
    rw (checked, try_build)
      (climb_spins lib opts now root anchor leaf pool fuel (leaf ∷ []) leaf 0 found own n again
        issued m first)
