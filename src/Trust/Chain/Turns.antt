-- ===== src/Trust/Chain/Turns.antt =====
-- The four ways in which a round of the builder's loop goes on, and what each computes to.
use online_verifier.Prelude.{
  ℕ, suc, ◌+◌, ◌≡◌, ◌≢◌, inl, inr, false, Option, none, some, List, [], ◌∷◌, ◌++◌, ◌==◌, ℕ_eq,
  string_eq, Bool-cases, Option-cases, find, ok, err, Result-cases,
}
use online_verifier.Trust.Cert.{Cert, Library}
use online_verifier.Trust.Failure.{Failure}
use online_verifier.Trust.Chain.{ChainOptions, check_issuer, close_at_anchor, close_here, climb}

module _ (lib : Library) (opts : ChainOptions) (now : ℕ) where
  module _ (anchor : Cert) (pool : List Cert) (current : Cert) (depth : ℕ) where
    abbrev pub issuer_of : Option Cert
    issuer_of = find (λ c. c.subject == current.issuer) pool

    pub data Turn : Type 0 where
      home : current.subject ≡ anchor.subject → Turn
      top : current.subject ≢ anchor.subject → issuer_of ≡ none → Turn
      refused :
          (issuer : Cert) (e : Failure)
          → current.subject ≢ anchor.subject
          → issuer_of ≡ some issuer
          → check_issuer lib opts now current issuer depth ≡ err e
          → Turn
      up :
          (issuer : Cert)
          → current.subject ≢ anchor.subject
          → issuer_of ≡ some issuer
          → check_issuer lib opts now current issuer depth ≡ ok tt
          → Turn

    pub turn : Turn
    turn = elim (Bool-cases (current.subject == anchor.subject)) [
      | inl e ↦ home ((string_eq.decides current.subject anchor.subject).0 e)
      | inr e ↦ elim (Option-cases issuer_of) [
        | inl missed ↦ top (other e) missed
        | inr (issuer, found) ↦
            elim (Result-cases (check_issuer lib opts now current issuer depth)) [
              | inl (_, passed) ↦ up issuer (other e) found passed
              | inr (f, failed) ↦ refused issuer f (other e) found failed
            ]
      ]
    ]
      where
        other : (current.subject == anchor.subject) ≡ false → current.subject ≢ anchor.subject
        other e same = cc (e, (string_eq.decides current.subject anchor.subject).1 same)

    differ : current.subject ≢ anchor.subject → (current.subject == anchor.subject) ≡ false
    differ n = elim (Bool-cases (current.subject == anchor.subject)) [
      | inl e ↦ absurd (n ((string_eq.decides current.subject anchor.subject).0 e))
      | inr e ↦ e
    ]

    module _ (fuel : ℕ) (leaf : Cert) (chain : List Cert) where
      pub climb-home :
          current.subject ≡ anchor.subject
          → climb lib opts now (suc fuel) leaf anchor pool chain current depth
            ≡ some (close_here lib opts now leaf anchor chain current)
      unfolding climb
      climb-home same = rw ((string_eq.decides current.subject anchor.subject).1 same, climb)

      pub climb-top :
          current.subject ≢ anchor.subject
          → issuer_of ≡ none
          → climb lib opts now (suc fuel) leaf anchor pool chain current depth
            ≡ some (close_at_anchor lib opts now leaf anchor chain current depth)
      unfolding climb
      climb-top n missed = rw (differ n, climb, missed)

      pub climb-refused :
          (issuer : Cert) (e : Failure)
          → current.subject ≢ anchor.subject
          → issuer_of ≡ some issuer
          → check_issuer lib opts now current issuer depth ≡ err e
          → climb lib opts now (suc fuel) leaf anchor pool chain current depth ≡ some (err e)
      unfolding climb
      climb-refused issuer e n found failed = rw (differ n, climb, found, failed)

      pub climb-up :
          (issuer : Cert)
          → current.subject ≢ anchor.subject
          → issuer_of ≡ some issuer
          → check_issuer lib opts now current issuer depth ≡ ok tt
          → climb lib opts now (suc fuel) leaf anchor pool chain current depth
            ≡ climb lib opts now fuel leaf anchor pool (chain ++ issuer ∷ []) issuer (depth + 1)
      unfolding climb
      climb-up issuer n found passed = rw (differ n, climb, found, passed)
