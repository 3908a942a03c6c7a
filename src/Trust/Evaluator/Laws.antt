-- ===== src/Trust/Evaluator/Laws.antt =====
-- What a result of `evaluate` rests on.
use online_verifier.Prelude.{
  ℕ, String, ◌≡◌, refl, sym, ap, subst, ◌≢◌, ◌⊎◌, inl, inr, Option, none, some, List, [], ◌∷◌, ◌++◌,
  map, ℕ_eq, string_eq, Bool-cases, Option-cases, find, last?, includes, In, here, there, Result,
  ok, err, >>=-eq-ok, find-some, In-append,
}
use online_verifier.Trust.Cert.{Cert, Library, certificates_equal, certificates_equal_iff}
use online_verifier.Trust.Chain.{ChainOptions, build}
use online_verifier.Trust.Chain.Spec.{IsValidPath}
use online_verifier.Trust.Chain.Laws.{build-IsValidPath}
use online_verifier.Trust.Revocation.{
  Policy, Status, good, revoked, unknown, RevocationResult, Sources, check,
}
use online_verifier.Trust.Stores.{TrustAnchor, TrustStoreHint}
use online_verifier.Trust.Evaluator.{
  EvaluationError, store_failed, chain_failed, revocation_check_failed, TrustEvaluationResult,
  derive_hint, Gathered, push_unique, gather, issuer_for_revocation, conclude_by, conclude,
  with_error, present, judge_chain, evaluate_with, evaluate,
}

-- An anchor that the store gave for the hint of one of the certificates.
abbrev pub IsAnswer :
    (TrustStoreHint → Option (List TrustAnchor)) → List Cert → TrustAnchor → Type 0
IsAnswer get_anchors certs a =
    (cert : Cert) × (batch : List TrustAnchor) × In cert certs
    × (get_anchors (derive_hint cert) ≡ some batch)
    × In a batch

In-singleton : (a b : TrustAnchor) (batch : List TrustAnchor) → In a (b ∷ []) → In a (b ∷ batch)
In-singleton a _ batch (here {xs = _}) = here
In-singleton a b batch (there m) = elim m [ ]

push_unique-In :
    (seen : List String) (anchors batch : List TrustAnchor) (a : TrustAnchor)
    → In a (push_unique (seen, anchors) batch).1
    → In a anchors ⊎ In a batch
unfolding push_unique
push_unique-In seen anchors [] a h = inl h
push_unique-In seen anchors (b ∷ batch) a h =
    elim (Bool-cases (includes seen b.certificate.serial_number)) [
      | inl e ↦ elim (push_unique-In seen anchors batch a (rw (e, push_unique) at h)) [
        | inl old ↦ inl old
        | inr new ↦ inr (there new)
      ]
      | inr e ↦
          elim (push_unique-In (b.certificate.serial_number ∷ seen) (anchors ++ b ∷ []) batch a
            (rw (e, push_unique) at h)) [
              | inl old ↦ elim (In-append anchors (b ∷ []) old) [
                | inl before ↦ inl before
                | inr this ↦ inr (In-singleton a b batch this)
              ]
              | inr new ↦ inr (there new)
            ]
    ]

module _ (get_anchors : TrustStoreHint → Option (List TrustAnchor)) where
  gather-IsAnswer :
      (certs whole : List Cert) (gathered result : Gathered) (a : TrustAnchor)
      → ((c : Cert) → In c certs → In c whole)
      → gather get_anchors certs gathered ≡ some result
      → In a result.1
      → In a gathered.1 ⊎ IsAnswer get_anchors whole a
  unfolding gather
  gather-IsAnswer [] whole gathered result a sub h member =
      let same : gathered ≡ result = cc in inl (subst (λ g. In a g.1) (sym same) member)
  gather-IsAnswer (c ∷ certs) whole gathered result a sub h member =
      elim (Option-cases (get_anchors (derive_hint c))) [
        | inl e ↦ let bad : none ≡ some result = rw (e, gather) at h in cc
        | inr (batch, e) ↦
            elim (gather-IsAnswer certs whole (push_unique gathered batch) result a
              (λ d m. sub d (there m)) (rw (e, gather) at h) member) [
                | inr answer ↦ inr answer
                | inl pushed ↦ elim (push_unique-In gathered.0 gathered.1 batch a pushed) [
                  | inl old ↦ inl old
                  | inr new ↦ inr (c, batch, sub c here, e, new)
                ]
              ]
      ]

abbrev result_or :
    TrustEvaluationResult → Result EvaluationError TrustEvaluationResult → TrustEvaluationResult
result_or d (ok r) = r
result_or d (err _) = d

conclude_by-ok :
    (s : Status) (chain : List Cert) (anchor : TrustAnchor) (v : RevocationResult)
    (r : TrustEvaluationResult)
    → v.status ≡ s
    → conclude_by s chain anchor v ≡ ok r
    → (chain ≡ r.chain) × (anchor ≡ r.anchor) × (v.status ≢ revoked)
unfolding conclude_by
conclude_by-ok good chain anchor v r e h =
    let same = ap (result_or r) h in (ap (λ x. x.chain) same, ap (λ x. x.anchor) same, λ bad. cc)
conclude_by-ok unknown chain anchor v r e h =
    let same = ap (result_or r) h in (ap (λ x. x.chain) same, ap (λ x. x.anchor) same, λ bad. cc)
conclude_by-ok revoked chain anchor v r e h = cc

conclude-ok :
    (chain : List Cert) (anchor : TrustAnchor) (v : RevocationResult) (r : TrustEvaluationResult)
    → conclude chain anchor v ≡ ok r
    → (chain ≡ r.chain) × (anchor ≡ r.anchor) × (v.status ≢ revoked)
unfolding conclude
conclude-ok chain anchor v r h = conclude_by-ok v.status chain anchor v r refl h

present-ok {ℓ} : {A : Type ℓ} (o : Option A) {a : A} → present o ≡ ok a → o ≡ some a
present-ok none h = cc
present-ok (some b) h = cc

with_error-ok {κ μ} :
    {E : Type κ} {F : Type μ} {A : Type 0} (f : E → F) (m : Result E A) {a : A}
    → with_error f m ≡ ok a
    → m ≡ ok a
with_error-ok f (ok b) h = cc
with_error-ok f (err e) h = cc

module _ (lib : Library) (opts : ChainOptions) (sources : Sources) (policy : Policy) (now : ℕ)
    (get_anchors : TrustStoreHint → Option (List TrustAnchor)) (leaf : Cert)
    (intermediates : List Cert) where
  answered :
      (result : Gathered) (a : TrustAnchor)
      → gather get_anchors (leaf ∷ intermediates) ([], []) ≡ some result
      → In a result.1
      → IsAnswer get_anchors (leaf ∷ intermediates) a
  answered result a e m =
      elim (gather-IsAnswer get_anchors (leaf ∷ intermediates) (leaf ∷ intermediates) ([], [])
        result a (λ c i. i) e m) [ inl old ↦ elim old [ ] | inr answer ↦ answer ]

  -- The chain is a valid path to anchors that the store gave, it ends at the result's anchor, byte for
  -- byte, and the revocation check of the leaf did not find it revoked.
  pub record IsEvaluated (r : TrustEvaluationResult) : Type 0 where
    pub anchors : List TrustAnchor
    pub terminus : Cert
    pub revocation : RevocationResult
    pub given : (a : TrustAnchor) → In a anchors → IsAnswer get_anchors (leaf ∷ intermediates) a
    pub path :
        IsValidPath lib opts now leaf (map (λ t. t.certificate) anchors) intermediates r.chain
    pub ends_at : last? r.chain ≡ some terminus
    pub anchored : In r.anchor anchors
    pub same_bytes : r.anchor.certificate.raw_data ≡ terminus.raw_data
    pub checked :
        check sources policy leaf (issuer_for_revocation r.chain terminus) now ≡ ok revocation
    pub not_revoked : revocation.status ≢ revoked

  judge_chain-IsEvaluated :
      (anchors : List TrustAnchor) (chain : List Cert) (r : TrustEvaluationResult)
      → ((a : TrustAnchor) → In a anchors → IsAnswer get_anchors (leaf ∷ intermediates) a)
      → IsValidPath lib opts now leaf (map (λ t. t.certificate) anchors) intermediates chain
      → judge_chain lib opts sources policy now leaf anchors chain ≡ ok r
      → IsEvaluated r
  unfolding judge_chain
  judge_chain-IsEvaluated anchors chain r given path h =
      let (terminus, last, h1) = >>=-eq-ok (present (last? chain)) _ h in
      let (anchor, found, h2) =
        >>=-eq-ok (present (find (λ a. certificates_equal a.certificate terminus) anchors)) _ h1 in
      let (v, verdict, h3) =
        >>=-eq-ok
          (with_error revocation_check_failed
            (check sources policy leaf (issuer_for_revocation chain terminus) now))
          _ h2 in
      let (same_chain, same_anchor, fine) = conclude-ok chain anchor v r h3 in
      let (member, equal) =
        find-some (λ a. certificates_equal a.certificate terminus) anchors (present-ok _ found) in
      record {
        anchors = anchors;
        terminus = terminus;
        revocation = v;
        given = given;
        path =
            subst
              (λ c.
                IsValidPath lib opts now leaf (map (λ t. t.certificate) anchors) intermediates c)
              same_chain path;
        ends_at = subst (λ c. last? c ≡ some terminus) same_chain (present-ok _ last);
        anchored = subst (λ a. In a anchors) same_anchor member;
        same_bytes =
            subst (λ a. a.certificate.raw_data ≡ terminus.raw_data) same_anchor
              ((certificates_equal_iff anchor.certificate terminus).0 equal);
        checked =
            subst (λ c. check sources policy leaf (issuer_for_revocation c terminus) now ≡ ok v)
              same_chain (with_error-ok revocation_check_failed _ verdict);
        not_revoked = fine;
      }

  evaluate_with-IsEvaluated :
      (fuel : ℕ) (anchors : List TrustAnchor) (r : TrustEvaluationResult)
      → ((a : TrustAnchor) → In a anchors → IsAnswer get_anchors (leaf ∷ intermediates) a)
      → evaluate_with lib opts sources policy now fuel leaf intermediates anchors ≡ some (ok r)
      → IsEvaluated r
  unfolding evaluate_with
  evaluate_with-IsEvaluated fuel [] r given h = cc
  evaluate_with-IsEvaluated fuel (a ∷ anchors) r given h =
      elim (Option-cases
        (build lib opts now fuel leaf (map (λ t. t.certificate) (a ∷ anchors)) intermediates)) [
          | inl e ↦ let bad : none ≡ some (ok r) = rw (e, evaluate_with) at h in cc
          | inr (err f, e) ↦
              let bad : some (err (chain_failed f)) ≡ some (ok r) = rw (e, evaluate_with) at h in cc
          | inr (ok chain, e) ↦
              let judged : some (judge_chain lib opts sources policy now leaf (a ∷ anchors) chain)
                  ≡ some (ok r) =
                rw (e, evaluate_with) at h in
              judge_chain-IsEvaluated (a ∷ anchors) chain r given
                (build-IsValidPath lib opts now fuel leaf _ intermediates chain e) cc
        ]

  -- A result of `evaluate` rests on a valid path from the leaf to anchors that the store gave for the
  -- hints of the leaf or of an intermediate; its anchor is one of them and is, byte for byte, the
  -- certificate at which the chain ends; and the revocation check of the leaf against its issuer
  -- answered, and not `revoked`.
  pub evaluate-IsEvaluated :
      (fuel : ℕ) (r : TrustEvaluationResult)
      → evaluate lib opts sources policy now get_anchors fuel leaf intermediates ≡ some (ok r)
      → IsEvaluated r
  unfolding evaluate
  evaluate-IsEvaluated fuel r h =
      elim (Option-cases (gather get_anchors (leaf ∷ intermediates) ([], []))) [
        | inl e ↦ let bad : some (err store_failed) ≡ some (ok r) = rw (e, evaluate) at h in cc
        | inr ((seen, anchors), e) ↦
            evaluate_with-IsEvaluated fuel anchors r (λ a m. answered (seen, anchors) a e m)
              (rw (e, evaluate) at h)
      ]
