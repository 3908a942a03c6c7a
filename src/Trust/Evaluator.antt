-- ===== src/Trust/Evaluator.antt =====
-- src/trust/TrustEvaluator.ts: `evaluate`, over the chain builder, the revocation checker and a trust
-- store. The store's answer is `none` where it throws. The provenance is left out.
pub mod Laws
use online_verifier.Prelude.{
  ℕ, ◌+◌, ◌*◌, String, Option, none, some, List, [], ◌∷◌, ◌++◌, map, if◌then◌else◌, ◌==◌, ℕ_eq,
  string_eq, find, last?, includes, Result, ok, err, ◌>>=◌, ◌>>◌,
}
use online_verifier.Text.{Text, codes}
use online_verifier.Trust.Cert.{Bytes, Cert, Library, certificates_equal, get_ski_hex}
use online_verifier.Trust.Failure.{Failure}
use online_verifier.Trust.Crl.{clean_digits}
use online_verifier.Trust.Chain.{ChainOptions, build}
use online_verifier.Trust.Revocation.{
  Policy, Status, good, revoked, unknown, no_source, RevocationResult, Sources, CheckFailed, check,
}
use online_verifier.Trust.Stores.{TrustAnchor, TrustStoreHint}

pub data EvaluationError : Type 0 where
  trust_anchor_not_found : EvaluationError
  chain_failed : Failure → EvaluationError
  revocation_check_failed : CheckFailed → EvaluationError
  revoked_certificate : Option ℕ → Option String → EvaluationError
  store_failed : EvaluationError

pub data RevocationStatus : Type 0 where
  reported : Status → RevocationStatus
  skipped : RevocationStatus

pub record TrustEvaluationResult : Type 0 where
  pub chain : List Cert
  pub anchor : TrustAnchor
  pub revocation_status : RevocationStatus
  pub revocation_checked_at : ℕ
  pub trusted_authority_ids : List Text

-- The array has `length / 2` bytes, rounded down.
unfoldable pub pair_digits : List ℕ → Bytes
pair_digits (a ∷ b ∷ digits) = (a * 16 + b) ∷ pair_digits digits
pair_digits _ = []

pub hex_to_bytes : Text → Bytes
hex_to_bytes s = pair_digits (clean_digits s)

-- `keyIdHex ? hexToBytes(keyIdHex) : undefined`.
unfoldable pub aki_bytes : Option (Option String) → Option Bytes
aki_bytes (some (some key_id)) = if key_id == "" then none else some (hex_to_bytes (codes key_id))
aki_bytes _ = none

unfoldable pub derive_hint : Cert → TrustStoreHint
derive_hint leaf = record { issuer = some leaf.issuer; aki = aki_bytes leaf.authority_key_id }

-- The state of `pushUnique`: the serial numbers seen and the anchors so far.
abbrev pub Gathered : Type 0
Gathered = List String × List TrustAnchor

unfoldable pub push_unique : Gathered → List TrustAnchor → Gathered
push_unique gathered [] = gathered
push_unique (seen, anchors) (a ∷ batch) =
    let key = a.certificate.serial_number in
    push_unique (if includes seen key then (seen, anchors) else (key ∷ seen, anchors ++ a ∷ []))
      batch

-- The hints of the leaf and of each intermediate, in this order.
unfoldable pub gather :
    (TrustStoreHint → Option (List TrustAnchor)) → List Cert → Gathered → Option Gathered
gather get_anchors [] gathered = some gathered
gather get_anchors (cert ∷ certs) gathered = elim (get_anchors (derive_hint cert)) [
  | none ↦ none
  | some batch ↦ gather get_anchors certs (push_unique gathered batch)
]

unfoldable pub derive_authority_ids : TrustAnchor → List Text
derive_authority_ids anchor = elim anchor.trusted_authority_ids [
  | some (id ∷ ids) ↦ id ∷ ids
  | _ ↦ elim (get_ski_hex anchor.certificate) [ none ↦ [] | some ski ↦ ski ∷ [] ]
]

unfoldable pub status_of : RevocationResult → RevocationStatus
status_of r = elim r.source [
  | no_source ↦ elim r.status [ good ↦ skipped | s ↦ reported s ]
  | _ ↦ reported r.status
]

-- `chain.length > 1 ? chain[1] : terminusCert`.
unfoldable pub issuer_for_revocation : List Cert → Cert → Cert
issuer_for_revocation (leaf ∷ issuer ∷ above) terminus = issuer
issuer_for_revocation _ terminus = terminus

abbrev pub accepted : List Cert → TrustAnchor → RevocationResult → TrustEvaluationResult
accepted chain anchor r = record {
  chain = chain;
  anchor = anchor;
  revocation_status = status_of r;
  revocation_checked_at = r.checked_at;
  trusted_authority_ids = derive_authority_ids anchor;
}

unfoldable pub conclude_by :
    Status
    → List Cert
    → TrustAnchor
    → RevocationResult
    → Result EvaluationError TrustEvaluationResult
conclude_by revoked chain anchor r = err (revoked_certificate r.revoked_at r.revocation_reason)
conclude_by good chain anchor r = ok (accepted chain anchor r)
conclude_by unknown chain anchor r = ok (accepted chain anchor r)

unfoldable pub conclude :
    List Cert → TrustAnchor → RevocationResult → Result EvaluationError TrustEvaluationResult
unfolding conclude_by
conclude chain anchor r = conclude_by r.status chain anchor r

abbrev pub with_error {ℓ κ μ} :
    {E : Type κ} {F : Type μ} {A : Type ℓ} → (E → F) → Result E A → Result F A
with_error f (ok a) = ok a
with_error f (err e) = err (f e)

abbrev pub present {ℓ} : {A : Type ℓ} → Option A → Result EvaluationError A
present none = err trust_anchor_not_found
present (some a) = ok a

module _ (lib : Library) (opts : ChainOptions) (sources : Sources) (policy : Policy) (now : ℕ) where
  -- From the chain to the result: the anchor that it ends at, and the revocation check of its leaf.
  unfoldable pub judge_chain :
      Cert → List TrustAnchor → List Cert → Result EvaluationError TrustEvaluationResult
  judge_chain leaf anchors chain = present (last? chain) >>= λ terminus.
      present (find (λ a. certificates_equal a.certificate terminus) anchors) >>= λ anchor.
      with_error revocation_check_failed
        (check sources policy leaf (issuer_for_revocation chain terminus) now)
      >>= conclude chain anchor

  -- `none` where the chain builder's fuel runs out.
  unfoldable pub evaluate_with :
      ℕ
      → Cert
      → List Cert
      → List TrustAnchor
      → Option (Result EvaluationError TrustEvaluationResult)
  evaluate_with fuel leaf intermediates [] = some (err trust_anchor_not_found)
  evaluate_with fuel leaf intermediates (a ∷ anchors) =
      elim (build lib opts now fuel leaf (map (λ t. t.certificate) (a ∷ anchors)) intermediates) [
        | none ↦ none
        | some (err e) ↦ some (err (chain_failed e))
        | some (ok chain) ↦ some (judge_chain leaf (a ∷ anchors) chain)
      ]

  unfoldable pub evaluate :
      (TrustStoreHint → Option (List TrustAnchor))
      → ℕ
      → Cert
      → List Cert
      → Option (Result EvaluationError TrustEvaluationResult)
  evaluate get_anchors fuel leaf intermediates =
      elim (gather get_anchors (leaf ∷ intermediates) ([], [])) [
        | none ↦ some (err store_failed)
        | some (seen, anchors) ↦ evaluate_with fuel leaf intermediates anchors
      ]
