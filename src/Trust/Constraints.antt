-- ===== src/Trust/Constraints.antt =====
-- src/trust/ChainBuilder.ts: `checkNameConstraints` and `applyConstraintsForType`.
pub mod Halves
pub mod Laws
use online_verifier.Prelude.{
  not, none, some, List, [], ◌∷◌, ltb, if◌then◌else◌, length, any, keep, ok, err, guard, ◌>>◌,
}
use online_verifier.Trust.Cert.{NameConstraints, Cert, Library}
use online_verifier.Trust.Failure.{Check, chain_invalid, exception, name_constraints}
use online_verifier.Trust.Names.{
  NameType, dn, dns, email, uri, SubtreeName, same_type, matches_subtree, extract_subtrees,
  collect_leaf_names,
}

-- `names.filter((n) => n.type === type)`.
abbrev pub of_type : NameType → List SubtreeName → List SubtreeName
of_type type names = keep (λ n. same_type n.type type) names

module _ (lib : Library) where
  -- Every leaf name falls under some permitted subtree.
  unfoldable pub check_permitted : List SubtreeName → List SubtreeName → Check
  check_permitted permitted [] = ok tt
  check_permitted permitted (ln ∷ names) = do
    guard (any (matches_subtree lib ln) permitted) (chain_invalid name_constraints)
    check_permitted permitted names

  -- One leaf name falls under no excluded subtree.
  unfoldable pub check_not_under : SubtreeName → List SubtreeName → Check
  check_not_under ln [] = ok tt
  check_not_under ln (sub ∷ excluded) = do
    guard (not (matches_subtree lib ln sub)) (chain_invalid name_constraints)
    check_not_under ln excluded

  unfoldable pub check_excluded : List SubtreeName → List SubtreeName → Check
  check_excluded excluded [] = ok tt
  check_excluded excluded (ln ∷ names) = do
    check_not_under ln excluded
    check_excluded excluded names

  -- `if (permittedForType.length > 0) { … }`.
  unfoldable pub check_permitted_if_any : List SubtreeName → List SubtreeName → Check
  check_permitted_if_any permitted names =
      if ltb 0 (length permitted) then check_permitted permitted names else ok tt

  unfoldable pub apply_constraints_for_type :
      List SubtreeName → List SubtreeName → List SubtreeName → NameType → Check
  apply_constraints_for_type leaf_names permitted excluded type = do
    check_permitted_if_any (of_type type permitted) (of_type type leaf_names)
    check_excluded (of_type type excluded) (of_type type leaf_names)

  -- The loop over the four types.
  unfoldable pub apply_constraints : List SubtreeName → NameConstraints → Check
  apply_constraints leaf_names nc = do
    let permitted = extract_subtrees lib nc.permitted_subtrees
    let excluded = extract_subtrees lib nc.excluded_subtrees
    apply_constraints_for_type leaf_names permitted excluded dn
    apply_constraints_for_type leaf_names permitted excluded dns
    apply_constraints_for_type leaf_names permitted excluded email
    apply_constraints_for_type leaf_names permitted excluded uri

  -- One round of the loop over the certificates above the leaf.
  unfoldable pub check_ca_constraints : List SubtreeName → Cert → Check
  check_ca_constraints leaf_names ca = elim ca.name_constraints [
    | none ↦ ok tt
    | some der ↦ elim (lib.parse_name_constraints der) [
      | none ↦ err exception
      | some nc ↦ apply_constraints leaf_names nc
    ]
  ]

  unfoldable pub check_cas : List SubtreeName → List Cert → Check
  check_cas leaf_names [] = ok tt
  check_cas leaf_names (ca ∷ chain) = do
    check_ca_constraints leaf_names ca
    check_cas leaf_names chain

  unfoldable pub check_name_constraints : Cert → List Cert → Check
  check_name_constraints leaf chain_above_leaf =
      check_cas (collect_leaf_names leaf) chain_above_leaf
