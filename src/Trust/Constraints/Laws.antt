-- ===== src/Trust/Constraints/Laws.antt =====
-- The name constraint checks accept exactly the leaves that RFC 5280 §4.2.1.10 allows.
use online_verifier.Prelude.{
  All-map, All-and, ℕ, ◌≡◌, refl, sym, ◌∙◌, ◌↔◌, inl, inr, some, List, [], ◌∷◌, ℕ_eq, string_eq,
  Option-cases, All, ok, ◌>>◌,
}
use online_verifier.Trust.Cert.{NameConstraints, Cert, Library}
use online_verifier.Trust.Names.{
  NameType, dn, dns, email, uri, SubtreeName, extract_subtrees, collect_leaf_names,
}
use online_verifier.Trust.Constraints.{
  of_type, check_excluded, check_permitted_if_any, apply_constraints_for_type, apply_constraints,
  check_ca_constraints, check_cas, check_name_constraints,
}
use online_verifier.Trust.Constraints.Halves.{
  >>-ok_iff, AllowedName, AllowedNames, ConstrainedBy, TypeOk, Clear, Demanded, excluded_half,
  permitted_half,
}

module _ (lib : Library) where
  -- For one type, both checks together.
  for_type_iff :
      (names permitted excluded : List SubtreeName) (t : NameType)
      → (apply_constraints_for_type lib names permitted excluded t ≡ ok tt)
        ↔ TypeOk lib names permitted excluded t
  unfolding apply_constraints_for_type
  for_type_iff names ps es t =
      let both =
        >>-ok_iff (check_permitted_if_any lib (of_type t ps) (of_type t names))
          (check_excluded lib (of_type t es) (of_type t names)) in
      let allowed = permitted_half lib names ps t in
      let clear = excluded_half lib names es t in
      (
        λ h.
            All-map (λ n. (n.type ≡ t → Demanded lib ps n) × (n.type ≡ t → Clear lib es n))
              (λ n. n.type ≡ t → AllowedName lib ps es n) (λ n f e. (f.0 e, f.1 e)) names
              (All-and (λ n. n.type ≡ t → Demanded lib ps n) (λ n. n.type ≡ t → Clear lib es n)
                names (allowed.0 (both.0 h).0) (clear.0 (both.0 h).1)),
        λ h. both.1 (
          allowed.1 (
              All-map (λ n. n.type ≡ t → AllowedName lib ps es n)
                (λ n. n.type ≡ t → Demanded lib ps n) (λ n f e. (f e).0) names h),
          clear.1 (
              All-map (λ n. n.type ≡ t → AllowedName lib ps es n) (λ n. n.type ≡ t → Clear lib es n)
                (λ n f e. (f e).1) names h),
        ),
      )

  -- Every name has one of the four types.
  by_type :
      (names permitted excluded : List SubtreeName)
      → All (AllowedName lib permitted excluded) names ↔ (
          TypeOk lib names permitted excluded dn
          × TypeOk lib names permitted excluded dns
          × TypeOk lib names permitted excluded email
          × TypeOk lib names permitted excluded uri)
  by_type [] ps es = (λ _. (tt, tt, tt, tt), λ _. tt)
  by_type (n ∷ names) ps es =
      let later = by_type names ps es in
      (
        λ (a, h).
            let (h0, h1, h2, h3) = later.0 h in
            ((λ _. a, h0), (λ _. a, h1), (λ _. a, h2), (λ _. a, h3)),
        λ (h0, h1, h2, h3).
            (one_of n.type refl h0.0 h1.0 h2.0 h3.0, later.1 (h0.1, h1.1, h2.1, h3.1)),
      )
    where
      one_of :
          {P : Type 0} (t : NameType)
          → n.type ≡ t
          → (n.type ≡ dn → P)
          → (n.type ≡ dns → P)
          → (n.type ≡ email → P)
          → (n.type ≡ uri → P)
          → P
      one_of dn e f g h k = f e
      one_of dns e f g h k = g e
      one_of email e f g h k = h e
      one_of uri e f g h k = k e

  apply_constraints_iff :
      (names : List SubtreeName) (nc : NameConstraints)
      → (apply_constraints lib names nc ≡ ok tt) ↔ AllowedNames lib names nc
  unfolding apply_constraints
  apply_constraints_iff names nc =
      let ps = extract_subtrees lib nc.permitted_subtrees in
      let es = extract_subtrees lib nc.excluded_subtrees in
      let run = λ (t : NameType). apply_constraints_for_type lib names ps es t in
      let last_two = >>-ok_iff (run email) (run uri) in
      let last_three = >>-ok_iff (run dns) (run email >> run uri) in
      let whole = >>-ok_iff (run dn) (run dns >> (run email >> run uri)) in
      let one = for_type_iff names ps es in
      let types = by_type names ps es in
      (
        λ h.
            let rest = last_three.0 (whole.0 h).1 in
            let two = last_two.0 rest.1 in
            types.1 (
              (one dn).0 (whole.0 h).0,
              (one dns).0 rest.0,
              (one email).0 two.0,
              (one uri).0 two.1,
            ),
        λ h.
            let (a, b, c, d) = types.0 h in
            whole.1 (
              (one dn).1 a,
              last_three.1 ((one dns).1 b, last_two.1 ((one email).1 c, (one uri).1 d)),
            ),
      )

  check_ca_read :
      (names : List SubtreeName) (ca : Cert) (der : List ℕ) (nc : NameConstraints)
      → ca.name_constraints ≡ some der
      → lib.parse_name_constraints der ≡ some nc
      → check_ca_constraints lib names ca ≡ apply_constraints lib names nc
  unfolding check_ca_constraints
  check_ca_read names ca der nc present readable = rw (present, check_ca_constraints, readable)

  check_ca_sound :
      (names : List SubtreeName) (ca : Cert)
      → check_ca_constraints lib names ca ≡ ok tt
      → ConstrainedBy lib names ca
  unfolding check_ca_constraints
  check_ca_sound names ca h = elim (Option-cases ca.name_constraints) [
    | inl absent ↦ inl absent
    | inr (der, present) ↦ elim (Option-cases (lib.parse_name_constraints der)) [
      | inl unreadable ↦ cc (rw (present, check_ca_constraints, unreadable) at h)
      | inr (nc, readable) ↦
          let run = check_ca_read names ca der nc present readable in
          inr (der, nc, present, readable, (apply_constraints_iff names nc).0 (sym run ∙ h))
    ]
  ]

  check_ca_complete :
      (names : List SubtreeName) (ca : Cert)
      → ConstrainedBy lib names ca
      → check_ca_constraints lib names ca ≡ ok tt
  unfolding check_ca_constraints
  check_ca_complete names ca (inl absent) = rw (absent, check_ca_constraints)
  check_ca_complete names ca (inr (der, nc, present, readable, allowed)) =
      check_ca_read names ca der nc present readable ∙ (apply_constraints_iff names nc).1 allowed

  check_cas_iff :
      (names : List SubtreeName) (cas : List Cert)
      → (check_cas lib names cas ≡ ok tt) ↔ All (ConstrainedBy lib names) cas
  unfolding check_cas
  check_cas_iff names [] = (λ _. tt, λ _. refl)
  check_cas_iff names (ca ∷ cas) =
      let both = >>-ok_iff (check_ca_constraints lib names ca) (check_cas lib names cas) in
      let later = check_cas_iff names cas in
      (
        λ h. (check_ca_sound names ca (both.0 h).0, later.0 (both.0 h).1),
        λ (c, h). both.1 (check_ca_complete names ca c, later.1 h),
      )

-- `checkNameConstraints` passes exactly if every CA above the leaf that has the extension has one
-- that can be read, and allows every name of the leaf: no name falls under an excluded subtree, and
-- one whose type some permitted subtree has falls under a permitted one.
pub check_name_constraints_iff :
    (lib : Library) (leaf : Cert) (cas : List Cert)
    → (check_name_constraints lib leaf cas ≡ ok tt)
      ↔ All (ConstrainedBy lib (collect_leaf_names leaf)) cas
unfolding check_name_constraints
check_name_constraints_iff lib leaf cas = check_cas_iff lib (collect_leaf_names leaf) cas
