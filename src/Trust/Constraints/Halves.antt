-- ===== src/Trust/Constraints/Halves.antt =====
-- The two checks for one type of name, stated over the lists before they are filtered by type.
use online_verifier.Prelude.{
  All-map, Any-map, any_iff, All-keep, Any-keep, ℕ, ◌≡◌, refl, sym, ◌∙◌, subst, ◌↔◌, ◌⊎◌, inl, inr,
  Bool, true, false, none, some, List, [], ◌∷◌, arith, ltb, ℕ_eq, string_eq, Bool-cases, length,
  any, All, Any, ok, err, ◌>>◌,
}
use online_verifier.Trust.Cert.{NameConstraints, Cert, Library}
use online_verifier.Trust.Failure.{Check}
use online_verifier.Trust.Names.{
  NameType, SubtreeName, same_type, matches_subtree, extract_subtrees,
}
use online_verifier.Trust.Names.Laws.{Matches, matches_subtree_iff}
use online_verifier.Trust.Constraints.{
  of_type, check_permitted, check_not_under, check_excluded, check_permitted_if_any,
}

pub >>-ok_iff : (m k : Check) → ((m >> k) ≡ ok tt) ↔ ((m ≡ ok tt) × (k ≡ ok tt))
>>-ok_iff (ok tt) k = (λ h. (refl, h), λ h. h.1)
>>-ok_iff (err e) k = (λ h. cc, λ h. cc)

false-true : {b : Bool} → b ≡ false → b ≡ true → ⊥
false-true e f = cc

All-unit {ℓ} : {A : Type ℓ} (xs : List A) → All (λ _. Unit {0}) xs
All-unit [] = tt
All-unit (x ∷ xs) = (tt, All-unit xs)

module _ (lib : Library) where
  -- A leaf name falls under no excluded subtree and, if some permitted subtree has its type, under
  -- a permitted one.
  abbrev pub AllowedName : List SubtreeName → List SubtreeName → SubtreeName → Type 0
  AllowedName permitted excluded name =
      (Any (λ p. p.type ≡ name.type) permitted → Any (Matches lib name) permitted)
      × All (λ e. ¬ Matches lib name e) excluded

  abbrev pub AllowedNames : List SubtreeName → NameConstraints → Type 0
  AllowedNames names nc =
      All
        (AllowedName (extract_subtrees lib nc.permitted_subtrees)
          (extract_subtrees lib nc.excluded_subtrees))
        names

  -- What a CA of the chain demands of the names of the leaf: its extension, if any, can be read,
  -- and allows every name.
  abbrev pub ConstrainedBy : List SubtreeName → Cert → Type 0
  ConstrainedBy names ca =
      (ca.name_constraints ≡ none)
      ⊎ ((der : List ℕ) × (nc : NameConstraints) × (ca.name_constraints ≡ some der)
          × (lib.parse_name_constraints der ≡ some nc)
          × AllowedNames names nc)

  -- What `apply_constraints_for_type` demands of one type.
  abbrev pub TypeOk : List SubtreeName → List SubtreeName → List SubtreeName → NameType → Type 0
  TypeOk names permitted excluded t = All (λ n. n.type ≡ t → AllowedName permitted excluded n) names

  same_type_iff : (a b : NameType) → (same_type a b ≡ true) ↔ (a ≡ b)
  unfolding same_type
  same_type_iff a b = ground arith

  -- The permitted and the excluded half of `AllowedName`, for a list of names.
  abbrev pub Covered : List SubtreeName → SubtreeName → Type 0
  Covered permitted name = Any (Matches lib name) permitted

  abbrev pub Clear : List SubtreeName → SubtreeName → Type 0
  Clear excluded name = All (λ e. ¬ Matches lib name e) excluded

  pub check_permitted_iff :
      (ps ns : List SubtreeName) → (check_permitted lib ps ns ≡ ok tt) ↔ All (Covered ps) ns
  unfolding check_permitted
  check_permitted_iff ps [] = (λ _. tt, λ _. refl)
  check_permitted_iff ps (n ∷ ns) =
      let covered =
        any_iff (matches_subtree lib n) (Matches lib n) (matches_subtree_iff lib n) ps in
      let later = check_permitted_iff ps ns in
      elim (Bool-cases (any (matches_subtree lib n) ps)) [
        | inl e ↦ rw e (λ h. (covered.0 e, later.0 h), λ (_, h). later.1 h)
        | inr e ↦ rw e (λ h. cc, λ (c, _). cc (covered.1 c))
      ]

  check_not_under_iff :
      (n : SubtreeName) (es : List SubtreeName) → (check_not_under lib n es ≡ ok tt) ↔ Clear es n
  unfolding check_not_under
  check_not_under_iff n [] = (λ _. tt, λ _. refl)
  check_not_under_iff n (e ∷ es) =
      let decides = matches_subtree_iff lib n e in
      let later = check_not_under_iff n es in
      elim (Bool-cases (matches_subtree lib n e)) [
        | inl t ↦ rw t (λ h. cc, λ (c, _). absurd (c (decides.0 t)))
        | inr f ↦ rw f (λ h. (λ m. cc (decides.1 m), later.0 h), λ (_, h). later.1 h)
      ]

  check_excluded_iff :
      (es ns : List SubtreeName) → (check_excluded lib es ns ≡ ok tt) ↔ All (Clear es) ns
  unfolding check_excluded
  check_excluded_iff es [] = (λ _. tt, λ _. refl)
  check_excluded_iff es (n ∷ ns) =
      let both = >>-ok_iff (check_not_under lib n es) (check_excluded lib es ns) in
      let first = check_not_under_iff n es in
      let later = check_excluded_iff es ns in
      (λ h. (first.0 (both.0 h).0, later.0 (both.0 h).1), λ (c, h). both.1 (first.1 c, later.1 h))

  -- There is a member, so the test on the length passes.
  nonempty_iff :
      (t : NameType) (ps : List SubtreeName)
      → (ltb 0 (length (of_type t ps)) ≡ true) ↔ Any (λ p. p.type ≡ t) ps
  nonempty_iff t [] = (λ h. cc, λ h. absurd h)
  nonempty_iff t (p ∷ ps) = elim (Bool-cases (same_type p.type t)) [
    | inl e ↦ rw e (λ _. inl ((same_type_iff p.type t).0 e), λ _. ground arith)
    | inr e ↦ rw e (
      λ h. inr ((nonempty_iff t ps).0 h),
      λ h. elim h [
        | inl same ↦ cc ((same_type_iff p.type t).1 same)
        | inr later ↦ (nonempty_iff t ps).1 later
      ],
    )
  ]

  decides_type : (t : NameType) (n : SubtreeName) → (same_type n.type t ≡ true) ↔ (n.type ≡ t)
  decides_type t n = same_type_iff n.type t

  -- A name of the type sees the same excluded and permitted subtrees with and without the filter.
  Clear-of_type :
      (t : NameType) (es : List SubtreeName) (n : SubtreeName)
      → n.type ≡ t
      → Clear (of_type t es) n ↔ Clear es n
  Clear-of_type t es n same =
      let filtered =
        All-keep (λ e. same_type e.type t) (λ e. e.type ≡ t) (decides_type t)
          (λ e. ¬ Matches lib n e) es in
      (
        λ h.
            All-map (λ e. e.type ≡ t → ¬ Matches lib n e) (λ e. ¬ Matches lib n e)
              (λ e f m. f (sym m.0 ∙ same) m) es (filtered.0 h),
        λ h. filtered.1 (
            All-map (λ e. ¬ Matches lib n e) (λ e. e.type ≡ t → ¬ Matches lib n e) (λ e f _. f) es
              h),
      )

  Covered-of_type :
      (t : NameType) (ps : List SubtreeName) (n : SubtreeName)
      → n.type ≡ t
      → Covered (of_type t ps) n ↔ Covered ps n
  Covered-of_type t ps n same =
      let filtered =
        Any-keep (λ p. same_type p.type t) (λ p. p.type ≡ t) (decides_type t) (λ p. Matches lib n p)
          ps in
      (
        λ h.
            Any-map (λ p. (p.type ≡ t) × Matches lib n p) (Matches lib n) (λ p m. m.1) ps
              (filtered.0 h),
        λ h. filtered.1 (
            Any-map (Matches lib n) (λ p. (p.type ≡ t) × Matches lib n p)
              (λ p m. (sym m.0 ∙ same, m)) ps h),
      )

  pub excluded_half :
      (names excluded : List SubtreeName) (t : NameType)
      → (check_excluded lib (of_type t excluded) (of_type t names) ≡ ok tt)
        ↔ All (λ n. n.type ≡ t → Clear excluded n) names
  excluded_half names es t =
      let run = check_excluded_iff (of_type t es) (of_type t names) in
      let filtered =
        All-keep (λ n. same_type n.type t) (λ n. n.type ≡ t) (decides_type t) (Clear (of_type t es))
          names in
      (
        λ h.
            All-map (λ n. n.type ≡ t → Clear (of_type t es) n) (λ n. n.type ≡ t → Clear es n)
              (λ n f e. (Clear-of_type t es n e).0 (f e)) names (filtered.0 (run.0 h)),
        λ h. run.1 (
            filtered.1 (
              All-map (λ n. n.type ≡ t → Clear es n) (λ n. n.type ≡ t → Clear (of_type t es) n)
                (λ n f e. (Clear-of_type t es n e).1 (f e)) names h)),
      )

  permitted_loop :
      (names permitted : List SubtreeName) (t : NameType)
      → (check_permitted lib (of_type t permitted) (of_type t names) ≡ ok tt)
        ↔ All (λ n. n.type ≡ t → Covered permitted n) names
  permitted_loop names ps t =
      let run = check_permitted_iff (of_type t ps) (of_type t names) in
      let filtered =
        All-keep (λ n. same_type n.type t) (λ n. n.type ≡ t) (decides_type t)
          (Covered (of_type t ps)) names in
      (
        λ h.
            All-map (λ n. n.type ≡ t → Covered (of_type t ps) n) (λ n. n.type ≡ t → Covered ps n)
              (λ n f e. (Covered-of_type t ps n e).0 (f e)) names (filtered.0 (run.0 h)),
        λ h. run.1 (
            filtered.1 (
              All-map (λ n. n.type ≡ t → Covered ps n) (λ n. n.type ≡ t → Covered (of_type t ps) n)
                (λ n f e. (Covered-of_type t ps n e).1 (f e)) names h)),
      )

  abbrev pub Demanded : List SubtreeName → SubtreeName → Type 0
  Demanded permitted n = Any (λ p. p.type ≡ n.type) permitted → Covered permitted n

  pub permitted_half :
      (names permitted : List SubtreeName) (t : NameType)
      → (check_permitted_if_any lib (of_type t permitted) (of_type t names) ≡ ok tt)
        ↔ All (λ n. n.type ≡ t → Demanded permitted n) names
  unfolding check_permitted_if_any
  permitted_half names ps t =
      let some_iff = nonempty_iff t ps in
      let loop = permitted_loop names ps t in
      elim (Bool-cases (ltb 0 (length (of_type t ps)))) [
        | inl e ↦ rw e (
          λ h.
              All-map (λ n. n.type ≡ t → Covered ps n) (λ n. n.type ≡ t → Demanded ps n)
                (λ n f same _. f same) names (loop.0 h),
          λ h. loop.1 (
              All-map (λ n. n.type ≡ t → Demanded ps n) (λ n. n.type ≡ t → Covered ps n)
                (λ n f same.
                  f same (subst (λ k. Any (λ p. p.type ≡ k) ps) (sym same) (some_iff.0 e)))
                names h),
        )
        | inr e ↦ rw e (
          λ _.
              All-map (λ _. Unit {0}) (λ n. n.type ≡ t → Demanded ps n)
                (λ n _ same a.
                  absurd (false-true e (some_iff.1 (subst (λ k. Any (λ p. p.type ≡ k) ps) same a))))
                names (All-unit names),
          λ _. refl,
        )
      ]
