-- ===== src/SdJwt/Anchors/Laws.antt =====
-- The disclosure check computes the least set of anchored hashes.
use online_verifier.Prelude.{
  ℕ, zero, suc, ◌<◌, ◌≡◌, refl, ap, ◌∙◌, ◌≢◌, ◌↔◌, ◌⊎◌, inl, inr, Bool, true, false, not, some,
  List, [], ◌∷◌, arith, nat_eq, nat_eq_iff, ℕ_eq, string_eq, Bool-cases, length, keep, All, In,
  here, there, includes-In, In-includes, In-append_left, In-append_right, In-append, In-keep,
  keep-In, length-keep-not, In-All, All-In,
}
use online_verifier.Text.{Text}
use online_verifier.Text.Laws.{text_eq_instance}
use online_verifier.SdJwt.Json.{Json}
use online_verifier.SdJwt.Anchors.{
  Kind, kv, elem, Hashes, hashes_of, join, visit, Disclosure, is_anchored, add_values, expand,
  all_anchored,
}

-- A hash is known if it stands in the payload, or in the value of a disclosure whose own hash is
-- known; each in the way that its kind asks for.
pub data Known (payload : Json) (ds : List Disclosure) : Kind → Text → Type 0 where
  seed : {k : Kind} {h : Text} → In h (hashes_of k (visit payload)) → Known payload ds k h
  nested :
      {k : Kind} {h : Text} (d : Disclosure)
      → In d ds
      → Known payload ds d.kind d.hash
      → In h (hashes_of k (visit d.value))
      → Known payload ds k h

In-join_left :
    (k : Kind) {h : Text} (s t : Hashes) → In h (hashes_of k s) → In h (hashes_of k (join s t))
In-join_left kv s t m = In-append_left t.kv_hashes m
In-join_left elem s t m = In-append_left t.array_elem_hashes m

In-join_right :
    (k : Kind) {h : Text} (s t : Hashes) → In h (hashes_of k t) → In h (hashes_of k (join s t))
In-join_right kv s t m = In-append_right s.kv_hashes m
In-join_right elem s t m = In-append_right s.array_elem_hashes m

In-join :
    (k : Kind) {h : Text} (s t : Hashes)
    → In h (hashes_of k (join s t))
    → In h (hashes_of k s) ⊎ In h (hashes_of k t)
In-join kv s t m = In-append s.kv_hashes t.kv_hashes m
In-join elem s t m = In-append s.array_elem_hashes t.array_elem_hashes m

-- What `add_values` holds: the old hashes, and those of the values.
In-add_values_old :
    (k : Kind) {h : Text} (s : Hashes) (xs : List Disclosure)
    → In h (hashes_of k s)
    → In h (hashes_of k (add_values s xs))
unfolding add_values
In-add_values_old k s [] m = m
In-add_values_old k s (a ∷ xs) m =
    In-add_values_old k (join s (visit a.value)) xs (In-join_left k s (visit a.value) m)

In-add_values_new :
    (k : Kind) {h : Text} (d : Disclosure) (s : Hashes) {xs : List Disclosure}
    → In d xs
    → In h (hashes_of k (visit d.value))
    → In h (hashes_of k (add_values s xs))
unfolding add_values
In-add_values_new k d s (here {xs = xs}) m =
    In-add_values_old k (join s (visit d.value)) xs (In-join_right k s (visit d.value) m)
In-add_values_new k d s (there {x = x} n) m = In-add_values_new k d (join s (visit x.value)) n m

module _ (payload : Json) (ds : List Disclosure) where
  -- Everything that a set holds is known.
  abbrev Sound : Hashes → Type 0
  Sound s = (k : Kind) (h : Text) → In h (hashes_of k s) → Known payload ds k h

  abbrev Within : List Disclosure → Type 0
  Within xs = (d : Disclosure) → In d xs → In d ds

  abbrev IsKnown : Disclosure → Type 0
  IsKnown d = Known payload ds d.kind d.hash

  add_values-Sound :
      (s : Hashes) (xs : List Disclosure)
      → Sound s
      → Within xs
      → All IsKnown xs
      → Sound (add_values s xs)
  unfolding add_values
  add_values-Sound s [] sound w known = sound
  add_values-Sound s (a ∷ xs) sound w (first, known) =
      add_values-Sound (join s (visit a.value)) xs
        (λ k h m. elim (In-join k s (visit a.value) m) [
          | inl old ↦ sound k h old
          | inr new ↦ nested a (w a here) first new
        ])
        (λ d m. w d (there m)) known

  anchored-IsKnown : (s : Hashes) (d : Disclosure) → Sound s → is_anchored s d ≡ true → IsKnown d
  anchored-IsKnown s d sound h = sound d.kind d.hash (includes-In (hashes_of d.kind s) d.hash h)

  expand-Sound :
      (fuel : ℕ) (s : Hashes) (remaining : List Disclosure)
      → Sound s
      → Within remaining
      → expand fuel s remaining ≡ some []
      → All IsKnown remaining
  unfolding expand
  expand-Sound zero s remaining sound w h = cc
  expand-Sound (suc fuel) s remaining sound w h =
      let anchored = keep (is_anchored s) remaining in
      let others = keep (λ d. not (is_anchored s d)) remaining in
      let members = λ (d : Disclosure) (m : In d anchored). In-keep (is_anchored s) remaining m in
      let known : All IsKnown anchored =
        All-In IsKnown anchored (λ d m. anchored-IsKnown s d sound (members d m).1) in
      elim (Bool-cases (nat_eq (length anchored) 0)) [
        | inl e ↦
            let stop : some remaining ≡ some [] = rw e at h in
            let none_left : remaining ≡ [] = cc in rw none_left tt
        | inr e ↦
            let next : expand fuel (add_values s anchored) others ≡ some [] = rw e at h in
            let later =
              expand-Sound fuel (add_values s anchored) others
                (add_values-Sound s anchored sound (λ d m. w d (members d m).0) known)
                (λ d m. w d (In-keep (λ d. not (is_anchored s d)) remaining m).0) next in
            All-In IsKnown remaining λ d m. elim (Bool-cases (is_anchored s d)) [
              | inl yes_ ↦ anchored-IsKnown s d sound yes_
              | inr no_ ↦
                  In-All IsKnown (keep-In (λ d. not (is_anchored s d)) m (ground arith)) later
            ]
      ]

  -- The payload's hashes are in the set, and so are those of every disclosure that is done with.
  record IsClosed (s : Hashes) (remaining : List Disclosure) : Type 0 where
    seeded : (k : Kind) (h : Text) → In h (hashes_of k (visit payload)) → In h (hashes_of k s)
    added :
        (d : Disclosure)
        → In d ds
        → In d remaining
          ⊎ ((k : Kind) (h : Text) → In h (hashes_of k (visit d.value)) → In h (hashes_of k s))

  pass-IsClosed :
      (s : Hashes) (remaining : List Disclosure)
      → IsClosed s remaining
      → IsClosed
          (add_values s (keep (is_anchored s) remaining))
          (keep (λ d. not (is_anchored s d)) remaining)
  pass-IsClosed s remaining c =
      let anchored = keep (is_anchored s) remaining in
      record {
        seeded = λ k h m. In-add_values_old k s anchored (c.seeded k h m);
        added = λ d m. elim (c.added d m) [
          | inl left ↦ elim (Bool-cases (is_anchored s d)) [
            | inl e ↦ inr (λ k h n. In-add_values_new k d s (keep-In (is_anchored s) left e) n)
            | inr e ↦ inl (keep-In (λ d. not (is_anchored s d)) left (rw e))
          ]
          | inr old ↦ inr (λ k h n. In-add_values_old k s anchored (old k h n))
        ];
      }

  -- Where the loop stops, nothing that remains is anchored.
  record IsFixed (s : Hashes) (remaining : List Disclosure) : Type 0 where
    closed : IsClosed s remaining
    stuck : (d : Disclosure) → In d remaining → is_anchored s d ≡ false
    from : Within remaining

  none_kept :
      (s : Hashes) (xs : List Disclosure) (d : Disclosure)
      → length (keep (is_anchored s) xs) ≡ 0
      → In d xs
      → is_anchored s d ≡ false
  none_kept s xs d e m = elim (Bool-cases (is_anchored s d)) [
    | inl yes_ ↦ absurd (no_member (keep (is_anchored s) xs) e (keep-In (is_anchored s) m yes_))
    | inr no_ ↦ no_
  ]
    where
      no_member : (ys : List Disclosure) → length ys ≡ 0 → In d ys → ⊥
      no_member [] e m = elim m [ ]
      no_member (y ∷ ys) e m = absurd (omega arith)

  expand-IsFixed :
      (fuel : ℕ) (s : Hashes) (remaining last : List Disclosure)
      → IsClosed s remaining
      → Within remaining
      → expand fuel s remaining ≡ some last
      → (t : Hashes) × IsFixed t last
  unfolding expand
  expand-IsFixed zero s remaining last c w h = cc
  expand-IsFixed (suc fuel) s remaining last c w h =
      let anchored = keep (is_anchored s) remaining in
      let others = keep (λ d. not (is_anchored s d)) remaining in
      elim (Bool-cases (nat_eq (length anchored) 0)) [
        | inl e ↦
            let stop : some remaining ≡ some last = rw e at h in
            let same : remaining ≡ last = cc in
            let fixed : IsFixed s remaining = record {
              closed = c;
              stuck = λ d m. none_kept s remaining d ((nat_eq_iff _ _).0 e) m;
              from = w;
            } in
            (s, rw same at fixed)
        | inr e ↦
            let next : expand fuel (add_values s anchored) others ≡ some last = rw e at h in
            expand-IsFixed fuel (add_values s anchored) others last (pass-IsClosed s remaining c)
              (λ d m. w d (In-keep (λ d. not (is_anchored s d)) remaining m).0) next
      ]

  -- A fixed set holds every known hash.
  Known-In :
      (t : Hashes) (last : List Disclosure)
      → IsFixed t last
      → {k : Kind} {h : Text} → Known payload ds k h
      → In h (hashes_of k t)
  Known-In t last f (seed {k} {h} m) = f.closed.seeded k h m
  Known-In t last f (nested {k} {h} d m known n) =
      let present = Known-In t last f known in
      elim (f.closed.added d m) [
        | inl left ↦ cc (f.stuck d left, In-includes d.hash (hashes_of d.kind t) present)
        | inr all_in ↦ all_in k h n
      ]

  fixed-empty : (t : Hashes) (last : List Disclosure) → IsFixed t last → All IsKnown ds → last ≡ []
  fixed-empty t [] f known = refl
  fixed-empty t (d ∷ last) f known =
      let present = Known-In t (d ∷ last) f (In-All IsKnown (f.from d here) known) in
      cc (f.stuck d here, In-includes d.hash (hashes_of d.kind t) present)

expand_ends :
    (fuel : ℕ) (s : Hashes) (remaining : List Disclosure)
    → length remaining < fuel
    → (last : List Disclosure) × (expand fuel s remaining ≡ some last)
unfolding expand
expand_ends zero s remaining h = absurd (omega arith)
expand_ends (suc fuel) s remaining h =
    let anchored = keep (is_anchored s) remaining in
    let others = keep (λ d. not (is_anchored s d)) remaining in
    elim (Bool-cases (nat_eq (length anchored) 0)) [
      | inl e ↦ (remaining, rw e)
      | inr e ↦
          let shared = length-keep-not (is_anchored s) remaining in
          let some_kept : length anchored ≢ 0 = λ z. cc (e, (nat_eq_iff (length anchored) 0).1 z) in
          let (last, run) = expand_ends fuel (add_values s anchored) others (omega arith) in
          (last, rw e run)
    ]

-- With more fuel than there are disclosures the check ends, and passes exactly if the hash of every
-- disclosure is known: it stands in an `_sd` array or a placeholder, as its kind asks, of the payload
-- or of the value of a disclosure whose hash is known.
pub all_anchored_iff :
    (fuel : ℕ) (payload : Json) (ds : List Disclosure)
    → length ds < fuel
    → (passed : Bool) × (all_anchored fuel payload ds ≡ some passed)
      × ((passed ≡ true) ↔ All (λ d. Known payload ds d.kind d.hash) ds)
unfolding all_anchored
all_anchored_iff fuel payload ds h =
    let (last, run) = expand_ends fuel (visit payload) ds h in
    let start : IsClosed payload ds (visit payload) ds = record {
      seeded = λ k h m. m;
      added = λ d m. inl m;
    } in
    let (t, fixed) = expand-IsFixed payload ds fuel (visit payload) ds last start (λ d m. m) run in
    (
      nat_eq (length last) 0,
      rw (run, all_anchored),
      (
        λ e.
            expand-Sound payload ds fuel (visit payload) ds (λ k h m. seed m) (λ d m. m)
              (run ∙ ap some (empty_of_length last ((nat_eq_iff (length last) 0).0 e))),
        λ known. (nat_eq_iff _ _).1 (ap length (fixed-empty payload ds t last fixed known)),
      ),
    )
  where
    empty_of_length : (xs : List Disclosure) → length xs ≡ 0 → xs ≡ []
    empty_of_length [] e = refl
    empty_of_length (x ∷ xs) e = absurd (omega arith)
