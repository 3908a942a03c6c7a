-- ===== src/Trust/Stores/Composite.antt =====
-- What a composite store answers, of what its stores answer.
use online_verifier.Prelude.{
  ◌≡◌, refl, sym, ap, ◌∙◌, subst, ◌⊎◌, Option-cases, none, some, Any-map, inl, inr, Bool, false,
  List, [], ◌∷◌, map, ◌==◌, Bool-cases, ◌≢◌, ◌||◌, arith, includes, All, Any, In, here, there,
  includes-In, All-map,
}
use online_verifier.Text.{Text, codes}
use online_verifier.Trust.Cert.{get_ski_hex}
use online_verifier.Text.Laws.{text_eq_instance}
use online_verifier.Trust.Stores.{
  TrustAnchor, TrustStoreHint, anchor_key, drop_seen, concat, composite_get_anchors,
}

-- The key of an anchor: its key identifier, or its serial number where it has none.
abbrev pub HasKey : TrustAnchor → Text → Type 0
HasKey a k =
    (get_ski_hex a.certificate ≡ some k)
    ⊎ ((get_ski_hex a.certificate ≡ none) × (k ≡ codes a.certificate.serial_number))

abbrev pub SameKey : TrustAnchor → TrustAnchor → Type 0
SameKey a b = (k : Text) × HasKey a k × HasKey b k

-- No two anchors have one key.
abbrev pub IsDistinct : List TrustAnchor → Type 0
IsDistinct [] = Unit
IsDistinct (a ∷ anchors) = All (λ b. ¬ SameKey a b) anchors × IsDistinct anchors

anchor_key-HasKey : (a : TrustAnchor) → HasKey a (anchor_key a)
unfolding anchor_key
anchor_key-HasKey a = elim (Option-cases (get_ski_hex a.certificate)) [
  | inl e ↦ inr (e, rw (e, anchor_key))
  | inr (k, e) ↦ inl (e ∙ ap some (sym (rw (e, anchor_key))))
]

HasKey-unique : (a : TrustAnchor) (j k : Text) → HasKey a j → HasKey a k → j ≡ k
HasKey-unique a j k (inl e) (inl f) = cc
HasKey-unique a j k (inl e) (inr (f, g)) = cc
HasKey-unique a j k (inr (e, g)) (inl f) = cc
HasKey-unique a j k (inr (e, g)) (inr (f, h)) = cc

SameKey-anchor_key : (a b : TrustAnchor) → SameKey a b → anchor_key b ≡ anchor_key a
SameKey-anchor_key a b (k, p, q) =
    HasKey-unique b _ k (anchor_key-HasKey b) q ∙ HasKey-unique a k _ p (anchor_key-HasKey a)

anchor_key-SameKey : (a b : TrustAnchor) → anchor_key b ≡ anchor_key a → SameKey a b
anchor_key-SameKey a b e =
    (anchor_key a, anchor_key-HasKey a, subst (λ k. HasKey b k) e (anchor_key-HasKey b))

In-cons : (k j : Text) (seen : List Text) → In k (j ∷ seen) → (k ≡ j) ⊎ In k seen
In-cons k _ seen here = inl refl
In-cons k j seen (there m) = inr m

drop_seen-Any :
    (a : TrustAnchor) (seen : List Text) (batch : List TrustAnchor)
    → In a batch
    → In (anchor_key a) seen ⊎ Any (λ b. anchor_key b ≡ anchor_key a) (drop_seen seen batch)
unfolding drop_seen
drop_seen-Any a seen _ (here {xs = batch}) = elim (Bool-cases (includes seen (anchor_key a))) [
  | inl e ↦ inl (includes-In seen (anchor_key a) e)
  | inr e ↦ inr (rw (e, drop_seen) (inl refl))
]
drop_seen-Any a seen _ (there {x = b} {xs = batch} m) =
    elim (Bool-cases (includes seen (anchor_key b))) [
      | inl e ↦ rw (e, drop_seen) (drop_seen-Any a seen batch m)
      | inr e ↦ elim (drop_seen-Any a (anchor_key b ∷ seen) batch m) [
        | inr later ↦ inr (rw (e, drop_seen) (inr later))
        | inl old ↦ elim (In-cons (anchor_key a) (anchor_key b) seen old) [
          | inl same ↦ inr (rw (e, drop_seen) (inl (sym same)))
          | inr before ↦ inl before
        ]
      ]
    ]

or_false : (a b : Bool) → (a || b) ≡ false → (a ≡ false) × (b ≡ false)
or_false a b h = ground arith

not_later :
    (j k : Text) (seen : List Text) → includes (j ∷ seen) k ≡ false → includes seen k ≡ false
not_later j k seen h = (or_false (j == k) (includes seen k) h).1

differs : (j k : Text) (seen : List Text) → includes (j ∷ seen) k ≡ false → k ≢ j
differs j k seen h same =
    let apart = (or_false (j == k) (includes seen k) h).0 in
    cc (apart, (text_eq_instance.decides j k).1 (sym same))

In-behind :
    (b : TrustAnchor) (rest whole : List TrustAnchor) (a : TrustAnchor)
    → In a (b ∷ rest)
    → (In a rest → In a whole)
    → In a (b ∷ whole)
In-behind _ rest whole a here f = here
In-behind b rest whole a (there m) f = there (f m)

-- What is kept was not seen before.
drop_seen-fresh :
    (seen : List Text) (batch : List TrustAnchor)
    → All (λ b. includes seen (anchor_key b) ≡ false) (drop_seen seen batch)
unfolding drop_seen
drop_seen-fresh seen [] = tt
drop_seen-fresh seen (b ∷ batch) = elim (Bool-cases (includes seen (anchor_key b))) [
  | inl e ↦ rw (e, drop_seen) (drop_seen-fresh seen batch)
  | inr e ↦
      rw (e, drop_seen)
        (
          e,
          All-map (λ c. includes (anchor_key b ∷ seen) (anchor_key c) ≡ false)
              (λ c. includes seen (anchor_key c) ≡ false)
              (λ c h. not_later (anchor_key b) (anchor_key c) seen h)
              (drop_seen (anchor_key b ∷ seen) batch) (drop_seen-fresh (anchor_key b ∷ seen) batch),
        )
]

drop_seen-IsDistinct :
    (seen : List Text) (batch : List TrustAnchor) → IsDistinct (drop_seen seen batch)
unfolding drop_seen
drop_seen-IsDistinct seen [] = tt
drop_seen-IsDistinct seen (b ∷ batch) = elim (Bool-cases (includes seen (anchor_key b))) [
  | inl e ↦ rw (e, drop_seen) (drop_seen-IsDistinct seen batch)
  | inr e ↦
      rw (e, drop_seen)
        (
          All-map (λ c. includes (anchor_key b ∷ seen) (anchor_key c) ≡ false) (λ c. ¬ SameKey b c)
              (λ c h same.
                differs (anchor_key b) (anchor_key c) seen h (SameKey-anchor_key b c same))
              (drop_seen (anchor_key b ∷ seen) batch) (drop_seen-fresh (anchor_key b ∷ seen) batch),
          drop_seen-IsDistinct (anchor_key b ∷ seen) batch,
        )
]

drop_seen-In :
    (seen : List Text) (batch : List TrustAnchor) (a : TrustAnchor)
    → In a (drop_seen seen batch)
    → In a batch
unfolding drop_seen
drop_seen-In seen [] a m = m
drop_seen-In seen (b ∷ batch) a m = elim (Bool-cases (includes seen (anchor_key b))) [
  | inl e ↦ there (drop_seen-In seen batch a (rw (e, drop_seen) at m))
  | inr e ↦
      In-behind b _ batch a (rw (e, drop_seen) at m)
        (λ k. drop_seen-In (anchor_key b ∷ seen) batch a k)
]

-- The answer of a composite store: every anchor of it is an anchor that one of the stores answered,
-- each anchor that a store answered is represented by one of the same key, and no two have one
-- key. The key is the key identifier, or the serial number where there is none.
pub composite_get_anchors_lem :
    (stores : List (TrustStoreHint → List TrustAnchor)) (hint : TrustStoreHint)
    → ((a : TrustAnchor)
        → In a (composite_get_anchors stores hint)
        → In a (concat (map (λ s. s hint) stores)))
      × ((a : TrustAnchor)
          → In a (concat (map (λ s. s hint) stores))
          → Any (SameKey a) (composite_get_anchors stores hint))
      × IsDistinct (composite_get_anchors stores hint)
unfolding composite_get_anchors
composite_get_anchors_lem stores hint =
    let answers = concat (map (λ s. s hint) stores) in
    (
      λ a m. drop_seen-In [] answers a m,
      λ a m. elim (drop_seen-Any a [] answers m) [
        | inl old ↦ elim old [ ]
        | inr found ↦
            Any-map (λ b. anchor_key b ≡ anchor_key a) (SameKey a) (λ b e. anchor_key-SameKey a b e)
              (drop_seen [] answers) found
      ],
      drop_seen-IsDistinct [] answers,
    )
