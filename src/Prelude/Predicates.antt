-- ===== src/Prelude/Predicates.antt =====
-- Predicates on the members of a list, and the list functions that decide them.
use mathlib.Core.Path.{◌≡◌}
use mathlib.Core.Logic.{◌↔◌, inl, inr}
use native.Mathlib.Omega.{arith}
use mathlib.Core.Bool.{Bool, true}
use mathlib.Core.List.{List, [], ◌∷◌, ◌++◌}
use online_verifier.Prelude.Tests.{Bool-cases}
use mathlib.Core.Option.{some}
use online_verifier.Prelude.Lists.{any, keep, find, All, Any, In, here, there}

module _ {ℓ} {A : Type ℓ} where
  pub All-map {κ μ} :
      (P : A → Type κ) (Q : A → Type μ)
      → ((x : A) → P x → Q x)
      → (xs : List A) → All P xs
      → All Q xs
  All-map P Q f [] h = tt
  All-map P Q f (x ∷ xs) (p, h) = (f x p, All-map P Q f xs h)

  pub All-append {κ} : (P : A → Type κ) (xs ys : List A) → All P xs → All P ys → All P (xs ++ ys)
  All-append P [] ys h k = k
  All-append P (x ∷ xs) ys (p, h) k = (p, All-append P xs ys h k)

  pub All-and {κ μ} :
      (P : A → Type κ) (Q : A → Type μ) (xs : List A)
      → All P xs
      → All Q xs
      → All (λ x. P x × Q x) xs
  All-and P Q [] h k = tt
  All-and P Q (x ∷ xs) (p, h) (q, k) = ((p, q), All-and P Q xs h k)

  pub Any-map : (P Q : A → Type 0) → ((x : A) → P x → Q x) → (xs : List A) → Any P xs → Any Q xs
  Any-map P Q f [] h = absurd h
  Any-map P Q f (x ∷ xs) (inl p) = inl (f x p)
  Any-map P Q f (x ∷ xs) (inr h) = inr (Any-map P Q f xs h)

  -- A test that decides a predicate.
  module _ (p : A → Bool) (P : A → Type 0) (decides : (x : A) → (p x ≡ true) ↔ P x) where
    pub any_sound : (xs : List A) → any p xs ≡ true → Any P xs
    any_sound [] h = cc
    any_sound (x ∷ xs) h = elim (Bool-cases (p x)) [
      | inl e ↦ inl ((decides x).0 e)
      | inr e ↦ inr (any_sound xs (rw e at h))
    ]

    pub any_complete : (xs : List A) → Any P xs → any p xs ≡ true
    any_complete [] h = absurd h
    any_complete (x ∷ xs) (inl h) = rw ((decides x).1 h)
    any_complete (x ∷ xs) (inr h) = ground (arith, any_complete xs h)

    pub any_iff : (xs : List A) → (any p xs ≡ true) ↔ Any P xs
    any_iff xs = (any_sound xs, any_complete xs)

    -- What holds of the kept members holds of the members that pass the test.
    pub All-keep {κ} : (Q : A → Type κ) (xs : List A) → All Q (keep p xs) ↔ All (λ x. P x → Q x) xs
    All-keep Q [] = (λ _. tt, λ _. tt)
    All-keep Q (x ∷ xs) = elim (Bool-cases (p x)) [
      | inl e ↦ rw e (
        λ (q, h). (λ _. q, (All-keep Q xs).0 h),
        λ (f, h). (f ((decides x).0 e), (All-keep Q xs).1 h),
      )
      | inr e ↦
          rw e
            (λ h. (λ r. cc ((decides x).1 r), (All-keep Q xs).0 h), λ (_, h). (All-keep Q xs).1 h)
    ]

    pub Any-keep : (Q : A → Type 0) (xs : List A) → Any Q (keep p xs) ↔ Any (λ x. P x × Q x) xs
    Any-keep Q [] = (λ h. h, λ h. h)
    Any-keep Q (x ∷ xs) = elim (Bool-cases (p x)) [
      | inl e ↦ rw e (
        λ h. elim h [ inl q ↦ inl ((decides x).0 e, q) | inr t ↦ inr ((Any-keep Q xs).0 t) ],
        λ h. elim h [ inl q ↦ inl q.1 | inr t ↦ inr ((Any-keep Q xs).1 t) ],
      )
      | inr e ↦ rw e (
        λ h. inr ((Any-keep Q xs).0 h),
        λ h. elim h [ inl q ↦ cc ((decides x).1 q.0) | inr t ↦ (Any-keep Q xs).1 t ],
      )
    ]

-- What `find` returns is a member that passes the test.
pub find-some {ℓ} :
    {A : Type ℓ} (p : A → Bool) (xs : List A) {a : A} → find p xs ≡ some a → In a xs × (p a ≡ true)
find-some p [] h = cc
find-some p (x ∷ xs) {a} h = elim (Bool-cases (p x)) [
  | inl e ↦
      let first : some x ≡ some a = rw e at h in let same : x ≡ a = cc in rw (← same) (here, e)
  | inr e ↦ let (later, passes) = find-some p xs (rw e at h) in (there later, passes)
]
