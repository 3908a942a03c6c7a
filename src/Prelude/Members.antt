-- ===== src/Prelude/Members.antt =====
-- Membership: what `includes`, `++` and the filters do to it.
use Prim.Native.Nat.{◌+◌}
use native.Mathlib.Omega.{arith}
use mathlib.Core.Path.{◌≡◌, subst}
use mathlib.Core.Logic.{◌⊎◌, inl, inr}
use mathlib.Core.Bool.{Bool, true, not}
use mathlib.Core.List.{List, [], ◌∷◌, ◌++◌}
use online_verifier.Prelude.Tests.{Bool-cases, Eq, ◌==◌, ==_refl}
use online_verifier.Prelude.Lists.{keep, includes, length, All, In, here, there}

-- `includes` decides membership.
module _ {ℓ} {A : Type ℓ} ⦃e : Eq A⦄ where
  pub includes-In : (xs : List A) (a : A) → includes xs a ≡ true → In a xs
  includes-In [] a h = cc
  includes-In (x ∷ xs) a h = elim (Bool-cases (x == a)) [
    | inl same ↦ let eq : x ≡ a = (e.decides x a).0 same in subst (λ b. In b (x ∷ xs)) eq here
    | inr other ↦ there (includes-In xs a (rw other at h))
  ]

  pub In-includes : (a : A) (xs : List A) → In a xs → includes xs a ≡ true
  In-includes a _ (here {xs = xs}) = rw (==_refl a)
  In-includes a _ (there {x = x} {xs = xs} m) = elim (Bool-cases (x == a)) [
    | inl same ↦ rw same
    | inr other ↦ rw other (In-includes a xs m)
  ]

module _ {ℓ} {A : Type ℓ} where
  pub In-append_left : {a : A} {xs : List A} (ys : List A) → In a xs → In a (xs ++ ys)
  In-append_left ys here = here
  In-append_left ys (there m) = there (In-append_left ys m)

  pub In-append_right : {a : A} (xs : List A) {ys : List A} → In a ys → In a (xs ++ ys)
  In-append_right [] m = m
  In-append_right (x ∷ xs) m = there (In-append_right xs m)

  pub In-append : {a : A} (xs ys : List A) → In a (xs ++ ys) → In a xs ⊎ In a ys
  In-append [] ys m = inr m
  In-append (x ∷ xs) ys here = inl here
  In-append (x ∷ xs) ys (there m) = elim (In-append xs ys m) [
    | inl l ↦ inl (there l)
    | inr r ↦ inr r
  ]

  In-head :
      (p : A → Bool) {a x : A} {xs : List A}
      → p x ≡ true
      → In a (x ∷ xs)
      → (In a (x ∷ []) × (p a ≡ true)) ⊎ In a xs
  In-head p e here = inl (here, e)
  In-head p e (there m) = inr m

  In-weaken : {a x : A} (xs : List A) → In a (x ∷ []) → In a (x ∷ xs)
  In-weaken xs here = here
  In-weaken xs (there m) = elim m [ ]

  pub In-keep : (p : A → Bool) {a : A} (xs : List A) → In a (keep p xs) → In a xs × (p a ≡ true)
  In-keep p [] m = elim m [ ]
  In-keep p (x ∷ xs) m = elim (Bool-cases (p x)) [
    | inl e ↦ elim (In-head p e (rw e at m)) [
      | inl (first, passes) ↦ (In-weaken xs first, passes)
      | inr n ↦ let (later, passes) = In-keep p xs n in (there later, passes)
    ]
    | inr e ↦ let (later, passes) = In-keep p xs (rw e at m) in (there later, passes)
  ]

  pub keep-In : (p : A → Bool) {a : A} {xs : List A} → In a xs → p a ≡ true → In a (keep p xs)
  keep-In p here e = rw e here
  keep-In p {a} (there {x = x} {xs = xs} m) e = elim (Bool-cases (p x)) [
    | inl f ↦ rw f (there (keep-In p m e))
    | inr f ↦ rw f (keep-In p m e)
  ]

  -- A filter and the opposite one share out the list.
  pub length-keep-not :
      (p : A → Bool) (xs : List A)
      → length (keep p xs) + length (keep (λ x. not (p x)) xs) ≡ length xs
  length-keep-not p [] = omega arith
  length-keep-not p (x ∷ xs) = elim (Bool-cases (p x)) [
    | inl e ↦ rw e (omega (arith, length-keep-not p xs))
    | inr e ↦ rw e (omega (arith, length-keep-not p xs))
  ]

  pub In-All {κ} : (P : A → Type κ) {a : A} {xs : List A} → In a xs → All P xs → P a
  In-All P here h = h.0
  In-All P (there m) h = In-All P m h.1

  pub All-In {κ} : (P : A → Type κ) (xs : List A) → ((a : A) → In a xs → P a) → All P xs
  All-In P [] f = tt
  All-In P (x ∷ xs) f = (f x here, All-In P xs (λ a m. f a (there m)))
