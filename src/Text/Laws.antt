-- ===== src/Text/Laws.antt =====
-- What the tests on texts decide.
use online_verifier.Prelude.{
  ℕ, zero, suc, ◌-◌, ◌≡◌, refl, sym, ◌↔◌, true, List, [], ◌∷◌, ◌++◌, arith, leb, length, drop, take,
  length-append, &&_iff, Eq,
}
use online_verifier.Text.{Text, text_eq, ends_with}

pub text_eq_sound : (s t : Text) → text_eq s t ≡ true → s ≡ t
unfolding text_eq
text_eq_sound [] [] h = refl
text_eq_sound (a ∷ s) (b ∷ t) h = ground (arith, text_eq_sound s t)
text_eq_sound [] (b ∷ t) h = cc
text_eq_sound (a ∷ s) [] h = cc

pub text_eq_refl : (s : Text) → text_eq s s ≡ true
unfolding text_eq
text_eq_refl [] = refl
text_eq_refl (a ∷ s) = ground (arith, text_eq_refl s)

pub text_eq_iff : (s t : Text) → (text_eq s t ≡ true) ↔ (s ≡ t)
text_eq_iff s t = (text_eq_sound s t, λ e. rw e (text_eq_refl t))

instance abbrev pub text_eq_instance : Eq Text
text_eq_instance = record { is_same = text_eq; decides = text_eq_iff }

take-append-drop {ℓ} : {A : Type ℓ} (n : ℕ) (xs : List A) → take n xs ++ drop n xs ≡ xs
take-append-drop zero xs = refl
take-append-drop (suc n) [] = refl
take-append-drop (suc n) (x ∷ xs) = rw (take-append-drop n xs)

drop-append {ℓ} : {A : Type ℓ} (xs ys : List A) → drop (length xs) (xs ++ ys) ≡ ys
drop-append [] ys = refl
drop-append (x ∷ xs) ys = drop-append xs ys

-- `s` ends with `t`.
abbrev pub IsSuffix : Text → Text → Type 0
IsSuffix t s = (p : Text) × (s ≡ p ++ t)

pub ends_with_sound : (s t : Text) → ends_with s t ≡ true → IsSuffix t s
unfolding ends_with
ends_with_sound s t h =
    let n = length s - length t in
    let both = (&&_iff (leb (length t) (length s)) (text_eq (drop n s) t)).0 h in
    let e : drop n s ≡ t = text_eq_sound (drop n s) t both.1 in
    (take n s, sym (rw e at (take-append-drop n s)))

ends_with-append : (p t : Text) → ends_with (p ++ t) t ≡ true
unfolding ends_with
ends_with-append p t =
    let n : length (p ++ t) - length t ≡ length p = omega (arith, length-append p t) in
    let fits : leb (length t) (length (p ++ t)) ≡ true = ground (arith, length-append p t) in
    let same : text_eq (drop (length (p ++ t) - length t) (p ++ t)) t ≡ true =
      rw (n, drop-append p t) (text_eq_refl t) in
    rw (fits, same)

pub ends_with_iff : (s t : Text) → (ends_with s t ≡ true) ↔ IsSuffix t s
ends_with_iff s t = (ends_with_sound s t, λ (p, e). rw e (ends_with-append p t))
