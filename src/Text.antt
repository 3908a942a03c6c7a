-- ===== src/Text.antt =====
-- Text walked character by character: the methods of JavaScript's `String` that the verifier calls.
-- A text is the list of its code points. `toLowerCase` is modelled on the letters A to Z, the
-- letters of host names and mail addresses in certificates; other characters are left alone.
pub mod Laws
use Prim.Native.Char.{code}
use Prim.Native.String
use online_verifier.Prelude.{
  ℕ, zero, suc, ◌+◌, ◌-◌, String, Bool, true, false, ◌&&◌, ◌||◌, Option, none, some, List, [], ◌∷◌,
  ◌++◌, map, reverse, leb, nat_eq, if◌then◌else◌, length, drop, Eq,
}

abbrev pub Text : Type 0
Text = List ℕ

abbrev pub codes : String → Text
codes String.[] = []
codes (String.◌∷◌ c s) = code c ∷ codes s

-- `a === b`.
unfoldable pub text_eq : Text → Text → Bool
text_eq [] [] = true
text_eq (a ∷ s) (b ∷ t) = nat_eq a b && text_eq s t
text_eq _ _ = false

unfoldable pub lower_char : ℕ → ℕ
lower_char c = if leb b'A' c && leb c b'Z' then c + 32 else c

-- `s.toLowerCase()`.
unfoldable pub lower : Text → Text
lower s = map lower_char s

-- `s.startsWith(t)`.
unfoldable pub starts_with : Text → Text → Bool
starts_with s [] = true
starts_with [] (b ∷ t) = false
starts_with (a ∷ s) (b ∷ t) = nat_eq a b && starts_with s t

-- `s.endsWith(t)`: the last `t.length` characters of `s` are `t`.
unfoldable pub ends_with : Text → Text → Bool
ends_with s t = leb (length t) (length s) && text_eq (drop (length s - length t) s) t

-- `s.indexOf(c)`, with `none` for -1; `s.includes(c)` is `some`.
unfoldable pub index_of : ℕ → Text → Option ℕ
index_of c [] = none
index_of c (a ∷ s) =
    if nat_eq a c then some 0 else elim (index_of c s) [ none ↦ none | some i ↦ some (suc i) ]

unfoldable pub includes_char : ℕ → Text → Bool
includes_char c [] = false
includes_char c (a ∷ s) = nat_eq a c || includes_char c s

-- `s.split(c)`, over the part that is still open.
unfoldable pub split_from : ℕ → Text → Text → List Text
split_from c cur [] = cur ∷ []
split_from c cur (a ∷ s) =
    let closed = cur ∷ split_from c [] s in
    let longer = split_from c (cur ++ a ∷ []) s in if nat_eq a c then closed else longer

unfoldable pub split : ℕ → Text → List Text
unfolding split_from
split c s = split_from c [] s

-- The white space that `trim` removes, among the characters up to U+00A0.
unfoldable pub is_space : ℕ → Bool
is_space c = (leb 9 c && leb c 13) || nat_eq c 32 || nat_eq c 160

unfoldable pub trim_start : Text → Text
unfolding is_space
trim_start [] = []
trim_start (a ∷ s) = if is_space a then trim_start s else a ∷ s

unfoldable pub trim : Text → Text
unfolding trim_start
trim s = reverse (trim_start (reverse (trim_start s)))

unfoldable pub is_empty : Text → Bool
is_empty [] = true
is_empty (a ∷ s) = false
