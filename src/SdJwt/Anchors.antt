-- ===== src/SdJwt/Anchors.antt =====
-- The disclosure check of `SdJwtParser.parse` (step 7) and `collectAnchorHashes`. A set of hashes is
-- the list of what was added to it.
pub mod Laws
use online_verifier.Prelude.{
  ℕ, zero, suc, ◌+◌, String, Bool, not, Option, none, some, List, [], ◌∷◌, ◌++◌, nat_eq,
  if◌then◌else◌, ◌==◌, ℕ_eq, string_eq, length, keep, includes,
}
use online_verifier.Text.{Text, codes}
use online_verifier.Text.Laws.{text_eq_instance}
use online_verifier.SdJwt.Json.{
  Json, null, bool, num, str, arr, obj, Items, nil, cons, Fields, end, field,
}

-- `kv`: a 3-element disclosure, anchored by an `_sd` array. `elem`: a 2-element one, anchored by a
-- placeholder `{"...": hash}`.
pub data Kind : Type 0 where
  kv elem : Kind

pub record Hashes : Type 0 where
  pub kv_hashes : List Text
  pub array_elem_hashes : List Text

abbrev pub hashes_of : Kind → Hashes → List Text
hashes_of kv s = s.kv_hashes
hashes_of elem s = s.array_elem_hashes

abbrev pub no_hashes : Hashes
no_hashes = record { kv_hashes = []; array_elem_hashes = [] }

-- Both sets, with what another visit adds to them.
abbrev pub join : Hashes → Hashes → Hashes
join s t = record {
  kv_hashes = s.kv_hashes ++ t.kv_hashes;
  array_elem_hashes = s.array_elem_hashes ++ t.array_elem_hashes;
}

abbrev pub one_elem : Text → Hashes
one_elem h = record { kv_hashes = []; array_elem_hashes = h ∷ [] }

-- The strings of an `_sd` array.
unfoldable pub strings_of : Items → List Text
strings_of nil = []
strings_of (cons (str h) xs) = codes h ∷ strings_of xs
strings_of (cons _ xs) = strings_of xs

-- An object whose only key is `...`, with a string.
unfoldable pub placeholder : Json → Option Text
placeholder (obj (field k (str h) end)) = if k == "..." then some (codes h) else none
placeholder _ = none

-- The strings of the value of a key `_sd`, if that is an array.
unfoldable pub sd_entries : String → Json → Option (List Text)
unfolding strings_of
sd_entries k (arr hs) = if k == "_sd" then some (strings_of hs) else none
sd_entries k _ = none

abbrev pub visit_item : Option Text → Hashes → Hashes
visit_item (some h) below = one_elem h
visit_item none below = below

abbrev pub visit_entry : Option (List Text) → Hashes → Hashes
visit_entry (some hs) below = record { kv_hashes = hs; array_elem_hashes = [] }
visit_entry none below = below

-- `visit`, which descends into arrays and objects.
unfoldable mutual
  pub visit : Json → Hashes
  visit (arr xs) = visit_items xs
  visit (obj fs) = visit_fields fs
  visit null = no_hashes
  visit (bool b) = no_hashes
  visit (num n) = no_hashes
  visit (str s) = no_hashes

  pub visit_items : Items → Hashes
  visit_items nil = no_hashes
  visit_items (cons x xs) = join (visit_item (placeholder x) (visit x)) (visit_items xs)

  pub visit_fields : Fields → Hashes
  visit_fields end = no_hashes
  visit_fields (field k v fs) = join (visit_entry (sd_entries k v) (visit v)) (visit_fields fs)

pub record Disclosure : Type 0 where
  pub kind : Kind
  pub hash : Text
  pub value : Json

-- `d.length === 3 ? kvHashes.has(d.hash) : arrayElemHashes.has(d.hash)`.
abbrev pub is_anchored : Hashes → Disclosure → Bool
is_anchored s d = includes (hashes_of d.kind s) d.hash

-- The hashes that the values of the anchored disclosures add.
unfoldable pub add_values : Hashes → List Disclosure → Hashes
add_values s [] = s
add_values s (a ∷ anchored) = add_values (join s (visit a.value)) anchored

-- The `for (;;)` loop: what remains when a pass anchors nothing. `indexOf` and `splice` take each
-- anchored object out of `remaining`, so those that were not anchored in the pass stay.
unfoldable pub expand : ℕ → Hashes → List Disclosure → Option (List Disclosure)
expand zero s remaining = none
expand (suc fuel) s remaining =
    let anchored = keep (is_anchored s) remaining in
    let rest = expand fuel (add_values s anchored) (keep (λ d. not (is_anchored s d)) remaining) in
    if nat_eq (length anchored) 0 then some remaining else rest

-- The whole check: `none` if the fuel ran out, else whether every disclosure is anchored.
unfoldable pub all_anchored : ℕ → Json → List Disclosure → Option Bool
all_anchored fuel payload disclosures = elim (expand fuel (visit payload) disclosures) [
  | none ↦ none
  | some remaining ↦ some (nat_eq (length remaining) 0)
]
