-- ===== src/Trust/Provenance/Laws.antt =====
-- Which level of assurance a service has, and which service is found.
use online_verifier.Prelude.{
  String, Option, none, some, List, [], ◌∷◌, ◌≡◌, refl, ◌≢◌, ◌↔◌, inl, inr, Option-cases, All, Any,
}
use online_verifier.Trust.Provenance.{Loa, substantial, high, loa_of, map_loa_from, map_loa}

map_loa_from-high :
    (result : Option Loa) (uris : List String)
    → result ≢ some high
    → (map_loa_from result uris ≡ some high) ↔ Any (λ u. loa_of u ≡ some high) uris
unfolding map_loa_from
map_loa_from-high result [] n = (λ h. n h, λ h. elim h [ ])
map_loa_from-high result (u ∷ uris) n = elim (Option-cases (loa_of u)) [
  | inl e ↦
      let rest = map_loa_from-high result uris n in
      (
        λ h. inr (rest.0 (rw (e, map_loa_from) at h)),
        λ h. elim h [ inl bad ↦ cc (e, bad) | inr later ↦ rw (e, map_loa_from) (rest.1 later) ],
      )
  | inr (high, e) ↦ (λ h. inl e, λ h. rw (e, map_loa_from) refl)
  | inr (substantial, e) ↦
      let rest = map_loa_from-high (some substantial) uris (λ bad. cc) in
      (
        λ h. inr (rest.0 (rw (e, map_loa_from) at h)),
        λ h. elim h [ inl bad ↦ cc (e, bad) | inr later ↦ rw (e, map_loa_from) (rest.1 later) ],
      )
]

map_loa_from-some : (uris : List String) → map_loa_from (some substantial) uris ≢ none
unfolding map_loa_from
map_loa_from-some [] h = cc
map_loa_from-some (u ∷ uris) h = elim (Option-cases (loa_of u)) [
  | inl e ↦ map_loa_from-some uris (rw (e, map_loa_from) at h)
  | inr (high, e) ↦ let bad : some high ≡ none = rw (e, map_loa_from) at h in cc
  | inr (substantial, e) ↦ map_loa_from-some uris (rw (e, map_loa_from) at h)
]

map_loa_from-none :
    (uris : List String) → (map_loa_from none uris ≡ none) ↔ All (λ u. loa_of u ≡ none) uris
unfolding map_loa_from
map_loa_from-none [] = (λ h. tt, λ h. refl)
map_loa_from-none (u ∷ uris) = elim (Option-cases (loa_of u)) [
  | inl e ↦
      let rest = map_loa_from-none uris in
      (λ h. (e, rest.0 (rw (e, map_loa_from) at h)), λ (first, h). rw (e, map_loa_from) (rest.1 h))
  | inr (high, e) ↦ (
    λ h. let bad : some high ≡ none = rw (e, map_loa_from) at h in cc,
    λ (first, h). cc (e, first),
  )
  | inr (substantial, e) ↦ (
    λ h. absurd (map_loa_from-some uris (rw (e, map_loa_from) at h)),
    λ (first, h). cc (e, first),
  )
]

-- The level of assurance of a list of URIs is high exactly if some URI stands for high, and there is
-- none exactly if no URI stands for a level.
pub map_loa_iff :
    (uris : List String)
    → ((map_loa uris ≡ some high) ↔ Any (λ u. loa_of u ≡ some high) uris)
      × ((map_loa uris ≡ none) ↔ All (λ u. loa_of u ≡ none) uris)
unfolding map_loa
map_loa_iff uris = (map_loa_from-high none uris (λ bad. cc), map_loa_from-none uris)
