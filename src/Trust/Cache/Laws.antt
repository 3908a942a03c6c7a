-- ===== src/Trust/Cache/Laws.antt =====
-- A cache keeps to its bound, and gives back what was put last.
use online_verifier.Prelude.{
  ℕ, ◌+◌, ◌*◌, ◌≤◌, ◌<◌, ◌≡◌, refl, inl, inr, true, false, none, some, [], ◌∷◌, ◌++◌, arith, ltb,
  leb, if◌then◌else◌, ◌==◌, ℕ_eq, ==_refl, Bool-cases, length, All,
}
use online_verifier.Text.{Text}
use online_verifier.Text.Laws.{text_eq_instance}
use online_verifier.Trust.Cert.{Bytes}
use online_verifier.Trust.Cache.{Entry, Entries, entry_of, delete, get, evict, set}

length-evict :
    (max_entries : ℕ) (entries : Entries) → length (evict max_entries entries) ≤ max_entries
unfolding evict
length-evict max_entries [] = omega arith
length-evict max_entries (e ∷ entries) =
    elim (Bool-cases (ltb max_entries (length (e ∷ entries)))) [
      | inl over ↦ rw (over, evict) (length-evict max_entries entries)
      | inr fits ↦ rw (fits, evict) (ground arith)
    ]

-- After `set` the cache has at most `maxEntries` entries.
pub length-set :
    (max_entries now : ℕ) (key : Text) (v : Bytes) (ttl : ℕ) (entries : Entries)
    → length (set max_entries now key v ttl entries) ≤ max_entries
unfolding set
length-set max_entries now key v ttl entries = length-evict max_entries _

delete-absent :
    (key : Text) (entries : Entries) → All (λ (k, _). (k == key) ≡ false) (delete key entries)
unfolding delete
delete-absent key [] = tt
delete-absent key ((k, e) ∷ entries) = elim (Bool-cases (k == key)) [
  | inl same ↦ rw (same, delete) (delete-absent key entries)
  | inr differ ↦ rw (differ, delete) (differ, delete-absent key entries)
]

entry_of-last :
    (key : Text) (e : Entry) (before : Entries)
    → All (λ (k, _). (k == key) ≡ false) before
    → entry_of key (before ++ (key, e) ∷ []) ≡ some e
unfolding entry_of
entry_of-last key e [] absent = rw (==_refl key) refl
entry_of-last key e ((k, d) ∷ before) (differ, absent) =
    rw differ (entry_of-last key e before absent)

entry_of-evict :
    (max_entries : ℕ) (key : Text) (e : Entry) (before : Entries)
    → 0 < max_entries
    → All (λ (k, _). (k == key) ≡ false) before
    → entry_of key (evict max_entries (before ++ (key, e) ∷ [])) ≡ some e
unfolding evict
entry_of-evict max_entries key e [] h absent =
    let fits : ltb max_entries 1 ≡ false = ground arith in rw fits (entry_of-last key e [] tt)
entry_of-evict max_entries key e ((k, d) ∷ before) h (differ, absent) =
    elim (Bool-cases (ltb max_entries (length ((k, d) ∷ before ++ (key, e) ∷ [])))) [
      | inl over ↦ rw (over, evict) (entry_of-evict max_entries key e before h absent)
      | inr fits ↦ rw (fits, evict) (entry_of-last key e ((k, d) ∷ before) (differ, absent))
    ]

-- In a cache of at least one entry, `get` gives back what `set` put under the key, until the time to
-- live is over; after it, nothing.
pub get-set :
    (max_entries now later : ℕ) (key : Text) (v : Bytes) (ttl : ℕ) (entries : Entries)
    → 0 < max_entries
    → (get later key (set max_entries now key v ttl entries)).0
      ≡ (if leb later (now + ttl * 1000) then some v else none)
unfolding get set
get-set max_entries now later key v ttl entries h =
    let expiry = now + ttl * 1000 in
    elim (Bool-cases (ltb expiry later)) [
      | inl over ↦
          let late : leb later expiry ≡ false = ground arith in
          rw
            (
              entry_of-evict max_entries key (record { value = v; expires_at = expiry })
                  (delete key entries) h (delete-absent key entries),
              over,
              late,
            )
            refl
      | inr fresh ↦
          let early : leb later expiry ≡ true = ground arith in
          rw
            (
              entry_of-evict max_entries key (record { value = v; expires_at = expiry })
                  (delete key entries) h (delete-absent key entries),
              fresh,
              early,
            )
            refl
    ]
