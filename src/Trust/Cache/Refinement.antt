-- ===== src/Trust/Cache/Refinement.antt =====
-- `InMemoryCache` refines the abstract cache.
use online_verifier.Prelude.{
  ℕ, ◌≤◌, ◌≡◌, refl, ◌∙◌, subst, inl, inr, Option, none, some, List, [], ◌∷◌, ◌++◌, arith, ltb,
  ◌==◌, ℕ_eq, string_eq, ==_refl, Bool-cases, length, All,
}
use online_verifier.Text.{Text}
use online_verifier.Text.Laws.{text_eq_instance}
use online_verifier.Trust.Cert.{Bytes}
use online_verifier.Trust.Cache.{Entry, Entries, entry_of, delete, look, get, evict, set}
use online_verifier.Trust.Cache.Runs.{
  Op, put, query, run, entry_put, latest, Avoids, delete-Avoids, ==-sym,
}

-- Every entry is what was put last under its key.
Holds : List Op → Entries → Type 0
Holds ops = All (λ (k, e). latest k ops ≡ some e)

delete-Holds :
    (ops : List Op) (key : Text) (entries : Entries)
    → Holds ops entries
    → Holds ops (delete key entries)
unfolding delete Holds
delete-Holds ops key [] h = tt
delete-Holds ops key ((k, e) ∷ entries) (a, h) = elim (Bool-cases (k == key)) [
  | inl same ↦ rw (same, delete) (delete-Holds ops key entries h)
  | inr differ ↦ rw (differ, delete) (a, delete-Holds ops key entries h)
]

last-Holds :
    (ops : List Op) (key : Text) (e : Entry) (entries : Entries)
    → Holds ops entries
    → latest key ops ≡ some e
    → Holds ops (entries ++ (key, e) ∷ [])
unfolding Holds
last-Holds ops key e [] h l = (l, tt)
last-Holds ops key e (x ∷ entries) (a, h) l = (a, last-Holds ops key e entries h l)

evict-Holds :
    (ops : List Op) (max_entries : ℕ) (entries : Entries)
    → Holds ops entries
    → Holds ops (evict max_entries entries)
unfolding evict Holds
evict-Holds ops max_entries [] h = tt
evict-Holds ops max_entries ((k, e) ∷ entries) (a, h) =
    elim (Bool-cases (ltb max_entries (length ((k, e) ∷ entries)))) [
      | inl over ↦ rw (over, evict) (evict-Holds ops max_entries entries h)
      | inr fits ↦ rw (fits, evict) (a, h)
    ]

-- A put under a key leaves what was put last under the others.
put-Holds :
    (ops : List Op) (now : ℕ) (key : Text) (v : Bytes) (ttl : ℕ) (entries : Entries)
    → Holds ops entries
    → Avoids key entries
    → Holds (put now key v ttl ∷ ops) entries
unfolding Holds
put-Holds ops now key v ttl [] h a = tt
put-Holds ops now key v ttl ((k, e) ∷ entries) (l, h) (n, a) =
    (rw (==-sym k key n) l, put-Holds ops now key v ttl entries h a)

entry_of-Holds :
    (ops : List Op) (key : Text) (entries : Entries) {e : Entry}
    → Holds ops entries
    → entry_of key entries ≡ some e
    → latest key ops ≡ some e
unfolding Holds entry_of
entry_of-Holds ops key [] h f = cc
entry_of-Holds ops key ((k, d) ∷ entries) {e} (l, h) f = elim (Bool-cases (k == key)) [
  | inl same ↦
      let found : some d ≡ some e = rw (same, entry_of) at f in
      subst (λ x. latest x ops ≡ some e) ((text_eq_instance.decides k key).0 same) (l ∙ found)
  | inr differ ↦ entry_of-Holds ops key entries h (rw (differ, entry_of) at f)
]

look-Holds :
    (ops : List Op) (now : ℕ) (key : Text) (entries : Entries) (o : Option Entry)
    → entry_of key entries ≡ o
    → Holds ops entries
    → Holds ops (look now key entries o).1
look-Holds ops now key entries none e h = h
look-Holds ops now key entries (some x) e h = elim (Bool-cases (ltb x.expires_at now)) [
  | inl old ↦ rw old (delete-Holds ops key entries h)
  | inr live ↦ rw live (
      last-Holds ops key x (delete key entries) (delete-Holds ops key entries h)
        (entry_of-Holds ops key entries h e))
]

query-Holds :
    (ops : List Op) (now : ℕ) (key : Text) (entries : Entries)
    → Holds ops entries
    → Holds (query now key ∷ ops) entries
unfolding Holds
query-Holds ops now key [] h = tt
query-Holds ops now key (x ∷ entries) (l, h) = (l, query-Holds ops now key entries h)

run-Holds : (max_entries : ℕ) (ops : List Op) → Holds ops (run max_entries ops)
unfolding get set Holds
run-Holds max_entries [] = tt
run-Holds max_entries (put now key v ttl ∷ earlier) =
    let before = run max_entries earlier in
    let kept =
      put-Holds earlier now key v ttl (delete key before)
        (delete-Holds earlier key before (run-Holds max_entries earlier))
        (delete-Avoids key before) in
    evict-Holds (put now key v ttl ∷ earlier) max_entries _ (
      last-Holds (put now key v ttl ∷ earlier) key (entry_put now v ttl) (delete key before) kept
        (rw (==_refl key)))
run-Holds max_entries (query now key ∷ earlier) =
    let before = run max_entries earlier in
    query-Holds earlier now key _
      (look-Holds earlier now key before (entry_of key before) refl (run-Holds max_entries earlier))

look-some :
    (now : ℕ) (key : Text) (entries : Entries) (o : Option Entry) (v : Bytes)
    → (look now key entries o).0 ≡ some v
    → (e : Entry) × (o ≡ some e) × (e.value ≡ v) × (now ≤ e.expires_at)
look-some now key entries none v h = cc
look-some now key entries (some e) v h = elim (Bool-cases (ltb e.expires_at now)) [
  | inl old ↦ let bad : none ≡ some v = rw old at h in cc
  | inr live ↦ let found : some e.value ≡ some v = rw live at h in (e, refl, cc, ground arith)
]

-- `InMemoryCache` refines the abstract cache: whatever was put and asked for before, a `get` that
-- answers gives the value that was put last under its key, and no later than it lives. (It may forget:
-- an entry that was evicted answers nothing.)
pub get-Refines :
    (max_entries : ℕ) (ops : List Op) (now : ℕ) (key : Text) (v : Bytes)
    → (get now key (run max_entries ops)).0 ≡ some v
    → (e : Entry) × (latest key ops ≡ some e) × (e.value ≡ v) × (now ≤ e.expires_at)
unfolding get
get-Refines max_entries ops now key v h =
    let entries = run max_entries ops in
    let (e, found, same, lives) = look-some now key entries (entry_of key entries) v h in
    (e, entry_of-Holds ops key entries (run-Holds max_entries ops) found, same, lives)
