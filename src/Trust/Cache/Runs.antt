-- ===== src/Trust/Cache/Runs.antt =====
-- Runs of `InMemoryCache` from the empty cache: an invariant of its entries, and the abstract cache
-- that it refines, which forgets order and bound and knows for each key what was put last.
use online_verifier.Prelude.{
  ℕ, ◌+◌, ◌*◌, ◌≤◌, ◌<◌, ◌≡◌, refl, sym, inl, inr, true, false, Option, none, some, List, [], ◌∷◌,
  ◌++◌, arith, ltb, if◌then◌else◌, ◌==◌, ℕ_eq, string_eq, Bool-cases, length, length-append, All,
}
use online_verifier.Text.{Text}
use online_verifier.Text.Laws.{text_eq_instance}
use online_verifier.Trust.Cert.{Bytes}
use online_verifier.Trust.Cache.{Entry, Entries, entry_of, delete, put_last, look, get, evict, set}
use online_verifier.Trust.Cache.Laws.{length-set}

-- `cache.set(key, value, ttl)` and `cache.get(key)` at a time.
pub data Op : Type 0 where
  put : ℕ → Text → Bytes → ℕ → Op
  query : ℕ → Text → Op

abbrev pub step : ℕ → Op → Entries → Entries
step max_entries (put now key v ttl) entries = set max_entries now key v ttl entries
step max_entries (query now key) entries = (get now key entries).1

-- The operations from the last to the first.
abbrev pub run : ℕ → List Op → Entries
run max_entries [] = []
run max_entries (op ∷ earlier) = step max_entries op (run max_entries earlier)

abbrev pub entry_put : ℕ → Bytes → ℕ → Entry
entry_put now v ttl = record { value = v; expires_at = now + ttl * 1000 }

-- The abstract cache: what was put last under the key.
abbrev pub latest : Text → List Op → Option Entry
latest key [] = none
latest key (put now k v ttl ∷ earlier) =
    if k == key then some (entry_put now v ttl) else latest key earlier
latest key (query now k ∷ earlier) = latest key earlier

-- No two entries have one key.
abbrev pub AreDistinct : Entries → Type 0
AreDistinct [] = Unit
AreDistinct ((k, _) ∷ entries) = All (λ (l, _). (l == k) ≡ false) entries × AreDistinct entries

abbrev pub Avoids : Text → Entries → Type 0
Avoids key = All (λ (l, _). (l == key) ≡ false)

pub delete-Avoids : (key : Text) (entries : Entries) → Avoids key (delete key entries)
unfolding delete
delete-Avoids key [] = tt
delete-Avoids key ((k, e) ∷ entries) = elim (Bool-cases (k == key)) [
  | inl same ↦ rw (same, delete) (delete-Avoids key entries)
  | inr differ ↦ rw (differ, delete) (differ, delete-Avoids key entries)
]

Avoids-delete :
    (other key : Text) (entries : Entries)
    → Avoids other entries
    → Avoids other (delete key entries)
unfolding delete
Avoids-delete other key [] h = tt
Avoids-delete other key ((k, e) ∷ entries) (a, h) = elim (Bool-cases (k == key)) [
  | inl same ↦ rw (same, delete) (Avoids-delete other key entries h)
  | inr differ ↦ rw (differ, delete) (a, Avoids-delete other key entries h)
]

delete-AreDistinct :
    (key : Text) (entries : Entries) → AreDistinct entries → AreDistinct (delete key entries)
unfolding delete
delete-AreDistinct key [] h = tt
delete-AreDistinct key ((k, e) ∷ entries) (a, h) = elim (Bool-cases (k == key)) [
  | inl same ↦ rw (same, delete) (delete-AreDistinct key entries h)
  | inr differ ↦
      rw (differ, delete) (Avoids-delete k key entries a, delete-AreDistinct key entries h)
]

Avoids-last :
    (other key : Text) (e : Entry) (entries : Entries)
    → (key == other) ≡ false
    → Avoids other entries
    → Avoids other (entries ++ (key, e) ∷ [])
Avoids-last other key e [] n h = (n, tt)
Avoids-last other key e (x ∷ entries) n (a, h) = (a, Avoids-last other key e entries n h)

pub ==-sym : (a b : Text) → (a == b) ≡ false → (b == a) ≡ false
==-sym a b h = elim (Bool-cases (b == a)) [
  | inl e ↦
      let same : b ≡ a = (text_eq_instance.decides b a).0 e in
      let back : (a == b) ≡ true = (text_eq_instance.decides a b).1 (sym same) in cc
  | inr e ↦ e
]

last-AreDistinct :
    (key : Text) (e : Entry) (entries : Entries)
    → Avoids key entries
    → AreDistinct entries
    → AreDistinct (entries ++ (key, e) ∷ [])
last-AreDistinct key e [] a h = (tt, tt)
last-AreDistinct key e ((k, d) ∷ entries) (n, a) (b, h) =
    (Avoids-last k key e entries (==-sym k key n) b, last-AreDistinct key e entries a h)

put_last-AreDistinct :
    (key : Text) (e : Entry) (entries : Entries)
    → AreDistinct entries
    → AreDistinct (put_last key e entries)
put_last-AreDistinct key e entries h =
    last-AreDistinct key e (delete key entries) (delete-Avoids key entries)
      (delete-AreDistinct key entries h)

evict-AreDistinct :
    (max_entries : ℕ) (entries : Entries)
    → AreDistinct entries
    → AreDistinct (evict max_entries entries)
unfolding evict
evict-AreDistinct max_entries [] h = tt
evict-AreDistinct max_entries ((k, e) ∷ entries) (a, h) =
    elim (Bool-cases (ltb max_entries (length ((k, e) ∷ entries)))) [
      | inl over ↦ rw (over, evict) (evict-AreDistinct max_entries entries h)
      | inr fits ↦ rw (fits, evict) (a, h)
    ]

look-AreDistinct :
    (now : ℕ) (key : Text) (entries : Entries) (o : Option Entry)
    → AreDistinct entries
    → AreDistinct (look now key entries o).1
look-AreDistinct now key entries none h = h
look-AreDistinct now key entries (some e) h = elim (Bool-cases (ltb e.expires_at now)) [
  | inl old ↦ rw old (delete-AreDistinct key entries h)
  | inr live ↦ rw live (put_last-AreDistinct key e entries h)
]

step-AreDistinct :
    (max_entries : ℕ) (op : Op) (entries : Entries)
    → AreDistinct entries
    → AreDistinct (step max_entries op entries)
unfolding set get
step-AreDistinct max_entries (put now key v ttl) entries h =
    evict-AreDistinct max_entries _ (put_last-AreDistinct key _ entries h)
step-AreDistinct max_entries (query now key) entries h =
    look-AreDistinct now key entries (entry_of key entries) h

length-delete : (key : Text) (entries : Entries) → length (delete key entries) ≤ length entries
unfolding delete
length-delete key [] = omega arith
length-delete key ((k, e) ∷ entries) = elim (Bool-cases (k == key)) [
  | inl same ↦ rw (same, delete) (omega (arith, length-delete key entries))
  | inr differ ↦ rw (differ, delete) (omega (arith, length-delete key entries))
]

length-delete_found :
    (key : Text) (entries : Entries) {e : Entry}
    → entry_of key entries ≡ some e
    → length (delete key entries) < length entries
unfolding delete entry_of
length-delete_found key [] h = cc
length-delete_found key ((k, d) ∷ entries) h = elim (Bool-cases (k == key)) [
  | inl same ↦ rw (same, delete) (omega (arith, length-delete key entries))
  | inr differ ↦
      rw (differ, delete)
        (omega (arith, length-delete_found key entries (rw (differ, entry_of) at h)))
]

length-look :
    (now : ℕ) (key : Text) (entries : Entries) (o : Option Entry)
    → entry_of key entries ≡ o
    → length (look now key entries o).1 ≤ length entries
length-look now key entries none h = omega arith
length-look now key entries (some e) h = elim (Bool-cases (ltb e.expires_at now)) [
  | inl old ↦ rw old (length-delete key entries)
  | inr live ↦ rw live (
      omega (
        arith,
        length-append (delete key entries) ((key, e) ∷ []),
        length-delete_found key entries h,
      ))
]

-- What is true of the entries at all times.
pub record IsValid (max_entries : ℕ) (entries : Entries) : Type 0 where
  pub are_distinct : AreDistinct entries
  pub is_bounded : length entries ≤ max_entries

-- Whatever is put and asked for, in whatever order, the entries of the cache have different keys, and
-- there are at most `maxEntries` of them.
pub run-IsValid : (max_entries : ℕ) (ops : List Op) → IsValid max_entries (run max_entries ops)
unfolding get
run-IsValid max_entries [] = record { are_distinct = tt; is_bounded = omega arith }
run-IsValid max_entries (put now key v ttl ∷ earlier) = record {
  are_distinct =
      step-AreDistinct max_entries (put now key v ttl) (run max_entries earlier)
        (run-IsValid max_entries earlier).are_distinct;
  is_bounded = length-set max_entries now key v ttl (run max_entries earlier);
}
run-IsValid max_entries (query now key ∷ earlier) =
    let before = run max_entries earlier in
    let valid = run-IsValid max_entries earlier in
    record {
      are_distinct = step-AreDistinct max_entries (query now key) before valid.are_distinct;
      is_bounded =
          omega (arith, length-look now key before (entry_of key before) refl, valid.is_bounded);
    }
