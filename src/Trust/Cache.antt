-- ===== src/Trust/Cache.antt =====
-- src/trust/Cache.ts: `InMemoryCache`. The Map is its entries in the order of insertion, the least
-- recently used first; `now` is `Date.now()`, in milliseconds.
pub mod Laws
pub mod Runs
pub mod Refinement
use online_verifier.Prelude.{
  ℕ, ◌+◌, ◌*◌, Option, none, some, List, [], ◌∷◌, ◌++◌, ltb, if◌then◌else◌, ◌==◌, ℕ_eq, length,
}
use online_verifier.Text.{Text}
use online_verifier.Text.Laws.{text_eq_instance}
use online_verifier.Trust.Cert.{Bytes}

pub record Entry : Type 0 where
  pub value : Bytes
  pub expires_at : ℕ

abbrev pub Entries : Type 0
Entries = List (Text × Entry)

unfoldable pub entry_of : Text → Entries → Option Entry
entry_of key [] = none
entry_of key ((k, e) ∷ entries) = if k == key then some e else entry_of key entries

unfoldable pub delete : Text → Entries → Entries
delete key [] = []
delete key ((k, e) ∷ entries) =
    let rest = delete key entries in if k == key then rest else (k, e) ∷ rest

-- `Map.set` of a key that has been deleted.
abbrev pub put_last : Text → Entry → Entries → Entries
put_last key e entries = delete key entries ++ (key, e) ∷ []

abbrev pub look : ℕ → Text → Entries → Option Entry → Option Bytes × Entries
look now key entries none = (none, entries)
look now key entries (some e) =
    if ltb e.expires_at now
    then (none, delete key entries)
    else (some e.value, put_last key e entries)

-- `get`: the value, and the entries that are left.
unfoldable pub get : ℕ → Text → Entries → Option Bytes × Entries
get now key entries = look now key entries (entry_of key entries)

-- The loop of `set`: the oldest entries go while there are too many.
unfoldable pub evict : ℕ → Entries → Entries
evict max_entries [] = []
evict max_entries (e ∷ entries) =
    let rest = evict max_entries entries in
    if ltb max_entries (length (e ∷ entries)) then rest else e ∷ entries

unfoldable pub set : ℕ → ℕ → Text → Bytes → ℕ → Entries → Entries
set max_entries now key value ttl_seconds entries =
    evict max_entries
      (put_last key (record { value = value; expires_at = now + ttl_seconds * 1000 }) entries)
