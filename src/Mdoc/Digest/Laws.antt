-- ===== src/Mdoc/Digest/Laws.antt =====
-- Which items pass the digest check.
use online_verifier.Prelude.{
  Eq, ◌==◌, here, there, Bool-cases, nat_eq, nat_eq_iff, ◌⊎◌, ℕ, String, ◌≡◌, refl, sym, ap, ◌∙◌,
  subst, Bool, true, false, not, ◌||◌, Option, none, some, List, [], ◌∷◌, ◌++◌, arith, ℕ_eq,
  string_eq, any, All, Result, ok, err, >>=-eq-ok, >>-eq-ok, guard, guard-eq-ok, includes,
  includes-In, In, Option-cases, inl, inr,
}
use online_verifier.Trust.Cert.{bytes_equal, bytes_equal_iff}
use online_verifier.Mdoc.Cbor.{
  Cbor, bytes, text, number, negative, array, table, tag, embedded, other, inner_bytes, Entries,
  get, lookup,
}
use online_verifier.Mdoc.Mso.{CredentialError, malformed, MobileSecurityObject}
use online_verifier.Mdoc.Digest.{
  Codec, DigestLogEntry, NameSpaces, required, as_number, compute_item_digest, unwrap_item_map,
  log_entry, log_items, build_digest_log, verify_all_digests, as_table, or_throw, decode_inner,
}

required-ok {ℓ} : {A : Type ℓ} (o : Option A) {a : A} → required o ≡ ok a → o ≡ some a
required-ok none h = cc
required-ok (some b) h = cc

abbrev passed : Result CredentialError DigestLogEntry → Bool
passed (ok e) = e.matches
passed (err _) = false

or_false : (a b : Bool) → (a || b) ≡ false → (a ≡ false) × (b ≡ false)
or_false a b h = ground arith

abbrev missed : Result CredentialError (List DigestLogEntry × Bool) → Bool
missed (ok (_, m)) = m
missed (err _) = true

any-append_false {ℓ} :
    {A : Type ℓ} (p : A → Bool) (xs ys : List A)
    → any p (xs ++ ys) ≡ false
    → (any p xs ≡ false) × (any p ys ≡ false)
any-append_false p [] ys h = (refl, h)
any-append_false p (x ∷ xs) ys h =
    let (head, tail) = or_false (p x) (any p (xs ++ ys)) h in
    let (first, second) = any-append_false p xs ys tail in (rw head first, second)

lookup-In {ℓ} :
    {K : Type 0} {A : Type ℓ} ⦃e : Eq K⦄ (key : K) (entries : List (K × A)) {a : A}
    → lookup key entries ≡ some a
    → In (key, a) entries
unfolding lookup
lookup-In key [] h = cc
lookup-In ⦃e = eq⦄ key ((k, b) ∷ entries) {a} h = elim (Bool-cases (k == key)) [
  | inl e ↦
      let found : some b ≡ some a = rw (e, lookup) at h in
      let same : b ≡ a = cc in
      let key_same : k ≡ key = (eq.decides k key).0 e in
      subst (λ p. In p ((k, b) ∷ entries)) (ap (λ x. (x, b)) key_same ∙ ap (λ y. (key, y)) same)
        here
  | inr e ↦ there (lookup-In key entries (rw (e, lookup) at h))
]

-- A value is the bytes in a tag 24, or stands for one.
abbrev pub InTag24 : List ℕ → Cbor → Type 0
InTag24 inner value = (value ≡ tag 24 (bytes inner)) ⊎ (value ≡ embedded inner)

inner_bytes-InTag24 :
    (value : Cbor) (inner : List ℕ) → inner_bytes value ≡ some inner → InTag24 inner value
unfolding inner_bytes
inner_bytes-InTag24 (embedded b) inner h = inr cc
inner_bytes-InTag24 (tag n (bytes b)) inner h = elim (Bool-cases (nat_eq n 24)) [
  | inl e ↦
      let found : some b ≡ some inner = rw (e, inner_bytes) at h in
      let same : b ≡ inner = cc in let number_same : n ≡ 24 = (nat_eq_iff n 24).0 e in inl cc
  | inr e ↦ let bad : none ≡ some inner = rw (e, inner_bytes) at h in cc
]
inner_bytes-InTag24 (tag n (text _)) inner h = cc
inner_bytes-InTag24 (tag n (number _)) inner h = cc
inner_bytes-InTag24 (tag n (negative _)) inner h = cc
inner_bytes-InTag24 (tag n (array _)) inner h = cc
inner_bytes-InTag24 (tag n (table _)) inner h = cc
inner_bytes-InTag24 (tag n (tag _ _)) inner h = cc
inner_bytes-InTag24 (tag n (embedded _)) inner h = cc
inner_bytes-InTag24 (tag n other) inner h = cc
inner_bytes-InTag24 (bytes _) inner h = cc
inner_bytes-InTag24 (text _) inner h = cc
inner_bytes-InTag24 (number _) inner h = cc
inner_bytes-InTag24 (negative _) inner h = cc
inner_bytes-InTag24 (array _) inner h = cc
inner_bytes-InTag24 (table _) inner h = cc
inner_bytes-InTag24 other inner h = cc

module _ (codec : Codec) (mso : MobileSecurityObject) where
  -- The fields of an item: the Map that the bytes decode to, or that stands in a tag 24 in them.
  pub data Holds (item_bytes : List ℕ) (fields : Entries) : Type 0 where
    plain : codec.decode item_bytes ≡ some (table fields) → Holds item_bytes fields
    tagged :
        (inner : List ℕ) (value : Cbor)
        → codec.decode item_bytes ≡ some value
        → InTag24 inner value
        → codec.decode inner ≡ some (table fields)
        → Holds item_bytes fields

  -- The object commits to the item in its namespace: under the item's digestID it has the hash of the
  -- item's bytes, by the object's algorithm, which is one of the three.
  pub record IsCommitted (ns : String) (item_bytes : List ℕ) : Type 0 where
    pub digests : List (ℕ × List ℕ)
    pub fields : Entries
    pub digest_id : ℕ
    pub expected : List ℕ
    pub in_namespace : lookup ns mso.value_digests ≡ some digests
    pub of_namespace : In (ns, digests) mso.value_digests
    pub holds : Holds item_bytes fields
    pub has_id : get fields "digestID" ≡ some (number digest_id)
    pub committed : lookup digest_id digests ≡ some expected
    pub of_id : In (digest_id, expected) digests
    pub is_allowed : In mso.digest_algorithm ("SHA-256" ∷ "SHA-384" ∷ "SHA-512" ∷ [])
    pub hash : codec.digest mso.digest_algorithm item_bytes ≡ expected

  as_number-number : (o : Option Cbor) (n : ℕ) → as_number o ≡ some n → o ≡ some (number n)
  unfolding as_number
  as_number-number none n h = cc
  as_number-number (some (number m)) n h = cc
  as_number-number (some (bytes _)) n h = cc
  as_number-number (some (text _)) n h = cc
  as_number-number (some (negative _)) n h = cc
  as_number-number (some (array _)) n h = cc
  as_number-number (some (table _)) n h = cc
  as_number-number (some (tag _ _)) n h = cc
  as_number-number (some (embedded _)) n h = cc
  as_number-number (some other) n h = cc

  as_table-table : (c : Cbor) (entries : Entries) → as_table c ≡ some entries → c ≡ table entries
  unfolding as_table
  as_table-table (table m) n h = cc
  as_table-table (bytes _) n h = cc
  as_table-table (text _) n h = cc
  as_table-table (number _) n h = cc
  as_table-table (negative _) n h = cc
  as_table-table (array _) n h = cc
  as_table-table (tag _ _) n h = cc
  as_table-table (embedded _) n h = cc
  as_table-table other n h = cc

  or_throw-ok : (o : Option Cbor) {a : Cbor} → or_throw o ≡ ok a → o ≡ some a
  or_throw-ok none h = cc
  or_throw-ok (some b) h = cc

  unwrap_item_map-Holds :
      (item_bytes : List ℕ) (fields : Entries)
      → unwrap_item_map codec item_bytes ≡ ok fields
      → Holds item_bytes fields
  unfolding unwrap_item_map
  unwrap_item_map-Holds item_bytes fields h =
      let (value, d, h1) = >>=-eq-ok (required (codec.decode item_bytes)) _ h in
      let (inner, i, h2) = >>=-eq-ok (or_throw (decode_inner codec value)) _ h1 in
      let is_map : inner ≡ table fields = as_table-table inner fields (required-ok _ h2) in
      let given : decode_inner codec value ≡ some (table fields) =
        or_throw-ok _ i ∙ ap some is_map in
      elim (Option-cases (inner_bytes value)) [
        | inl e ↦
            let same : some value ≡ some (table fields) = rw (decode_inner, e) at given in
            plain (required-ok _ d ∙ same)
        | inr (b, e) ↦
            tagged b value (required-ok _ d) (inner_bytes-InTag24 value b e)
              (rw (decode_inner, e) at given)
      ]

  compute_item_digest-digest :
      (item_bytes hash : List ℕ)
      → compute_item_digest codec item_bytes mso.digest_algorithm ≡ ok hash
      → In mso.digest_algorithm ("SHA-256" ∷ "SHA-384" ∷ "SHA-512" ∷ [])
        × (codec.digest mso.digest_algorithm item_bytes ≡ hash)
  unfolding compute_item_digest
  compute_item_digest-digest item_bytes hash h =
      let (listed, h1) =
        >>-eq-ok
          (guard (includes ("SHA-256" ∷ "SHA-384" ∷ "SHA-512" ∷ []) mso.digest_algorithm) malformed)
          _ h in
      (includes-In _ mso.digest_algorithm (guard-eq-ok _ malformed listed), cc)

  abbrev AllMatch : List DigestLogEntry → Type 0
  AllMatch log = any (λ e. not e.matches) log ≡ false

  entry-IsCommitted :
      (ns : String) (digests : List (ℕ × List ℕ)) (item_bytes : List ℕ) (e : DigestLogEntry)
      → lookup ns mso.value_digests ≡ some digests
      → log_entry codec mso ns digests item_bytes ≡ ok e
      → e.matches ≡ true
      → IsCommitted ns item_bytes
  unfolding log_entry
  entry-IsCommitted ns digests item_bytes e in_ns h m =
      let (hash, hashed, h1) =
        >>=-eq-ok (compute_item_digest codec item_bytes mso.digest_algorithm) _ h in
      let (fields, decodes, h2) = >>=-eq-ok (unwrap_item_map codec item_bytes) _ h1 in
      let (id, has_id, h3) = >>=-eq-ok (required (as_number (get fields "digestID"))) _ h2 in
      let (expected, found, h4) = >>=-eq-ok (required (lookup id digests)) _ h3 in
      let same : bytes_equal hash expected ≡ e.matches = ap passed h4 in
      let equal : hash ≡ expected = (bytes_equal_iff hash expected).0 (same ∙ m) in
      let (supported, digest) = compute_item_digest-digest item_bytes hash hashed in
      record {
        digests = digests;
        fields = fields;
        digest_id = id;
        expected = expected;
        in_namespace = in_ns;
        of_namespace = lookup-In ns mso.value_digests in_ns;
        holds = unwrap_item_map-Holds item_bytes fields decodes;
        has_id = as_number-number _ id (required-ok _ has_id);
        committed = required-ok _ found;
        of_id = lookup-In id digests (required-ok _ found);
        is_allowed = supported;
        hash = digest ∙ equal;
      }

  items-IsCommitted :
      (ns : String) (digests : List (ℕ × List ℕ)) (items : List (List ℕ))
      (log : List DigestLogEntry)
      → lookup ns mso.value_digests ≡ some digests
      → log_items codec mso ns digests items ≡ ok log
      → AllMatch log
      → All (IsCommitted ns) items
  unfolding log_items
  items-IsCommitted ns digests [] log in_ns h m = tt
  items-IsCommitted ns digests (b ∷ items) log in_ns h m =
      let (e, one, h1) = >>=-eq-ok (log_entry codec mso ns digests b) _ h in
      let (rest, more, h2) = >>=-eq-ok (log_items codec mso ns digests items) _ h1 in
      let whole : e ∷ rest ≡ log = cc in
      let all_match : AllMatch (e ∷ rest) = subst (λ l. AllMatch l) (sym whole) m in
      let (first, later) = or_false (not e.matches) _ all_match in
      let matched : e.matches ≡ true = ground arith in
      (
        entry-IsCommitted ns digests b e in_ns one matched,
        items-IsCommitted ns digests items rest in_ns more later,
      )

  abbrev pub AllCommitted : NameSpaces → Type 0
  AllCommitted name_spaces = All (λ (ns, items). All (IsCommitted ns) items) name_spaces

  log_committed :
      (name_spaces : NameSpaces) (log : List DigestLogEntry)
      → build_digest_log codec name_spaces mso ≡ ok log
      → AllMatch log
      → AllCommitted name_spaces
  unfolding build_digest_log
  log_committed [] log h m = tt
  log_committed ((ns, items) ∷ name_spaces) log h m =
      let (digests, found, h1) = >>=-eq-ok (required (lookup ns mso.value_digests)) _ h in
      let (first, one, h2) = >>=-eq-ok (log_items codec mso ns digests items) _ h1 in
      let (rest, more, h3) = >>=-eq-ok (build_digest_log codec name_spaces mso) _ h2 in
      let whole : first ++ rest ≡ log = cc in
      let all_match : AllMatch (first ++ rest) = subst (λ l. AllMatch l) (sym whole) m in
      let (here_match, later) = any-append_false (λ e. not e.matches) first rest all_match in
      (
        items-IsCommitted ns digests items first (required-ok _ found) one here_match,
        log_committed name_spaces rest more later,
      )

  -- When the digest check passes without a mismatch, the mobile security object commits to every item
  -- of every namespace: under the item's digestID, in its namespace, it has the hash of its bytes.
  pub verify_all_digests-AllCommitted :
      (name_spaces : NameSpaces) (log : List DigestLogEntry)
      → verify_all_digests codec name_spaces mso ≡ ok (log, false)
      → AllCommitted name_spaces
  unfolding verify_all_digests
  verify_all_digests-AllCommitted name_spaces log h =
      let (found, built, h1) = >>=-eq-ok (build_digest_log codec name_spaces mso) _ h in
      log_committed name_spaces found built (ap missed h1)
