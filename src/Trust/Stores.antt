-- ===== src/Trust/Stores.antt =====
-- src/trust/TrustAnchor.ts and src/trust/TrustStore.ts: `StaticTrustStore` and
-- `CompositeTrustStore`. `reference` stands for the identity of the anchor object, which
-- `results.includes` compares.
pub mod Composite
use online_verifier.Prelude.{
  ℕ, String, Bool, Option, none, some, List, [], ◌∷◌, ◌++◌, map, nat_eq, if◌then◌else◌, Eq, ◌==◌,
  ℕ_eq, string_eq, length, any, includes,
}
use online_verifier.Text.{Text, codes}
use online_verifier.Text.Laws.{text_eq_instance}
use online_verifier.Trust.Cert.{Bytes, Cert, get_ski_hex}
use online_verifier.Trust.Crl.{bytes_to_hex}

pub data AnchorSource : Type 0 where
  static lotl : AnchorSource

pub record TrustAnchor : Type 0 where
  pub reference : ℕ
  pub certificate : Cert
  pub source : AnchorSource
  pub trusted_authority_ids : Option (List Text)

pub record TrustStoreHint : Type 0 where
  pub issuer : Option String
  pub aki : Option Bytes

-- A `Map` from keys to lists of anchors, in the order of insertion.
abbrev pub Index : Type 0 → Type 0
Index K = List (K × List TrustAnchor)

unfoldable pub index_get : {K : Type 0} ⦃e : Eq K⦄ → K → Index K → List TrustAnchor
index_get key [] = []
index_get key ((k, anchors) ∷ index) = if k == key then anchors else index_get key index

-- `pushInto`.
unfoldable pub push_into : {K : Type 0} ⦃e : Eq K⦄ → Index K → K → TrustAnchor → Index K
push_into [] key anchor = (key, anchor ∷ []) ∷ []
push_into ((k, anchors) ∷ index) key anchor =
    if k == key
    then (k, anchors ++ anchor ∷ []) ∷ index
    else (k, anchors) ∷ push_into index key anchor

pub record StaticTrustStore : Type 0 where
  pub anchors : List TrustAnchor
  pub ski_index : Index Text
  pub subject_index : Index String

abbrev pub empty_store : StaticTrustStore
empty_store = record { anchors = []; ski_index = []; subject_index = [] }

abbrev pub index_ski : Option Text → Index Text → TrustAnchor → Index Text
index_ski none index anchor = index
index_ski (some ski) index anchor = push_into index ski anchor

-- One round of the constructor's loop: a certificate in, an anchor and the index entries out.
unfoldable pub add_certificate : StaticTrustStore → Cert → StaticTrustStore
add_certificate store cert =
    let anchor : TrustAnchor = record {
      reference = length store.anchors;
      certificate = cert;
      source = static;
      trusted_authority_ids = none;
    } in
    record {
      anchors = store.anchors ++ anchor ∷ [];
      ski_index = index_ski (get_ski_hex cert) store.ski_index anchor;
      subject_index = push_into store.subject_index cert.subject anchor;
    }

unfoldable pub add_certificates : StaticTrustStore → List Cert → StaticTrustStore
unfolding add_certificate
add_certificates store [] = store
add_certificates store (cert ∷ certs) = add_certificates (add_certificate store cert) certs

pub new_static_trust_store : List Cert → StaticTrustStore
new_static_trust_store certs = add_certificates empty_store certs

-- `results.includes(m)`.
abbrev pub same_object : TrustAnchor → TrustAnchor → Bool
same_object a b = nat_eq a.reference b.reference

unfoldable pub push_missing : List TrustAnchor → List TrustAnchor → List TrustAnchor
push_missing results [] = results
push_missing results (m ∷ found) =
    push_missing (if any (same_object m) results then results else results ++ m ∷ []) found

-- `if (hint.aki)`, `if (hint.issuer)`: an empty issuer is false.
unfoldable pub by_aki : StaticTrustStore → Option Bytes → List TrustAnchor
by_aki store none = []
by_aki store (some aki) = index_get (bytes_to_hex aki) store.ski_index

unfoldable pub by_issuer : StaticTrustStore → Option String → List TrustAnchor
by_issuer store none = []
by_issuer store (some issuer) = if issuer == "" then [] else index_get issuer store.subject_index

unfoldable pub get_anchors : StaticTrustStore → TrustStoreHint → List TrustAnchor
unfolding by_aki by_issuer push_missing
get_anchors store hint = push_missing (by_aki store hint.aki) (by_issuer store hint.issuer)

-- `CompositeTrustStore`: `ski ?? serialNumber` is the key by which duplicates are dropped.
unfoldable pub anchor_key : TrustAnchor → Text
anchor_key anchor = elim (get_ski_hex anchor.certificate) [
  | none ↦ codes anchor.certificate.serial_number
  | some ski ↦ ski
]

unfoldable pub drop_seen : List Text → List TrustAnchor → List TrustAnchor
drop_seen seen [] = []
drop_seen seen (anchor ∷ batch) =
    let later = drop_seen (anchor_key anchor ∷ seen) batch in
    let skipped = drop_seen seen batch in
    if includes seen (anchor_key anchor) then skipped else anchor ∷ later

unfoldable pub concat : List (List TrustAnchor) → List TrustAnchor
concat [] = []
concat (batch ∷ results) = batch ++ concat results

-- The children answer in order, and the batches are walked one behind the other.
unfoldable pub composite_get_anchors :
    List (TrustStoreHint → List TrustAnchor) → TrustStoreHint → List TrustAnchor
composite_get_anchors stores hint = drop_seen [] (concat (map (λ store. store hint) stores))
