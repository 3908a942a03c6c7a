-- ===== src/Trust/Names.antt =====
-- src/trust/ChainBuilder.ts: the names of a leaf, the subtrees of name constraints, and when a name
-- lies under a subtree.
pub mod Laws
use online_verifier.Prelude.{
  ◌+◌, String, Bool, true, false, not, ◌||◌, Option, none, some, List, [], ◌∷◌, map, reverse, ltb,
  if◌then◌else◌, ◌==◌, ℕ_eq, string_eq, length, drop, keep,
}
use online_verifier.Text.{
  Text, codes, text_eq, lower, starts_with, ends_with, index_of, includes_char, split, trim,
  is_empty,
}
use online_verifier.Trust.Cert.{SanName, GeneralName, Cert, Library}

pub data NameType : Type 0 where
  dn dns email uri : NameType

pub record SubtreeName : Type 0 where
  pub type : NameType
  pub value : String

unfoldable pub same_type : NameType → NameType → Bool
same_type dn dn = true
same_type dns dns = true
same_type email email = true
same_type uri uri = true
same_type _ _ = false

-- `dnsIsUnder`: equal, or more labels on the left.
unfoldable pub dns_is_under : Text → Text → Bool
dns_is_under leaf_dns subtree =
    let leaf = lower leaf_dns in
    let sub = lower subtree in if text_eq leaf sub then true else ends_with leaf (b'.' ∷ sub)

-- The domain part of a mail address against a host or a dot-prefixed domain.
unfoldable pub host_is_under : Text → Text → Bool
host_is_under leaf_host sub =
    if starts_with sub (b'.' ∷ [])
    then text_eq leaf_host (drop 1 sub) || ends_with leaf_host sub
    else text_eq leaf_host sub

unfoldable pub email_is_under : Text → Text → Bool
email_is_under leaf_email subtree =
    let leaf = lower leaf_email in
    let sub = lower subtree in
    if includes_char b'@' sub then text_eq leaf sub else elim (index_of b'@' leaf) [
      | none ↦ false
      | some at ↦ host_is_under (drop (at + 1) leaf) sub
    ]

-- `normalize` of `dnIsUnder`: the RDNs, trimmed, without the empty ones, the last one first.
unfoldable pub normalize : Text → List Text
normalize name = reverse (keep (λ rdn. not (is_empty rdn)) (map trim (split b',' name)))

-- The loop over the RDNs of the subtree; `child[i]` is read where the subtree has an RDN.
unfoldable pub same_rdns : List Text → List Text → Bool
same_rdns child [] = true
same_rdns [] (s ∷ subtree) = false
same_rdns (c ∷ child) (s ∷ subtree) =
    if not (text_eq (lower c) (lower s)) then false else same_rdns child subtree

unfoldable pub dn_is_under : Text → Text → Bool
dn_is_under child_dn subtree_dn =
    let child = normalize child_dn in
    let subtree = normalize subtree_dn in
    if ltb (length child) (length subtree) then false else same_rdns child subtree

module _ (lib : Library) where
  -- A leaf URI that `new URL` refuses lies under nothing.
  unfoldable pub uri_is_under : String → Text → Bool
  uri_is_under leaf_uri subtree = elim (lib.hostname leaf_uri) [
    | none ↦ false
    | some hostname ↦ dns_is_under (codes hostname) subtree
  ]

  unfoldable pub under : NameType → String → String → Bool
  unfolding uri_is_under
  under dn leaf sub = dn_is_under (codes leaf) (codes sub)
  under dns leaf sub = dns_is_under (codes leaf) (codes sub)
  under email leaf sub = email_is_under (codes leaf) (codes sub)
  under uri leaf sub = uri_is_under leaf (codes sub)

  unfoldable pub matches_subtree : SubtreeName → SubtreeName → Bool
  matches_subtree leaf_name subtree =
      if not (same_type leaf_name.type subtree.type)
      then false
      else under subtree.type leaf_name.value subtree.value

  unfoldable pub general_name_to_subtree : GeneralName → Option SubtreeName
  general_name_to_subtree gn = elim gn.directory_name [
    | some der ↦ some (record { type = dn; value = lib.dn_string der })
    | none ↦ elim gn.dns_name [
      | some name ↦ some (record { type = dns; value = name })
      | none ↦ elim gn.rfc822_name [
        | some name ↦ some (record { type = email; value = name })
        | none ↦ elim gn.uniform_resource_identifier [
          | some name ↦ some (record { type = uri; value = name })
          | none ↦ none
        ]
      ]
    ]
  ]

  -- The loop of `extractSubtrees`.
  unfoldable pub subtrees_of : List GeneralName → List SubtreeName
  unfolding general_name_to_subtree
  subtrees_of [] = []
  subtrees_of (s ∷ subtrees) = elim (general_name_to_subtree s) [
    | some name ↦ name ∷ subtrees_of subtrees
    | none ↦ subtrees_of subtrees
  ]

  unfoldable pub extract_subtrees : Option (List GeneralName) → List SubtreeName
  unfolding subtrees_of
  extract_subtrees none = []
  extract_subtrees (some subtrees) = subtrees_of subtrees

-- The type of a SAN entry that is kept. The library says `url` where constraints say `uri`.
unfoldable pub san_name : SanName → Option SubtreeName
san_name name =
    if name.kind == "dns"
    then some (record { type = dns; value = name.value })
    else if name.kind == "email"
    then some (record { type = email; value = name.value })
    else if name.kind == "url"
    then some (record { type = uri; value = name.value })
    else none

unfoldable pub san_names : List SanName → List SubtreeName
unfolding san_name
san_names [] = []
san_names (name ∷ items) = elim (san_name name) [
  | some n ↦ n ∷ san_names items
  | none ↦ san_names items
]

unfoldable pub collect_leaf_names : Cert → List SubtreeName
unfolding san_names
collect_leaf_names leaf =
    record { type = dn; value = leaf.subject }
    ∷ elim leaf.alternative_names [ none ↦ [] | some items ↦ san_names items ]
