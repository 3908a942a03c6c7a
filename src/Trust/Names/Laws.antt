-- ===== src/Trust/Names/Laws.antt =====
-- What it means for a name to lie under a subtree, stated without the tests of the code.
use online_verifier.Prelude.{
  ℕ, suc, ◌+◌, ◌≤◌, String, ◌≡◌, refl, ◌≢◌, ◌↔◌, ◌⊎◌, inl, inr, Bool, true, false, none, some, List,
  [], ◌∷◌, ◌++◌, map, arith, nat_eq, ℕ_eq, string_eq, Bool-cases, Option-cases, length, drop, All,
}
use online_verifier.Text.{Text, codes, text_eq, lower, starts_with, index_of, includes_char}
use online_verifier.Text.Laws.{IsSuffix, text_eq_iff, ends_with_iff}
use online_verifier.Trust.Cert.{Library}
use online_verifier.Trust.Names.{
  NameType, dn, dns, email, uri, dns_is_under, host_is_under, email_is_under, normalize, same_rdns,
  dn_is_under, uri_is_under, under, SubtreeName, same_type, matches_subtree,
}

-- A host name lies under a domain if it is the domain, or ends with a dot and the domain, case
-- aside.
abbrev pub DnsUnder : Text → Text → Type 0
DnsUnder leaf sub = (lower leaf ≡ lower sub) ⊎ IsSuffix (b'.' ∷ lower sub) (lower leaf)

pub dns_is_under_iff : (leaf sub : Text) → (dns_is_under leaf sub ≡ true) ↔ DnsUnder leaf sub
unfolding dns_is_under
dns_is_under_iff leaf sub =
    let same = text_eq_iff (lower leaf) (lower sub) in
    let ends = ends_with_iff (lower leaf) (b'.' ∷ lower sub) in
    elim (Bool-cases (text_eq (lower leaf) (lower sub))) [
      | inl e ↦ rw e (λ _. inl (same.0 e), λ _. refl)
      | inr e ↦ rw e (λ h. inr (ends.0 h), λ d. elim d [ inl s ↦ cc (same.1 s) | inr s ↦ ends.1 s ])
    ]

-- The text does not have the character.
abbrev pub Lacks : ℕ → Text → Type 0
Lacks c s = All (λ a. a ≢ c) s

-- A dot-prefixed subtree covers the bare domain and every host below it; any other, itself.
abbrev pub HostUnder : Text → Text → Type 0
HostUnder host [] = host ≡ []
HostUnder host (c ∷ bare) =
    ((c ≡ b'.') × ((host ≡ bare) ⊎ IsSuffix (c ∷ bare) host)) ⊎ ((c ≢ b'.') × (host ≡ c ∷ bare))

-- A mailbox covers itself; a host or domain covers the mailboxes whose part behind the first `@`
-- lies under it.
abbrev pub EmailUnder : Text → Text → Type 0
EmailUnder leaf sub =
    (¬ Lacks b'@' (lower sub) × (lower leaf ≡ lower sub))
    ⊎ (Lacks b'@' (lower sub)
        × ((mailbox : Text) × (host : Text) × (lower leaf ≡ mailbox ++ b'@' ∷ host)
            × Lacks b'@' mailbox
            × HostUnder host (lower sub)))

includes_char_iff : (c : ℕ) (s : Text) → (includes_char c s ≡ false) ↔ Lacks c s
unfolding includes_char
includes_char_iff c [] = (λ _. tt, λ _. refl)
includes_char_iff c (a ∷ s) = ground (arith, includes_char_iff c s)

host_is_under_iff : (host sub : Text) → (host_is_under host sub ≡ true) ↔ HostUnder host sub
unfolding host_is_under starts_with
host_is_under_iff host [] = ground (arith, text_eq_iff host [])
host_is_under_iff host (c ∷ bare) =
    ground
      (arith, text_eq_iff host bare, ends_with_iff host (c ∷ bare), text_eq_iff host (c ∷ bare))

-- The text before the first occurrence of the character lacks it.
index_of-some :
    (c : ℕ) (s : Text) (i : ℕ)
    → index_of c s ≡ some i
    → (before : Text) × (s ≡ before ++ c ∷ drop (suc i) s) × Lacks c before
unfolding index_of
index_of-some c [] i h = cc
index_of-some c (a ∷ s) i h = elim (Bool-cases (nat_eq a c)) [
  | inl e ↦ ([], ground arith, tt)
  | inr e ↦ elim (Option-cases (index_of c s)) [
    | inl missed ↦ cc (rw (e, missed) at h)
    | inr (j, found) ↦
        let (before, parts, lacks) = index_of-some c s j found in
        (a ∷ before, ground arith, (ground arith, lacks))
  ]
]

index_of-append :
    (c : ℕ) (before after : Text)
    → Lacks c before
    → index_of c (before ++ c ∷ after) ≡ some (length before)
unfolding index_of
index_of-append c [] after h = ground arith
index_of-append c (a ∷ before) after (n, h) = ground (arith, index_of-append c before after h)

index_of-none : (c : ℕ) (s : Text) → Lacks c s → index_of c s ≡ none
unfolding index_of
index_of-none c [] h = refl
index_of-none c (a ∷ s) (n, h) = ground (arith, index_of-none c s h)

drop-append_suc :
    (before : Text) (c : ℕ) (after : Text)
    → drop (suc (length before)) (before ++ c ∷ after) ≡ after
drop-append_suc [] c after = refl
drop-append_suc (a ∷ before) c after = drop-append_suc before c after

-- The part of `email_is_under` for a subtree with no `@`.
mailbox_is_under : Text → Text → Bool
mailbox_is_under leaf sub = elim (index_of b'@' leaf) [
  | none ↦ false
  | some at ↦ host_is_under (drop (at + 1) leaf) sub
]

abbrev MailboxUnder : Text → Text → Type 0
MailboxUnder leaf sub =
    (mailbox : Text) × (host : Text) × (leaf ≡ mailbox ++ b'@' ∷ host)
    × Lacks b'@' mailbox
    × HostUnder host sub

mailbox_sound : (leaf sub : Text) → mailbox_is_under leaf sub ≡ true → MailboxUnder leaf sub
unfolding mailbox_is_under
mailbox_sound leaf sub h = elim (Option-cases (index_of b'@' leaf)) [
  | inl missed ↦ cc (rw (missed, mailbox_is_under) at h)
  | inr (at, found) ↦
      let (mailbox, parts, lacks) = index_of-some b'@' leaf at found in
      let found_under : host_is_under (drop (at + 1) leaf) sub ≡ true =
        rw (found, mailbox_is_under) at h in
      let step : at + 1 ≡ suc at = omega arith in
      (
        mailbox,
        drop (suc at) leaf,
        parts,
        lacks,
        (host_is_under_iff _ sub).0 (rw step at found_under),
      )
]

mailbox_complete : (leaf sub : Text) → MailboxUnder leaf sub → mailbox_is_under leaf sub ≡ true
unfolding mailbox_is_under
mailbox_complete leaf sub (mailbox, host, parts, lacks, holds) =
    let at = index_of-append b'@' mailbox host lacks in
    let step : length mailbox + 1 ≡ suc (length mailbox) = omega arith in
    rw (parts, mailbox_is_under, at, step)
      (rw (parts, drop-append_suc mailbox b'@' host) ((host_is_under_iff host sub).1 holds))

pub email_is_under_iff : (leaf sub : Text) → (email_is_under leaf sub ≡ true) ↔ EmailUnder leaf sub
unfolding email_is_under mailbox_is_under
email_is_under_iff leaf sub =
    let whole = text_eq_iff (lower leaf) (lower sub) in
    let lacks = includes_char_iff b'@' (lower sub) in
    elim (Bool-cases (includes_char b'@' (lower sub))) [
      | inl e ↦ rw e (
        λ h. inl (λ l. cc (lacks.1 l), whole.0 h),
        λ d. elim d [ inl (_, same) ↦ whole.1 same | inr (l, _) ↦ cc (lacks.1 l) ],
      )
      | inr e ↦ rw e (
        λ h. inr (lacks.0 e, mailbox_sound (lower leaf) (lower sub) h),
        λ d. elim d [
          | inl (has, _) ↦ absurd (has (lacks.0 e))
          | inr (_, m) ↦ mailbox_complete (lower leaf) (lower sub) m
        ],
      )
    ]

-- The RDNs of the subtree, last first and case aside, begin those of the name.
abbrev pub DnUnder : Text → Text → Type 0
DnUnder child sub =
    (more : List Text) × (map lower (normalize child) ≡ map lower (normalize sub) ++ more)

same_rdns_sound :
    (child sub : List Text)
    → same_rdns child sub ≡ true
    → (more : List Text) × (map lower child ≡ map lower sub ++ more)
unfolding same_rdns
same_rdns_sound child [] h = (map lower child, refl)
same_rdns_sound [] (s ∷ sub) h = cc
same_rdns_sound (c ∷ child) (s ∷ sub) h = elim (Bool-cases (text_eq (lower c) (lower s))) [
  | inl e ↦
      let (more, rest) = same_rdns_sound child sub (rw e at h) in
      (more, cc (rest, (text_eq_iff (lower c) (lower s)).0 e))
  | inr e ↦ cc (rw e at h)
]

same_rdns_complete :
    (child sub more : List Text)
    → map lower child ≡ map lower sub ++ more
    → same_rdns child sub ≡ true
unfolding same_rdns
same_rdns_complete child [] more h = refl
same_rdns_complete [] (s ∷ sub) more h = cc
same_rdns_complete (c ∷ child) (s ∷ sub) more h =
    let same : lower c ≡ lower s = cc in
    let rest : map lower child ≡ map lower sub ++ more = cc in
    rw ((text_eq_iff (lower c) (lower s)).1 same) (same_rdns_complete child sub more rest)

length_bound :
    (child sub more : List Text)
    → map lower child ≡ map lower sub ++ more
    → length sub ≤ length child
length_bound child [] more h = omega arith
length_bound [] (s ∷ sub) more h = cc
length_bound (c ∷ child) (s ∷ sub) more h =
    let rest : map lower child ≡ map lower sub ++ more = cc in
    omega (arith, length_bound child sub more rest)

pub dn_is_under_iff : (child sub : Text) → (dn_is_under child sub ≡ true) ↔ DnUnder child sub
unfolding dn_is_under
dn_is_under_iff child sub = (
  λ h. same_rdns_sound (normalize child) (normalize sub) (ground arith),
  λ (more, h). ground (
    arith,
    same_rdns_complete (normalize child) (normalize sub) more h,
    length_bound (normalize child) (normalize sub) more h,
  ),
)

module _ (lib : Library) where
  -- A URI lies under a domain if its host does; one that `new URL` refuses, under none.
  abbrev pub UriUnder : String → Text → Type 0
  UriUnder leaf sub = (host : String) × (lib.hostname leaf ≡ some host) × DnsUnder (codes host) sub

  abbrev pub Under : NameType → String → String → Type 0
  Under dn leaf sub = DnUnder (codes leaf) (codes sub)
  Under dns leaf sub = DnsUnder (codes leaf) (codes sub)
  Under email leaf sub = EmailUnder (codes leaf) (codes sub)
  Under uri leaf sub = UriUnder leaf (codes sub)

  uri_is_under_iff :
      (leaf : String) (sub : Text) → (uri_is_under lib leaf sub ≡ true) ↔ UriUnder leaf sub
  unfolding uri_is_under
  uri_is_under_iff leaf sub = elim (Option-cases (lib.hostname leaf)) [
    | inl e ↦ (λ h. cc (rw (e, uri_is_under) at h), λ (host, found, _). cc)
    | inr (host, e) ↦ (
      λ h. (host, e, (dns_is_under_iff (codes host) sub).0 (rw (e, uri_is_under) at h)),
      λ (found_host, found, d).
          rw (found, uri_is_under) ((dns_is_under_iff (codes found_host) sub).1 d),
    )
  ]

  pub under_iff :
      (t : NameType) (leaf sub : String) → (under lib t leaf sub ≡ true) ↔ Under t leaf sub
  unfolding under
  under_iff dn leaf sub = dn_is_under_iff (codes leaf) (codes sub)
  under_iff dns leaf sub = dns_is_under_iff (codes leaf) (codes sub)
  under_iff email leaf sub = email_is_under_iff (codes leaf) (codes sub)
  under_iff uri leaf sub = uri_is_under_iff leaf (codes sub)

  -- A leaf name matches a subtree of its own type that it lies under.
  abbrev pub Matches : SubtreeName → SubtreeName → Type 0
  Matches name sub = (name.type ≡ sub.type) × Under sub.type name.value sub.value

  same_type_iff : (a b : NameType) → (same_type a b ≡ true) ↔ (a ≡ b)
  unfolding same_type
  same_type_iff a b = ground arith

  -- A name matches a subtree exactly if both have one type and the name lies under the subtree by the
  -- rule of the type: labels for a host, the host of a mailbox or the mailbox itself, the host of a URI,
  -- or the trailing parts of a directory name, all without regard to case.
  pub matches_subtree_iff :
      (name sub : SubtreeName) → (matches_subtree lib name sub ≡ true) ↔ Matches name sub
  unfolding matches_subtree
  matches_subtree_iff name sub = elim (Bool-cases (same_type name.type sub.type)) [
    | inl e ↦ rw e (
      λ h. ((same_type_iff _ _).0 e, (under_iff sub.type name.value sub.value).0 h),
      λ (_, u). (under_iff sub.type name.value sub.value).1 u,
    )
    | inr e ↦ rw e (λ h. cc, λ (t, _). cc ((same_type_iff name.type sub.type).1 t))
  ]
