-- ===== src/Trust/Cert.antt =====
-- A certificate as `@peculiar/x509` parses it, and what the trust modules ask of that library, of
-- `@peculiar/asn1-schema` and of the `URL` of the platform. Also src/trust/x509-utils.ts.
-- Times are milliseconds since the earliest date that JavaScript has, so all are natural numbers.
use online_verifier.Prelude.{
  ℕ, String, ◌≡◌, refl, ap, ◌↔◌, inl, inr, Bool, true, false, not, Option, none, some, List, [],
  ◌∷◌, arith, nat_eq, if◌then◌else◌, nat_eq_iff, ℕ_eq, string_eq, Bool-cases, length,
}
use online_verifier.Text.{Text, codes, lower}

abbrev pub Bytes : Type 0
Bytes = List ℕ

-- An entry of a SubjectAlternativeName extension: `type` and `value`.
pub record SanName : Type 0 where
  pub kind : String
  pub value : String

-- A GeneralName of a name constraint, with the fields that are read. `directory_name` is its DER.
pub record GeneralName : Type 0 where
  pub directory_name : Option Bytes
  pub dns_name : Option String
  pub rfc822_name : Option String
  pub uniform_resource_identifier : Option String

pub record NameConstraints : Type 0 where
  pub permitted_subtrees : Option (List GeneralName)
  pub excluded_subtrees : Option (List GeneralName)

pub record BasicConstraints : Type 0 where
  pub ca : Bool
  pub path_length : Option ℕ

-- An extension that is absent is `none`. The AuthorityKeyIdentifier may lack its `keyId`.
-- `usages` are the flags of KeyUsage that are read: digitalSignature and keyCertSign.
pub record KeyUsages : Type 0 where
  pub digital_signature : Bool
  pub key_cert_sign : Bool

pub record Cert : Type 0 where
  pub raw_data : Bytes
  pub subject : String
  pub issuer : String
  pub serial_number : String
  pub public_key : Bytes
  pub not_before : ℕ
  pub not_after : ℕ
  pub algorithm_name : String
  pub algorithm_hash : String
  pub key_usages : Option KeyUsages
  pub basic_constraints : Option BasicConstraints
  pub authority_key_id : Option (Option String)
  pub subject_key_id : Option String
  pub alternative_names : Option (List SanName)
  pub name_constraints : Option Bytes

-- The calls of third-party code; `none` is an exception. `verify c k` checks the signature of `c`
-- by the key `k`, `parse_name_constraints` reads the DER of the extension, and is `none` as well where a
-- directory name in it is no name to the library, since all of them are read before a name is checked;
-- `dn_string` prints such a directory name, and `hostname` is that of `new URL(…)`.
pub record Library : Type 0 where
  pub verify : Cert → Bytes → Option Bool
  pub parse_name_constraints : Bytes → Option NameConstraints
  pub dn_string : Bytes → String
  pub hostname : String → Option String

-- The loop of `certificatesEqual`, which runs on arrays of one length.
unfoldable pub same_bytes : Bytes → Bytes → Bool
same_bytes [] b = true
same_bytes (x ∷ a) [] = false
same_bytes (x ∷ a) (y ∷ b) = if nat_eq x y then same_bytes a b else false

unfoldable pub bytes_equal : Bytes → Bytes → Bool
unfolding same_bytes
bytes_equal a b = if not (nat_eq (length a) (length b)) then false else same_bytes a b

unfoldable pub certificates_equal : Cert → Cert → Bool
certificates_equal a b = bytes_equal a.raw_data b.raw_data

unfoldable pub get_ski_hex : Cert → Option Text
get_ski_hex cert = elim cert.subject_key_id [
  | none ↦ none
  | some key_id ↦ some (lower (codes key_id))
]

same_bytes_iff : (a b : Bytes) → length a ≡ length b → (same_bytes a b ≡ true) ↔ (a ≡ b)
unfolding same_bytes
same_bytes_iff [] [] h = (λ _. refl, λ _. refl)
same_bytes_iff [] (y ∷ b) h = absurd (omega arith)
same_bytes_iff (x ∷ a) [] h = absurd (omega arith)
same_bytes_iff (x ∷ a) (y ∷ b) h =
    let ih = same_bytes_iff a b (omega arith) in
    (λ e. ground (arith, ih.0), λ e. ground (arith, ih.1))

pub bytes_equal_iff : (a b : Bytes) → (bytes_equal a b ≡ true) ↔ (a ≡ b)
unfolding bytes_equal
bytes_equal_iff a b = elim (Bool-cases (nat_eq (length a) (length b))) [
  | inl e ↦ rw e (same_bytes_iff a b ((nat_eq_iff _ _).0 e))
  | inr e ↦ rw e (λ h. cc, λ h. cc ((nat_eq_iff (length a) (length b)).1 (ap length h)))
]

pub certificates_equal_iff :
    (a b : Cert) → (certificates_equal a b ≡ true) ↔ (a.raw_data ≡ b.raw_data)
unfolding certificates_equal
certificates_equal_iff a b = bytes_equal_iff a.raw_data b.raw_data
