-- ===== src/Mdoc/Mso.antt =====
-- src/crypto/mso.ts: the checks of a decoded mobile security object.
use online_verifier.Prelude.{
  ℕ, ◌≤◌, ◌<◌, String, ◌≡◌, ◌↔◌, not, ◌||◌, Bool, false, Option, List, [], ◌∷◌, refl, subst, ◌≢◌,
  arith, ltb, ◌==◌, ℕ_eq, string_eq, Result, ok, err, ◌>>◌, guard,
}

-- A `Date`: its time in milliseconds, or an Invalid Date, whose `getTime()` is NaN, as `decodeDateLike`
-- makes of a text that is no date.
pub data Date : Type 0 where
  time : ℕ → Date
  invalid : Date

-- `a.getTime() > b.getTime()`: a comparison with NaN is false.
unfoldable pub is_after : Date → Date → Bool
is_after (time a) (time b) = ltb b a
is_after _ _ = false

pub record ValidityInfo : Type 0 where
  pub signed : Date
  pub valid_from : Date
  pub valid_until : Date

-- The errors that the checks throw: MalformedCredentialError, ExpiredCredentialError and
-- DigestMismatchError, without their messages, and any other exception.
pub data CredentialError : Type 0 where
  malformed expired digest_mismatch exception : CredentialError

-- MobileSecurityObject: a digest of `value_digests` stands under its namespace and its digestID.
-- `device_key` is the COSE_Key as it is encoded.
pub record MobileSecurityObject : Type 0 where
  pub digest_algorithm : String
  pub value_digests : List (String × List (ℕ × List ℕ))
  pub doc_type : String
  pub device_key : Option (List ℕ)
  pub validity_info : ValidityInfo

unfoldable pub validate_mso_validity : MobileSecurityObject → ℕ → Result CredentialError (Unit {0})
unfolding is_after
validate_mso_validity mso now =
    let info = mso.validity_info in
    do
      guard (not (is_after info.signed (time now))) malformed
      guard (not (is_after info.valid_from (time now))) malformed
      guard (not (is_after info.valid_from info.valid_until)) malformed
      guard (not (is_after info.valid_from info.signed || is_after info.signed info.valid_until))
          malformed
      guard (not (is_after (time now) info.valid_until)) expired

unfoldable pub validate_mso_doc_type :
    MobileSecurityObject → String → Result CredentialError (Unit {0})
validate_mso_doc_type mso expected = guard (mso.doc_type == expected) malformed

-- The date in front of the times, if it is a time.
abbrev pub times : Date → List ℕ → List ℕ
times (time t) rest = t ∷ rest
times invalid rest = rest

abbrev pub IsAscending : List ℕ → Type 0
IsAscending [] = Unit
IsAscending (a ∷ []) = Unit
IsAscending (a ∷ b ∷ rest) = (a ≤ b) × IsAscending (b ∷ rest)

-- The dates of an object that are times, and `now`, stand in the order validFrom, signed, now,
-- validUntil.
abbrev pub InWindow : ValidityInfo → ℕ → Type 0
InWindow info now =
    IsAscending (times info.valid_from (times info.signed (now ∷ times info.valid_until [])))

-- The dates of an object that are times stand in the order validFrom, signed, validUntil, and
-- validUntil is a time before `now`.
abbrev pub IsOver : ValidityInfo → ℕ → Type 0
IsOver info now =
    (until : ℕ) × (info.valid_until ≡ time until)
    × (until < now)
    × IsAscending (times info.valid_from (times info.signed (until ∷ [])))

-- `validateMsoValidity` on the three dates.
abbrev checks : Date → Date → Date → ℕ → Result CredentialError (Unit {0})
checks signed from until now = do
  guard (not (is_after signed (time now))) malformed
  guard (not (is_after from (time now))) malformed
  guard (not (is_after from until)) malformed
  guard (not (is_after from signed || is_after signed until)) malformed
  guard (not (is_after (time now) until)) expired

by_dates :
    (signed from until : Date) (now : ℕ)
    → (checks signed from until now ≡ ok tt)
      ↔ IsAscending (times from (times signed (now ∷ times until [])))
unfolding is_after
by_dates (time s) (time f) (time u) now = ground arith
by_dates (time s) (time f) invalid now = ground arith
by_dates (time s) invalid (time u) now = ground arith
by_dates (time s) invalid invalid now = ground arith
by_dates invalid (time f) (time u) now = ground arith
by_dates invalid (time f) invalid now = ground arith
by_dates invalid invalid (time u) now = ground arith
by_dates invalid invalid invalid now = ground arith

expired_at :
    (signed from : Date) (until now : ℕ)
    → (checks signed from (time until) now ≡ err expired)
      ↔ ((until < now) × IsAscending (times from (times signed (until ∷ []))))
unfolding is_after
expired_at (time s) (time f) u now = ground arith
expired_at (time s) invalid u now = ground arith
expired_at invalid (time f) u now = ground arith
expired_at invalid invalid u now = ground arith

never_expired : (signed from : Date) (now : ℕ) → checks signed from invalid now ≢ err expired
unfolding is_after
never_expired (time s) (time f) now = ground arith
never_expired (time s) invalid now = ground arith
never_expired invalid (time f) now = ground arith
never_expired invalid invalid now = ground arith

expired_by_dates :
    (signed from until : Date) (now : ℕ)
    → (checks signed from until now ≡ err expired)
      ↔ ((u : ℕ) × (until ≡ time u) × (u < now) × IsAscending (times from (times signed (u ∷ []))))
expired_by_dates signed from (time u) now = (
  λ h. let (over, order) = (expired_at signed from u now).0 h in (u, refl, over, order),
  λ (t, e, over, order).
      let same : t ≡ u = cc in
      (expired_at signed from u now).1 (
        subst (λ x. (x < now) × IsAscending (times from (times signed (x ∷ [])))) same
          (over, order)),
)
expired_by_dates signed from invalid now =
    (λ h. absurd (never_expired signed from now h), λ (t, e, l, o). cc)

-- The check passes exactly when validFrom, signed, now and validUntil stand in this order, those of
-- them left out that are Invalid Dates. So an Invalid Date passes, and an object whose validUntil is
-- one never expires.
pub validate_mso_validity_iff :
    (mso : MobileSecurityObject) (now : ℕ)
    → (validate_mso_validity mso now ≡ ok tt) ↔ InWindow mso.validity_info now
unfolding validate_mso_validity is_after
validate_mso_validity_iff mso now =
    by_dates mso.validity_info.signed mso.validity_info.valid_from mso.validity_info.valid_until now

-- The check answers `expired` exactly when validUntil is a time before now, and validFrom, signed and
-- validUntil stand in this order, validFrom and signed left out where they are Invalid Dates.
pub validate_mso_validity_expired_iff :
    (mso : MobileSecurityObject) (now : ℕ)
    → (validate_mso_validity mso now ≡ err expired) ↔ IsOver mso.validity_info now
unfolding validate_mso_validity is_after
validate_mso_validity_expired_iff mso now =
    expired_by_dates mso.validity_info.signed mso.validity_info.valid_from
      mso.validity_info.valid_until now
