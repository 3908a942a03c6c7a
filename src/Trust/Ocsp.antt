-- ===== src/Trust/Ocsp.antt =====
-- src/trust/OcspClient.ts: the class `OcspClient`, over the interface `Responder`; an exception is
-- `none`. `clock` is `Date.now()`, and `now` the argument of `checkCached`.
pub mod Signed
pub mod Laws
pub mod Checker
use online_verifier.Prelude.{
  ℕ, ◌-◌, String, Bool, true, false, not, ◌&&◌, Option, none, some, List, [], ◌∷◌, ◌++◌, map, leb,
  nat_eq, if◌then◌else◌, ◌==◌, ℕ_eq, string_eq, includes, ok,
}
use online_verifier.Text.{Text, codes}
use online_verifier.Trust.Cert.{Bytes, Cert, Library}
use online_verifier.Trust.Crl.{bytes_to_hex}
use online_verifier.Trust.Chain.{ChainOptions, build}
use online_verifier.Trust.Revocation.{RevocationResult}
use online_verifier.Trust.Ecdsa.{ecdsa_der_to_ieee}
use online_verifier.Trust.Cache.{Entries, get, set}
use online_verifier.Trust.OcspResponse.{
  BasicOcspResponse, ResponderCert, HttpResponse, OcspResponse, Responder, hex_to_big_int_bytes,
  extract_verdict, ttl_seconds,
}

abbrev pub upper_char : ℕ → ℕ
upper_char c = if leb b'a' c && leb c b'z' then c - 32 else c

module _ (responder : Responder) where
  unfoldable pub compute_issuer_key_hash : Cert → Option Bytes
  compute_issuer_key_hash issuer = elim (responder.subject_public_key issuer.public_key) [
    | none ↦ none
    | some key ↦ some (responder.sha1 key)
  ]

  unfoldable pub build_request : Cert → Cert → Option Bytes
  build_request subject issuer = elim (compute_issuer_key_hash issuer) [
    | none ↦ none
    | some key_hash ↦ some (
        responder.serialize_request (record {
          hash_algorithm = "1.3.14.3.2.26";
          issuer_name_hash = responder.sha1 (responder.issuer_name issuer);
          issuer_key_hash = key_hash;
          serial_number = hex_to_big_int_bytes (codes subject.serial_number);
        }))
  ]

  -- The checks of `sendRequest` on what the responder answered.
  unfoldable pub basic_of : OcspResponse → Option BasicOcspResponse
  basic_of parsed =
      if not (nat_eq parsed.response_status 0) then none else elim parsed.response_bytes [
        | none ↦ none
        | some (kind, body) ↦
            if kind == "1.3.6.1.5.5.7.48.1.1" then responder.parse_basic body else none
      ]

  unfoldable pub read_http : HttpResponse → Option BasicOcspResponse
  read_http response =
      if response.ok
      then elim (responder.parse_response response.body) [ none ↦ none | some p ↦ basic_of p ]
      else none

  unfoldable pub send_request : String → Bytes → Option BasicOcspResponse
  send_request url request = elim (responder.post url request) [
    | none ↦ none
    | some response ↦ read_http response
  ]

  -- `verifySig`: whether it does not throw.
  unfoldable pub verify_sig : BasicOcspResponse → Cert → Bool
  verify_sig basic signer = elim (ecdsa_der_to_ieee basic.signature 32) [
    | none ↦ false
    | some ieee ↦ elim (responder.verify_p256 signer.public_key ieee basic.tbs_der) [
      | some true ↦ true
      | _ ↦ false
    ]
  ]

  module _ (lib : Library) (clock : ℕ) where
    abbrev pub builder_options : ChainOptions
    builder_options = record { clock_skew_tolerance = none; allowed_algorithms = none }

    -- The loop of the builder ends in its first round, since it has no intermediates.
    unfoldable pub chains_to : Cert → Cert → Bool
    chains_to issuer candidate =
        elim (build lib builder_options clock 1 candidate (issuer ∷ []) []) [
          | some (ok chain) ↦ true
          | _ ↦ false
        ]

    abbrev pub is_responder : ResponderCert → Bool
    is_responder candidate = elim candidate.usages [
      | none ↦ false
      | some usages ↦ includes usages "1.3.6.1.5.5.7.3.9"
    ]

    -- The loop over the embedded certificates: whether one of them closes the check.
    unfoldable pub try_responders : BasicOcspResponse → Cert → List ResponderCert → Bool
    try_responders basic issuer [] = false
    try_responders basic issuer (candidate ∷ certs) =
        let later = try_responders basic issuer certs in
        if not (is_responder candidate)
        then later
        else if not (chains_to issuer candidate.certificate)
        then later
        else if verify_sig basic candidate.certificate
        then true
        else later

    -- Whether `verifyResponse` does not throw.
    unfoldable pub verify_response : BasicOcspResponse → Cert → Bool
    verify_response basic issuer =
        if verify_sig basic issuer
        then true
        else elim basic.certs [ none ↦ false | some certs ↦ try_responders basic issuer certs ]

    -- What is done with a response, whether cached or fetched.
    unfoldable pub judge : BasicOcspResponse → Cert → Cert → ℕ → Option RevocationResult
    judge basic subject issuer now =
        if verify_response basic issuer then extract_verdict none basic subject now else none

    unfoldable pub cache_key : Bytes → Cert → Text
    cache_key key_hash subject =
        codes "ocsp:"
        ++ bytes_to_hex key_hash
        ++ codes ":"
        ++ map upper_char (codes subject.serial_number)

    -- The verdict or an exception, and the cache that is left.
    abbrev pub Outcome : Type 0
    Outcome = Option RevocationResult × Option Entries

    unfoldable pub fetch : Cert → Cert → String → Option BasicOcspResponse
    fetch subject issuer url = elim (build_request subject issuer) [
      | none ↦ none
      | some request ↦ send_request url request
    ]

    abbrev pub store : ℕ → Text → BasicOcspResponse → ℕ → Option Entries → Option Entries
    store max_entries key basic now none = none
    store max_entries key basic now (some entries) = some (
        set max_entries clock key (responder.serialize_basic basic)
          (ttl_seconds basic.responses now) entries)

    abbrev pub keep_verdict : Option RevocationResult → Option Entries → Option Entries → Outcome
    keep_verdict none before after = (none, before)
    keep_verdict (some r) before after = (some r, after)

    unfoldable pub on_miss : ℕ → Text → Cert → Cert → String → ℕ → Option Entries → Outcome
    on_miss max_entries key subject issuer url now cache = elim (fetch subject issuer url) [
      | none ↦ (none, cache)
      | some basic ↦
          keep_verdict (judge basic subject issuer now) cache
            (store max_entries key basic now cache)
    ]

    unfoldable pub on_hit : Bytes → Cert → Cert → ℕ → Option RevocationResult
    on_hit hit subject issuer now = elim (responder.parse_basic hit) [
      | none ↦ none
      | some basic ↦ judge basic subject issuer now
    ]

    abbrev pub look_up : Text → Option Entries → Option Bytes × Option Entries
    look_up key none = (none, none)
    look_up key (some entries) = let (hit, after) = get clock key entries in (hit, some after)

    unfoldable pub after_look_up :
        ℕ → Text → Cert → Cert → String → ℕ → Option Bytes × Option Entries → Outcome
    unfolding on_miss on_hit
    after_look_up max_entries key subject issuer url now (some hit, cache) =
        (on_hit hit subject issuer now, cache)
    after_look_up max_entries key subject issuer url now (none, cache) =
        on_miss max_entries key subject issuer url now cache

    unfoldable pub check_cached : ℕ → Cert → Cert → String → ℕ → Option Entries → Outcome
    unfolding cache_key
    check_cached max_entries subject issuer url now cache = elim (compute_issuer_key_hash issuer) [
      | none ↦ (none, cache)
      | some key_hash ↦
          let key = cache_key key_hash subject in
          after_look_up max_entries key subject issuer url now (look_up key cache)
    ]
