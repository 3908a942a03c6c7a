-- ===== src/Mdoc/Parser/Signed.antt =====
-- src/parsers/mdoc.parser.ts over src/crypto/cose-sign1.ts and src/crypto/device-auth.ts.
use online_verifier.Prelude.{ℕ, ◌≡◌, true, List, ◌∷◌, ok}
use online_verifier.Mdoc.Cose.{Crypto, decode_cose_sign1, verify_cose_sign1, verify_device_auth}
use online_verifier.Mdoc.Cose.Laws.{
  IsCoseSigned, IsDeviceSigned, verify_cose_sign1-IsCoseSigned, verify_device_auth-IsDeviceSigned,
}
use online_verifier.Mdoc.Parser.{Modules, ParseOptions, PresentationResult, allowed, parse}
use online_verifier.Mdoc.Parser.Valid.{IsAuthentic, parse-IsAuthentic}

module _ (crypto : Crypto) (rest : Modules) where
  -- The modules of the parser, with these two in their places.
  abbrev pub with_crypto : Modules
  with_crypto = record {
    codec = rest.codec;
    encode = rest.encode;
    import_key = rest.import_key;
    decode_cose_sign1 = decode_cose_sign1 crypto;
    verify_cose_sign1 = verify_cose_sign1 crypto;
    decode_mso = rest.decode_mso;
    evaluate = rest.evaluate;
    verify_device_auth = verify_device_auth crypto;
  }

  -- The two signatures that a valid presentation has.
  pub record IsSigned (opts : ParseOptions) (now : ℕ) (vp_token : List ℕ) (r : PresentationResult)
      : Type 0 where
    pub is_authentic : IsAuthentic with_crypto opts now vp_token r
    pub by_issuer :
        IsCoseSigned crypto is_authentic.cose is_authentic.is_issued.public_key
          (allowed with_crypto opts now)
    pub by_device :
        IsDeviceSigned crypto is_authentic.is_held.device_signed is_authentic.is_held.device_key
          is_authentic.mso.doc_type
          (is_authentic.is_held.first_byte ∷ is_authentic.is_held.more_bytes)
          (allowed with_crypto opts now)

  -- A presentation that the mdoc parser calls valid, over the modules for COSE and device
  -- authentication, is authentic and bears two signatures under allowed algorithms: the issuer's, by the
  -- key of the certificate, over the payload with the mobile security object, and the device's, by the
  -- key in that object, over the caller's session transcript, the document type and the device's items.
  pub parse-IsSigned :
      (opts : ParseOptions) (now : ℕ) (vp_token : List ℕ) (r : PresentationResult)
      → parse with_crypto opts now vp_token ≡ ok r
      → r.valid ≡ true
      → IsSigned opts now vp_token r
  parse-IsSigned opts now vp_token r h v =
      let a = parse-IsAuthentic with_crypto opts now vp_token r h v in
      record {
        is_authentic = a;
        by_issuer =
            verify_cose_sign1-IsCoseSigned crypto a.cose a.is_issued.public_key
              (allowed with_crypto opts now) a.is_issued.is_signed;
        by_device =
            verify_device_auth-IsDeviceSigned crypto a.is_held.device_signed a.is_held.device_key
              a.mso.doc_type (a.is_held.first_byte ∷ a.is_held.more_bytes)
              (allowed with_crypto opts now) a.is_held.is_verified;
      }
