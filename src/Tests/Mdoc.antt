-- ===== src/Tests/Mdoc.antt =====
-- An mdoc presentation with both signatures, and the theorems on it.
use online_verifier.Prelude.{
  ℕ, ◌≡◌, refl, true, some, List, [], ◌∷◌, nat_eq, if◌then◌else◌, ℕ_eq, string_eq, length, ok,
  Option,
}
use online_verifier.Trust.Cert.{bytes_equal, same_bytes}
use online_verifier.Base64.{bytes_to_base64url, url_char, btoa, base64_char}
use online_verifier.Mdoc.Bytes.{wrap_issuer_signed_item_bytes, cbor_byte_string_header}
use online_verifier.Mdoc.Cbor.{
  Cbor, bytes, text, number, negative, array, table, tag, no_items, item, Entries, no_entries,
  entry, get, inner_bytes, lookup,
}
use online_verifier.Mdoc.Cose.{
  Crypto, untag, must_be_four, cose_alg_name, get_label, same_label, payload_of, x5chain_of,
  all_bytes, decode_cose_sign1, verify_cose_sign1, hash_name, sig_structure, verify_device_auth,
  extract_tag24_inner, import_device_key_from_cose, build_device_authentication_bytes,
}
use online_verifier.Mdoc.Mso.{validate_mso_validity, is_after, validate_mso_doc_type}
use online_verifier.Mdoc.Digest.{
  Codec, as_table, as_number, as_text, compute_item_digest, decode_inner, unwrap_item_map,
  log_entry, log_items, build_digest_log, verify_all_digests,
}
use online_verifier.Mdoc.Claims.{
  starts_with_tag24, extract_raw_item_bytes, extract_items, extract_entry, extract_name_spaces,
  set_claim, add_claim, map_item, map_items, map_name_spaces, map_raw_to_claims,
}
use online_verifier.Mdoc.Parser.{
  Modules, first_document, must_be_array, check_byte_equality, check_doc_type, check_digests,
  must_be_signed, must_have_transcript, must_have_key, check_trust, check_device_auth,
  check_issuer_auth, check_items, parse_steps, parse,
}
use online_verifier.Mdoc.Parser.Signed.{with_crypto, IsSigned, parse-IsSigned}
use online_verifier.Tests.Credentials.{fields, parse_options, presentation, modules}

abbrev device_signed : Entries
device_signed =
    entry (text "deviceAuth")
      (table (
        entry (text "deviceSignature")
          (array (
            item (bytes (6 ∷ []))
              (item (table no_entries) (item (bytes []) (item (bytes (1 ∷ [])) no_items)))))
          no_entries))
      (entry (text "nameSpaces") (tag 24 (bytes (160 ∷ []))) no_entries)

abbrev signed_document : Entries
signed_document =
    entry (text "issuerSigned")
      (table (
        entry (text "issuerAuth") (array no_items) (
          entry (text "nameSpaces")
            (table
              (entry (text "ns") (array (item (tag 24 (bytes (5 ∷ 6 ∷ []))) no_items)) no_entries))
            no_entries)))
      (entry (text "deviceSigned") (table device_signed) no_entries)

abbrev signed_codec : Codec
signed_codec = record {
  decode = λ b.
      if nat_eq (length b) 1
      then some (
          table
            (entry (text "documents") (array (item (table signed_document) no_items)) no_entries))
      else if nat_eq (length b) 2
      then some (table fields)
      else some (tag 24 (bytes (5 ∷ 6 ∷ [])));
  digest = λ algorithm b. 7 ∷ [];
}

-- The protected header is the byte 6, the device's key the byte 8, and all else a COSE_Sign1 structure.
abbrev decoded : List ℕ → Option Cbor
decoded b =
    if bytes_equal b (6 ∷ [])
    then some (table (entry (number 1) (negative 6) no_entries))
    else if bytes_equal b (8 ∷ [])
    then some (
        table (
          entry (number 1) (number 2) (
            entry (negative 0) (number 1) (
              entry (negative 1) (bytes (1 ∷ []))
                (entry (negative 2) (bytes (2 ∷ [])) no_entries)))))
    else some (
        array (
          item (bytes (6 ∷ [])) (
            item (table (entry (number 33) (bytes (3 ∷ [])) no_entries))
              (item (bytes (2 ∷ [])) (item (bytes (1 ∷ [])) no_items)))))

abbrev crypto : Crypto
crypto = record {
  decode = decoded;
  encode = λ c. 9 ∷ [];
  import_ec = λ curve x y. some (4 ∷ []);
  verify = λ hash key signature input. some true;
}

abbrev signed_modules : Modules
signed_modules = record {
  codec = signed_codec;
  encode = modules.encode;
  import_key = modules.import_key;
  decode_cose_sign1 = modules.decode_cose_sign1;
  verify_cose_sign1 = modules.verify_cose_sign1;
  decode_mso = modules.decode_mso;
  evaluate = modules.evaluate;
  verify_device_auth = modules.verify_device_auth;
}

signed_parsed :
    parse (with_crypto crypto signed_modules) parse_options 50 (1 ∷ []) ≡ ok presentation
unfolding parse parse_steps first_document must_be_array check_trust check_byte_equality
    check_issuer_auth validate_mso_validity is_after check_doc_type validate_mso_doc_type
    check_items extract_name_spaces extract_entry extract_items extract_raw_item_bytes
    starts_with_tag24 wrap_issuer_signed_item_bytes cbor_byte_string_header check_digests
    check_device_auth must_be_signed must_have_transcript must_have_key map_raw_to_claims
    map_name_spaces map_items map_item add_claim set_claim verify_all_digests build_digest_log
    log_items log_entry compute_item_digest unwrap_item_map decode_inner inner_bytes as_table
    as_number as_text get lookup bytes_equal same_bytes untag must_be_four cose_alg_name get_label
    same_label payload_of x5chain_of all_bytes decode_cose_sign1 verify_cose_sign1 hash_name
    sig_structure verify_device_auth extract_tag24_inner import_device_key_from_cose
    build_device_authentication_bytes bytes_to_base64url url_char btoa base64_char
signed_parsed = refl

parse-IsSigned_example : IsSigned crypto signed_modules parse_options 50 (1 ∷ []) presentation
parse-IsSigned_example =
    parse-IsSigned crypto signed_modules parse_options 50 (1 ∷ []) presentation signed_parsed refl
