-- ===== src/Mdoc.antt =====
-- The mdoc credentials: src/crypto/mso.ts, src/crypto/digest.ts and src/parsers/mdoc.parser.ts.
pub mod Bytes
pub mod Mso
pub mod Cbor
pub mod Digest
pub mod Claims
pub mod Parser
pub mod Transcript
pub mod Cose
