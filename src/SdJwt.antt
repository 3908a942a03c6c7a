-- ===== src/SdJwt.antt =====
-- src/parsers/sd-jwt.parser.ts: the SD-JWT VC parser.
pub mod Json
pub mod Anchors
pub mod Claims
pub mod Toolkit
pub mod Parser
