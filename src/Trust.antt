-- ===== src/Trust.antt =====
-- src/trust: certificates, chains, trust stores and revocation.
pub mod Cert
pub mod Names
pub mod Failure
pub mod Constraints
pub mod Chain
pub mod Crl
pub mod Revocation
pub mod Stores
pub mod Evaluator
pub mod Cache
pub mod Provenance
pub mod Ecdsa
pub mod OcspResponse
pub mod Ocsp
