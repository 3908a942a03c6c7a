-- ===== src/Tests.antt =====
-- Concrete inputs to which the theorems apply.
mod Trust
mod Revocation
mod Credentials
mod Provenance
mod SdJwt
mod Response
mod Ocsp
mod Mdoc
mod Crl
