-- ===== src/Trust/Failure.antt =====
-- src/errors.ts: the reason of a CertificateChainError, and any other exception. Messages are left
-- out.
use online_verifier.Prelude.{ℕ_eq, string_eq, Result}

pub data Reason : Type 0 where
  signature validity name_constraints key_usage : Reason
  basic_constraints path_length algorithm_disallowed aki_ski_mismatch : Reason

pub data Failure : Type 0 where
  chain_invalid : Reason → Failure
  exception : Failure

abbrev pub Check : Type 0
Check = Result Failure (Unit {0})
