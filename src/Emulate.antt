-- ===== src/Emulate.antt =====
-- crates/fingerprint-emulate: emission from a profile.
pub mod Preamble
pub mod Ciphers
pub mod Build
use flux_parsing_daemon.Base.{ℕ, List}

pub data EmulateError : Type 0 where
  unknown_cipher : ℕ → EmulateError
  tls io : List ℕ → EmulateError
  no_capture not_compiled_in : EmulateError
