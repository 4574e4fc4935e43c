-- ===== src/Tls.antt =====
-- The crate crates/fingerprint-core: the ClientHello parser and the TLS fingerprints.
pub mod Reader
pub mod Grease
pub mod Hello
pub mod Ext
pub mod Ja3
pub mod Ja4
