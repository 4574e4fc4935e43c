-- ===== src/H2.antt =====
-- crates/fingerprint-h2: the HTTP/2 fingerprint. The children are the files of its src/.
pub mod Hpack
pub mod Frame
pub mod Settings
pub mod Headers
pub mod Http
pub mod Akamai
