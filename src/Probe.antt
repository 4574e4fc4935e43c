-- ===== src/Probe.antt =====
-- crates/fingerprint-probe: profiles, their comparison with an observed client, and what is computed of the
-- connections served.
pub mod Profile
pub mod Diff
pub mod Inject
pub mod Streams
pub mod UserAgent
pub mod Verdict
pub mod Display
pub mod Base64
pub mod Log
pub mod Admin
pub mod Json
pub mod Serve
pub mod Connection
