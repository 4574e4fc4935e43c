-- ===== src/Tests.antt =====
-- Concrete inputs: the theorems applied to them.
mod Tls
mod H2
mod Probe
mod Emulate
mod Serve
mod Verdict
mod Connection
mod Attached
mod Program
