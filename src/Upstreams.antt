-- ===== src/Upstreams.antt =====
-- scripts/upstreams.py, a module for each of its parts.
pub mod Http
pub mod Digest
pub mod Version
pub mod Release
pub mod Checksum
pub mod Registry
pub mod Inputs
pub mod State
pub mod Resolve
pub mod Main
