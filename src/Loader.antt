-- ===== src/Loader.antt =====
-- The kernel loader: src/pe/loader/.
pub mod Mapping
pub mod Cmdline
pub mod Protocol
pub mod Protection
pub mod Start
