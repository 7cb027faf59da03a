-- ===== src/Pe.antt =====
-- PE images: src/pe/.
pub mod Kernel
pub mod Format
pub mod Fixtures
pub mod Sample
