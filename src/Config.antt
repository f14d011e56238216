-- ===== src/Config.antt =====
-- config.go.
pub mod Pristine
pub mod Loader
pub mod Fields
