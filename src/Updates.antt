-- ===== src/Updates.antt =====
-- update.go: which version of the game and of the mods is out of date, and the updates that are run.
pub mod Search
pub mod Version
pub mod Epochs
pub mod Mods
pub mod Download
pub mod Freshness
pub mod LocalVersion
pub mod Monitor
