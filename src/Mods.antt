-- ===== src/Mods.antt =====
-- update.go: the mods that the server uses. Their ids are read from Lua files, their versions from
-- SteamCMD's manifest and from Steam's web API, and the two decide what is downloaded.
pub mod Digits
pub mod Setup
pub mod Overrides
pub mod ReadLines
pub mod Version
