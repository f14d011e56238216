-- ===== src/Install.antt =====
-- main_linux.go and main_windows.go, `安装SteamCMD`: SteamCMD is downloaded and unpacked.
pub mod Paths
pub mod Linux
pub mod Kept
pub mod Windows
