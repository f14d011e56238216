-- ===== src/Shards.antt =====
-- game.go, `运行主世界` and `运行洞穴`: what the keepers of the two game processes do to the word that
-- holds both process ids, and how a process is ended.
pub mod Pids
pub mod Ending
pub mod Keeper
pub mod Poller
