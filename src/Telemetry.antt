-- ===== src/Telemetry.antt =====
-- The in-game state that the daemon tracks (sys_params.go), the binary packets that carry it from
-- the game process (api_status.go), the peer report that carries it between two daemons (api.go),
-- and its JSON snapshot (api_status.go).
pub mod GameState
pub mod Packet
pub mod Report
pub mod Snapshot
