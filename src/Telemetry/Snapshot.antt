-- ===== src/Telemetry/Snapshot.antt =====
-- api_status.go: the JSON snapshot of the state, and the ring of slots that it is published through.
pub mod Bounds
pub mod Ring
use dst_nucleus.Prelude.{ℕ, Bool, true, false, List, [], ◌∷◌, ◌++◌, Bytes, codes}
use dst_nucleus.Prelude.Decimal.{append_uint, append_int}
use dst_nucleus.Telemetry.GameState.{GameState}

-- What one refresh loads: the gates, the CPU figures, two switches, and the in-game state.
pub record Board : Type 0 where
  pub game_updating : Bool
  pub mod_updating : Bool
  pub master_ready : Bool
  pub caves_ready : Bool
  pub cpu_frequency : ℕ
  pub curr_frequency : ℕ
  pub enable_caves : Bool
  pub enable_master : Bool
  pub game : GameState

-- `strconv.AppendBool`.
unfoldable pub append_bool : Bool → Bytes
append_bool true = codes "true"
append_bool false = codes "false"

abbrev pub join : List Bytes → Bytes
join [] = []
join (p ∷ ps) = p ++ join ps

-- The appended pieces, in order.
abbrev pub pieces : Board → List Bytes
pieces b =
    codes "{\"status\":\"success\",\"locks\":{\"game_upd\":"
    ∷ append_bool b.game_updating
    ∷ codes ",\"mod_upd\":"
    ∷ append_bool b.mod_updating
    ∷ codes ",\"master_rdy\":"
    ∷ append_bool b.master_ready
    ∷ codes ",\"caves_rdy\":"
    ∷ append_bool b.caves_ready
    ∷ codes "},\"performance\":{\"baseline_cycles\":"
    ∷ append_uint b.cpu_frequency
    ∷ codes ",\"current_cycles\":"
    ∷ append_uint b.curr_frequency
    ∷ codes "},\"data\":{\"players\":"
    ∷ append_uint b.game.online_players
    ∷ codes ",\"enable_caves\":"
    ∷ append_bool b.enable_caves
    ∷ codes ",\"enable_master\":"
    ∷ append_bool b.enable_master
    ∷ codes ",\"cycles\":"
    ∷ append_uint b.game.world_days
    ∷ codes ",\"season\":"
    ∷ append_uint b.game.curr_season
    ∷ codes ",\"phase\":"
    ∷ append_uint b.game.day_phase
    ∷ codes ",\"rem_days\":"
    ∷ append_uint b.game.season_days_left
    ∷ codes ",\"temp\":"
    ∷ append_int b.game.abs_temp
    ∷ codes ",\"is_raining\":"
    ∷ append_bool b.game.is_raining
    ∷ codes ",\"is_snowing\":"
    ∷ append_bool b.game.is_snowing
    ∷ codes ",\"moon_phase\":"
    ∷ append_uint b.game.moon_state
    ∷ codes ",\"nightmare\":"
    ∷ append_uint b.game.nightmare_state
    ∷ codes ",\"alter_awake\":"
    ∷ append_bool b.game.celestial_wake
    ∷ codes ",\"boss_timers\":{"
    ∷ codes "\"deerclops\":"
    ∷ append_uint b.game.deerclops_timer
    ∷ codes ",\"bearger\":"
    ∷ append_uint b.game.bearger_timer
    ∷ codes ",\"moose\":"
    ∷ append_uint b.game.moose_goose_timer
    ∷ codes ",\"dragonfly\":"
    ∷ append_uint b.game.dragonfly_timer
    ∷ codes ",\"beequeen\":"
    ∷ append_uint b.game.bee_queen_timer
    ∷ codes ",\"klaus\":"
    ∷ append_uint b.game.klaus_timer
    ∷ codes ",\"toadstool\":"
    ∷ append_uint b.game.toadstool_timer
    ∷ codes ",\"fuelweaver\":"
    ∷ append_uint b.game.fuelweaver_timer
    ∷ codes ",\"malbatross\":"
    ∷ append_uint b.game.malbatross_timer
    ∷ codes ",\"lordfruitfly\":"
    ∷ append_uint b.game.fruit_fly_lord_timer
    ∷ codes ",\"antlion\":"
    ∷ append_uint b.game.antlion_stomp_min_timer
    ∷ codes "}}}"
    ∷ []

-- The text of one refresh.
unfoldable pub render : Board → Bytes
render b = join (pieces b)

abbrev pub ring_depth : ℕ
ring_depth = 32

abbrev pub slot_cap : ℕ
slot_cap = 1024
