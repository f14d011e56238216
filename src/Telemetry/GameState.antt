-- ===== src/Telemetry/GameState.antt =====
-- sys_params.go: the `游戏内状态` section of the configuration object. Every field is an atomic, so a
-- store is a record update. The constant `Magic`, which nothing reads, is left out.
use dst_nucleus.Prelude.{ℕ, Bool}
use dst_nucleus.Prelude.Decimal.{ℤ, pos}

pub record GameState : Type 0 where
  pub online_players : ℕ
  pub world_days : ℕ
  pub curr_season : ℕ
  pub day_phase : ℕ
  pub season_days_left : ℕ
  pub abs_temp : ℤ
  pub is_raining : Bool
  pub is_snowing : Bool
  pub moon_state : ℕ
  pub nightmare_state : ℕ
  pub celestial_wake : Bool
  pub deerclops_timer : ℕ
  pub bearger_timer : ℕ
  pub moose_goose_timer : ℕ
  pub dragonfly_timer : ℕ
  pub bee_queen_timer : ℕ
  pub klaus_timer : ℕ
  pub toadstool_timer : ℕ
  pub fuelweaver_timer : ℕ
  pub malbatross_timer : ℕ
  pub fruit_fly_lord_timer : ℕ
  pub antlion_stomp_min_timer : ℕ

abbrev pub u32_mod : ℕ
u32_mod = 4294967296

-- The value of a field that is not known.
abbrev pub unknown : ℕ
unknown = 4294967295

abbrev pub unknown_temp : ℕ
unknown_temp = 2147483647

-- The three Boolean fields are left alone.
unfoldable pub init_game_state : GameState → GameState
init_game_state s = record s {
  online_players = unknown;
  world_days = unknown;
  curr_season = unknown;
  day_phase = unknown;
  season_days_left = unknown;
  abs_temp = pos unknown_temp;
  moon_state = unknown;
  nightmare_state = unknown;
  deerclops_timer = unknown;
  bearger_timer = unknown;
  moose_goose_timer = unknown;
  dragonfly_timer = unknown;
  bee_queen_timer = unknown;
  klaus_timer = unknown;
  toadstool_timer = unknown;
  fuelweaver_timer = unknown;
  malbatross_timer = unknown;
  fruit_fly_lord_timer = unknown;
  antlion_stomp_min_timer = unknown;
}
