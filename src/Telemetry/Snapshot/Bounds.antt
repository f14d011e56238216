-- ===== src/Telemetry/Snapshot/Bounds.antt =====
-- api_status.go: the length of the snapshot's text, against the capacity of a slot.
use dst_nucleus.Telemetry.GameState.{u32_mod}
use dst_nucleus.Prelude.Decimal.{
  append_int, ℤ, neg_part, append_uint, pos_part, length-append_uint, pos, negsuc,
}
use dst_nucleus.Prelude.{
  ℕ, ◌≡◌, Bool, ◌<◌, length, List, Bytes, ◌≤◌, ◌^◌, ◌∷◌, arith, length-append, ◌+◌, suc, true, [],
  false, refl,
}
use dst_nucleus.Telemetry.Snapshot.{Board, render, join, pieces, append_bool, slot_cap, append_int}

-- Every field holds a value of its Go type.
pub record InRange (b : Board) : Type 0 where
  pub cpu_frequency : b.cpu_frequency < 2 ^ 64
  pub curr_frequency : b.curr_frequency < 2 ^ 64
  pub online_players : b.game.online_players < u32_mod
  pub world_days : b.game.world_days < u32_mod
  pub curr_season : b.game.curr_season < u32_mod
  pub day_phase : b.game.day_phase < u32_mod
  pub season_days_left : b.game.season_days_left < u32_mod
  pub moon_state : b.game.moon_state < u32_mod
  pub nightmare_state : b.game.nightmare_state < u32_mod
  pub deerclops_timer : b.game.deerclops_timer < u32_mod
  pub bearger_timer : b.game.bearger_timer < u32_mod
  pub moose_goose_timer : b.game.moose_goose_timer < u32_mod
  pub dragonfly_timer : b.game.dragonfly_timer < u32_mod
  pub bee_queen_timer : b.game.bee_queen_timer < u32_mod
  pub klaus_timer : b.game.klaus_timer < u32_mod
  pub toadstool_timer : b.game.toadstool_timer < u32_mod
  pub fuelweaver_timer : b.game.fuelweaver_timer < u32_mod
  pub malbatross_timer : b.game.malbatross_timer < u32_mod
  pub fruit_fly_lord_timer : b.game.fruit_fly_lord_timer < u32_mod
  pub antlion_stomp_min_timer : b.game.antlion_stomp_min_timer < u32_mod
  pub temp_low : neg_part b.game.abs_temp ≤ 2147483648
  pub temp_high : pos_part b.game.abs_temp < 2147483648

sum_lengths : List Bytes → ℕ
sum_lengths [] = 0
sum_lengths (p ∷ ps) = length p + sum_lengths ps

length-join : (ps : List Bytes) → length (join ps) ≡ sum_lengths ps
unfolding sum_lengths
length-join [] = refl
length-join (p ∷ ps) = omega (arith, length-append p (join ps), length-join ps)

length-append_bool : (x : Bool) → length (append_bool x) ≤ 5
unfolding append_bool
length-append_bool true = omega arith
length-append_bool false = omega arith

length-append_int :
    (z : ℤ) → neg_part z ≤ 2147483648 → pos_part z < 2147483648 → length (append_int z) ≤ 11
unfolding append_int
length-append_int (pos n) h k = omega (arith, length-append_uint 9 n (omega arith))
length-append_int (negsuc n) h k = omega (arith, length-append_uint 9 (suc n) (omega arith))

length-u32 : (n : ℕ) → n < u32_mod → length (append_uint n) ≤ 10
length-u32 n h = length-append_uint 9 n (omega arith)

length-u64 : (n : ℕ) → n < 2 ^ 64 → length (append_uint n) ≤ 20
length-u64 n h = length-append_uint 19 n (omega arith)

-- For every state whose fields hold values of their Go types, the snapshot's text is at most as
-- long as the capacity of one slot.
pub length-render : (b : Board) → InRange b → length (render b) ≤ slot_cap
unfolding render sum_lengths
length-render b h = omega (
  arith,
  length-join (pieces b),
  length-append_bool b.game_updating,
  length-append_bool b.mod_updating,
  length-append_bool b.master_ready,
  length-append_bool b.caves_ready,
  length-append_bool b.enable_caves,
  length-append_bool b.enable_master,
  length-append_bool b.game.is_raining,
  length-append_bool b.game.is_snowing,
  length-append_bool b.game.celestial_wake,
  length-u64 b.cpu_frequency h.cpu_frequency,
  length-u64 b.curr_frequency h.curr_frequency,
  length-u32 b.game.online_players h.online_players,
  length-u32 b.game.world_days h.world_days,
  length-u32 b.game.curr_season h.curr_season,
  length-u32 b.game.day_phase h.day_phase,
  length-u32 b.game.season_days_left h.season_days_left,
  length-u32 b.game.moon_state h.moon_state,
  length-u32 b.game.nightmare_state h.nightmare_state,
  length-u32 b.game.deerclops_timer h.deerclops_timer,
  length-u32 b.game.bearger_timer h.bearger_timer,
  length-u32 b.game.moose_goose_timer h.moose_goose_timer,
  length-u32 b.game.dragonfly_timer h.dragonfly_timer,
  length-u32 b.game.bee_queen_timer h.bee_queen_timer,
  length-u32 b.game.klaus_timer h.klaus_timer,
  length-u32 b.game.toadstool_timer h.toadstool_timer,
  length-u32 b.game.fuelweaver_timer h.fuelweaver_timer,
  length-u32 b.game.malbatross_timer h.malbatross_timer,
  length-u32 b.game.fruit_fly_lord_timer h.fruit_fly_lord_timer,
  length-u32 b.game.antlion_stomp_min_timer h.antlion_stomp_min_timer,
  length-append_int b.game.abs_temp h.temp_low h.temp_high,
)
