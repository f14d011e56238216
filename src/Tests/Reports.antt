-- ===== src/Tests/Reports.antt =====
use dst_nucleus.Telemetry.Report.RoundTrip.{api_update_state-caves_telemetry}
use dst_nucleus.Telemetry.Packet.RoundTrip.{parse_raw_packet-env_payload}
use dst_nucleus.Daemon.{success200}
use dst_nucleus.Telemetry.Snapshot.Bounds.{InRange, length-render}
use dst_nucleus.Prelude.Decimal.{pos, append_uint, negsuc}
use Prim.Native.Nat.{ℕ, suc}
use dst_nucleus.Telemetry.Report.{caves_telemetry, api_update_state, success200}
use dst_nucleus.Telemetry.Packet.Layout.{Readings, winter, env_payload, with_readings, night, wild}
use dst_nucleus.Telemetry.Snapshot.{Board, render, slot_cap}
use dst_nucleus.Telemetry.Snapshot.Ring.{flush_server_state, Ring, flush_all, flush_all-stable}
use dst_nucleus.Telemetry.Packet.{parse_raw_packet}
use dst_nucleus.Prelude.{
  length, ℕ, false, List, true, get_or, arith, ◌∷◌, ◌≤◌, Bytes, drop, [], codes, some, ◌≡◌, suc,
  none, zero, refl,
}
use dst_nucleus.Telemetry.GameState.{init_game_state, GameState}

-- What the game and the other node report, and the snapshot that is published.
abbrev blank : GameState
blank = record {
  online_players = 0;
  world_days = 0;
  curr_season = 0;
  day_phase = 0;
  season_days_left = 0;
  abs_temp = pos 0;
  is_raining = false;
  is_snowing = false;
  moon_state = 0;
  nightmare_state = 0;
  celestial_wake = false;
  deerclops_timer = 0;
  bearger_timer = 0;
  moose_goose_timer = 0;
  dragonfly_timer = 0;
  bee_queen_timer = 0;
  klaus_timer = 0;
  toadstool_timer = 0;
  fuelweaver_timer = 0;
  malbatross_timer = 0;
  fruit_fly_lord_timer = 0;
  antlion_stomp_min_timer = 0;
}

abbrev cold_night : Readings
cold_night = record {
  cycles = pos 41;
  players = 3;
  season = winter;
  moon_cycle = some 11;
  temperature = negsuc 6;
  phase = night;
  israining = false;
  issnowing = true;
  nightmare = wild;
  remaining_days = pos 9;
  isalterawake = true;
}

parse_raw_packet-env_payload_example :
    parse_raw_packet true blank (drop 2 (env_payload cold_night))
    ≡ (with_readings blank cold_night, none)
parse_raw_packet-env_payload_example = parse_raw_packet-env_payload true blank cold_night

api_update_state-caves_telemetry_example :
    api_update_state true true blank (codes "toadstool=95&fuelweaver=4294967295")
    ≡ (record blank { toadstool_timer = 95; fuelweaver_timer = 4294967295 }, success200)
unfolding caves_telemetry append_uint
api_update_state-caves_telemetry_example =
    api_update_state-caves_telemetry true blank (codes "http://master")
      (codes "toadstool=95&fuelweaver=4294967295") 95 4294967295 (omega arith) (omega arith) refl

abbrev quiet : Board
quiet = record {
  game_updating = false;
  mod_updating = false;
  master_ready = true;
  caves_ready = true;
  cpu_frequency = 3600;
  curr_frequency = 2800;
  enable_caves = true;
  enable_master = true;
  game = init_game_state blank;
}

quiet-InRange : InRange quiet
unfolding init_game_state
quiet-InRange = ground arith

length-render_example : length (render quiet) ≤ slot_cap
length-render_example = length-render quiet quiet-InRange

abbrev no_texts : ℕ → List Bytes
no_texts zero = []
no_texts (suc n) = [] ∷ no_texts n

abbrev wrapping : Ring
wrapping = record { slots = no_texts 32; cursor = 4294967295; current = 30 }

flush_all-stable_example :
    let published = flush_server_state quiet wrapping in
    get_or (flush_all (quiet ∷ quiet ∷ []) published).slots published.current [] ≡ render quiet
flush_all-stable_example =
    flush_all-stable quiet (quiet ∷ quiet ∷ []) wrapping
      (record { cursor_word = omega arith; depth = refl }) (omega arith)
