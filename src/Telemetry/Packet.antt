-- ===== src/Telemetry/Packet.antt =====
-- api_status.go: the binary packets that the injected Lua code prints, behind their two magic bytes.
-- A byte is masked and shifted by `%` and `/`; fields joined by `|` do not overlap, so `+` joins them.
pub mod Header
pub mod Layout
pub mod RoundTrip
use dst_nucleus.Prelude.{
  ℕ, ◌+◌, ◌*◌, ◌/◌, ◌%◌, Bool, true, false, not, Option, none, some, List, [], ◌∷◌, ltb, ◌==◌,
  if◌then◌else◌, Bytes, length, get_or,
}
use dst_nucleus.Prelude.Decimal.{ℤ, pos, negated}
use dst_nucleus.Telemetry.GameState.{GameState, u32_mod}

abbrev pub bit_31 : ℕ
bit_31 = 2147483648

-- The packet's number and the suffix behind its header. A header byte below 0x80 sets bit 31 and
-- ends the header; any other adds its seven bits, and 0xFF says that the number goes on.
unfoldable pub read_header : ℕ → Bytes → ℕ × Bytes
read_header idx [] = (idx, [])
read_header idx (b ∷ rest) =
    if ltb b 128
    then (idx % bit_31 + bit_31, rest)
    else if b == 255
    then read_header ((idx + b % 128) % u32_mod) rest
    else ((idx + b % 128) % u32_mod, rest)

abbrev low7 : Bytes → ℕ → ℕ
low7 d i = get_or d i 0 % 128

-- `abs * (1 - ((hi & 0x40) >> 5))`: the factor is 1 or -1.
abbrev real_temp : ℕ → ℕ → ℤ
real_temp hi abs = if hi / 64 % 2 == 0 then pos abs else negated abs

-- `case 0`.
store_env : GameState → Bytes → GameState
store_env s d = record s {
  world_days = low7 d 0 * 16384 + low7 d 1 * 128 + low7 d 2 + 1;
  online_players = low7 d 3;
  curr_season = get_or d 4 0 / 32 % 4;
  moon_state = get_or d 4 0 % 32;
  abs_temp = real_temp (get_or d 5 0) (get_or d 5 0 % 64 * 128 + low7 d 6);
  day_phase = get_or d 7 0 / 32 % 4;
  is_raining = get_or d 7 0 / 16 % 2 == 1;
  is_snowing = get_or d 7 0 / 8 % 2 == 1;
  nightmare_state = get_or d 7 0 % 8;
  season_days_left = low7 d 8;
  celestial_wake = low7 d 9 == 1;
}

-- `case 1`.
store_bosses : GameState → Bytes → GameState
store_bosses s d = record s {
  deerclops_timer = low7 d 0;
  bearger_timer = low7 d 1;
  moose_goose_timer = low7 d 2;
  dragonfly_timer = low7 d 3;
  bee_queen_timer = low7 d 4;
  klaus_timer = low7 d 5;
  malbatross_timer = low7 d 8;
  fruit_fly_lord_timer = low7 d 9;
  antlion_stomp_min_timer = low7 d 10;
}

-- `case 2`, without the report.
store_caves : GameState → Bytes → GameState
store_caves s d = record s { toadstool_timer = low7 d 6; fuelweaver_timer = low7 d 7 }

-- What a packet does: the new state, and the pair of timers that a caves-only node reports to its
-- master (`go 发送洞穴参数(…)`), if any.
abbrev pub Effect : Type 0
Effect = GameState × Option (ℕ × ℕ)

dispatch : Bool → GameState → ℕ → Bytes → Effect
dispatch enable_master s idx d =
    if idx == 0
    then (if ltb (length d) 10 then s else store_env s d, none)
    else if idx == 1
    then (if ltb (length d) 11 then s else store_bosses s d, none)
    else if idx == 2
    then (if ltb (length d) 11
        then (s, none)
        else (store_caves s d, if enable_master then none else some (low7 d 6, low7 d 7)))
    else (s, none)

-- The whole handler; the first argument is the loaded `启用主世界`.
unfoldable pub parse_raw_packet : Bool → GameState → Bytes → Effect
unfolding read_header store_env store_bosses store_caves dispatch
parse_raw_packet enable_master s [] = (s, none)
parse_raw_packet enable_master s (b ∷ rest) =
    let (idx, d) = read_header 0 (b ∷ rest) in dispatch enable_master s idx d
