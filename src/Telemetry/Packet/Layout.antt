-- ===== src/Telemetry/Packet/Layout.antt =====
-- parasite.lua: the packet that the injected script prints for the state of the world. Numbers
-- that the game hands over are read after `math.floor`; strings are the cases that the script tells
-- apart.
use dst_nucleus.Prelude.{
  ℕ, suc, ◌+◌, ◌*◌, ◌/◌, ◌%◌, Bool, true, false, ◌&&◌, [], ◌∷◌, ltb, leb, if◌then◌else◌, Bytes,
  Option, none, some,
}
use dst_nucleus.Prelude.Decimal.{ℤ, pos, negsuc, negated}
use dst_nucleus.Telemetry.GameState.{GameState}

pub data Season : Type 0 where
  autumn winter spring summer : Season

pub data Phase : Type 0 where
  day dusk night : Phase

pub data Nightmare : Type 0 where
  calm warn wild dawn other : Nightmare

pub record Readings : Type 0 where
  pub cycles : ℤ
  pub players : ℕ
  pub season : Season
  pub moon_cycle : Option ℕ
  pub temperature : ℤ
  pub phase : Phase
  pub israining : Bool
  pub issnowing : Bool
  pub nightmare : Nightmare
  pub remaining_days : ℤ
  pub isalterawake : Bool

-- A number held in the range from 0 to `hi`.
abbrev pub clamp : ℕ → ℤ → ℕ
clamp hi (negsuc n) = 0
clamp hi (pos n) = if ltb hi n then hi else n

abbrev pub season_code : Season → ℕ
season_code autumn = 0
season_code winter = 1
season_code spring = 2
season_code summer = 3

abbrev pub phase_code : Phase → ℕ
phase_code day = 0
phase_code dusk = 1
phase_code night = 2

abbrev pub nightmare_code : Nightmare → ℕ
nightmare_code calm = 0
nightmare_code warn = 1
nightmare_code wild = 2
nightmare_code dawn = 3
nightmare_code other = 4

abbrev pub moon_code : Option ℕ → ℕ
moon_code none = 1
moon_code (some m) = if leb 1 m && leb m 20 then m else 1

abbrev pub bit : Bool → ℕ
bit true = 1
bit false = 0

abbrev pub temp_sign : ℤ → ℕ
temp_sign (pos n) = 0
temp_sign (negsuc n) = 1

abbrev pub temp_size : ℤ → ℕ
temp_size (pos n) = clamp 8191 (pos n)
temp_size (negsuc n) = clamp 8191 (pos (suc n))

abbrev pub temp_held : ℤ → ℤ
temp_held (pos n) = pos (clamp 8191 (pos n))
temp_held (negsuc n) = negated (clamp 8191 (pos (suc n)))

-- `string.char(206, 223, 128, d1, …)`.
unfoldable pub env_payload : Readings → Bytes
env_payload r =
    let c = clamp 2097151 r.cycles in
    206
    ∷ 223
    ∷ 128
    ∷ (128 + c / 16384)
    ∷ (128 + c / 128 % 128)
    ∷ (128 + c % 128)
    ∷ (128 + clamp 127 (pos r.players))
    ∷ (128 + season_code r.season * 32 + moon_code r.moon_cycle)
    ∷ (128 + temp_sign r.temperature * 64 + temp_size r.temperature / 128)
    ∷ (128 + temp_size r.temperature % 128)
    ∷ (128
        + phase_code r.phase * 32
        + bit r.israining * 16
        + bit r.issnowing * 8
        + nightmare_code r.nightmare)
    ∷ (128 + clamp 127 r.remaining_days)
    ∷ (128 + bit r.isalterawake)
    ∷ []

-- The state that shows the readings, each held in its range; the day count starts at 1.
abbrev pub with_readings : GameState → Readings → GameState
with_readings s r = record s {
  world_days = clamp 2097151 r.cycles + 1;
  online_players = clamp 127 (pos r.players);
  curr_season = season_code r.season;
  moon_state = moon_code r.moon_cycle;
  abs_temp = temp_held r.temperature;
  day_phase = phase_code r.phase;
  is_raining = r.israining;
  is_snowing = r.issnowing;
  nightmare_state = nightmare_code r.nightmare;
  season_days_left = clamp 127 r.remaining_days;
  celestial_wake = r.isalterawake;
}
