-- ===== src/Telemetry/Packet/RoundTrip.antt =====
-- parasite.lua's packet, read by `解析二进制包` of api_status.go.
use dst_nucleus.Prelude.{◌≡◌, refl, arith, ◌+◌, ap, ◌∙◌}
use dst_nucleus.Prelude.{
  ℕ, suc, ◌*◌, ◌/◌, ◌%◌, ◌≤◌, ◌<◌, Bool, true, false, none, some, Option, ◌==◌, drop,
}
use dst_nucleus.Prelude.Decimal.{ℤ, pos, negsuc}
use dst_nucleus.Telemetry.GameState.{GameState}
use dst_nucleus.Telemetry.Packet.{parse_raw_packet, real_temp, store_env}
use dst_nucleus.Telemetry.Packet.Layout.{
  Season, Phase, Nightmare, Readings, clamp, season_code, phase_code, nightmare_code, moon_code,
  bit, temp_sign, temp_size, temp_held, env_payload, with_readings,
}

clamp-le : (hi : ℕ) (z : ℤ) → clamp hi z ≤ hi
clamp-le hi (pos n) = ground arith
clamp-le hi (negsuc n) = omega arith

season-lt : (x : Season) → season_code x < 4
season-lt x = ground arith

phase-lt : (x : Phase) → phase_code x < 3
phase-lt x = ground arith

nightmare-lt : (x : Nightmare) → nightmare_code x < 5
nightmare-lt x = ground arith

moon-lt : (x : Option ℕ) → moon_code x < 32
moon-lt none = omega arith
moon-lt (some m) = ground arith

bit-lt : (x : Bool) → bit x < 2
bit-lt x = ground arith

bit-test : (x : Bool) → (bit x == 1) ≡ x
bit-test true = refl
bit-test false = refl

temp-held :
    (z : ℤ)
    → real_temp
        (128 + temp_sign z * 64 + temp_size z / 128)
        ((128 + temp_sign z * 64 + temp_size z / 128) % 64 * 128 + (128 + temp_size z % 128) % 128)
      ≡ temp_held z
temp-held (pos n) = ground (arith, clamp-le 8191 (pos n))
temp-held (negsuc n) = ground (arith, clamp-le 8191 (pos (suc n)))

-- The fields, one by one, over the packed numbers.
days-held :
    (c : ℕ)
    → c ≤ 2097151
    → (128 + c / 16384) % 128 * 16384
        + (128 + c / 128 % 128) % 128 * 128
        + (128 + c % 128) % 128
        + 1
      ≡ c + 1
days-held c h = omega arith

seven-held : (x : ℕ) → x ≤ 127 → (128 + x) % 128 ≡ x
seven-held x h = omega arith

env-held :
    (x m : ℕ) → x < 4 → m < 32 → ((128 + x * 32 + m) / 32 % 4 ≡ x) × ((128 + x * 32 + m) % 32 ≡ m)
env-held x m h k = omega arith

state-held :
    (p r w n : ℕ)
    → p < 3
    → r < 2
    → w < 2
    → n < 5
    → let b = 128 + p * 32 + r * 16 + w * 8 + n in
      (b / 32 % 4 ≡ p) × (b / 16 % 2 ≡ r) × (b / 8 % 2 ≡ w) × (b % 8 ≡ n)
state-held p r w n h k l o = omega arith

store_env-env_payload :
    (s : GameState) (r : Readings) → store_env s (drop 3 (env_payload r)) ≡ with_readings s r
unfolding store_env env_payload
store_env-env_payload s r =
    let env =
      env-held (season_code r.season) (moon_code r.moon_cycle) (season-lt r.season)
        (moon-lt r.moon_cycle) in
    let st =
      state-held (phase_code r.phase) (bit r.israining) (bit r.issnowing)
        (nightmare_code r.nightmare) (phase-lt r.phase) (bit-lt r.israining) (bit-lt r.issnowing)
        (nightmare-lt r.nightmare) in
    let awake = seven-held (bit r.isalterawake) (omega (arith, bit-lt r.isalterawake)) in
    λ i. record s {
      world_days = days-held (clamp 2097151 r.cycles) (clamp-le 2097151 r.cycles) i;
      online_players = seven-held (clamp 127 (pos r.players)) (clamp-le 127 (pos r.players)) i;
      curr_season = env.0 i;
      moon_state = env.1 i;
      abs_temp = temp-held r.temperature i;
      day_phase = st.0 i;
      is_raining = (ap (λ (b : ℕ). b == 1) st.1 ∙ bit-test r.israining) i;
      is_snowing = (ap (λ (b : ℕ). b == 1) st.2 ∙ bit-test r.issnowing) i;
      nightmare_state = st.3 i;
      season_days_left = seven-held (clamp 127 r.remaining_days) (clamp-le 127 r.remaining_days) i;
      celestial_wake = (ap (λ (b : ℕ). b == 1) awake ∙ bit-test r.isalterawake) i;
    }

-- Whatever the game reports, the daemon's handler reads the payload behind the two magic bytes as
-- the readings held in their ranges, whatever the state was, and reports nothing to a peer: the count
-- of days is one more than the script's, which is held at 2097151, and the phase of the nightmare has the
-- script's number, 0 for calm and 1 for warn, where api.md promises other figures.
pub parse_raw_packet-env_payload :
    (enable_master : Bool) (s : GameState) (r : Readings)
    → parse_raw_packet enable_master s (drop 2 (env_payload r)) ≡ (with_readings s r, none)
unfolding parse_raw_packet env_payload
parse_raw_packet-env_payload em s r = ap (λ t. (t, none)) (store_env-env_payload s r)
