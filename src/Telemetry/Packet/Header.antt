-- ===== src/Telemetry/Packet/Header.antt =====
-- Which packets are taken. The reader's lines are at most 256 KiB long, far below the length at
-- which a packet number could wrap.
use dst_nucleus.Prelude.{
  ℕ, ◌+◌, ◌*◌, ◌%◌, ◌≤◌, ◌<◌, ◌≡◌, ◌⊎◌, inl, inr, Bool, none, [], ◌∷◌, arith, Bytes, length,
}
use dst_nucleus.Telemetry.GameState.{GameState, u32_mod}
use dst_nucleus.Telemetry.Packet.{read_header, dispatch, parse_raw_packet}

read_header_large :
    (acc : ℕ) (p : Bytes) → 3 ≤ acc → acc + 127 * length p < u32_mod → 3 ≤ (read_header acc p).0
unfolding read_header
read_header_large acc [] h k = h
read_header_large acc (b ∷ rest) h k =
    ground (arith, read_header_large ((acc + b % 128) % u32_mod) rest)

dispatch_large :
    (em : Bool) (s : GameState) (idx : ℕ) (d : Bytes) → 3 ≤ idx → dispatch em s idx d ≡ (s, none)
unfolding dispatch
dispatch_large em s idx d h = ground arith

dispatch_short :
    (em : Bool) (s : GameState) (idx : ℕ) (d : Bytes)
    → length d < 10
    → dispatch em s idx d ≡ (s, none)
unfolding dispatch
dispatch_short em s idx d h = ground arith

read_header_foreign :
    (b : ℕ) (d : Bytes)
    → b < 256
    → 127 * length (b ∷ d) < u32_mod
    → (b < 128) ⊎ (130 < b)
    → 3 ≤ (read_header 0 (b ∷ d)).0
unfolding read_header
read_header_foreign b d hb hl h = ground (arith, read_header_large ((0 + b % 128) % u32_mod) d)

read_header_known :
    (b : ℕ) (d : Bytes) → b < 256 → ((b < 128) ⊎ (130 < b)) ⊎ ((read_header 0 (b ∷ d)).1 ≡ d)
unfolding read_header
read_header_known b d hb = ground arith

-- A payload changes nothing and reports nothing when its first byte is not one of 0x80, 0x81 and
-- 0x82, or when fewer than ten bytes follow that byte. The payload is one whose number cannot wrap.
pub parse_raw_packet_ignores :
    (enable_master : Bool) (s : GameState) (b : ℕ) (d : Bytes)
    → b < 256
    → 127 * length (b ∷ d) < u32_mod
    → (b < 128) ⊎ (130 < b) ⊎ (length d < 10)
    → parse_raw_packet enable_master s (b ∷ d) ≡ (s, none)
unfolding parse_raw_packet
parse_raw_packet_ignores em s b d hb hl (inl h) =
    dispatch_large em s _ _ (read_header_foreign b d hb hl (inl h))
parse_raw_packet_ignores em s b d hb hl (inr (inl h)) =
    dispatch_large em s _ _ (read_header_foreign b d hb hl (inr h))
parse_raw_packet_ignores em s b d hb hl (inr (inr h)) = elim (read_header_known b d hb) [
  | inl foreign ↦ dispatch_large em s _ _ (read_header_foreign b d hb hl foreign)
  | inr same ↦ dispatch_short em s (read_header 0 (b ∷ d)).0 (read_header 0 (b ∷ d)).1 (rw same h)
]
