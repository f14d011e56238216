-- ===== src/Telemetry/Snapshot/Ring.antt =====
-- api_status.go: publication. The pointer that readers load names a slot of the ring, and a reader
-- may still be copying that slot while later refreshes write the following ones.
use dst_nucleus.Telemetry.GameState.{u32_mod}
use dst_nucleus.Prelude.{
  ℕ, ◌≡◌, get_or, set, length, ◌%◌, arith, ◌<◌, ◌+◌, List, ◌≤◌, [], Bytes, length-set, ◌∷◌, ◌-◌,
  ◌∙◌, refl, get_or-set_ne, suc, get_or-set_self, sym, ◌≢◌,
}
use dst_nucleus.Telemetry.Snapshot.{Board, render, ring_depth}

pub record Ring : Type 0 where
  pub cursor : ℕ  -- uint32
  pub slots : List Bytes
  pub current : ℕ

-- `(新游标 - 1) & 寻址掩码`, for the cursor before the atomic increment.
abbrev pub slot_of : ℕ → ℕ
slot_of cursor = ((cursor + 1) % u32_mod + u32_mod - 1) % u32_mod % ring_depth

unfoldable pub flush_server_state : Board → Ring → Ring
flush_server_state b r = record {
  cursor = (r.cursor + 1) % u32_mod;
  slots = set r.slots (slot_of r.cursor) (render b);
  current = slot_of r.cursor;
}

-- Refreshes in order.
unfoldable pub flush_all : List Board → Ring → Ring
flush_all [] r = r
flush_all (b ∷ bs) r = flush_all bs (flush_server_state b r)

pub record IsValid (r : Ring) : Type 0 where
  pub cursor_word : r.cursor < u32_mod
  pub depth : length r.slots ≡ ring_depth

pub flush_server_state-IsValid :
    (b : Board) (r : Ring) → IsValid r → IsValid (flush_server_state b r)
unfolding flush_server_state
flush_server_state-IsValid b r v = ground (arith, length-set r.slots (slot_of r.cursor) (render b))

-- How many refreshes may follow before slot j is written again.
abbrev room : Ring → ℕ → ℕ
room r j = (j + ring_depth - r.cursor % ring_depth) % ring_depth

-- The arithmetic of the cursor, which wraps at a multiple of the ring's depth.
slot_of-lt : (c : ℕ) → slot_of c < ring_depth
slot_of-lt c = omega arith

slot_of-mod : (c : ℕ) → c < u32_mod → slot_of c ≡ c % ring_depth
slot_of-mod c h = omega arith

room_step :
    (c j n : ℕ)
    → j < 32
    → suc n ≤ (j + 32 - c % 32) % 32
    → n ≤ (j + 32 - (c + 1) % u32_mod % 32) % 32
room_step c j n h k = omega arith

room_ne : (c j n : ℕ) → j < 32 → suc n ≤ (j + 32 - c % 32) % 32 → c % 32 ≢ j
room_ne c j n h k = omega arith

room_full : (c n : ℕ) → n < 32 → n ≤ (c % 32 + 32 - (c + 1) % u32_mod % 32) % 32
room_full c n h = omega arith

flush_all-keeps :
    (bs : List Board) (r : Ring) (j : ℕ)
    → IsValid r
    → j < ring_depth
    → length bs ≤ room r j
    → get_or (flush_all bs r).slots j [] ≡ get_or r.slots j []
unfolding flush_all
flush_all-keeps [] r j v hj h = refl
flush_all-keeps (b ∷ bs) r j v hj h =
    flush_all-keeps bs (flush_server_state b r) j (flush_server_state-IsValid b r v) hj
      (unfold flush_server_state in room_step r.cursor j (length bs) hj h)
    ∙ unfold flush_server_state in
      get_or-set_ne r.slots (slot_of r.cursor) j (render b) []
        λ e. room_ne r.cursor j (length bs) hj h (sym (slot_of-mod r.cursor v.cursor_word) ∙ e)

-- A reader that loaded the pointer right after a refresh reads that refresh's text, whole and
-- unchanged, through the next 31 refreshes, also where the 32-bit cursor wraps.
pub flush_all-stable :
    (b : Board) (bs : List Board) (r : Ring)
    → IsValid r
    → length bs < ring_depth
    → let published = flush_server_state b r in
      get_or (flush_all bs published).slots published.current [] ≡ render b
flush_all-stable b bs r v h =
    flush_all-keeps bs (flush_server_state b r) (flush_server_state b r).current
      (flush_server_state-IsValid b r v) (unfold flush_server_state in slot_of-lt r.cursor)
      (unfold flush_server_state in
        rw (slot_of-mod r.cursor v.cursor_word) (room_full r.cursor (length bs) h))
    ∙ unfold flush_server_state in
      get_or-set_self r.slots (slot_of r.cursor) (render b) [] (rw v.depth (slot_of-lt r.cursor))
