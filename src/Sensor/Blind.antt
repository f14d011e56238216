-- ===== src/Sensor/Blind.antt =====
-- The watch from its start to its loop.
use dst_nucleus.Prelude.{List, ℕ, zero, suc, Bytes, some, ◌≡◌, refl, [], Bool, ◌≢◌, sym, ◌∙◌}
use dst_nucleus.Prelude.Decimal.{ℤ, pos}
use dst_nucleus.Sensor.{
  opened, sense_line, sensor_loop, sense_remote, after_passage, read_stream, Passage, Watch, posted,
  reading, arm, connect, through, returned, waits,
}

sense_line-nothing : (kept : ℤ) → sense_line kept [] ≡ some kept
unfolding sense_line
sense_line-nothing kept = refl

-- After any number of rounds of the loop nothing has changed.
sensor_loop-opened :
    (rounds : ℕ) (lines : List Bytes) (kept : ℤ)
    → sensor_loop rounds (opened lines) kept ≡ some kept
unfolding sensor_loop
sensor_loop-opened zero lines kept = refl
sensor_loop-opened (suc n) lines kept =
    rw (sense_line-nothing kept) (sensor_loop-opened n lines kept)

after_passage-never : (p : Passage) (w : Watch) → w ≢ posted → after_passage p w ≢ posted
unfolding after_passage
after_passage-never through w h e = h e
after_passage-never returned w h e = cc
after_passage-never waits w h e = cc

-- Whatever happens in front of it, and whatever lines the remote API sends, the watch never posts the action
-- of a crash; once it reads, it keeps no epoch after any number of rounds.
pub sense_remote-never :
    (seconds attempts : List (Bool × Bool)) (rounds : ℕ) (lines : List Bytes)
    → (sense_remote seconds attempts rounds lines ≢ posted)
      × (read_stream rounds lines ≡ reading (pos 0))
unfolding sense_remote read_stream
sense_remote-never seconds attempts rounds lines =
    let blind : read_stream rounds lines ≡ reading (pos 0) =
      rw (read_stream, sensor_loop-opened rounds lines (pos 0)) refl in
    let quiet : read_stream rounds lines ≢ posted = λ e. absurd (apart (sym blind ∙ e)) in
    (after_passage-never (arm 15 seconds) _ (after_passage-never (connect attempts) _ quiet), blind)
  where
    apart : reading (pos 0) ≢ posted
    apart e = cc
