-- ===== src/Sensor.antt =====
-- game.go, `远端世代传感器`: the watch over the epoch of the other machine's shard, from the answer of the
-- remote API on. What the answer's body holds is an argument. `bufio.Scanner` is what its documentation
-- says: `Bytes` is the line that the last call of `Scan` read, and empty before the first one.
pub mod Blind
use dst_nucleus.Prelude.{
  List, [], ◌∷◌, ℕ, zero, suc, Bool, Option, none, some, Bytes, codes, if◌then◌else◌, has_prefix,
  drop, not,
}
use dst_nucleus.Prelude.Decimal.{ℤ, pos, parse_int, eqb_ℤ}
use dst_nucleus.Updates.Search.{int64_half, trim_space}

pub record Scanner : Type 0 where
  pub token : Bytes
  pub unread : List Bytes

-- `bufio.NewScanner` on a body of these lines.
abbrev pub opened : List Bytes → Scanner
opened lines = record { token = []; unread = lines }

abbrev pub data_prefix : Bytes
data_prefix = codes "data: "

-- The epoch of a line against the one that is kept, 0 for none: the one to keep then, or `none` where
-- the action of a crash is posted and the watch ends.
unfoldable pub sense_epoch : ℤ → ℤ → Option ℤ
sense_epoch kept epoch =
    if eqb_ℤ epoch (pos 0)
    then (if eqb_ℤ kept (pos 0) then some kept else none)
    else if eqb_ℤ kept (pos 0)
    then some epoch
    else if eqb_ℤ kept epoch
    then some kept
    else none

unfoldable pub sense_line : ℤ → Bytes → Option ℤ
unfolding sense_epoch
sense_line kept line =
    if has_prefix line data_prefix
    then elim (parse_int int64_half (trim_space (drop 6 line))) [
      | none ↦ some kept
      | some epoch ↦ sense_epoch kept epoch
    ]
    else some kept

-- So many rounds of the inner loop. A round takes the scanner's line and does not call `Scan`.
unfoldable pub sensor_loop : ℕ → Scanner → ℤ → Option ℤ
unfolding sense_line
sensor_loop zero sc kept = some kept
sensor_loop (suc n) sc kept = elim (sense_line kept sc.token) [
  | none ↦ none
  | some kept' ↦ sensor_loop n sc kept'
]

-- How far a part of the watch is: it is through, it has returned, or it waits.
pub data Passage : Type 0 where
  through returned waits : Passage

-- The seconds in front of the watch, so many at most: is the shard ready, and, where it is not, does `生命周期`
-- end before the next second.
unfoldable pub arm : ℕ → List (Bool × Bool) → Passage
arm zero seconds = through
arm (suc n) [] = waits
arm (suc n) ((ready, cancelled) ∷ seconds) =
    let later = arm n seconds in if ready then through else if cancelled then returned else later

-- The attempts to open the stream: is `生命周期` done, and is the request answered.
unfoldable pub connect : List (Bool × Bool) → Passage
connect [] = waits
connect ((cancelled, answered) ∷ attempts) =
    let later = connect attempts in
    if cancelled then returned else if answered then through else later

-- How far the watch is; `reading` keeps an epoch.
pub data Watch : Type 0 where
  ended pending posted : Watch
  reading : ℤ → Watch

unfoldable pub read_stream : ℕ → List Bytes → Watch
unfolding sensor_loop
read_stream rounds lines = elim (sensor_loop rounds (opened lines) (pos 0)) [
  | none ↦ posted
  | some kept ↦ reading kept
]

unfoldable pub after_passage : Passage → Watch → Watch
after_passage through next = next
after_passage returned next = ended
after_passage waits next = pending

-- The whole of it, over the seconds, the attempts, the rounds of its loop and the lines of the answer.
unfoldable pub sense_remote : List (Bool × Bool) → List (Bool × Bool) → ℕ → List Bytes → Watch
unfolding arm connect read_stream after_passage
sense_remote seconds attempts rounds lines =
    after_passage (arm 15 seconds) (after_passage (connect attempts) (read_stream rounds lines))
