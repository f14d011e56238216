-- ===== src/Updates/LocalVersion.antt =====
-- update.go: `读取文件获取游戏版本`, the build number in the game's manifest. The file is read piece by piece
-- into a window; the last 128 bytes are kept between two pieces, so that a key is not cut.
pub mod Windows
pub mod Manifest
use dst_nucleus.Prelude.{
  List, [], ◌∷◌, ◌++◌, ℕ, zero, suc, Bool, true, false, Option, none, some, Bytes, codes, ◌+◌, ◌-◌,
  ◌||◌, ltb, length, drop, if◌then◌else◌, not,
}
use dst_nucleus.Files.Snapshot.{Stat, same_stat}
use dst_nucleus.Mods.Version.{parse_version_number}
use dst_nucleus.Updates.Search.{index_of}

abbrev pub build_key : Bytes
build_key = codes "\"TargetBuildID\""

abbrev pub kept_size : ℕ
kept_size = 128

-- The inner loop over the window from the cursor on, on fuel; a round that goes on passes the key.
-- `ended` says that the read met an error, such as the file's end.
unfoldable pub scan_window : ℕ → Bool → Bytes → Bytes
scan_window zero ended data' = []
scan_window (suc n) ended data' = elim (index_of build_key data') [
  | none ↦ []
  | some at_key ↦ elim (ltb kept_size (length at_key) || ended) [
    | false ↦ []
    | true ↦ elim (parse_version_number (drop 15 at_key)) [
      | [] ↦ scan_window n ended (drop 15 at_key)
      | d ∷ ds ↦ d ∷ ds
    ]
  ]
]

-- What stays in the window.
unfoldable pub keep_tail : Bytes → Bytes
keep_tail data' =
    if ltb kept_size (length data') then drop (length data' - kept_size) data' else data'

-- The loop over the reads: those without an error, then the last one, with its error.
unfoldable pub read_pieces : Bytes → List Bytes → Bytes → Bytes
unfolding scan_window keep_tail
read_pieces kept [] last = scan_window (length (kept ++ last)) true (kept ++ last)
read_pieces kept (piece ∷ pieces) last =
    elim (scan_window (length (kept ++ piece)) false (kept ++ piece)) [
      | d ∷ ds ↦ d ∷ ds
      | [] ↦ read_pieces (keep_tail (kept ++ piece)) pieces last
    ]

-- What one round meets: the looks in front of and behind the reads, `none` where `Stat` fails.
pub record Attempt : Type 0 where
  pub before : Option Stat
  pub opened : Bool
  pub pieces : List Bytes
  pub last : Bytes
  pub after : Option Stat

unfoldable pub attempt : Attempt → Stat → Bytes → Bytes
unfolding read_pieces same_stat
attempt a s retry = if not a.opened then [] else elim a.after [
  | none ↦ []
  | some t ↦ if same_stat s t then read_pieces [] a.pieces a.last else retry
]

unfoldable pub read_local_from : (ℕ → Attempt) → ℕ → ℕ → Bytes
unfolding attempt
read_local_from attempts i zero = []
read_local_from attempts i (suc k) =
    let retry = read_local_from attempts (i + 1) k in
    elim (attempts i).before [ none ↦ [] | some s ↦ attempt (attempts i) s retry ]

-- The empty text where no version is found.
unfoldable pub read_local_ver : (ℕ → Attempt) → Bytes
unfolding read_local_from
read_local_ver attempts = read_local_from attempts 0 3
