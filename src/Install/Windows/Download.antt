-- ===== src/Install/Windows/Download.antt =====
-- The archive in memory: the loop over the reads against the body that they deliver.
use dst_nucleus.Files.Stream.{more}
use dst_nucleus.Prelude.{
  [], ◌∷◌, ◌++◌, ℕ, zero, suc, Bytes, ◌≡◌, ◌≤◌, ◌<◌, ltb, length, take, drop, refl, ap, ◌-◌,
  if◌then◌else◌, List,
}
use dst_nucleus.Install.Linux.{fuse}
use dst_nucleus.Install.Windows.{Buffer, grow, Loaded, List, too_large, ReadEnd, loaded, more}

-- A buffer at the head of the loop.
pub record Holds (b : Buffer) : Type 0 where
  pub fits : length b.held ≤ b.cap
  pub small : length b.held ≤ fuse
  pub cap_pos : 0 < b.cap
  pub cap_le : b.cap ≤ 20971521

-- Growing leaves room, within the bound.
record Roomy (b grown : Buffer) : Type 0 where
  same : grown.held ≡ b.held
  room : length grown.held < grown.cap
  cap_le : grown.cap ≤ 20971521

take-drop : (n : ℕ) (xs : Bytes) → take n xs ++ drop (length (take n xs)) xs ≡ xs
take-drop zero xs = refl
take-drop (suc n) [] = refl
take-drop (suc n) (x ∷ xs) = ap (x ∷◌) (take-drop n xs)

-- What a round leaves: the buffer with the piece, in front of the rest of the body.
record Round (b : Buffer) (rest piece later : Bytes) (grown : Buffer) : Type 0 where
  text : (grown.held ++ piece) ++ later ≡ b.held ++ rest
  next : length (grown.held ++ piece) ≤ fuse → Holds (record grown { held = grown.held ++ piece })

-- The body that was read in whole.
abbrev pub judged : Bytes → Loaded
judged text = if ltb fuse (length text) then too_large else loaded text

-- What is left of the body behind the reads.
abbrev pub left_over : Buffer → Bytes → List (ℕ × ReadEnd) → Bytes
left_over b rest [] = rest
left_over b rest ((n, end) ∷ reads) =
    let grown = grow b in
    let piece = take n (take (grown.cap - length grown.held) rest) in
    left_over (record grown { held = grown.held ++ piece }) (drop (length piece) rest) reads
