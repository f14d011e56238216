-- ===== src/Mods/ReadLines.antt =====
-- update.go, `读取行`: the ids of all the mods that the server uses, and the lines that are appended
-- to the setup file. Each file is given by its snapshot, `none` where its path is empty or
-- `获取文件快照` fails.
use dst_nucleus.Mods.Setup.Words.{parse_setup-words}
use dst_nucleus.Mods.Overrides.Bounds.{parse_mod_overrides-words}
use dst_nucleus.Mods.Digits.{u64_mod}
use dst_nucleus.Mods.Setup.Patch.{parse_setup-patch}
use dst_nucleus.Prelude.{
  ℕ, List, [], Option, Bytes, ◌∷◌, ◌||◌, All, some, ◌≡◌, ◌<◌, if◌then◌else◌, none, arith, ◌∙◌,
  All-if, ap, refl,
}
use dst_nucleus.Mods.Setup.{Scan, mem, parse_setup, patch}
use dst_nucleus.Mods.Overrides.{parse_mod_overrides}

abbrev empty_scan : Scan
empty_scan = record { result = []; seen = []; setup_only = [] }

-- An empty file is passed over.
unfoldable pub scan_setup : Option Bytes → Scan
scan_setup none = empty_scan
scan_setup (some []) = empty_scan
scan_setup (some (c ∷ cs)) = parse_setup (c ∷ cs) empty_scan

scan_overrides : Option Bytes → List ℕ × List ℕ → List ℕ × List ℕ
scan_overrides none found = found
scan_overrides (some []) found = found
scan_overrides (some (c ∷ cs)) (result, seen) = parse_mod_overrides (c ∷ cs) result seen

-- The ids that the setup file lacks.
missing : List ℕ → List ℕ → List ℕ
missing setup_only [] = []
missing setup_only (id ∷ ids) =
    if mem id setup_only then missing setup_only ids else id ∷ missing setup_only ids

all_ids : Option Bytes → Option Bytes → Option Bytes → List ℕ
all_ids setup master caves =
    let st = scan_setup setup in
    (scan_overrides caves (scan_overrides master (st.result, st.seen))).0

-- The ids in order, and the text that is appended to the setup file, if it is not empty and the
-- file can be opened.
unfoldable pub read_lines : Option Bytes → Option Bytes → Option Bytes → List ℕ × Bytes
unfolding scan_setup scan_overrides missing all_ids
read_lines setup master caves =
    let ids = all_ids setup master caves in (ids, patch (missing (scan_setup setup).setup_only ids))

scan_setup-words : (f : Option Bytes) → All (λ id. id < u64_mod) (scan_setup f).result
unfolding scan_setup
scan_setup-words none = tt
scan_setup-words (some []) = tt
scan_setup-words (some (c ∷ cs)) = parse_setup-words (c ∷ cs) empty_scan tt

scan_overrides-words :
    (f : Option Bytes) (found : List ℕ × List ℕ)
    → All (λ id. id < u64_mod) found.0
    → All (λ id. id < u64_mod) (scan_overrides f found).0
unfolding scan_overrides
scan_overrides-words none found h = h
scan_overrides-words (some []) found h = h
scan_overrides-words (some (c ∷ cs)) (result, seen) h =
    parse_mod_overrides-words (c ∷ cs) result seen h

all_ids-words :
    (setup master caves : Option Bytes) → All (λ id. id < u64_mod) (all_ids setup master caves)
unfolding all_ids
all_ids-words setup master caves =
    let st = scan_setup setup in
    let found = scan_overrides master (st.result, st.seen) in
    scan_overrides-words caves found
      (scan_overrides-words master (st.result, st.seen) (scan_setup-words setup))

missing-words :
    (known ids : List ℕ)
    → All (λ id. id < u64_mod) ids
    → All (λ id. id < u64_mod) (missing known ids)
unfolding missing
missing-words known [] h = tt
missing-words known (id ∷ ids) h =
    All-if (λ x. x < u64_mod) (mem id known) (missing known ids) (id ∷ missing known ids)
      (missing-words known ids h.1) (h.0, missing-words known ids h.1)

mem-missing :
    (i : ℕ) (known ids : List ℕ)
    → (mem i known || mem i (missing known ids)) ≡ (mem i known || mem i ids)
unfolding missing mem
mem-missing i known [] = refl
mem-missing i known (id ∷ ids) =
    ground (arith, mem-missing i known ids, λ (e : id ≡ i). ap (λ k. mem k known) e)

-- For any three files, scanning the appended text behind the setup file's scan makes the ids known
-- from the setup file exactly those that it named before together with every id in use.
pub read_lines-settles :
    (setup master caves : Option Bytes) (i : ℕ)
    → let (ids, appended) = read_lines setup master caves in
      let before = scan_setup setup in
      mem i (parse_setup appended before).setup_only ≡ (mem i before.setup_only || mem i ids)
unfolding read_lines
read_lines-settles setup master caves i =
    let st = scan_setup setup in
    let ids = all_ids setup master caves in
    parse_setup-patch (missing st.setup_only ids) st i
      (missing-words st.setup_only ids (all_ids-words setup master caves))
    ∙ mem-missing i st.setup_only ids
