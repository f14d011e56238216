-- ===== src/Install/Windows.antt =====
-- main_windows.go, `安装SteamCMD`: the archive is read into memory, in a buffer that grows, and unpacked.
-- What the network and the file system answer are arguments; the reader of zip archives and
-- `path/filepath` are parameters.
pub mod Download
pub mod Confined
use dst_nucleus.Prelude.{
  List, [], ◌∷◌, ◌++◌, ℕ, Bool, true, false, Option, none, some, Bytes, codes, ◌==◌, ◌+◌, ◌-◌, ◌*◌,
  if◌then◌else◌, not, ltb, length, take, drop, has_prefix,
}
use dst_nucleus.Install.Linux.{Unpacked, nothing, fuse, copy_limited, finish_install}

-- What ends a read beside its bytes: nothing, the end of the body, or an error.
pub data ReadEnd : Type 0 where
  more eof failed : ReadEnd

-- The buffer: what was read, and the capacity.
pub record Buffer : Type 0 where
  pub held : Bytes
  pub cap : ℕ

unfoldable pub grow : Buffer → Buffer
grow b =
    let twice = b.cap * 2 in
    if length b.held == b.cap
    then record b { cap = if ltb fuse twice then fuse + 1 else twice }
    else b

-- How the loop ends: with the archive, with the code 139 or 131, or it waits for another read.
pub data Loaded : Type 0 where
  loaded : Bytes → Loaded
  too_large broken waiting : Loaded

-- Behind a read.
unfoldable pub loaded_so_far : ReadEnd → Bytes → Loaded → Loaded
loaded_so_far more held later = later
loaded_so_far eof held later = loaded held
loaded_so_far failed held later = broken

-- The reads of a body; each delivers up to so many bytes, at most the room that is left.
unfoldable pub load : Buffer → Bytes → List (ℕ × ReadEnd) → Loaded
unfolding grow loaded_so_far
load b body [] = waiting
load b body ((n, end) ∷ reads) =
    let grown = grow b in
    let piece = take n (take (grown.cap - length grown.held) body) in
    let held = grown.held ++ piece in
    let later = load (record grown { held = held }) (drop (length piece) body) reads in
    if ltb fuse (length held) then too_large else loaded_so_far end held later

abbrev pub empty_buffer : Buffer
empty_buffer = record { held = []; cap = 2097152 }

-- An entry of the archive, and the answers for it; `written` says where the copy fails.
pub record ZipEntry : Type 0 where
  pub name : Bytes
  pub is_dir : Bool
  pub content : Bytes
  pub mkdir : Bool
  pub create : Bool
  pub opened : Bool
  pub written : Option ℕ
  pub close : Bool

unfoldable pub unzip_file : Bytes → ZipEntry → Unpacked → ℕ × Unpacked
unfolding copy_limited
unzip_file target e u =
    let (text, copied) = copy_limited (fuse - u.total + 1) e.content e.written in
    let total = u.total + length text in
    let u' = record u {
      files = (target, text) ∷ u.files;
      unclosed = if e.close then u.unclosed else target ∷ u.unclosed;
      total = total;
    } in
    if not e.mkdir
    then (134, u)
    else if not e.create
    then (135, u)
    else if not e.opened
    then (136, record u { files = (target, []) ∷ u.files })
    else if ltb fuse total
    then (140, record u' { wiped = true })
    else if not copied
    then (137, u')
    else (0, u')

unfoldable pub unzip_entry : Bytes → ZipEntry → Unpacked → ℕ × Unpacked
unfolding unzip_file
unzip_entry target e u =
    if e.is_dir
    then (0, record u { directories = (target, e.mkdir) ∷ u.directories })
    else unzip_file target e u

-- What the system answers around the loops.
pub record Setup : Type 0 where
  pub mkdir : Bool
  pub response : Option ℕ  -- the status
  pub body : Bytes
  pub reads : List (ℕ × ReadEnd)
  pub dry_run : Bool

module _ (clean : Bytes → Bytes) (join : Bytes → Bytes → Bytes)
    (parse_zip : Bytes → Option (List ZipEntry)) where
  unfoldable pub unzip : Bytes → List ZipEntry → Unpacked → ℕ × Unpacked
  unfolding unzip_entry
  unzip dir [] u = (0, u)
  unzip dir (e ∷ es) u =
      let target = join dir e.name in
      let r = unzip_entry target e u in
      let later = unzip dir es r.1 in
      if not (has_prefix target (clean dir ++ b'\\' ∷ []))
      then (133, u)
      else if r.0 == 0
      then later
      else r

  unfoldable pub unzip_archive : Bytes → Bool → Option (List ZipEntry) → ℕ × Unpacked
  unfolding unzip finish_install
  unzip_archive dir dry_run none = (132, nothing)
  unzip_archive dir dry_run (some es) = finish_install dry_run (unzip dir es nothing)

  unfoldable pub unzip_loaded : Bytes → Bool → Loaded → Option (ℕ × Unpacked)
  unfolding unzip_archive
  unzip_loaded dir dry_run (loaded text) = some (unzip_archive dir dry_run (parse_zip text))
  unzip_loaded dir dry_run too_large = some (139, nothing)
  unzip_loaded dir dry_run broken = some (131, nothing)
  unzip_loaded dir dry_run waiting = none

  -- Behind the request.
  unfoldable pub unzip_reply : Bytes → Setup → Option ℕ → Option (ℕ × Unpacked)
  unfolding load unzip_loaded
  unzip_reply dir s none = some (129, nothing)
  unzip_reply dir s (some status) =
      if not (status == 200)
      then some (130, nothing)
      else unzip_loaded dir s.dry_run (load empty_buffer s.body s.reads)

  -- `none` when it still waits for the network.
  unfoldable pub install_zip : Bytes → Setup → Option (ℕ × Unpacked)
  unfolding unzip_reply
  install_zip dir s = if not s.mkdir then some (128, nothing) else unzip_reply dir s s.response
