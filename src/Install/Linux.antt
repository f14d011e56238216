-- ===== src/Install/Linux.antt =====
-- main_linux.go, `安装SteamCMD`: the archive is unpacked entry by entry. What the network, the archive and
-- the file system answer are arguments; the result is what the file system was asked for.
pub mod Confined
use dst_nucleus.Prelude.{
  List, [], ◌∷◌, ◌++◌, ℕ, Bool, true, false, Option, none, some, Bytes, codes, ◌==◌, ◌+◌, ◌-◌,
  if◌then◌else◌, not, ltb, length, take, has_prefix,
}
use dst_nucleus.Install.Paths.{clean, join}

pub data EntryKind : Type 0 where
  directory regular other : EntryKind

-- An entry of the archive, and the answers for it; `written` says where the copy fails, `none` that it
-- does not.
pub record Entry : Type 0 where
  pub name : Bytes
  pub kind : EntryKind
  pub content : Bytes
  pub mkdir : Bool
  pub create : Bool
  pub written : Option ℕ
  pub close : Bool

abbrev pub fuse : ℕ
fuse = 20971520

-- What the file system was asked for and answered, the latest first: the directories of the archive, each
-- with the answer of `MkdirAll`, which the code does not look at there; the files, with what was written
-- to them; those whose `Close` failed where the code does not look; and whether, last of all, the
-- removal of the whole directory was asked for, whose answer it does not look at either. The directories
-- above a file are not listed.
pub record Unpacked : Type 0 where
  pub directories : List (Bytes × Bool)
  pub files : List (Bytes × Bytes)
  pub unclosed : List Bytes
  pub total : ℕ  -- 已解压总量
  pub wiped : Bool

abbrev pub nothing : Unpacked
nothing = record { directories = []; files = []; unclosed = []; total = 0; wiped = false }

-- `io.CopyBuffer` behind a `LimitReader`: what reaches the file, and whether it failed.
unfoldable pub copy_limited : ℕ → Bytes → Option ℕ → Bytes × Bool
copy_limited limit content none = (take limit content, true)
copy_limited limit content (some n) = (take n (take limit content), false)

-- A regular file behind its directory: the code, 0 to go on, and what was made.
unfoldable pub unpack_file : Bytes → Entry → Unpacked → ℕ × Unpacked
unfolding copy_limited
unpack_file target e u =
    let (text, copied) = copy_limited (fuse - u.total + 1) e.content e.written in
    let total = u.total + length text in
    let u' = record u { files = (target, text) ∷ u.files; total = total } in
    if not e.mkdir
    then (134, u)
    else if not e.create
    then (135, u)
    else if ltb fuse total
    then (140, record u' { wiped = true })
    else if not copied
    then (136, u')
    else if not e.close
    then (137, u')
    else (0, u')

unfoldable pub unpack_entry : Bytes → Entry → Unpacked → EntryKind → ℕ × Unpacked
unfolding unpack_file
unpack_entry target e u directory =
    (0, record u { directories = (target, e.mkdir) ∷ u.directories })
unpack_entry target e u regular = unpack_file target e u
unpack_entry target e u other = (0, u)

-- The loop over the entries; `whole` says that the archive ends, and does not break off.
unfoldable pub unpack : Bytes → Bool → List Entry → Unpacked → ℕ × Unpacked
unfolding unpack_entry
unpack dir whole [] u = (if whole then 0 else 132, u)
unpack dir whole (e ∷ es) u =
    let target = join dir e.name in
    let r = unpack_entry target e u e.kind in
    let later = unpack dir whole es r.1 in
    if not (has_prefix target (clean dir ++ b'/' ∷ []))
    then (133, u)
    else if r.0 == 0
    then later
    else r

-- What the system answers around the loop.
pub record Download : Type 0 where
  pub mkdir : Bool
  pub response : Option ℕ  -- the status
  pub gzip : Bool
  pub whole : Bool
  pub entries : List Entry
  pub dry_run : Bool

unfoldable pub finish_install : Bool → ℕ × Unpacked → ℕ × Unpacked
finish_install dry_run (code, u) =
    if code == 0 then (if dry_run then (0, u) else (138, u)) else (code, u)

-- Behind the request.
unfoldable pub unpack_reply : Bytes → Download → Option ℕ → ℕ × Unpacked
unfolding unpack finish_install
unpack_reply dir d none = (129, nothing)
unpack_reply dir d (some status) =
    if not (status == 200)
    then (130, nothing)
    else if not d.gzip
    then (131, nothing)
    else finish_install d.dry_run (unpack dir d.whole d.entries nothing)

unfoldable pub install : Bytes → Download → ℕ × Unpacked
unfolding unpack_reply
install dir d = if not d.mkdir then (128, nothing) else unpack_reply dir d d.response
