-- ===== src/Install/Windows/Confined.antt =====
-- Where the installer writes on Windows, and how much.
use dst_nucleus.Prelude.{
  List, [], ◌∷◌, ◌++◌, ℕ, true, suc, Bytes, Option, none, some, ◌≡◌, ◌+◌, if◌then◌else◌, length,
  has_prefix,
}
use dst_nucleus.Install.Linux.{Unpacked, nothing, fuse}
use dst_nucleus.Install.Kept.{Confined, Kept, Wiped}
use dst_nucleus.Install.Windows.{ZipEntry, Setup, loaded, load, empty_buffer}

-- A file, whole; whether its `Close` succeeded is not looked at.
abbrev pub whole_zip_file : Bytes → ZipEntry → Bytes → Unpacked → Unpacked
whole_zip_file target e text u = record u {
  files = (target, text) ∷ u.files;
  unclosed = if e.close then u.unclosed else target ∷ u.unclosed;
  total = u.total + length text;
}

-- An entry, whole, and what `MkdirAll` answers for a directory.
abbrev pub whole_zip_entry : Bytes → ZipEntry → Unpacked → Unpacked
whole_zip_entry target e u =
    if e.is_dir
    then record u { directories = (target, e.mkdir) ∷ u.directories }
    else whole_zip_file target e e.content u

module _ (clean : Bytes → Bytes) (join : Bytes → Bytes → Bytes)
    (parse_zip : Bytes → Option (List ZipEntry)) (dir : Bytes) where
  -- All entries of an archive, whole.
  abbrev pub all_zip_entries : List ZipEntry → Unpacked → Unpacked
  all_zip_entries [] u = u
  all_zip_entries (e ∷ es) u = all_zip_entries es (whole_zip_entry (join dir e.name) e u)

  abbrev pub Inside : Bytes → Type 0
  Inside target = has_prefix target (clean dir ++ b'\\' ∷ []) ≡ true

  -- The archive that was loaded, and that all of it is there.
  pub record Whole (s : Setup) (u : Unpacked) : Type 0 where
    pub archive : Bytes
    pub entries : List ZipEntry
    pub read : load empty_buffer s.body s.reads ≡ loaded archive
    pub parsed : parse_zip archive ≡ some entries
    pub made : u ≡ all_zip_entries entries nothing

  -- What each code leaves behind an installation.
  abbrev pub Left : Setup → Option (ℕ × Unpacked) → Type 0
  Left s none = Unit
  Left s (some r) =
      Confined Inside (suc fuse) r.1 × (r.0 ≡ 140 → Wiped r.1) × (r.0 ≡ 0 → Whole s r.1)
