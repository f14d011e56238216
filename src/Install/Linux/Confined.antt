-- ===== src/Install/Linux/Confined.antt =====
-- Where the installer writes, and how much.
use dst_nucleus.Install.Kept.{whole_file, Kept}
use dst_nucleus.Prelude.{[], ◌∷◌, List, true, Bytes}
use dst_nucleus.Install.Paths.{Parts, join, resolve_all, split_slash}
use dst_nucleus.Install.Linux.{Entry, EntryKind, directory, regular, other, Unpacked}

-- The names of an absolute path, the last first.
abbrev pub parts_of : Bytes → Parts
parts_of path = resolve_all true [] (split_slash [] path)

-- An entry, whole, and what `MkdirAll` answers for a directory.
unfoldable pub whole_entry : Bytes → Entry → Unpacked → EntryKind → Unpacked
whole_entry target e u directory = record u { directories = (target, e.mkdir) ∷ u.directories }
whole_entry target e u regular = whole_file target e u
whole_entry target e u other = u

-- All entries of an archive, whole.
unfoldable pub all_entries : Bytes → List Entry → Unpacked → Unpacked
unfolding whole_entry
all_entries dir [] u = u
all_entries dir (e ∷ es) u = all_entries dir es (whole_entry (join dir e.name) e u e.kind)
