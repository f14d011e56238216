-- ===== src/Tests/Setups.antt =====
-- The installers, the start, the build of the script and the console's output.
use dst_nucleus.Updates.Search.{trim_space, trim_left, trim_right}
use dst_nucleus.Prelude.{
  List, [], ◌∷◌, ◌++◌, true, false, Bytes, Option, none, some, codes, has_prefix, joined, ◌≡◌, refl,
  arith,
}
use dst_nucleus.Install.Paths.{
  clean, join, split_slash, resolve_all, resolve, parent, relative_text, join_all, slash_joined,
  slashed, rooted_text,
}
use dst_nucleus.Install.Linux.{
  Entry, directory, regular, Download, install, unpack_reply, finish_install, unpack, unpack_entry,
  unpack_file, copy_limited,
}
use dst_nucleus.Install.Kept.{Confined}
use dst_nucleus.Install.Windows.{ZipEntry, Setup, more, eof}
use dst_nucleus.Startup.{
  Settings, start_up, init_paths, cluster_file, complete_dirs, launch, default_files, default_root,
}
use dst_nucleus.BuildLua.{minify, split_lines, clean_blocks, cut_comment, join_blanks}
use dst_nucleus.BuildLua.OneLine.{Flat, minify-Flat}
use dst_nucleus.Console.Output.{
  merged_linux, merged_windows, merged_line_linux, merged_line_windows, merged-linux_windows,
}

abbrev script : Entry
script = record {
  name = codes "./steamcmd.sh";
  kind = regular;
  content = codes "#!/bin/sh";
  mkdir = true;
  create = true;
  written = none;
  close = true;
}

abbrev folder : Entry
folder = record {
  name = codes "linux32/";
  kind = directory;
  content = [];
  mkdir = true;
  create = true;
  written = none;
  close = true;
}

abbrev steam_below : Bytes
steam_below = codes "home//dst/Steam/"

abbrev archive : Download
archive = record {
  mkdir = true;
  response = some 200;
  gzip = true;
  whole = true;
  entries = folder ∷ script ∷ [];
  dry_run = true;
}

install-run : (install (codes "/home/dst/Steam") archive).0 ≡ 0
unfolding install unpack_reply finish_install unpack unpack_entry unpack_file copy_limited join
    clean split_slash resolve_all resolve parent rooted_text slashed
install-run = refl

-- From a directory above the working directory, an entry of the archive leads out of it.
relative_escape :
    has_prefix (join (codes "..") (codes "../z")) (clean (codes "..") ++ b'/' ∷ []) ≡ true
unfolding join clean split_slash resolve_all resolve parent relative_text slashed
relative_escape = refl

abbrev exe : ZipEntry
exe = record {
  name = codes "steamcmd.exe";
  is_dir = false;
  content = codes "MZ";
  mkdir = true;
  create = true;
  opened = true;
  written = none;
  close = true;
}

abbrev zip_setup : Setup
zip_setup = record {
  mkdir = true;
  response = some 200;
  body = codes "PK";
  reads = (1, more) ∷ (5, eof) ∷ [];
  dry_run = true;
}

abbrev beside : Bytes → Bytes → Bytes
beside dir name = dir ++ b'\\' ∷ name

abbrev same_path : Bytes → Bytes
same_path dir = dir

abbrev one_entry : Bytes → Option (List ZipEntry)
one_entry text = some (exe ∷ [])

abbrev fresh : Settings
fresh = record {
  cluster_name = codes "MyDediServer";
  steamcmd_dir = codes "/root/Steam";
  game_dir = [];
  lua_target = [];
  lua_backup = [];
  storage_root = [];
  check_interval = 5;
  auto_install = false;
  auto_start = true;
  auto_update = true;
  write_defaults = true;
  skip_lib32 = false;
  permit_root = true;
  enable_master = true;
  enable_caves = true;
  crash_reboot = true;
  reboot_wait = 480;
  sample_interval = 500;
}

-- Without a configured root, the endpoints' file is not the one that the game reads.
cluster_astray :
    ((start_up (some (codes "/root")) fresh).places.cluster
      ≡ codes "DoNotStarveTogether/MyDediServer/cluster.ini")
    × (cluster_file
          (start_up (some (codes "/root")) fresh).settings.storage_root
          (codes "MyDediServer")
          (codes "cluster.ini" ∷ [])
        ≡ codes "/root/.klei/DoNotStarveTogether/MyDediServer/cluster.ini")
unfolding start_up complete_dirs init_paths launch default_files default_root cluster_file join_all
    join slash_joined clean split_slash resolve_all resolve parent relative_text rooted_text slashed
cluster_astray = (refl, refl)

abbrev lua : Bytes
lua = codes "local a = 1 -- one" ++ b'\n' ∷ codes "  print(a)"

minify-Flat_example : (line : Bytes) × (minify lua ≡ line ++ b'\n' ∷ []) × Flat line
minify-Flat_example = minify-Flat lua

minify-run : minify lua ≡ codes "local a = 1 print(a)" ++ b'\n' ∷ []
unfolding minify split_lines clean_blocks cut_comment join_blanks trim_space trim_left trim_right
minify-run = refl

abbrev message : List Bytes
message = codes "[sys] " ∷ [] ∷ codes "up" ∷ []

merged-linux_windows_example :
    (merged_linux message ≡ merged_windows true message)
    × (merged_line_linux message ≡ joined message ++ b'\n' ∷ [])
    × (merged_line_windows true message ≡ some (joined message ++ b'\r' ∷ b'\n' ∷ []))
merged-linux_windows_example = merged-linux_windows message (omega arith)
