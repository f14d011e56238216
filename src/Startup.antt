-- ===== src/Startup.antt =====
-- main.go, `main` up to its loop, with `初始化核心中枢` and `初始化路径` of sys_params.go, the check and the default
-- directory of main_linux.go and the texts of language.go. Paths are those of Linux.
pub mod Boot
pub mod Order
use dst_nucleus.Prelude.{
  List, [], ◌∷◌, ◌++◌, ℕ, Bool, true, false, Bytes, Option, none, some, codes, equal, ltb, not,
  ◌&&◌, ◌||◌, if◌then◌else◌,
}
use dst_nucleus.Install.Paths.{join, join_all}

-- The settings that the start reads and completes.
pub record Settings : Type 0 where
  pub cluster_name : Bytes  -- 存档名称
  pub steamcmd_dir : Bytes
  pub game_dir : Bytes
  pub lua_target : Bytes  -- 模组Lua更新文件目标路径
  pub lua_backup : Bytes
  pub storage_root : Bytes
  pub check_interval : ℕ
  pub auto_install : Bool
  pub auto_start : Bool
  pub auto_update : Bool
  pub write_defaults : Bool
  pub skip_lib32 : Bool
  pub permit_root : Bool
  pub enable_master : Bool
  pub enable_caves : Bool
  pub crash_reboot : Bool
  pub reboot_wait : ℕ
  pub sample_interval : ℕ

unfoldable pub core_defaults : Bytes → Settings → Settings
core_defaults steam s = record s {
  cluster_name = codes "MyDediServer";
  steamcmd_dir = steam;
  auto_install = false;
  skip_lib32 = false;
  permit_root = false;
  auto_start = true;
  auto_update = true;
  check_interval = 600;
  reboot_wait = 480;
  write_defaults = false;
  crash_reboot = true;
  enable_caves = true;
  enable_master = true;
  sample_interval = 500;
}

-- The file behind the first `-c` that has an argument behind it.
unfoldable pub config_file : Bytes → List Bytes → Bytes
config_file default [] = default
config_file default (a ∷ []) = default
config_file default (a ∷ b ∷ rest) =
    let later = config_file default (b ∷ rest) in if equal a (codes "-c") then b else later

abbrev server_dir : Bytes → List Bytes → Bytes
server_dir steamcmd parts = join_all (
    steamcmd
    ∷ codes "steamapps"
    ∷ codes "common"
    ∷ codes "Don't Starve Together Dedicated Server"
    ∷ parts)

abbrev or_else : Bytes → Bytes → Bytes
or_else [] default = default
or_else (c ∷ cs) default = c ∷ cs

-- The three paths that a missing setting stands for.
unfoldable pub complete_dirs : Settings → Settings
unfolding join_all
complete_dirs s = record s {
  game_dir = or_else s.game_dir (server_dir s.steamcmd_dir (codes "bin64" ∷ []));
  lua_target =
      or_else s.lua_target
        (server_dir s.steamcmd_dir (codes "mods" ∷ codes "dedicated_server_mods_setup.lua" ∷ []));
  lua_backup =
      or_else s.lua_backup
        (server_dir s.steamcmd_dir (codes "mods" ∷ codes "dst-nucleus_backup.lua" ∷ []));
}

-- The paths that the other parts use.
pub record Places : Type 0 where
  pub master_mods : Bytes
  pub caves_mods : Bytes
  pub cluster : Bytes
  pub whitelist : Bytes
  pub blocklist : Bytes
  pub adminlist : Bytes
  pub master_server : Bytes
  pub caves_server : Bytes
  pub master_world : Bytes
  pub caves_world : Bytes
  pub game_acf : Bytes
  pub mods_acf : Bytes
  pub steamcmd : Bytes
  pub game : Bytes

-- A file of the cluster below a root of the storage.
unfoldable pub cluster_file : Bytes → Bytes → List Bytes → Bytes
unfolding join_all
cluster_file root name parts = join_all (root ∷ codes "DoNotStarveTogether" ∷ name ∷ parts)

unfoldable pub init_paths : Settings → Places
unfolding cluster_file join
init_paths s =
    let file = cluster_file s.storage_root s.cluster_name in
    record {
      master_mods = file (codes "Master" ∷ codes "modoverrides.lua" ∷ []);
      caves_mods = file (codes "Caves" ∷ codes "modoverrides.lua" ∷ []);
      cluster = file (codes "cluster.ini" ∷ []);
      whitelist = file (codes "whitelist.txt" ∷ []);
      blocklist = file (codes "blocklist.txt" ∷ []);
      adminlist = file (codes "adminlist.txt" ∷ []);
      master_server = file (codes "Master" ∷ codes "server.ini" ∷ []);
      caves_server = file (codes "Caves" ∷ codes "server.ini" ∷ []);
      master_world = file (codes "Master" ∷ codes "worldgenoverride.lua" ∷ []);
      caves_world = file (codes "Caves" ∷ codes "worldgenoverride.lua" ∷ []);
      game_acf =
          join_all (s.steamcmd_dir ∷ codes "steamapps" ∷ codes "appmanifest_343050.acf" ∷ []);
      mods_acf = join_all (
          s.steamcmd_dir
          ∷ codes "steamapps"
          ∷ codes "workshop"
          ∷ codes "appworkshop_322330.acf"
          ∷ []);
      steamcmd = join s.steamcmd_dir (codes "steamcmd.sh");
      game = join s.game_dir (codes "dontstarve_dedicated_server_nullrenderer_x64");
    }

-- `获取默认存档根目录`; without a home directory it is root's.
unfoldable pub default_root : Option Bytes → Bytes
unfolding join
default_root none = codes "/root/.klei"
default_root (some home) = join home (codes ".klei")

-- The root of the storage and the arguments that the game is started with.
unfoldable pub launch : Bytes → Bytes → Bytes → Bytes × List Bytes
launch name default [] = (default, codes "-console" ∷ codes "-cluster" ∷ name ∷ [])
launch name default (c ∷ root) = (
  c ∷ root,
  codes "-persistent_storage_root" ∷ (c ∷ root) ∷ codes "-console" ∷ codes "-cluster" ∷ name ∷ [],
)

-- The files that are written when the defaults are asked for.
unfoldable pub default_files : Settings → List Bytes
unfolding cluster_file
default_files s =
    let file = cluster_file s.storage_root s.cluster_name in
    if s.write_defaults
    then file (codes "Master" ∷ codes "server.ini" ∷ [])
      ∷ file (codes "Caves" ∷ codes "server.ini" ∷ [])
      ∷ file (codes "cluster.ini" ∷ [])
      ∷ []
    else []

pub record Started : Type 0 where
  pub settings : Settings
  pub places : Places
  pub arguments : List Bytes
  pub written : List Bytes

-- From the loaded configuration to the loop, in the order of the source.
unfoldable pub start_up : Option Bytes → Settings → Started
unfolding complete_dirs init_paths launch default_files default_root
start_up home s =
    let completed = complete_dirs s in
    let places = init_paths completed in
    let timed = record completed {
      check_interval = if ltb completed.check_interval 60 then 60 else completed.check_interval;
    } in
    let (root, arguments) = launch timed.cluster_name (default_root home) timed.storage_root in
    let rooted = record timed { storage_root = root } in
    record {
      settings = rooted;
      places = places;
      arguments = arguments;
      written = default_files rooted;
    }

-- `检查linux运行环境`: the user is root, the two settings, and whether the loader is there.
unfoldable pub check_linux_env : Bool → Bool → Bool → Bool → Bool
check_linux_env is_root skip_lib32 permit_root has_loader =
    if is_root && not permit_root then true else if skip_lib32 then true else has_loader
