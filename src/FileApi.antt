-- ===== src/FileApi.antt =====
-- api.go, `api_file_read` and `api_file_write`: the configuration files of the cluster, read and
-- replaced over HTTP; sys_params.go, `初始化路径`, for the paths that the target `mod` writes. The file
-- system is the content of each path.
pub mod Query
pub mod Written
pub mod RoundTrip
use mathlib.Core.Logic.{ite}
use dst_nucleus.Prelude.{
  List, [], ◌∷◌, Bool, ℕ, Option, none, ◌≡◌, Bytes, some, if◌then◌else◌, ◌&&◌, not, equal, ◌==◌,
  ltb, codes, length, ◌||◌,
}
use dst_nucleus.FileApi.Query.{query_target}
use dst_nucleus.Files.Stream.{Disk, Answers, Source, atomic_write_stream}
use dst_nucleus.Files.Clone.{Clone, clone_file, Outcome}
use dst_nucleus.Prelude.Decimal.{ℤ, pos, pos_part, neg_part, eqb_ℤ}

-- The eleven files that a target can name.
pub data FilePath : Type 0 where
  cluster_path whitelist_path blacklist_path adminlist_path : FilePath
  master_server_path caves_server_path master_world_path caves_world_path : FilePath
  master_mod_path caves_mod_path setup_path : FilePath

abbrev pub Store : Type 0
Store = FilePath → Option Bytes

abbrev pub size_cap : ℕ
size_cap = 1048576

pub same_path : (p q : FilePath) → Dec (p ≡ q)
same_path = hlevel

abbrev pub put : Store → FilePath → Option Bytes → Store
put fs p content q = ite (same_path p q) content (fs q)

pub data ReadReply : Type 0 where
  locked423 method400 target400 too_large413 : ReadReply
  content200 : Bytes → ReadReply

-- The switch on the lowered target.
unfoldable pub read_path : Bytes → Option FilePath
read_path t =
    if equal t (codes "cluster")
    then some cluster_path
    else if equal t (codes "whitelist")
    then some whitelist_path
    else if equal t (codes "blacklist")
    then some blacklist_path
    else if equal t (codes "adminlist")
    then some adminlist_path
    else if equal t (codes "master_server")
    then some master_server_path
    else if equal t (codes "caves_server")
    then some caves_server_path
    else if equal t (codes "master_world")
    then some master_world_path
    else if equal t (codes "caves_world")
    then some caves_world_path
    else if equal t (codes "master_mod")
    then some master_mod_path
    else if equal t (codes "caves_mod")
    then some caves_mod_path
    else if equal t (codes "setup")
    then some setup_path
    else none

-- An open file; where `Stat` fails (`stat_ok` is false) there is no limit. A file that is not there is
-- answered by an empty text.
unfoldable pub serve : Bool → Option Bytes → ReadReply
serve stat_ok none = content200 []
serve stat_ok (some text) =
    if stat_ok && ltb size_cap (length text) then too_large413 else content200 text

unfoldable pub read_target : Bool → Store → Bytes → ReadReply
unfolding read_path serve
read_target stat_ok fs t = elim (read_path t) [ none ↦ target400 | some p ↦ serve stat_ok (fs p) ]

unfoldable pub api_file_read : Bool → Bool → Bytes → Bool → Store → ReadReply
unfolding read_target query_target
api_file_read locked is_get query stat_ok fs =
    if locked
    then locked423
    else if not is_get
    then method400
    else elim (query_target query) [ none ↦ target400 | some t ↦ read_target stat_ok fs t ]

-- The two paths of a write; the second one gets a copy. An unset path is `none`.
abbrev pub WritePaths : Type 0
WritePaths = Option FilePath × Option FilePath

-- `写入mod配置文件路径集`, as `初始化路径` fills it.
unfoldable pub write_mod_paths : Bool → Bool → WritePaths
write_mod_paths enable_master enable_caves =
    if enable_master
    then (some master_mod_path, if enable_caves then some caves_mod_path else none)
    else (if enable_caves then some caves_mod_path else none, none)

unfoldable pub write_paths : WritePaths → Bytes → Option WritePaths
write_paths mods t =
    if equal t (codes "cluster")
    then some (some cluster_path, none)
    else if equal t (codes "whitelist")
    then some (some whitelist_path, none)
    else if equal t (codes "blacklist")
    then some (some blacklist_path, none)
    else if equal t (codes "adminlist")
    then some (some adminlist_path, none)
    else if equal t (codes "master_server")
    then some (some master_server_path, none)
    else if equal t (codes "caves_server")
    then some (some caves_server_path, none)
    else if equal t (codes "master_world")
    then some (some master_world_path, none)
    else if equal t (codes "caves_world")
    then some (some caves_world_path, none)
    else if equal t (codes "mod")
    then some mods
    else if equal t (codes "setup")
    then some (some setup_path, none)
    else none

pub data WriteReply : Type 0 where
  success200 locked423 post405 empty400 too_large413 query400 target400 : WriteReply
  unconfigured400 primary500 secondary500 : WriteReply

-- The answers of the system for one request: those of the stream write, the reader of the body, and
-- those of the three rounds of the copy.
pub record Io : Type 0 where
  pub answers : Answers
  pub body : Source
  pub rounds : ℕ → Clone

abbrev pub disk_of : Store → FilePath → Disk
disk_of fs p = record { target = fs p; temp = none }

unfoldable pub clone_reply : Store → FilePath → Outcome → Store × WriteReply
clone_reply fs q r = (put fs q r.disk.target, if r.code == 0 then success200 else secondary500)

-- Behind a primary write that succeeded.
unfoldable pub write_secondary : Io → Store → Option FilePath → Store × WriteReply
unfolding clone_reply
write_secondary io fs none = (fs, success200)
write_secondary io fs (some q) = clone_reply fs q (clone_file io.rounds (disk_of fs q))

unfoldable pub primary_reply :
    Io → Store → FilePath → Option FilePath → ℕ × Disk → Store × WriteReply
unfolding write_secondary
primary_reply io fs p second (code, d) =
    if code == 0
    then write_secondary io (put fs p d.target) second
    else (put fs p d.target, primary500)

unfoldable pub write_primary : Io → Store → WritePaths → Store × WriteReply
unfolding primary_reply
write_primary io fs (none, second) = (fs, unconfigured400)
write_primary io fs (some p, second) =
    primary_reply io fs p second (atomic_write_stream io.answers size_cap io.body (disk_of fs p))

unfoldable pub write_target : WritePaths → Io → Store → Bytes → Store × WriteReply
unfolding write_paths write_primary
write_target mods io fs t = elim (write_paths mods t) [
  | none ↦ (fs, target400)
  | some paths ↦ write_primary io fs paths
]

-- The declared length is negative where the request does not say it.
unfoldable pub api_file_write :
    WritePaths → Bool → Bool → ℤ → Bytes → Io → Store → Store × WriteReply
unfolding write_target query_target
api_file_write mods locked is_post declared query io fs =
    if locked
    then (fs, locked423)
    else if not is_post
    then (fs, post405)
    else if eqb_ℤ declared (pos 0)
    then (fs, empty400)
    else if ltb 0 (neg_part declared) || ltb size_cap (pos_part declared)
    then (fs, too_large413)
    else elim (query_target query) [ none ↦ (fs, query400) | some t ↦ write_target mods io fs t ]
