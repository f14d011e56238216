-- ===== src/Updates/Version.antt =====
-- update.go: `发起竞速请求`, the two ways to the remote build number, `探测游戏更新` and `执行游戏更新`. A
-- request and a run of SteamCMD are given by what they answer.
use dst_nucleus.Prelude.{
  List, [], ◌∷◌, ℕ, Bool, Bytes, Option, codes, none, if◌then◌else◌, some, ◌+◌, length, ◌==◌, not,
  ◌&&◌, ◌||◌, equal, ltb,
}
use dst_nucleus.Updates.Search.{behind, index_of}
use dst_nucleus.Mods.Digits.{span_digits}
use dst_nucleus.Prelude.Decimal.{is_digit}

-- What one client's request meets.
pub record Reply : Type 0 where
  pub built : Bool
  pub answered : Bool
  pub status : ℕ
  pub body : Option Bytes

unfoldable pub fire_request : Reply → Option Bytes
fire_request r =
    if not r.built
    then none
    else if not r.answered
    then none
    else if not (r.status == 200)
    then none
    else r.body

-- An arrival in the channel of the race, and whether it comes within the five seconds that are waited
-- anew in each round.
pub record Arrival : Type 0 where
  pub in_time : Bool
  pub response : Option Bytes

-- The loop over the arrivals in their order; with no more arrivals the wait times out.
unfoldable pub race_loop : ℕ → List Arrival → Option Bytes
race_loop failures [] = none
race_loop failures (a ∷ later) =
    let rest = race_loop (failures + 1) later in
    if not a.in_time
    then none
    else elim a.response [ some body ↦ some body | none ↦ if failures + 1 == 2 then none else rest ]

-- Both clients send; `proxy_first` says whose answer comes first.
unfoldable pub fire_racing_request : Bool → Bool → Bool → Reply → Reply → Option Bytes
unfolding race_loop fire_request
fire_racing_request proxy_first first_in_time second_in_time proxy direct =
    let p = fire_request proxy in
    let d = fire_request direct in
    race_loop 0 (
      record { in_time = first_in_time; response = if proxy_first then p else d }
      ∷ record { in_time = second_in_time; response = if proxy_first then d else p }
      ∷ [])

unfoldable pub skip_to_digit : Bytes → Bytes
skip_to_digit [] = []
skip_to_digit (c ∷ cs) = if is_digit c then c ∷ cs else skip_to_digit cs

-- The digits behind the key `"buildid"`, which is looked for from the given place on.
unfoldable pub build_id : Bytes → Bytes
unfolding behind skip_to_digit
build_id s = elim (behind (codes "\"buildid\"") s) [
  | none ↦ []
  | some rest ↦ (span_digits (skip_to_digit rest)).0
]

-- From the first occurrence of a node's name on.
unfoldable pub build_id_in : Bytes → Option Bytes → Bytes
unfolding index_of build_id
build_id_in node none = []
build_id_in node (some s) = elim (index_of node s) [ none ↦ [] | some rest ↦ build_id rest ]

-- The text and the code of `通过HTTP获取远程游戏版本`.
unfoldable pub fetch_remote_ver_http : Option Bytes → Bytes × ℕ
unfolding build_id_in
fetch_remote_ver_http none = ([], 128)
fetch_remote_ver_http (some body) =
    let id = build_id_in (codes "\"public\"") (index_of (codes "\"branches\"") body) in
    (id, if length id == 0 then 130 else 0)

-- `获取远程版本号`; `output` is what SteamCMD prints, `none` where the run fails.
unfoldable pub fetch_remote_ver : Option Bytes → Option Bytes → Bytes
unfolding fetch_remote_ver_http
fetch_remote_ver response output =
    let (ver, code) = fetch_remote_ver_http response in
    if code == 0 && ltb 0 (length ver) then ver else build_id_in (codes "\"public\"") output

pub data Status : Type 0 where
  success no_update failed blocked : Status

unfoldable pub probe_game_update : Bytes → Bytes → Status
probe_game_update local remote =
    if length local == 0 || length remote == 0
    then failed
    else if not (equal local remote)
    then success
    else no_update

-- The lock is free again at the end; with success the backup is copied over the setup file.
unfoldable pub exec_game_update : Bool → Bool → Bool → Status
exec_game_update updating started finished =
    if updating
    then blocked
    else if not started
    then failed
    else if not finished
    then failed
    else success
