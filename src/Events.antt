-- ===== src/Events.antt =====
-- api.go: `ServeHTTP`, `启动本地api接口`, and the handlers that push events to their clients, `api_events`,
-- `api_epoch_master` and `api_epoch_caves`, with `api_status`, `全局世代心跳` and `运行系统资源采集探针`. What a handler
-- writes is its output; a channel of capacity 1 is an Option.
pub mod Epochs
pub mod Gateway
use dst_nucleus.Prelude.{
  List, [], ◌∷◌, ◌++◌, ℕ, Bool, true, false, Bytes, Option, none, some, map, codes, equal, not, ltb,
  ◌||◌, ◌&&◌, if◌then◌else◌,
}
use dst_nucleus.Prelude.Decimal.{pos, append_int}

pub data Handler : Type 0 where
  ui status events epoch_master epoch_caves command start stop restart : Handler
  file_read file_write update_state log_master log_caves checkupdate not_found : Handler

-- The second switch of `ServeHTTP`.
unfoldable pub route : Bytes → Handler
route path =
    if equal path (codes "/")
    then ui
    else if equal path (codes "/api/status")
    then status
    else if equal path (codes "/api/events")
    then events
    else if equal path (codes "/api/epoch/master")
    then epoch_master
    else if equal path (codes "/api/epoch/caves")
    then epoch_caves
    else if equal path (codes "/api/command")
    then command
    else if equal path (codes "/api/start")
    then start
    else if equal path (codes "/api/stop")
    then stop
    else if equal path (codes "/api/restart")
    then restart
    else if equal path (codes "/api/file/read")
    then file_read
    else if equal path (codes "/api/file/write")
    then file_write
    else if equal path (codes "/api/update/state")
    then update_state
    else if equal path (codes "/api/log/master")
    then log_master
    else if equal path (codes "/api/log/caves")
    then log_caves
    else if equal path (codes "/api/checkupdate")
    then checkupdate
    else not_found

-- The first one: does the request get deadlines of 10 seconds?
unfoldable pub has_deadline : Bytes → Bool
has_deadline path = not (
    equal path (codes "/api/events")
    || equal path (codes "/api/epoch/master")
    || equal path (codes "/api/epoch/caves")
    || equal path (codes "/api/log/master")
    || equal path (codes "/api/log/caves"))

-- Is `全局世代心跳` started?
unfoldable pub has_heartbeat : Bool → Bool → Bool
has_heartbeat true enable_caves = not enable_caves
has_heartbeat false enable_caves = enable_caves

-- The pause between two snapshots of the state, in milliseconds.
unfoldable pub probe_interval : ℕ → ℕ
probe_interval n = if ltb n 100 then 100 else n

-- `api_status`: the code of an error, or the body, which says that nothing is there yet without a snapshot.
pub data StatusReply : Type 0 where
  get400 : StatusReply
  loading : StatusReply
  snapshot : Bytes → StatusReply

unfoldable pub api_status : Bool → Option Bytes → StatusReply
api_status is_get none = if is_get then loading else get400
api_status is_get (some text) = if is_get then snapshot text else get400

-- A server-sent event.
abbrev pub sse_event : Bytes → Bytes
sse_event text = codes "data: " ++ (text ++ b'\n' ∷ b'\n' ∷ [])

-- `select { case 通道 <- 世代: default: }`.
unfoldable pub offer_epoch : ℕ → Option ℕ → Option ℕ
offer_epoch epoch none = some epoch
offer_epoch epoch (some old) = some old

-- A tick of `全局世代心跳`, for the observers of both shards.
unfoldable pub beat : ℕ → ℕ → List (Option ℕ) × List (Option ℕ) → List (Option ℕ) × List (Option ℕ)
unfolding offer_epoch
beat master caves (m, c) = (map (offer_epoch master) m, map (offer_epoch caves) c)

-- What happens to one observer: the heart beats, or its handler takes the epoch and writes it.
pub data Turn : Type 0 where
  beats : ℕ → Turn
  serves : Turn

unfoldable pub epoch_event : ℕ → Bytes
epoch_event epoch = sse_event (append_int (pos epoch))

-- `api_epoch_master` and `api_epoch_caves`: what is written.
unfoldable pub epoch_stream : Option ℕ → List Turn → Bytes
unfolding epoch_event offer_epoch
epoch_stream slot [] = []
epoch_stream slot (beats epoch ∷ turns) = epoch_stream (offer_epoch epoch slot) turns
epoch_stream none (serves ∷ turns) = epoch_stream none turns
epoch_stream (some epoch) (serves ∷ turns) = epoch_event epoch ++ epoch_stream none turns

-- `api_events`: a nudge in the channel of the client, and the snapshot that stands when it is taken.
pub data Nudge : Type 0 where
  nudged : Nudge
  pushes : Option Bytes → Nudge

unfoldable pub event_stream : Bool → List Nudge → Bytes
event_stream waiting [] = []
event_stream waiting (nudged ∷ ns) = event_stream true ns
event_stream false (pushes text ∷ ns) = event_stream false ns
event_stream true (pushes none ∷ ns) = event_stream false ns
event_stream true (pushes (some text) ∷ ns) = sse_event text ++ event_stream false ns
