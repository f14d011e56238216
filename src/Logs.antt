-- ===== src/Logs.antt =====
-- The broadcast of the shards' output to the clients of /api/log: api.go, `广播日志块`, `api_log_master`,
-- `api_log_caves` and the two hubs, and the publication in `实时输出流` of game.go. The two shards have
-- the same code; one of them is modelled. A chunk is a number; what it says is left out. The atomic
-- steps of the hub, of the producers and of the clients interleave freely.
pub mod Steps
pub mod Holders
pub mod References
pub mod Channels
use dst_nucleus.Prelude.{
  ◌∷◌, [], ◌+◌, List, ℕ, [], Bool, get_or, true, none, false, ◌-◌, if◌then◌else◌, set, ◌++◌, some,
  ◌==◌, ltb, Option, length,
}
use Prim.Native.Nat.{ℕ}

-- Where the hub stands: at its select; with a chunk in hand and subscribers to go; or between the
-- `Add(1)` and the send to a subscriber, with those behind it; or panicked in that send.
pub data HubPhase : Type 0 where
  resting : HubPhase
  sharing : ℕ → List ℕ → HubPhase
  offering : ℕ → ℕ → List ℕ → HubPhase
  panicked : ℕ → HubPhase

-- Where the handler of a client stands: before the subscription; serving; behind the request for the
-- unsubscription, taking what is left in its channel; returned.
pub data ClientPhase : Type 0 where
  connecting serving draining gone : ClientPhase

-- A client with its `事件通道`, of capacity 256; `in_hand` is the chunk that is being written out.
pub record Client : Type 0 where
  pub phase : ClientPhase
  pub queue : List ℕ
  pub closed : Bool
  pub in_hand : Option ℕ

pub record LogState : Type 0 where
  pub refs : ℕ → ℕ  -- 引用数
  pub pooled : ℕ → ℕ  -- how often the chunk lies in the pool
  pub allocated : ℕ  -- the chunks below were made by the pool's New
  pub pipe : List ℕ  -- 中央日志管道, of capacity 1024
  pub joins : List ℕ  -- 日志订阅
  pub leaves : List ℕ  -- 日志退订
  pub subscribers : List ℕ
  pub hub : HubPhase
  pub clients : List Client
  pub connections : ℕ  -- 主世界日志连接数
  pub watched : Bool  -- did the producer of the line in hand load a positive count?

abbrev pub no_client : Client
no_client = record { phase = gone; queue = []; closed = true; in_hand = none }

abbrev pub client : LogState → ℕ → Client
client s i = get_or s.clients i no_client

abbrev pub put : (ℕ → ℕ) → ℕ → ℕ → ℕ → ℕ
put f k v j = if k == j then v else f j

abbrev pub pipe_size : ℕ
pipe_size = 1024

abbrev pub queue_size : ℕ
queue_size = 256

-- `if 块.引用数.Add(-1) == 0 { 日志广播池.Put(块) }`.
unfoldable pub release : ℕ → LogState → LogState
release b s = record s {
  refs = put s.refs b (s.refs b - 1);
  pooled = put s.pooled b (if s.refs b == 1 then s.pooled b + 1 else s.pooled b);
}

-- `日志广播池.Get()`, where it hands out chunk b from the pool, or makes the next one.
unfoldable pub get_pooled : ℕ → LogState → LogState
get_pooled b s = record s { pooled = put s.pooled b (s.pooled b - 1) }

unfoldable pub get_new : LogState → LogState
get_new s = record s { allocated = s.allocated + 1 }

-- `连接数.Load() > 0`, for the next line.
unfoldable pub look : LogState → LogState
look s = record s { watched = ltb 0 s.connections }

-- The rest of the publication: the count is set, and the chunk is sent or put back. The producer is
-- then done with its line.
unfoldable pub publish : ℕ → LogState → LogState
publish b s =
    if ltb (length s.pipe) pipe_size
    then record s { refs = put s.refs b 1; pipe = s.pipe ++ b ∷ []; watched = false }
    else record s {
      refs = put s.refs b 1;
      pooled = put s.pooled b (s.pooled b + 1);
      watched = false;
    }

-- The hub at its select. `order` is the order in which the range over the map visits.
unfoldable pub take_join : LogState → LogState
take_join s = elim s.joins [
  | [] ↦ s
  | i ∷ is ↦ record s { joins = is; subscribers = i ∷ s.subscribers }
]

-- `delete` from the set of subscribers.
unfoldable pub without : ℕ → List ℕ → List ℕ
without k [] = []
without k (x ∷ xs) = if x == k then without k xs else x ∷ without k xs

unfoldable pub close_client : ℕ → LogState → LogState
close_client i s = record s { clients = set s.clients i (record (client s i) { closed = true }) }

unfoldable pub take_leave : LogState → LogState
unfolding close_client without
take_leave s = elim s.leaves [
  | [] ↦ s
  | i ∷ is ↦ close_client i (record s { leaves = is; subscribers = without i s.subscribers })
]

unfoldable pub take_chunk : List ℕ → LogState → LogState
take_chunk order s = elim s.pipe [ [] ↦ s | b ∷ bs ↦ record s { pipe = bs; hub = sharing b order } ]

-- `块.引用数.Add(1)` for the next subscriber; behind the last one the hub lets the chunk go.
unfoldable pub share : ℕ → List ℕ → LogState → LogState
unfolding release
share b [] s = release b (record s { hub = resting })
share b (i ∷ is) s = record s { refs = put s.refs b (s.refs b + 1); hub = offering b i is }

-- `select { case ch <- 块: default: 块.引用数.Add(-1) }`; a send on a closed channel panics.
unfoldable pub offer : ℕ → ℕ → List ℕ → LogState → LogState
offer b i is s =
    let c = client s i in
    if c.closed
    then record s { hub = panicked b }
    else if ltb (length c.queue) queue_size
    then record s {
      clients = set s.clients i (record c { queue = c.queue ++ b ∷ [] });
      hub = sharing b is;
    }
    else record s { refs = put s.refs b (s.refs b - 1); hub = sharing b is }

-- The handler of client i, up to `事件通道` being sent.
unfoldable pub connect : ℕ → LogState → LogState
connect i s = record s {
  joins = s.joins ++ i ∷ [];
  connections = s.connections + 1;
  clients = set s.clients i (record (client s i) { phase = serving });
}

-- A chunk is received, in the loop or in the drain.
unfoldable pub receive : ℕ → LogState → LogState
receive i s =
    let c = client s i in
    elim c.queue [
      | [] ↦ s
      | b ∷ bs ↦ record s { clients = set s.clients i (record c { queue = bs; in_hand = some b }) }
    ]

-- Behind the write, or at once in the drain.
unfoldable pub let_go : ℕ → LogState → LogState
unfolding release
let_go i s =
    let c = client s i in
    elim c.in_hand [
      | none ↦ s
      | some b ↦ release b (record s { clients = set s.clients i (record c { in_hand = none }) })
    ]

-- The client is gone, or the write failed: the deferred function asks for the unsubscription.
unfoldable pub leave : ℕ → LogState → LogState
leave i s = record s {
  leaves = s.leaves ++ i ∷ [];
  connections = s.connections - 1;
  clients = set s.clients i (record (client s i) { phase = draining });
}

-- The range over the channel ends: it is closed and empty.
unfoldable pub return_client : ℕ → LogState → LogState
return_client i s = record s { clients = set s.clients i (record (client s i) { phase = gone }) }
