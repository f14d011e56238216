-- ===== src/Commands.antt =====
use dst_nucleus.Telemetry.Report.{buffer_size}
use Prim.Native.Nat.{ℕ}
use dst_nucleus.Prelude.{
  Bool, Bytes, ℕ, List, if◌then◌else◌, ◌∷◌, false, Option, not, equal, ◌++◌, some, ltb, ◌==◌, [],
  length, ◌&&◌, codes, ◌||◌, true, none,
}
-- The command channels of the two shards: game.go, `发送纯文本指令` and `清洗命令通道`; api.go, `api_command`.
pub mod Delivery

pub data Target : Type 0 where
  to_master to_caves to_all : Target

-- `主世界命令通道` and `洞穴命令通道`, of capacity 100, oldest command first.
pub record Pipes : Type 0 where
  pub master : List Bytes
  pub caves : List Bytes

abbrev pub cmd_pipe_size : ℕ
cmd_pipe_size = 100

-- `select { case 通道 <- 指令: default: }`, and whether there was room.
unfoldable pub offer : Bytes → List Bytes → List Bytes × Bool
offer line pipe =
    if ltb (length pipe) cmd_pipe_size then (pipe ++ line ∷ [], true) else (pipe, false)

-- Does the last byte end the line?
unfoldable pub is_ended : Bytes → Bool
is_ended [] = false
is_ended (c ∷ []) = c == b'\n'
is_ended (c ∷ d ∷ cs) = is_ended (d ∷ cs)

unfoldable pub raw_line : Bytes → Bytes
unfolding is_ended
raw_line [] = []
raw_line (c ∷ cs) = if is_ended (c ∷ cs) then c ∷ cs else (c ∷ cs) ++ b'\n' ∷ []

unfoldable pub emit_raw_cmd : Bytes → Target → Pipes → Pipes
unfolding offer raw_line
emit_raw_cmd text to_master p = record p { master = (offer (raw_line text) p.master).0 }
emit_raw_cmd text to_caves p = record p { caves = (offer (raw_line text) p.caves).0 }
emit_raw_cmd text to_all p = record {
  master = (offer (raw_line text) p.master).0;
  caves = (offer (raw_line text) p.caves).0;
}

-- The receive loop that throws away what is left.
unfoldable pub flush_cmd_pipe : List Bytes → List Bytes
flush_cmd_pipe [] = []
flush_cmd_pipe (c ∷ cs) = flush_cmd_pipe cs

-- The answers of the handler; the two partial ones name the shard that took the command.
pub data Response : Type 0 where
  success200 locked423 post405 too_large413 broken400 empty400 target400 : Response
  master_only503 caves_only503 congested503 : Response

-- The switch on the lowered `target` parameter; `none` is the default branch.
unfoldable pub target_of : Bytes → Option Target
target_of t =
    if equal t (codes "caves")
    then some to_caves
    else if equal t (codes "all")
    then some to_all
    else if equal t (codes "master") || equal t []
    then some to_master
    else none

unfoldable pub deliver : Bytes → Option Target → Pipes → Pipes × Response
unfolding offer
deliver line none p = (p, target400)
deliver line (some to_master) p =
    let (pipe, ok) = offer line p.master in
    (record p { master = pipe }, if ok then success200 else congested503)
deliver line (some to_caves) p =
    let (pipe, ok) = offer line p.caves in
    (record p { caves = pipe }, if ok then success200 else congested503)
deliver line (some to_all) p =
    let (m, m_ok) = offer line p.master in
    let (c, c_ok) = offer line p.caves in
    (
      record { master = m; caves = c },
      if m_ok && c_ok
          then success200
          else if m_ok
          then master_only503
          else if c_ok
          then caves_only503
          else congested503,
    )

-- The handler. `locked` is the value of the lock, which the handler frees at its end; `body` is what
-- the reader delivers before it ends, by EOF or, where `clean` is false, by an error.
unfoldable pub api_command : Bool → Bool → Bytes → Bytes → Bool → Pipes → Pipes × Response
unfolding raw_line target_of deliver
api_command locked is_post target body clean p =
    if locked
    then (p, locked423)
    else if not is_post
    then (p, post405)
    else if ltb buffer_size (length body) || (length body == buffer_size && not clean)
    then (p, too_large413)
    else if not clean
    then (p, broken400)
    else if length body == 0
    then (p, empty400)
    else deliver (raw_line body) (target_of target) p
