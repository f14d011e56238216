-- ===== src/Shards/Pids.antt =====
-- The word `全局配置.进程状态.PID`, the master's id in its upper half and the caves' in its lower one: game.go,
-- the loops over `CompareAndSwap` in `运行主世界` and `运行洞穴`.
pub mod Refine
use dst_nucleus.Prelude.{
  List, [], ◌∷◌, ◌++◌, ℕ, Option, none, some, if◌then◌else◌, ◌==◌, ◌+◌, ◌*◌, ◌/◌, ◌%◌,
}

pub data Shard : Type 0 where
  master caves : Shard

-- What a keeper does to the word: at the start of its process, and when it returns.
pub data Write : Type 0 where
  put : ℕ → Write
  clear : Write

abbrev pub half : ℕ
half = 4294967296

-- `newPID`; a mask with a half of the word is a remainder or a multiple, and `|` joins halves that
-- do not overlap.
unfoldable pub new_pid : Shard → Write → ℕ → ℕ
new_pid master (put pid) old = old % half + pid % half * half
new_pid master clear old = old % half
new_pid caves (put pid) old = old / half * half + pid % half
new_pid caves clear old = old / half * half

-- A keeper inside its loops: what it has still to write, and `old` between the load and the swap.
pub record Keeper : Type 0 where
  pub todo : List Write
  pub old : Option ℕ

pub record Memory : Type 0 where
  pub word : ℕ
  pub master_keeper : Keeper
  pub caves_keeper : Keeper

pub record Round : Type 0 where
  pub word : ℕ
  pub keeper : Keeper
  pub written : List (Shard × Write)

-- One atomic operation: the load, or the swap, which fails when the word is another by then.
unfoldable pub round : Shard → ℕ → List Write → Option ℕ → Round
unfolding new_pid
round s word [] old = record { word = word; keeper = record { todo = []; old = old }; written = [] }
round s word (w ∷ ws) none = record {
  word = word;
  keeper = record { todo = w ∷ ws; old = some word };
  written = [];
}
round s word (w ∷ ws) (some old) =
    if word == old
    then record {
      word = new_pid s w old;
      keeper = record { todo = ws; old = none };
      written = (s, w) ∷ [];
    }
    else record { word = word; keeper = record { todo = w ∷ ws; old = none }; written = [] }

unfoldable pub turn : Shard → Memory → Memory × List (Shard × Write)
unfolding round
turn master m =
    let r = round master m.word m.master_keeper.todo m.master_keeper.old in
    (record m { word = r.word; master_keeper = r.keeper }, r.written)
turn caves m =
    let r = round caves m.word m.caves_keeper.todo m.caves_keeper.old in
    (record m { word = r.word; caves_keeper = r.keeper }, r.written)

-- An interleaving of the two keepers, and the writes whose swap succeeded, in that order.
unfoldable pub run : List Shard → Memory → Memory × List (Shard × Write)
unfolding turn
run [] m = (m, [])
run (s ∷ ss) m = let (m', ws) = turn s m in let (m'', ws') = run ss m' in (m'', ws ++ ws')
