-- ===== src/Tests/Keepers.antt =====
-- The keepers of the game processes and the reader of their logs.
use dst_nucleus.Prelude.{
  List, [], ◌∷◌, Bytes, some, none, true, false, ◌≡◌, refl, codes, arith, if◌then◌else◌,
}
use dst_nucleus.Shards.Pids.{Memory, Shard, master, caves, put, clear, run}
use dst_nucleus.Shards.Pids.Refine.{Refined, run-Refined}
use dst_nucleus.Shards.Ending.{Found, kill_process, ordered, killed, awaited, shutdown_order}
use dst_nucleus.Shards.Ending.Ends.{Ended, kill_process-Ended}
use dst_nucleus.Commands.{offer}
use dst_nucleus.Updates.Search.{index_of, behind}
use dst_nucleus.Daemon.{Daemon, post, mod_hot_update, waiting}
use dst_nucleus.LogReader.{Stream, Flags, live_stream, handle_line}
use dst_nucleus.LogReader.Lines.{Line, short, long, all_pieces}
use dst_nucleus.LogReader.Notices.{obey_all, has_notice, live_stream-post}

-- The master's keeper starts and ends its process while the caves' one starts.
abbrev both_start : Memory
both_start = record {
  word = 0;
  master_keeper = record { todo = put 4321 ∷ clear ∷ []; old = none };
  caves_keeper = record { todo = put 8765 ∷ []; old = none };
}

-- Both load; the master's swap succeeds, the caves' one fails and is tried again.
abbrev turns : List Shard
turns = master ∷ caves ∷ master ∷ caves ∷ caves ∷ caves ∷ []

run_both : ((run turns both_start).0).word ≡ 18558553694781
unfolding run
run_both = refl

run-Refined_example : Refined both_start (run turns both_start).0 (run turns both_start).1
run-Refined_example = run-Refined turns both_start (omega arith)

abbrev stubborn : Found
stubborn = record { started = true; ready = true; gone = false; obeys = false }

kill_process_forces :
    kill_process stubborn (some []) ≡ (ordered ∷ killed ∷ awaited ∷ [], some (shutdown_order ∷ []))
unfolding kill_process offer
kill_process_forces = refl

kill_process-Ended_example : Ended stubborn (some []) (kill_process stubborn (some []))
kill_process-Ended_example = kill_process-Ended stubborn (some []) refl

abbrev master_log : Stream
master_log = record {
  node = dst_nucleus.LogReader.master;
  prefix = codes "[Master] ";
  to_console = true;
  has_file = true;
}

abbrev plain : Flags
plain = record { ready = some true; is_watched = false }

abbrev notice : Bytes
notice =
    codes
      "[Workshop] 7 is out of date and needs to be updated for new users to be able to join the server"

abbrev chat : Bytes
chat =
    codes
      "[Say] (KU_abc) is out of date and needs to be updated for new users to be able to join the server"

abbrev log_lines : List Line
log_lines =
    short plain chat ∷ long (plain, codes "x") [] (plain, codes "y") ∷ short plain notice ∷ []

abbrev waits : Daemon
waits = record {
  phase = waiting;
  run_gate = true;
  action_bus = none;
  kill_switch = true;
  cancelled = false;
  master_running = true;
  caves_running = true;
}

live_stream_asks :
    (obey_all (live_stream master_log false (all_pieces log_lines)) waits).action_bus
    ≡ some mod_hot_update
unfolding live_stream obey_all post index_of behind
live_stream_asks = refl

live_stream-post_example :
    obey_all (live_stream master_log false (all_pieces log_lines)) waits
    ≡ (if has_notice master_log log_lines then post mod_hot_update waits else waits)
live_stream-post_example = live_stream-post master_log log_lines waits
