-- ===== src/Shards/Ending/Ends.antt =====
-- How a game process ends.
use dst_nucleus.Prelude.{
  List, [], ◌∷◌, Bool, true, false, Option, none, some, Bytes, ◌≡◌, not, length, ◌++◌, arith, ◌||◌,
  if◌then◌else◌, ltb, ◌&&◌, refl, subst, sym,
}
use dst_nucleus.Commands.{offer, cmd_pipe_size}
use dst_nucleus.Shards.Ending.{
  Found, Act, ordered, killed, awaited, shutdown_order, kill_ordered, kill_ready, kill_process,
}

-- The process when the acts were done: a kill ends it, an order ends it where it obeys, and a wait
-- returns only if it is gone.
unfoldable pub is_gone : Bool → Bool → List Act → Bool
is_gone obeys gone [] = gone
is_gone obeys gone (ordered ∷ acts) = is_gone obeys (if obeys then true else gone) acts
is_gone obeys gone (killed ∷ acts) = is_gone obeys true acts
is_gone obeys gone (awaited ∷ acts) = gone && is_gone obeys gone acts

unfoldable pub is_killed : List Act → Bool
is_killed [] = false
is_killed (ordered ∷ acts) = is_killed acts
is_killed (killed ∷ acts) = true
is_killed (awaited ∷ acts) = is_killed acts

unfoldable pub has_room : Option (List Bytes) → Bool
has_room none = false
has_room (some pipe) = ltb (length pipe) cmd_pipe_size

unfoldable pub with_order : Option (List Bytes) → Option (List Bytes)
with_order none = none
with_order (some pipe) =
    some (if ltb (length pipe) cmd_pipe_size then pipe ++ shutdown_order ∷ [] else pipe)

-- No wait lasts for ever and the process is gone at the end; when it is killed; what is in its channel.
pub record Ended (f : Found) (pipe : Option (List Bytes)) (r : List Act × Option (List Bytes))
    : Type 0 where
  pub gone : is_gone f.obeys f.gone r.0 ≡ true
  pub forced : is_killed r.0 ≡ not f.ready || (not f.gone && not (has_room pipe && f.obeys))
  pub channel : r.1 ≡ (if f.ready && not f.gone then with_order pipe else pipe)

abbrev found : Bool → Bool → Bool → Found
found ready gone obeys = record { started = true; ready = ready; gone = gone; obeys = obeys }

kill_ready-Ended :
    (obeys : Bool) (pipe : Option (List Bytes))
    → Ended (found true false obeys) pipe (kill_ready obeys pipe)
unfolding kill_ready kill_ordered offer is_gone is_killed has_room with_order
kill_ready-Ended obeys none = record { gone = refl; forced = refl; channel = refl }
kill_ready-Ended true (some pipe) = record {
  gone = ground arith;
  forced = ground arith;
  channel = ground arith;
}
kill_ready-Ended false (some pipe) = record {
  gone = ground arith;
  forced = ground arith;
  channel = ground arith;
}

started-Ended :
    (ready gone obeys : Bool) (pipe : Option (List Bytes))
    → Ended (found ready gone obeys) pipe (kill_process (found ready gone obeys) pipe)
unfolding kill_process is_gone is_killed
started-Ended false gone obeys pipe = record { gone = refl; forced = refl; channel = refl }
started-Ended true true obeys pipe = record { gone = refl; forced = refl; channel = refl }
started-Ended true false obeys pipe = kill_ready-Ended obeys pipe

-- When a keeper ends a process that was started, then, whatever the process does: no wait lasts for
-- ever, and the process is gone when `kill_process` returns; it is killed just if it is not ready, or
-- if it is not gone and its channel has no room or is missing or it does not end in 10 seconds; and
-- the order to shut down is put behind the channel's commands, where there is room, just if the
-- process is ready and not gone.
pub kill_process-Ended :
    (f : Found) (pipe : Option (List Bytes)) → f.started ≡ true → Ended f pipe (kill_process f pipe)
kill_process-Ended f pipe s =
    subst (λ b. let g : Found = record f { started = b } in Ended g pipe (kill_process g pipe))
      (sym s) (started-Ended f.ready f.gone f.obeys pipe)
