-- ===== src/Commands/Delivery.antt =====
-- What `api_command` puts into the shards' command channels.
use dst_nucleus.Telemetry.Report.{buffer_size}
use dst_nucleus.Prelude.{
  Bool, ℕ, Bytes, Option, ◌++◌, List, true, arith, ◌∷◌, ◌≡◌, some, [], false, Bool-cases,
  length-append, ◌⊎◌, length, inl, refl, ◌≤◌, inr, none, ◌||◌,
}
use dst_nucleus.Commands.{
  Target, to_master, to_caves, to_all, Pipes, Response, success200, master_only503, caves_only503,
  offer, deliver, raw_line, is_ended, cmd_pipe_size, Option, ℕ, Bool, Bytes, true, some, List, [],
  false, length, buffer_size, api_command, target_of,
}

-- The text with one line end behind it, which is that of the text if it has one.
pub record IsLineOf (body line : Bytes) : Type 0 where
  pub ended : is_ended line ≡ true
  pub same : (line ≡ body) ⊎ ((is_ended body ≡ false) × (line ≡ body ++ b'\n' ∷ []))

is_ended-append : (cs : Bytes) → is_ended (cs ++ b'\n' ∷ []) ≡ true
unfolding is_ended
is_ended-append [] = refl
is_ended-append (c ∷ []) = refl
is_ended-append (c ∷ d ∷ cs) = is_ended-append (d ∷ cs)

raw_line-IsLineOf : (c : ℕ) (cs : Bytes) → IsLineOf (c ∷ cs) (raw_line (c ∷ cs))
unfolding raw_line
raw_line-IsLineOf c cs = elim (Bool-cases (is_ended (c ∷ cs))) [
  | inl e ↦ rw e (record { ended = e; same = inl refl })
  | inr e ↦ rw e (record { ended = is_ended-append (c ∷ cs); same = inr (e, refl) })
]

-- Is the shard one that the target names?
abbrev pub names_master : Option Target → Bool
names_master (some to_master) = true
names_master (some to_all) = true
names_master _ = false

abbrev pub names_caves : Option Target → Bool
names_caves (some to_caves) = true
names_caves (some to_all) = true
names_caves _ = false

-- Is the answer one that comes with the command in the master's channel, or in that of the caves?
abbrev pub reached_master : Response → Option Target → Bool
reached_master success200 t = names_master t
reached_master master_only503 t = true
reached_master _ t = false

abbrev pub reached_caves : Response → Option Target → Bool
reached_caves success200 t = names_caves t
reached_caves caves_only503 t = true
reached_caves _ t = false

-- A channel as the answer tells: it has the line behind its commands, within its capacity, or it is
-- unchanged.
pub record Told (reached : Bool) (line : Bytes) (before after : List Bytes) : Type 0 where
  pub taken : reached ≡ true → (after ≡ before ++ line ∷ []) × (length after ≤ cmd_pipe_size)
  pub left : reached ≡ false → after ≡ before

deliver-Told :
    (line : Bytes) (t : Option Target) (p : Pipes)
    → let r = deliver line t p in
      Told (reached_master r.1 t) line p.master r.0.master
      × Told (reached_caves r.1 t) line p.caves r.0.caves
unfolding deliver offer
deliver-Told line none p = ground arith
deliver-Told line (some to_master) p = ground (arith, length-append p.master (line ∷ []))
deliver-Told line (some to_caves) p = ground (arith, length-append p.caves (line ∷ []))
deliver-Told line (some to_all) p =
    ground (arith, length-append p.master (line ∷ []), length-append p.caves (line ∷ []))

-- What an accepted request is like.
pub record IsAccepted (locked is_post : Bool) (body : Bytes) (clean : Bool) : Type 0 where
  pub unlocked : locked ≡ false
  pub posted : is_post ≡ true
  pub complete : clean ≡ true
  pub fits : length body ≤ buffer_size
  pub line : IsLineOf body (raw_line body)

-- The answer tells what became of the command, for every request and every state of the channels:
-- each shard's channel has the body as one ended line behind its commands, within the capacity, when
-- the answer is success and the target names the shard, or when the answer is the partial one that
-- names it; otherwise the channel is unchanged. A command is put into a channel only for an unlocked
-- POST request whose body is read up to EOF, is not empty and fits the buffer.
pub api_command-Told :
    (locked is_post : Bool) (target body : Bytes) (clean : Bool) (p : Pipes)
    → let r = api_command locked is_post target body clean p in
      let t = target_of target in
      Told (reached_master r.1 t) (raw_line body) p.master r.0.master
      × Told (reached_caves r.1 t) (raw_line body) p.caves r.0.caves
      × ((reached_master r.1 t || reached_caves r.1 t) ≡ true
          → IsAccepted locked is_post body clean)
unfolding api_command
api_command-Told locked is_post target [] clean p = ground arith
api_command-Told locked is_post target (c ∷ cs) clean p =
    ground (arith, raw_line-IsLineOf c cs, deliver-Told (raw_line (c ∷ cs)) (target_of target) p)
