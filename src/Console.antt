-- ===== src/Console.antt =====
-- main.go, `监听控制台输入`: the lines that are typed, read in pieces into a buffer of 4096 bytes, each sent
-- to a shard. A piece is what one read delivers.
pub mod Lines
pub mod Output
use dst_nucleus.Prelude.{
  List, [], ◌∷◌, Bytes, Bool, ℕ, codes, if◌then◌else◌, ◌++◌, equal, length, ◌==◌, not, ◌||◌, leb,
  has_prefix, drop,
}
use dst_nucleus.Commands.{Target, to_master, to_caves}

abbrev pub buffer_cap : ℕ
buffer_cap = 4096

-- What is sent, oldest first.
abbrev pub Sent : Type 0
Sent = List (Bytes × Target)

-- Without a carriage return at its end.
unfoldable pub strip_return : Bytes → Bytes
strip_return [] = []
strip_return (c ∷ []) = if c == b'\r' then [] else c ∷ []
strip_return (c ∷ d ∷ cs) = c ∷ strip_return (d ∷ cs)

abbrev pub caves_prefix : Bytes
caves_prefix = codes "caves:"

-- The line that only frees memory.
abbrev pub free_memory : Bytes
free_memory = codes "igegjfmwdhb"

unfoldable pub send_line : Bool → Bytes → Sent
unfolding strip_return
send_line enable_master line =
    let text = strip_return line in
    if equal text free_memory
    then []
    else if not enable_master
    then (text, to_caves) ∷ []
    else if has_prefix text caves_prefix
    then (drop 6 text, to_caves) ∷ []
    else (text, to_master) ∷ []

-- The scan of the buffer: what is sent for the ended lines, and the bytes of the last one, which is
-- not ended; `line` is what of it was passed.
unfoldable pub scan_buffer : Bool → Bytes → Bytes → Sent × Bytes
unfolding send_line
scan_buffer enable_master line [] = ([], line)
scan_buffer enable_master line (c ∷ cs) =
    let rest = scan_buffer enable_master (if c == b'\n' then [] else line ++ c ∷ []) cs in
    if c == b'\n' then (send_line enable_master line ++ rest.0, rest.1) else rest

-- The loop over the reads, with the bytes that stand in the buffer. A read into no room returns 0
-- bytes, and a read takes at most the room; the loop ends there and at an empty read.
unfoldable pub listen_console : Bool → Bytes → List Bytes → Sent
unfolding scan_buffer
listen_console enable_master tail [] = []
listen_console enable_master tail (piece ∷ pieces) =
    let (sent, tail') = scan_buffer enable_master [] (tail ++ piece) in
    let later = listen_console enable_master tail' pieces in
    if length piece == 0 || leb buffer_cap (length tail) then [] else sent ++ later
