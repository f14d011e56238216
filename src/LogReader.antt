-- ===== src/LogReader.antt =====
-- game.go, `实时输出流`: what is done with the lines that a game process prints. What one call of `ReadLine`
-- delivers is an argument: the bytes, and whether they are only a part of a line that is longer than
-- the buffer of 256 KB.
pub mod Lines
pub mod Notices
use mathlib.Core.Option
use dst_nucleus.Prelude.{
  ℕ, List, [], ◌∷◌, Bool, true, false, Option, none, some, Bytes, codes, ◌++◌, if◌then◌else◌, not,
  ◌&&◌, ◌-◌, ◌==◌, ◌||◌, length, take,
}
use dst_nucleus.Updates.Search.{index_of, behind}

-- `节点类型`.
pub data Node : Type 0 where
  master caves master_errors caves_errors tool : Node

abbrev pub out_of_date_mark : Bytes
out_of_date_mark =
    codes "is out of date and needs to be updated for new users to be able to join the server"

abbrev pub paused_mark : Bytes
paused_mark = codes "Sim paused"

abbrev pub saved_mark : Bytes
saved_mark = codes "K_SAVED"

abbrev pub chat_mark : Bytes
chat_mark = codes "KU_"

abbrev pub echo_mark : Bytes
echo_mark = codes "RemoteCommandInput"

abbrev pub packet_mark : Bytes
packet_mark = 206 ∷ 223 ∷ []

-- The arguments and the switches that are read once, in front of the loop.
pub record Stream : Type 0 where
  pub node : Node
  pub prefix : Bytes
  pub to_console : Bool
  pub has_file : Bool

-- What the shared flags say while a line is handled; `ready` is `none` where no flag is given.
pub record Flags : Type 0 where
  pub ready : Option Bool
  pub is_watched : Bool

-- What is done: a line for the console, a line for the log file, a packet to parse, a heartbeat for
-- the probe of the node, a block for the log watchers, the ready flag, `保存完成信号`, and the order to
-- update the mods.
pub data Effect : Type 0 where
  printed logged packet_read published : Bytes → Effect
  heartbeat became_ready saved update_asked : Effect

-- `bytes.Contains`.
unfoldable pub contains : Bytes → Bytes → Bool
contains line mark = elim (index_of mark line) [ none ↦ false | some rest ↦ true ]

-- `行字节[:位置]`, with the rest of the line from the mark on.
abbrev pub part_before : Bytes → Bytes → Bytes
part_before line rest = take (length line - length rest) line

unfoldable pub is_main : Node → Bool
is_main master = true
is_main caves = false
is_main master_errors = false
is_main caves_errors = false
is_main tool = false

unfoldable pub packet_effects : Node → Bytes → List Effect
packet_effects master p = packet_read p ∷ heartbeat ∷ []
packet_effects caves p = packet_read p ∷ heartbeat ∷ []
packet_effects master_errors p = packet_read p ∷ []
packet_effects caves_errors p = packet_read p ∷ []
packet_effects tool p = packet_read p ∷ []

-- A line goes to the console, to the file and to the watchers.
unfoldable pub echo_effects : Stream → Flags → Bytes → List Effect
echo_effects st f line =
    (if st.to_console then printed (st.prefix ++ line) ∷ [] else [])
    ++ (if st.has_file then logged line ∷ [] else [])
    ++ (if f.is_watched then published (codes "data: " ++ line ++ codes "\n\n") ∷ [] else [])

unfoldable pub ready_effects : Stream → Bytes → Option Bool → List Effect
unfolding contains
ready_effects st line none = []
ready_effects st line (some true) = []
ready_effects st line (some false) =
    (if contains line paused_mark
      then became_ready ∷ printed (st.prefix ++ codes "sim paused, server ready") ∷ []
      else [])
    ++ (if contains line (codes "DST_NUCLEUS_PING")
        then became_ready ∷ printed (st.prefix ++ codes "sonar ack received, server ready") ∷ []
        else [])

-- The notice of the game that a mod is out of date, unless a player wrote it.
unfoldable pub notice_effects : Bytes → List Effect
unfolding contains
notice_effects line = elim (index_of out_of_date_mark line) [
  | none ↦ []
  | some rest ↦
      if contains (part_before line rest) chat_mark
      then printed (codes "[sys] ignoring chat message") ∷ []
      else update_asked ∷ []
]

-- `正在重启原子锁` of the package, which nothing stores to; a reboot sets the flag of this name in the
-- configuration, which is not read here.
abbrev pub rebooting_flag : ℕ
rebooting_flag = 0

unfoldable pub main_effects : Bytes → List Effect
unfolding contains notice_effects
main_effects line =
    (if contains line saved_mark then saved ∷ [] else [])
    ++ (if rebooting_flag == 1 then [] else notice_effects line)

-- From the test for a packet on.
unfoldable pub text_effects : Stream → Flags → Bytes → List Effect
unfolding contains echo_effects ready_effects is_main main_effects
text_effects st f line =
    echo_effects st f line
    ++ (if contains line echo_mark
        then []
        else ready_effects st line f.ready ++ (if is_main st.node then main_effects line else []))

unfoldable pub handle_line : Stream → Flags → Bytes → List Effect
unfolding contains packet_effects text_effects
handle_line st f line =
    if contains line echo_mark && contains line (codes "NUCLEUS_ACTIVATE")
    then []
    else elim (behind packet_mark line) [
      | some p ↦ packet_effects st.node p
      | none ↦ text_effects st f line
    ]

abbrev pub too_long : Bytes
too_long = codes "[pipe] toxic log >256KB truncated"

-- The loop over what is read, until an error; `skipping` is the inner loop, which drops what is left
-- of a long line.
unfoldable pub live_stream : Stream → Bool → List (Flags × (Bytes × Bool)) → List Effect
unfolding handle_line
live_stream st skipping [] = []
live_stream st true ((f, (line, is_part)) ∷ more) = live_stream st is_part more
live_stream st false ((f, (line, true)) ∷ more) =
    printed (st.prefix ++ too_long) ∷ live_stream st true more
live_stream st false ((f, (line, false)) ∷ more) =
    handle_line st f line ++ live_stream st false more
