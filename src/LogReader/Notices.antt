-- ===== src/LogReader/Notices.antt =====
-- Which lines of a log make the daemon update the mods.
use mathlib.Core.Bool.{and-false}
use mathlib.Core.Path.{ap₂}
use dst_nucleus.Prelude.{
  List, [], ◌∷◌, Bool, true, false, not, ◌&&◌, ◌||◌, none, some, Bytes, ◌≡◌, arith, if◌then◌else◌,
  ◌++◌, ◌∙◌, refl, Option, codes, inl, ◌⊎◌, inr, Option-cases, drop, length,
}
use dst_nucleus.Updates.Search.{index_of, behind}
use dst_nucleus.Daemon.{Daemon, post, mod_hot_update}
use dst_nucleus.LogReader.{
  Stream, Flags, Effect, printed, logged, packet_read, published, heartbeat, became_ready, saved,
  update_asked, contains, part_before, out_of_date_mark, chat_mark, echo_mark, packet_mark, is_main,
  packet_effects, handle_line, ready_effects, echo_effects, main_effects, text_effects, live_stream,
  notice_effects, Option, behind, Node, master, caves, master_errors, caves_errors, tool,
  saved_mark, paused_mark, codes, length,
}
use dst_nucleus.LogReader.Lines.{Line, short, long, all_effects, all_pieces, live_stream-all_pieces}

-- The order among the effects, given to the daemon: `select { case 动作总线 <- 动作_执行模组热更新: default: }`.
unfoldable pub obey : Effect → Daemon → Daemon
obey (printed b) d = d
obey (logged b) d = d
obey (packet_read b) d = d
obey (published b) d = d
obey heartbeat d = d
obey became_ready d = d
obey saved d = d
obey update_asked d = post mod_hot_update d

unfoldable pub obey_all : List Effect → Daemon → Daemon
unfolding obey
obey_all [] d = d
obey_all (e ∷ es) d = obey_all es (obey e d)

-- Does the text hold the game's notice, with no mark of a player in front of it?
unfoldable pub is_from_game : Bytes → Bool
is_from_game line = elim (index_of out_of_date_mark line) [
  | none ↦ false
  | some rest ↦ not (contains (part_before line rest) chat_mark)
]

unfoldable pub is_notice : Stream → Bytes → Bool
is_notice st line =
    is_main st.node
    && not (contains line packet_mark)
    && not (contains line echo_mark)
    && is_from_game line

unfoldable pub has_notice : Stream → List Line → Bool
has_notice st [] = false
has_notice st (short f line ∷ ls) = is_notice st line || has_notice st ls
has_notice st (long p ps q ∷ ls) = has_notice st ls

unfoldable asks : Effect → Bool
asks (printed b) = false
asks (logged b) = false
asks (packet_read b) = false
asks (published b) = false
asks heartbeat = false
asks became_ready = false
asks saved = false
asks update_asked = true

unfoldable any_asks : List Effect → Bool
unfolding asks
any_asks [] = false
any_asks (e ∷ es) = asks e || any_asks es

obey-asks : (e : Effect) (d : Daemon) → obey e d ≡ (if asks e then post mod_hot_update d else d)
unfolding obey asks
obey-asks (printed b) d = refl
obey-asks (logged b) d = refl
obey-asks (packet_read b) d = refl
obey-asks (published b) d = refl
obey-asks heartbeat d = refl
obey-asks became_ready d = refl
obey-asks saved d = refl
obey-asks update_asked d = refl

post_twice : (d : Daemon) → post mod_hot_update (post mod_hot_update d) ≡ post mod_hot_update d
unfolding post
post_twice d = ground arith

obey_all-any_asks :
    (es : List Effect) (d : Daemon)
    → obey_all es d ≡ (if any_asks es then post mod_hot_update d else d)
unfolding obey_all any_asks
obey_all-any_asks [] d = refl
obey_all-any_asks (e ∷ es) d = ground (
  arith,
  obey-asks e d,
  obey_all-any_asks es d,
  obey_all-any_asks es (post mod_hot_update d),
  post_twice d,
)

any_asks-append : (xs ys : List Effect) → any_asks (xs ++ ys) ≡ any_asks xs || any_asks ys
unfolding any_asks asks
any_asks-append [] ys = refl
any_asks-append (x ∷ xs) ys = ground (arith, any_asks-append xs ys)

any_asks-quiet :
    (b : Bool) (xs ys : List Effect)
    → any_asks xs ≡ false
    → any_asks ((if b then xs else []) ++ ys) ≡ any_asks ys
any_asks-quiet true xs ys h = rw (any_asks-append xs ys, h) refl
any_asks-quiet false xs ys h = refl

any_asks-if_not :
    (b : Bool) (es : List Effect) → any_asks (if b then [] else es) ≡ not b && any_asks es
unfolding any_asks
any_asks-if_not true es = refl
any_asks-if_not false es = refl

any_asks-if : (b : Bool) (es : List Effect) → any_asks (if b then es else []) ≡ b && any_asks es
unfolding any_asks
any_asks-if true es = refl
any_asks-if false es = refl

echo_effects-any_asks :
    (st : Stream) (f : Flags) (line : Bytes) → any_asks (echo_effects st f line) ≡ false
unfolding echo_effects any_asks asks
echo_effects-any_asks st f line = simp (any_asks-append, any_asks-if, and-false)

ready_effects-any_asks :
    (st : Stream) (line : Bytes) (r : Option Bool) → any_asks (ready_effects st line r) ≡ false
unfolding ready_effects any_asks asks
ready_effects-any_asks st line none = refl
ready_effects-any_asks st line (some true) = refl
ready_effects-any_asks st line (some false) =
    any_asks-quiet (contains line paused_mark) _ _ refl
    ∙ any_asks-if (contains line (codes "DST_NUCLEUS_PING")) _
    ∙ ground arith

notice_effects-any_asks : (line : Bytes) → any_asks (notice_effects line) ≡ is_from_game line
unfolding notice_effects is_from_game any_asks asks
notice_effects-any_asks line = ground arith

main_effects-any_asks : (line : Bytes) → any_asks (main_effects line) ≡ is_from_game line
unfolding main_effects any_asks asks
main_effects-any_asks line =
    any_asks-quiet (contains line saved_mark) (saved ∷ []) _ refl ∙ notice_effects-any_asks line

packet_effects-any_asks : (n : Node) (p : Bytes) → any_asks (packet_effects n p) ≡ false
unfolding packet_effects any_asks
packet_effects-any_asks master p = refl
packet_effects-any_asks caves p = refl
packet_effects-any_asks master_errors p = refl
packet_effects-any_asks caves_errors p = refl
packet_effects-any_asks tool p = refl

text_effects-any_asks :
    (st : Stream) (f : Flags) (line : Bytes)
    → any_asks (text_effects st f line)
      ≡ is_main st.node && not (contains line echo_mark) && is_from_game line
unfolding text_effects
text_effects-any_asks st f line = ground (
  arith,
  any_asks-append (echo_effects st f line) (if contains line echo_mark then [] else late),
  echo_effects-any_asks st f line,
  any_asks-if_not (contains line echo_mark) late,
  any_asks-append (ready_effects st line f.ready) main_part,
  ready_effects-any_asks st line f.ready,
  any_asks-if (is_main st.node) (main_effects line),
  main_effects-any_asks line,
)
  where
    main_part : List Effect
    main_part = if is_main st.node then main_effects line else []

    late : List Effect
    late = ready_effects st line f.ready ++ main_part

contains-behind :
    (mark line : Bytes)
    → ((contains line mark ≡ false) × (behind mark line ≡ none))
      ⊎ ((p : Bytes) × (contains line mark ≡ true) × (behind mark line ≡ some p))
unfolding contains behind
contains-behind mark line = elim (Option-cases (index_of mark line)) [
  | inl e ↦ inl (ground (arith, e), ground (arith, e))
  | inr (rest, e) ↦ inr (drop (length mark) rest, ground (arith, e), ground (arith, e))
]

handle_line-any_asks :
    (st : Stream) (f : Flags) (line : Bytes) → any_asks (handle_line st f line) ≡ is_notice st line
unfolding handle_line is_notice any_asks
handle_line-any_asks st f line = elim (contains-behind packet_mark line) [
  | inl (e, b) ↦ ground (arith, e, b, text_effects-any_asks st f line)
  | inr (p, e, b) ↦ ground (arith, e, b, packet_effects-any_asks st.node p)
]

all_effects-any_asks :
    (st : Stream) (ls : List Line) → any_asks (all_effects st ls) ≡ has_notice st ls
unfolding has_notice any_asks asks
all_effects-any_asks st [] = refl
all_effects-any_asks st (short f line ∷ ls) =
    any_asks-append (handle_line st f line) (all_effects st ls)
    ∙ ap₂ ◌||◌ (handle_line-any_asks st f line) (all_effects-any_asks st ls)
all_effects-any_asks st (long p ps q ∷ ls) = all_effects-any_asks st ls

-- Of the whole log of one game process, read in pieces as the buffer cuts it: the daemon gets the
-- order to update the mods just if the process is the master, and some line that fits in the buffer
-- holds the game's notice that a mod is out of date without a player's mark in front of it, and is
-- neither a packet nor the echo of a command; also while a reboot is announced, since the flag that is
-- tested is never set. However many such lines there are, the daemon is left as one order leaves it, so
-- an action that waits is kept.
pub live_stream-post :
    (st : Stream) (ls : List Line) (d : Daemon)
    → obey_all (live_stream st false (all_pieces ls)) d
      ≡ (if has_notice st ls then post mod_hot_update d else d)
live_stream-post st ls d =
    rw
      (
        live_stream-all_pieces st ls,
        obey_all-any_asks (all_effects st ls) d,
        all_effects-any_asks st ls,
      )
      refl
