-- ===== src/LogReader/Lines.antt =====
-- The log of a game process by its lines, each in as many pieces as the buffer makes of it.
use dst_nucleus.Prelude.{
  List, [], ◌∷◌, ◌++◌, Bool, true, false, Bytes, ◌≡◌, refl, ap, ◌∙◌, append_assoc,
}
use dst_nucleus.LogReader.{Stream, Flags, Effect, printed, handle_line, live_stream, too_long}

-- A line that fits in the buffer, and one that does not: its first piece, those in between and its
-- last one.
pub data Line : Type 0 where
  short : Flags → Bytes → Line
  long : Flags × Bytes → List (Flags × Bytes) → Flags × Bytes → Line

abbrev pub parts : List (Flags × Bytes) → List (Flags × (Bytes × Bool))
parts [] = []
parts ((f, b) ∷ ps) = (f, (b, true)) ∷ parts ps

abbrev pub pieces : Line → List (Flags × (Bytes × Bool))
pieces (short f line) = (f, (line, false)) ∷ []
pieces (long (f, b) ps (f', b')) = (f, (b, true)) ∷ (parts ps ++ (f', (b', false)) ∷ [])

abbrev pub all_pieces : List Line → List (Flags × (Bytes × Bool))
all_pieces [] = []
all_pieces (l ∷ ls) = pieces l ++ all_pieces ls

-- A long line is dropped, with a message.
abbrev pub line_effects : Stream → Line → List Effect
line_effects st (short f line) = handle_line st f line
line_effects st (long p ps q) = printed (st.prefix ++ too_long) ∷ []

abbrev pub all_effects : Stream → List Line → List Effect
all_effects st [] = []
all_effects st (l ∷ ls) = line_effects st l ++ all_effects st ls

live_stream-parts :
    (st : Stream) (ps : List (Flags × Bytes)) (f : Flags) (b : Bytes)
    (more : List (Flags × (Bytes × Bool)))
    → live_stream st true (parts ps ++ (f, (b, false)) ∷ more) ≡ live_stream st false more
unfolding live_stream
live_stream-parts st [] f b more = refl
live_stream-parts st ((g, c) ∷ ps) f b more = live_stream-parts st ps f b more

live_stream-pieces :
    (st : Stream) (l : Line) (more : List (Flags × (Bytes × Bool)))
    → live_stream st false (pieces l ++ more) ≡ line_effects st l ++ live_stream st false more
unfolding live_stream
live_stream-pieces st (short f line) more = refl
live_stream-pieces st (long (f, b) ps (f', b')) more =
    ap (λ es. printed (st.prefix ++ too_long) ∷ es)
      (ap (live_stream st true) (append_assoc (parts ps) ((f', (b', false)) ∷ []) more)
        ∙ live_stream-parts st ps f' b' more)

pub live_stream-all_pieces :
    (st : Stream) (ls : List Line) → live_stream st false (all_pieces ls) ≡ all_effects st ls
live_stream-all_pieces st [] = unfold live_stream in refl
live_stream-all_pieces st (l ∷ ls) =
    live_stream-pieces st l (all_pieces ls)
    ∙ ap (λ es. line_effects st l ++ es) (live_stream-all_pieces st ls)
