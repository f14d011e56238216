-- ===== src/Mods/Overrides/Bounds.antt =====
-- update.go, `解析Modoverrides`: the loop's fuel, and the numbers that it keeps.
use dst_nucleus.Prelude.Decimal.{suc_ℤ}
use dst_nucleus.Mods.Setup.{workshop, skip_quoted}
use dst_nucleus.Mods.Setup.Patch.{length-skip_quoted, length-span_digits}
use dst_nucleus.Mods.Digits.{u64_mod, bytes_to_uint64-lt, span_digits}
use dst_nucleus.Prelude.{
  ℕ, ◌≡◌, refl, All, Bytes, Option, Bool, length, some, ◌<◌, ◌≤◌, drop, none, arith, length-drop,
  [], suc, not, zero, List, if◌then◌else◌, All-if_append, false, ◌==◌, true, has_prefix,
}
use dst_nucleus.Mods.Overrides.{
  State, Cursor, skip_while, key_end, key_hit, enabled_hit, enabled_value, take_key, take_enabled,
  close_brace, overrides_step, overrides_loop, here, parse_mod_overrides, start, Option, Bytes,
  Bool, length, some, ◌∷◌, is_space, drop, not, is_key_space, suc, List, has_prefix, workshop,
  skip_quoted, suc_ℤ,
}

length-skip_while :
    (p : ℕ → Bool) (b : Option ℕ) (s : Bytes) → length (skip_while p b s).rest ≤ length s
unfolding skip_while
length-skip_while p b [] = omega arith
length-skip_while p b (c ∷ cs) = ground (arith, length-skip_while p (some c) cs)

abbrev KeyEnds : ℕ → Option (ℕ × Bytes) → Type 0
KeyEnds n none = Unit
KeyEnds n (some (id, rest)) = (length rest ≤ n) × (id < u64_mod)

key_end-KeyEnds : (ds r : Bytes) → KeyEnds (length r) (key_end ds r)
unfolding key_end
key_end-KeyEnds [] r = tt
key_end-KeyEnds (d ∷ ds) r = ground (arith, length-drop 1 r, bytes_to_uint64-lt (d ∷ ds))

KeyEnds-if :
    (b : Bool) (n m : ℕ) (o : Option (ℕ × Bytes))
    → n ≤ m
    → KeyEnds n o
    → KeyEnds m (if b then o else none)
KeyEnds-if false n m o h k = tt
KeyEnds-if true n m none h k = tt
KeyEnds-if true n m (some (id, rest)) h k = (omega arith, k.1)

key_hit-KeyEnds : (cs : Bytes) → KeyEnds (length cs) (key_hit cs)
unfolding key_hit
key_hit-KeyEnds cs =
    let a = (skip_while is_key_space none cs).rest in
    let digits = span_digits (drop 9 a) in
    let r = (skip_while is_key_space none digits.1).rest in
    KeyEnds-if (has_prefix a workshop) (length r) (length cs) (key_end digits.0 r)
      (omega (
        arith,
        length-skip_while is_key_space none cs,
        length-drop 9 a,
        length-span_digits (drop 9 a),
        length-skip_while is_key_space none digits.1,
      ))
      (key_end-KeyEnds digits.0 r)

abbrev EnabledEnds : ℕ → Option (Bool × Cursor) → Type 0
EnabledEnds n none = Unit
EnabledEnds n (some (off, cur)) = length cur.rest ≤ n

enabled_hit-EnabledEnds :
    (before : Option ℕ) (cs : Bytes) → EnabledEnds (length cs) (enabled_hit before cs)
unfolding enabled_hit enabled_value
enabled_hit-EnabledEnds before cs =
    let t = (skip_while is_space (some b'd') (drop 6 cs)).rest in
    ground (
      arith,
      length-skip_while is_space (some b'd') (drop 6 cs),
      length-drop 6 cs,
      length-skip_while is_space (some b'=') (drop 1 t),
      length-drop 1 t,
    )

-- What the loop keeps of its state.
pub record IsWord (st : State) : Type 0 where
  pub ids : All (λ id. id < u64_mod) st.result
  pub curr : st.curr_id < u64_mod

close_brace-IsWord : (st : State) → IsWord st → IsWord (close_brace st)
unfolding close_brace
close_brace-IsWord st w = record {
  ids = All-if_append (λ id. id < u64_mod) _ st.result st.curr_id w.ids w.curr;
  curr = ground arith;
}

-- What one round ends with: a state of words, and no more text than there was.
record StepEnds (n : ℕ) (r : State × Cursor) : Type 0 where
  word : IsWord r.0
  less : length r.1.rest ≤ n

take_key-StepEnds :
    (st : State) (cs : Bytes) (o : Option (ℕ × Bytes))
    → IsWord st
    → KeyEnds (length cs) o
    → StepEnds (length cs) (take_key st cs o)
unfolding take_key
take_key-StepEnds st cs none w k = record { word = w; less = omega arith }
take_key-StepEnds st cs (some (id, rest)) w k = record {
  word = record { ids = w.ids; curr = k.1 };
  less = k.0;
}

take_enabled-StepEnds :
    (st : State) (cs : Bytes) (o : Option (Bool × Cursor))
    → IsWord st
    → EnabledEnds (length cs) o
    → StepEnds (length cs) (take_enabled st cs o)
unfolding take_enabled
take_enabled-StepEnds st cs none w k = record { word = w; less = omega arith }
take_enabled-StepEnds st cs (some (off, cur)) w k = record {
  word = record { ids = w.ids; curr = w.curr };
  less = k;
}

StepEnds-if :
    (b : Bool) (n : ℕ) (x y : State × Cursor)
    → StepEnds n x
    → StepEnds n y
    → StepEnds n (if b then x else y)
StepEnds-if true n x y h k = h
StepEnds-if false n x y h k = k

overrides_step-StepEnds :
    (st : State) (before : Option ℕ) (c : ℕ) (cs : Bytes)
    → IsWord st
    → StepEnds (length cs) (overrides_step st before c cs)
unfolding overrides_step
overrides_step-StepEnds st before c cs w =
    let n = length cs in
    let same : StepEnds n (st, here c cs) = record { word = w; less = omega arith } in
    let line = λ (k : ℕ). not (k == b'\n') in
    let comment : StepEnds n (st, skip_while line (some b'-') (drop 1 cs)) = record {
      word = w;
      less = omega (arith, length-skip_while line (some b'-') (drop 1 cs), length-drop 1 cs);
    } in
    let quoted : StepEnds n (st, here c (skip_quoted c cs)) = record {
      word = w;
      less = length-skip_quoted c cs;
    } in
    let opened : StepEnds n (record st { depth = suc_ℤ st.depth }, here c cs) = record {
      word = record { ids = w.ids; curr = w.curr };
      less = omega arith;
    } in
    let closed : StepEnds n (close_brace st, here c cs) = record {
      word = close_brace-IsWord st w;
      less = omega arith;
    } in
    let key = take_key-StepEnds st cs (key_hit cs) w (key_hit-KeyEnds cs) in
    let enabled =
      take_enabled-StepEnds st cs (enabled_hit before cs) w (enabled_hit-EnabledEnds before cs) in
    StepEnds-if _ n _ _ same (
      StepEnds-if _ n _ _ comment (
        StepEnds-if _ n _ _ quoted (
          StepEnds-if _ n _ _ opened (
            StepEnds-if _ n _ _ closed
              (StepEnds-if _ n _ _ key (StepEnds-if _ n _ _ enabled same))))))

overrides_loop-IsWord :
    (n : ℕ) (st : State) (before : Option ℕ) (s : Bytes)
    → IsWord st
    → IsWord (overrides_loop n st before s)
unfolding overrides_loop
overrides_loop-IsWord zero st before s w = w
overrides_loop-IsWord (suc n) st before [] w = w
overrides_loop-IsWord (suc n) st before (c ∷ cs) w =
    let (st', cur) = overrides_step st before c cs in
    overrides_loop-IsWord n st' cur.before cur.rest (overrides_step-StepEnds st before c cs w).word

-- For every text the loop ends within as many rounds as the text has bytes: more fuel gives the
-- same state, from every state whose numbers are 64-bit words.
pub overrides_loop_enough :
    (n m : ℕ) (st : State) (before : Option ℕ) (s : Bytes)
    → IsWord st
    → length s ≤ n
    → length s ≤ m
    → overrides_loop n st before s ≡ overrides_loop m st before s
unfolding overrides_loop
overrides_loop_enough zero zero st before [] w h k = refl
overrides_loop_enough zero (suc m) st before [] w h k = refl
overrides_loop_enough (suc n) zero st before [] w h k = refl
overrides_loop_enough (suc n) (suc m) st before [] w h k = refl
overrides_loop_enough zero _ st before (c ∷ cs) w h k = absurd (omega arith)
overrides_loop_enough (suc n) zero st before (c ∷ cs) w h k = absurd (omega arith)
overrides_loop_enough (suc n) (suc m) st before (c ∷ cs) w h k =
    let (st', cur) = overrides_step st before c cs in
    let e = overrides_step-StepEnds st before c cs w in
    overrides_loop_enough n m st' cur.before cur.rest e.word (omega (arith, e.less))
      (omega (arith, e.less))

-- Every id that the parse adds is a 64-bit word, when those it starts with are.
pub parse_mod_overrides-words :
    (content : Bytes) (result seen : List ℕ)
    → All (λ id. id < u64_mod) result
    → All (λ id. id < u64_mod) (parse_mod_overrides content result seen).0
unfolding parse_mod_overrides
parse_mod_overrides-words content result seen h =
    (overrides_loop-IsWord (length content) (start result seen) none content
      (record { ids = h; curr = omega arith })).ids
