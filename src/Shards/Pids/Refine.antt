-- ===== src/Shards/Pids/Refine.antt =====
-- The shared word against two registers, one for each process.
use mathlib.Core.Path.{ap₂}
use dst_nucleus.Prelude.{
  List, [], ◌∷◌, ◌++◌, ℕ, Option, none, some, ◌==◌, ◌+◌, ◌*◌, ◌/◌, ◌%◌, ◌≡◌, ◌<◌, All, refl, arith,
  append_assoc, ap, Bool-cases, inl, inr,
}
use dst_nucleus.Shards.Pids.{
  Shard, master, caves, Write, put, clear, half, new_pid, Memory, Round, round, turn, run,
}

pub record Registers : Type 0 where
  pub master_pid : ℕ
  pub caves_pid : ℕ

abbrev pub value : Write → ℕ
value (put pid) = pid
value clear = 0

-- A write reaches its own register and no other.
unfoldable pub write : Shard → Write → Registers → Registers
write master w r = record r { master_pid = value w }
write caves w r = record r { caves_pid = value w }

unfoldable pub write_all : List (Shard × Write) → Registers → Registers
write_all [] r = r
write_all ((s, w) ∷ ws) r = write_all ws (write s w r)

abbrev pub halves : ℕ → Registers
halves word = record { master_pid = word / half; caves_pid = word % half }

abbrev pub IsPid : Write → Type 0
IsPid w = value w < half

-- The writes of one keeper.
unfoldable pub writes_of : Shard → List (Shard × Write) → List Write
writes_of s [] = []
writes_of master ((master, w) ∷ ws) = w ∷ writes_of master ws
writes_of master ((caves, w) ∷ ws) = writes_of master ws
writes_of caves ((master, w) ∷ ws) = writes_of caves ws
writes_of caves ((caves, w) ∷ ws) = w ∷ writes_of caves ws

halves_at :
    (word a b : ℕ)
    → b < half
    → word ≡ a * half + b
    → halves word ≡ record { master_pid = a; caves_pid = b }
halves_at word a b h e =
    ap₂ (λ x y. record { master_pid = x; caves_pid = y }) (omega (arith, e, h))
      (omega (arith, e, h))

new_pid-halves :
    (s : Shard) (w : Write) (word : ℕ)
    → IsPid w
    → halves (new_pid s w word) ≡ write s w (halves word)
unfolding new_pid write
new_pid-halves master (put pid) word h =
    halves_at _ pid (word % half) (omega arith) (omega (arith, h))
new_pid-halves master clear word h = halves_at _ 0 (word % half) (omega arith) (omega arith)
new_pid-halves caves (put pid) word h = halves_at _ (word / half) pid h (omega (arith, h))
new_pid-halves caves clear word h = halves_at _ (word / half) 0 (omega arith) (omega arith)

-- Between two states of the memory, with the writes that succeeded: the registers took those writes,
-- and each keeper wrote what it had to, in its order, as far as it came.
pub record Refined (m m' : Memory) (ws : List (Shard × Write)) : Type 0 where
  pub registers : halves m'.word ≡ write_all ws (halves m.word)
  pub of_master : writes_of master ws ++ m'.master_keeper.todo ≡ m.master_keeper.todo
  pub of_caves : writes_of caves ws ++ m'.caves_keeper.todo ≡ m.caves_keeper.todo

abbrev pub HasPids : Memory → Type 0
HasPids m = All IsPid m.master_keeper.todo × All IsPid m.caves_keeper.todo

write_all-append :
    (ws vs : List (Shard × Write)) (r : Registers)
    → write_all (ws ++ vs) r ≡ write_all vs (write_all ws r)
unfolding write_all
write_all-append [] vs r = refl
write_all-append ((s, w) ∷ ws) vs r = write_all-append ws vs (write s w r)

writes_of-append :
    (s : Shard) (ws vs : List (Shard × Write))
    → writes_of s (ws ++ vs) ≡ writes_of s ws ++ writes_of s vs
unfolding writes_of
writes_of-append s [] vs = refl
writes_of-append master ((master, w) ∷ ws) vs = ap (λ l. w ∷ l) (writes_of-append master ws vs)
writes_of-append master ((caves, w) ∷ ws) vs = writes_of-append master ws vs
writes_of-append caves ((master, w) ∷ ws) vs = writes_of-append caves ws vs
writes_of-append caves ((caves, w) ∷ ws) vs = ap (λ l. w ∷ l) (writes_of-append caves ws vs)

Refined-append :
    (m m' m'' : Memory) (ws vs : List (Shard × Write))
    → Refined m m' ws
    → Refined m' m'' vs
    → Refined m m'' (ws ++ vs)
Refined-append m m' m'' ws vs p q = record {
  registers = rw (write_all-append ws vs) (rw p.registers at q.registers);
  of_master = rw (writes_of-append master ws vs, append_assoc) (rw q.of_master p.of_master);
  of_caves = rw (writes_of-append caves ws vs, append_assoc) (rw q.of_caves p.of_caves);
}

IsPid-behind : (xs ys : List Write) → All IsPid (xs ++ ys) → All IsPid ys
IsPid-behind [] ys h = h
IsPid-behind (x ∷ xs) ys h = IsPid-behind xs ys h.1

Refined-HasPids :
    (m m' : Memory) (ws : List (Shard × Write)) → Refined m m' ws → HasPids m → HasPids m'
Refined-HasPids m m' ws r h = (
  IsPid-behind (writes_of master ws) _ (rw r.of_master h.0),
  IsPid-behind (writes_of caves ws) _ (rw r.of_caves h.1),
)

unfoldable other : Shard → Shard
other master = caves
other caves = master

-- What one atomic operation of the keeper `s` does to the word and to what it has to write.
record Turned (s : Shard) (word : ℕ) (todo : List Write) (r : Round) : Type 0 where
  registers : halves r.word ≡ write_all r.written (halves word)
  own : writes_of s r.written ++ r.keeper.todo ≡ todo
  others : writes_of (other s) r.written ≡ []

written-Turned :
    (s : Shard) (word : ℕ) (w : Write) (ws : List Write)
    → IsPid w
    → Turned s word (w ∷ ws) (record {
      word = new_pid s w word;
      keeper = record { todo = ws; old = none };
      written = (s, w) ∷ [];
    })
unfolding write_all writes_of other
written-Turned master word w ws h = record {
  registers = new_pid-halves master w word h;
  own = refl;
  others = refl;
}
written-Turned caves word w ws h = record {
  registers = new_pid-halves caves w word h;
  own = refl;
  others = refl;
}

kept-Turned :
    (s : Shard) (word : ℕ) (ws : List Write) (old : Option ℕ)
    → Turned s word ws
        (record { word = word; keeper = record { todo = ws; old = old }; written = [] })
unfolding write_all writes_of other
kept-Turned s word ws old = record { registers = refl; own = refl; others = refl }

round-Turned :
    (s : Shard) (word : ℕ) (todo : List Write) (old : Option ℕ)
    → All IsPid todo
    → Turned s word todo (round s word todo old)
unfolding round
round-Turned s word [] old h = kept-Turned s word [] old
round-Turned s word (w ∷ ws) none h = kept-Turned s word (w ∷ ws) (some word)
round-Turned s word (w ∷ ws) (some old) h = elim (Bool-cases (word == old)) [
  | inl e ↦
      let same : word ≡ old = ground (arith, e) in rw e (rw same (written-Turned s old w ws h.0))
  | inr e ↦ rw e (kept-Turned s word (w ∷ ws) none)
]

turn-Refined : (s : Shard) (m : Memory) → HasPids m → Refined m (turn s m).0 (turn s m).1
unfolding turn other
turn-Refined master m h =
    let t = round-Turned master m.word m.master_keeper.todo m.master_keeper.old h.0 in
    record { registers = t.registers; of_master = t.own; of_caves = rw t.others refl }
turn-Refined caves m h =
    let t = round-Turned caves m.word m.caves_keeper.todo m.caves_keeper.old h.1 in
    record { registers = t.registers; of_master = rw t.others refl; of_caves = t.own }

-- For every interleaving of the two keepers' loads and swaps, from a state whose ids to come are below
-- 2^32, and with the writes whose swap succeeded taken in their order: the two halves of the word are
-- two registers to which just those writes were made, each reaching the register of its own process;
-- and each keeper's writes, with those that it still has to make behind them, are those that it had
-- to make at first, in their order, so that none is lost and none is made twice.
pub run-Refined : (ss : List Shard) (m : Memory) → HasPids m → Refined m (run ss m).0 (run ss m).1
unfolding run
run-Refined [] m h = record {
  registers = unfold write_all in refl;
  of_master = unfold writes_of in refl;
  of_caves = unfold writes_of in refl;
}
run-Refined (s ∷ ss) m h =
    let first = turn-Refined s m h in
    Refined-append m (turn s m).0 (run ss (turn s m).0).0 (turn s m).1 (run ss (turn s m).0).1 first
      (run-Refined ss (turn s m).0 (Refined-HasPids m (turn s m).0 (turn s m).1 first h))
