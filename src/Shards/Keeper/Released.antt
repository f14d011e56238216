-- ===== src/Shards/Keeper/Released.antt =====
-- What a keeper leaves behind, on every way out.
use dst_nucleus.Prelude.{
  ℕ, Bool, true, false, none, some, ◌-◌, ◌/◌, ◌%◌, ◌≡◌, if◌then◌else◌, refl, arith, not, ◌∙◌, ap,
}
use dst_nucleus.Daemon.{Daemon, post, master_exits, caves_exits, master_aborts, caves_aborts}
use dst_nucleus.Telemetry.GameState.{init_game_state}
use dst_nucleus.Shards.Pids.{Shard, master, caves, put, clear, new_pid, half}
use dst_nucleus.Shards.Ending.Ends.{is_gone, kill_process-Ended}
use dst_nucleus.Shards.Keeper.{
  Hold, Meets, crash_of, post_crash, set_running, sign_off, release, end_process, keep_started,
  run_keeper,
}

-- The process id of a shard in the word, and the other shard's.
abbrev pub own_pid : Shard → ℕ → ℕ
own_pid master word = word / half
own_pid caves word = word % half

abbrev pub other_pid : Shard → ℕ → ℕ
other_pid master word = word % half
other_pid caves word = word / half

-- The events of the daemon's life that stand for the end of a keeper.
abbrev pub exits : Shard → Daemon → Daemon
exits master = master_exits
exits caves = caves_exits

abbrev pub aborts : Shard → Daemon → Daemon
aborts master = master_aborts
aborts caves = caves_aborts

-- Where the keeper leaves its wait.
abbrev pub at_wake : Shard → ℕ → Meets → Hold → Hold
at_wake s pid e h =
    e.meanwhile (record h { epoch = e.now; pid_word = new_pid s (put pid) h.pid_word })

-- Does this keeper clear what is known of the game?
abbrev pub clears : Shard → Bool → Bool
clears master enable_master = true
clears caves enable_master = not enable_master

-- What is left, when the process was started and `w` is what the keeper woke up to.
pub record Released (s : Shard) (enable_master : Bool) (e : Meets) (w r : Hold) : Type 0 where
  pub epoch : r.epoch ≡ 0
  pub ready : r.ready ≡ false
  pub gone : is_gone e.obeys e.gone r.acts ≡ true
  pub own : own_pid s r.pid_word ≡ 0
  pub other : other_pid s r.pid_word ≡ other_pid s w.pid_word
  pub game : r.game ≡ (if clears s enable_master then init_game_state w.game else w.game)
  pub daemon : r.daemon ≡ (
      if e.crashed then exits s w.daemon else set_running s (record w.daemon { cancelled = true }))
  pub group : r.group ≡ w.group - 1

own-clear : (s : Shard) (word : ℕ) → own_pid s (new_pid s clear word) ≡ 0
unfolding new_pid
own-clear master word = omega arith
own-clear caves word = omega arith

other-clear : (s : Shard) (word : ℕ) → other_pid s (new_pid s clear word) ≡ other_pid s word
unfolding new_pid
other-clear master word = omega arith
other-clear caves word = omega arith

-- The part that both ways out share: what the deferred calls change.
record LetGo (s : Shard) (enable_master : Bool) (h r : Hold) : Type 0 where
  epoch : r.epoch ≡ 0
  ready : r.ready ≡ false
  acts : r.acts ≡ h.acts
  word : r.pid_word ≡ h.pid_word
  game : r.game ≡ (if clears s enable_master then init_game_state h.game else h.game)
  daemon : r.daemon ≡ set_running s (record h.daemon { cancelled = true })
  group : r.group ≡ h.group - 1

release-LetGo :
    (s : Shard) (enable_master : Bool) (h : Hold)
    → LetGo s enable_master h (release s enable_master h)
unfolding release sign_off
release-LetGo master em h = record {
  epoch = refl;
  ready = refl;
  acts = refl;
  word = refl;
  game = refl;
  daemon = refl;
  group = refl;
}
release-LetGo caves true h = record {
  epoch = refl;
  ready = refl;
  acts = refl;
  word = refl;
  game = refl;
  daemon = refl;
  group = refl;
}
release-LetGo caves false h = record {
  epoch = refl;
  ready = refl;
  acts = refl;
  word = refl;
  game = refl;
  daemon = refl;
  group = refl;
}

exits-post :
    (s : Shard) (h : Hold)
    → set_running s (record (post_crash s h).daemon { cancelled = true }) ≡ exits s h.daemon
unfolding post_crash set_running crash_of master_exits caves_exits post
exits-post master h = refl
exits-post caves h = refl

-- The part up to the deferred calls, with the process ended.
record EndsProcess (s : Shard) (e : Meets) (w k : Hold) : Type 0 where
  gone : is_gone e.obeys e.gone k.acts ≡ true
  word : k.pid_word ≡ new_pid s clear w.pid_word
  game : k.game ≡ w.game
  daemon : set_running s (record k.daemon { cancelled = true }) ≡ (
      if e.crashed then exits s w.daemon else set_running s (record w.daemon { cancelled = true }))
  group : k.group ≡ w.group

end_process-gone : (e : Meets) (h : Hold) → is_gone e.obeys e.gone (end_process e h).acts ≡ true
unfolding end_process
end_process-gone e h =
    (kill_process-Ended (record { started = true; ready = h.ready; gone = e.gone; obeys = e.obeys })
      h.pipe refl).gone

ended-crashed :
    (s : Shard) (e : Meets) (w : Hold) (crashed : Bool)
    → let told = if crashed then post_crash s w else w in
      EndsProcess s
        (record e { crashed = crashed })
        w
        (end_process
          (record e { crashed = crashed })
          (record told { pid_word = new_pid s clear told.pid_word }))
unfolding post_crash end_process
ended-crashed s e w true =
    let told : Hold = post_crash s w in
    let h : Hold = record told { pid_word = new_pid s clear told.pid_word } in
    record {
      gone = end_process-gone (record e { crashed = true }) h;
      word = refl;
      game = refl;
      daemon = exits-post s w;
      group = refl;
    }
ended-crashed s e w false =
    let told : Hold = w in
    let h : Hold = record told { pid_word = new_pid s clear told.pid_word } in
    record {
      gone = end_process-gone (record e { crashed = false }) h;
      word = refl;
      game = refl;
      daemon = refl;
      group = refl;
    }

keep_started-EndsProcess :
    (s : Shard) (pid : ℕ) (e : Meets) (h : Hold)
    → EndsProcess s e (at_wake s pid e h) (keep_started s pid e h)
unfolding keep_started
keep_started-EndsProcess s pid e h = ended-crashed s e (at_wake s pid e h) e.crashed

-- A keeper whose process was started, whatever happens while it waits and however the process ends:
-- when it has returned, the epoch is 0, the shard is not ready, the process is gone, its id is
-- cleared and the other shard's left alone, the state of the game is unknown again if the keeper
-- stands for the whole server, its count in the group is given back once, and for `main` it is one of
-- the two events of the daemon's life: the exit, when the process woke the keeper, else the abort.
pub run_keeper-Released :
    (s : Shard) (enable_master : Bool) (e : Meets) (h : Hold) (pid : ℕ)
    → e.started ≡ some pid
    → Released s enable_master e (at_wake s pid e h) (run_keeper s enable_master e h)
unfolding run_keeper
run_keeper-Released s em e h pid start =
    let e' = record e { started = some pid } in
    let k = keep_started-EndsProcess s pid e' h in
    let r = release-LetGo s em (keep_started s pid e' h) in
    rw start (record {
      epoch = r.epoch;
      ready = r.ready;
      gone = ap (is_gone e.obeys e.gone) r.acts ∙ k.gone;
      own = ap (own_pid s) (r.word ∙ k.word) ∙ own-clear s (at_wake s pid e' h).pid_word;
      other = ap (other_pid s) (r.word ∙ k.word) ∙ other-clear s (at_wake s pid e' h).pid_word;
      game = r.game ∙ ap (λ g. if clears s em then init_game_state g else g) k.game;
      daemon = r.daemon ∙ k.daemon;
      group = r.group ∙ ap (λ n. n - 1) k.group;
    })

-- A keeper whose process does not start posts its crash, and runs the other deferred calls alone.
pub run_keeper_refused :
    (s : Shard) (enable_master : Bool) (e : Meets) (h : Hold)
    → e.started ≡ none
    → let r = run_keeper s enable_master e h in
      (r.daemon ≡ exits s h.daemon)
      × (r.epoch ≡ 0)
      × (r.ready ≡ false)
      × (r.acts ≡ h.acts)
      × (r.pid_word ≡ h.pid_word)
      × (r.group ≡ h.group - 1)
unfolding run_keeper
run_keeper_refused s em e h start =
    let r = release-LetGo s em (post_crash s h) in
    rw start (r.daemon ∙ exits-post s h, r.epoch, r.ready, r.acts, r.word, r.group)
