-- ===== src/Shards/Poller/Pulse.antt =====
-- When the script is put into a shard again.
use dst_nucleus.Prelude.{List, [], ◌∷◌, ℕ, Bool, true, false, ◌+◌, ◌≡◌, ◌≤◌, refl, arith, All}
use dst_nucleus.Shards.Pids.{Shard, master}
use dst_nucleus.Shards.Poller.{
  Phase, waiting, over, watching, Meeting, tick, pulse, expiry, done, Offer, sonar, parasite,
  patience, start_watch, poll_head, poll_step, poll,
}

-- The clock behind a meeting.
abbrev pub time_of : ℕ → Meeting → ℕ
time_of clock (tick now ready) = now
time_of clock (pulse now) = now
time_of clock (expiry now) = now
time_of clock done = clock

-- Time does not go back, and the watchdog's time does not end early.
abbrev pub Due : Phase → ℕ → Type 0
Due waiting now = Unit
Due over now = Unit
Due (watching until) now = until ≤ now

abbrev pub IsTimelyMeeting : Phase → Meeting → Type 0
IsTimelyMeeting p (expiry now) = Due p now
IsTimelyMeeting p m = Unit

abbrev pub AreTimely : Shard → Bool → ℕ → Phase → List Meeting → Type 0
AreTimely s enable_parasite clock p [] = Unit
AreTimely s enable_parasite clock p (m ∷ ms) =
    (clock ≤ time_of clock m)
    × IsTimelyMeeting p m
    × AreTimely s enable_parasite (time_of clock m) (poll_step s enable_parasite p m).0 ms

-- No offer of the script before a time.
abbrev pub NotBefore : ℕ → Offer → Type 0
NotBefore t (sonar now) = Unit
NotBefore t (parasite now) = t ≤ now

-- The watchdog, if it runs, runs until then or longer.
abbrev Patient : ℕ → Phase → Type 0
Patient t waiting = ⊥
Patient t over = Unit
Patient t (watching until) = t ≤ until

over-quiet :
    (s : Shard) (enable_parasite : Bool) (ms : List Meeting) → poll s enable_parasite over ms ≡ []
unfolding poll poll_step
over-quiet s b [] = refl
over-quiet s b (tick now ready ∷ ms) = over-quiet s b ms
over-quiet s b (pulse now ∷ ms) = over-quiet s b ms
over-quiet s b (expiry now ∷ ms) = over-quiet s b ms
over-quiet s b (done ∷ ms) = over-quiet s b ms

Patient-NotBefore :
    (s : Shard) (enable_parasite : Bool) (t clock : ℕ) (p : Phase) (ms : List Meeting)
    → Patient t p
    → t ≤ clock + patience
    → AreTimely s enable_parasite clock p ms
    → All (NotBefore t) (poll s enable_parasite p ms)
unfolding poll poll_step
Patient-NotBefore s b t clock p [] h c a = tt
Patient-NotBefore s b t clock waiting (m ∷ ms) h c a = absurd h
Patient-NotBefore s b t clock over (m ∷ ms) h c a = rw (over-quiet s b (m ∷ ms)) tt
Patient-NotBefore s b t clock (watching u) (tick now ready ∷ ms) h c a =
    Patient-NotBefore s b t now (watching u) ms h (omega (arith, a.0)) a.2
Patient-NotBefore s b t clock (watching u) (pulse now ∷ ms) h c a =
    Patient-NotBefore s b t now (watching (now + patience)) ms (omega (arith, a.0))
      (omega (arith, a.0)) a.2
Patient-NotBefore s b t clock (watching u) (expiry now ∷ ms) h c a = (
  omega (arith, a.1),
  Patient-NotBefore s b t now (watching (now + patience)) ms (omega (arith, a.0))
      (omega (arith, a.0)) a.2,
)
Patient-NotBefore s b t clock (watching u) (done ∷ ms) h c a = rw (over-quiet s b ms) tt

-- While the loop watches a shard: behind a pulse, however the pulses and the ticks follow, the script is not
-- offered to the shard again before 10 seconds have passed without one.
pub poll-NotBefore :
    (s : Shard) (enable_parasite : Bool) (clock until now : ℕ) (ms : List Meeting)
    → AreTimely s enable_parasite clock (watching until) (pulse now ∷ ms)
    → All (NotBefore (now + 10000)) (poll s enable_parasite (watching until) (pulse now ∷ ms))
unfolding poll poll_step
poll-NotBefore s b clock until now ms a =
    Patient-NotBefore s b (now + patience) now (watching (now + patience)) ms (omega arith)
      (omega arith) a.2

abbrev pub IsSonar : Offer → Type 0
IsSonar (sonar now) = Unit
IsSonar (parasite now) = ⊥

-- With the script switched off, the master's loop never offers it, whatever it meets.
pub poll-IsSonar : (ms : List Meeting) → All IsSonar (poll master false waiting ms)
unfolding poll poll_step poll_head start_watch
poll-IsSonar [] = tt
poll-IsSonar (tick now true ∷ ms) = (tt, rw (over-quiet master false ms) tt)
poll-IsSonar (tick now false ∷ ms) = (tt, poll-IsSonar ms)
poll-IsSonar (pulse now ∷ ms) = poll-IsSonar ms
poll-IsSonar (expiry now ∷ ms) = poll-IsSonar ms
poll-IsSonar (done ∷ ms) = rw (over-quiet master false ms) tt
