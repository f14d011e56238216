-- ===== src/Daemon/Reboot.antt =====
-- game.go, `执行优雅重启`: players are told, every five seconds, how long they have; then the world is
-- saved and the save is waited for.
use native.Mathlib.Decide.{ℕ_discrete}
use dst_nucleus.Prelude.{
  ℕ, Bool, ◌≡◌, refl, false, Option, if◌then◌else◌, List, [], ◌∷◌, ◌*◌, ◌-◌, ◌%◌, ◌++◌, ap, some,
  ◌≤◌, true, ltb, suc, zero, none, ◌==◌, ◌<◌, ◌+◌, ◌/◌, arith, ◌≢◌, ◌∙◌, append_assoc, append-nil,
}

-- What is put into a shard's command channel. The channels are those of `Commands`; here the order
-- of what is sent is kept.
pub data Target : Type 0 where
  to_master to_caves : Target

pub data Order : Type 0 where
  shutdown_if_empty save save_and_print : Target → Order
  announce : Target → ℕ → Order

-- The countdown from i, with the next announcement due at `due`. Second by second an announcement is
-- made when due, then the tick is waited for; `cancelled k` says that the lifetime ends in the wait
-- with k seconds left. The result says whether the countdown ran to its end.
unfoldable pub countdown : Target → (ℕ → Bool) → ℕ → ℕ → List Order × Bool
countdown t cancelled zero due = ([], true)
countdown t cancelled (suc i) due =
    let rest = countdown t cancelled i (if suc i == due then due - 5 else due) in
    let orders = if suc i == due then announce t (suc i) ∷ [] else [] in
    elim (cancelled (suc i)) [ true ↦ (orders, false) | false ↦ (orders ++ rest.0, rest.1) ]

pub record RebootConf : Type 0 where
  pub master_enabled : Bool
  pub caves_enabled : Bool
  pub grace_wait : ℕ  -- 优雅重启等待时间, uint64

abbrev pub when : Bool → Order → List Order
when true o = o ∷ []
when false o = []

-- The shard that is spoken to: the master, unless it is disabled.
abbrev pub speaker : RebootConf → Target
speaker c = if c.master_enabled then to_master else to_caves

-- `i`, a uint32: the caller's value, or the configured one cut to 32 bits.
abbrev pub wait_time : RebootConf → Option ℕ → ℕ
wait_time c none = c.grace_wait % 4294967296
wait_time c (some n) = n

-- The orders in sequence, around those of the countdown.
abbrev assemble : RebootConf → ℕ → List Order × Bool → List Order
assemble c i told =
    when c.master_enabled (shutdown_if_empty to_master)
    ++ (when c.caves_enabled (shutdown_if_empty to_caves)
        ++ (when (ltb 0 i) (save to_master)
            ++ (told.0 ++ when told.1 (save_and_print (speaker c)))))

-- The part between the lock and the wait for the save.
unfoldable pub reboot_orders : RebootConf → Option ℕ → (ℕ → Bool) → List Order
unfolding countdown
reboot_orders c custom cancelled =
    let i = wait_time c custom in assemble c i (countdown (speaker c) cancelled i (i - i % 5))

-- With the lock taken nothing is done.
unfoldable pub graceful_reboot : Bool → RebootConf → Option ℕ → (ℕ → Bool) → List Order
unfolding reboot_orders
graceful_reboot rebooting c custom cancelled =
    if rebooting then [] else reboot_orders c custom cancelled

-- The seconds at which an announcement is made, from a list of orders.
abbrev pub announced : List Order → List ℕ
announced [] = []
announced (announce t n ∷ os) = n ∷ announced os
announced (shutdown_if_empty t ∷ os) = announced os
announced (save t ∷ os) = announced os
announced (save_and_print t ∷ os) = announced os

-- The multiples of five from n down to 5.
abbrev pub fives : ℕ → List ℕ
fives zero = []
fives (suc k) = suc k * 5 ∷ fives k

announced-append : (xs ys : List Order) → announced (xs ++ ys) ≡ announced xs ++ announced ys
announced-append [] ys = refl
announced-append (announce t n ∷ xs) ys = ap (n ∷◌) (announced-append xs ys)
announced-append (shutdown_if_empty t ∷ xs) ys = announced-append xs ys
announced-append (save t ∷ xs) ys = announced-append xs ys
announced-append (save_and_print t ∷ xs) ys = announced-append xs ys

module _ (t : Target) (cancelled : ℕ → Bool) (never : (j : ℕ) → cancelled j ≡ false) where
  countdown_due :
      (i due : ℕ)
      → suc i ≡ due
      → countdown t cancelled (suc i) due ≡ (
        announce t (suc i) ∷ (countdown t cancelled i (due - 5)).0,
        (countdown t cancelled i (due - 5)).1,
      )
  unfolding countdown
  countdown_due i due e = ground (arith, never (suc i))

  countdown_quiet :
      (i due : ℕ) → suc i ≢ due → countdown t cancelled (suc i) due ≡ countdown t cancelled i due
  unfolding countdown
  countdown_quiet i due ne = ground (arith, never (suc i))

  countdown-fives :
      (i k : ℕ)
      → k * 5 ≤ i
      → i < k * 5 + 5
      → (announced (countdown t cancelled i (k * 5)).0 ≡ fives k)
        × ((countdown t cancelled i (k * 5)).1 ≡ true)
  countdown-fives zero zero lo hi = unfold countdown in (refl, refl)
  countdown-fives zero (suc k) lo hi = absurd (omega arith)
  countdown-fives (suc i) zero lo hi =
      rw (countdown_quiet i (0 * 5) (omega arith))
        (countdown-fives i zero (omega arith) (omega arith))
  countdown-fives (suc i) (suc k) lo hi = elim (ℕ_discrete (suc i) (suc k * 5)) [
    | yes e ↦
        let less : suc k * 5 - 5 ≡ k * 5 = omega arith in
        let (list, ran) = countdown-fives i k (omega arith) (omega arith) in
        rw (countdown_due i (suc k * 5) e, less) (rw list (ap (◌∷ fives k) e), ran)
    | no ne ↦
        rw (countdown_quiet i (suc k * 5) ne)
          (countdown-fives i (suc k) (omega arith) (omega arith))
  ]

-- Does the list end with the final save?
abbrev pub EndsWithSave : Target → List Order → Type 0
EndsWithSave t os = (before : List Order) × (os ≡ before ++ save_and_print t ∷ [])

announced-when : (b : Bool) (t : Target) → announced (when b (shutdown_if_empty t)) ≡ []
announced-when true t = refl
announced-when false t = refl

announced-when_save : (b : Bool) (t : Target) → announced (when b (save t)) ≡ []
announced-when_save true t = refl
announced-when_save false t = refl

announced-when_last : (b : Bool) (t : Target) → announced (when b (save_and_print t)) ≡ []
announced-when_last true t = refl
announced-when_last false t = refl

assemble-last :
    (c : RebootConf) (i : ℕ) (told : List Order)
    → assemble c i (told, true)
      ≡ (when c.master_enabled (shutdown_if_empty to_master)
          ++ (when c.caves_enabled (shutdown_if_empty to_caves)
              ++ (when (ltb 0 i) (save to_master) ++ told)))
        ++ save_and_print (speaker c) ∷ []
assemble-last c i told = simp append_assoc

announced-assemble :
    (c : RebootConf) (i : ℕ) (told : List Order × Bool)
    → announced (assemble c i told) ≡ announced told.0
announced-assemble c i told =
    simp (announced-append, announced-when, announced-when_save, announced-when_last, append-nil)

-- A reboot that is not cancelled announces exactly the multiples of five from its waiting time down
-- to five, in that order, once each, whichever shards are enabled; and its last order is the save
-- that is waited for, to the shard that is spoken to.
pub graceful_reboot-fives :
    (c : RebootConf) (custom : Option ℕ) (cancelled : ℕ → Bool)
    → ((j : ℕ) → cancelled j ≡ false)
    → let os = graceful_reboot false c custom cancelled in
      (announced os ≡ fives (wait_time c custom / 5)) × EndsWithSave (speaker c) os
unfolding graceful_reboot
graceful_reboot-fives c custom cancelled never =
    let i = wait_time c custom in
    let due : i - i % 5 ≡ i / 5 * 5 = omega arith in
    let (list, ran) =
      countdown-fives (speaker c) cancelled never i (i / 5) (omega arith) (omega arith) in
    let ended : countdown (speaker c) cancelled i (i - i % 5)
        ≡ ((countdown (speaker c) cancelled i (i / 5 * 5)).0, true) =
      ap (countdown (speaker c) cancelled i) due ∙ λ d.
      ((countdown (speaker c) cancelled i (i / 5 * 5)).0, ran d) in
    unfold reboot_orders in
    (
      ap (λ t. announced (assemble c i t)) ended
          ∙ announced-assemble c i ((countdown (speaker c) cancelled i (i / 5 * 5)).0, true)
          ∙ list,
      (
        _,
        ap (assemble c i) ended
            ∙ assemble-last c i (countdown (speaker c) cancelled i (i / 5 * 5)).0,
      ),
    )
