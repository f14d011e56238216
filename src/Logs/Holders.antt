-- ===== src/Logs/Holders.antt =====
-- Where a log chunk is held, and the account that its reference count gives of it.
use dst_nucleus.Logs.{
  LogState, HubPhase, Client, Option, some, get_or, sharing, offering, no_client, length, set,
  panicked, resting,
}
use dst_nucleus.Prelude.{
  ◌∷◌, [], zero, suc, ℕ, List, if◌then◌else◌, ◌≡◌, Option, ◌+◌, ◌++◌, ◌<◌, some, get_or, ◌⊎◌, ◌==◌,
  arith, length, none, ◌≤◌, false, set, ◌*◌, refl,
}

abbrev pub count : ℕ → List ℕ → ℕ
count b [] = 0
count b (x ∷ xs) = (if x == b then 1 else 0) + count b xs

abbrev pub one_if : ℕ → ℕ → ℕ
one_if x b = if x == b then 1 else 0

abbrev pub in_hand_of : ℕ → Option ℕ → ℕ
in_hand_of b none = 0
in_hand_of b (some x) = one_if x b

abbrev pub of_client : ℕ → Client → ℕ
of_client b c = count b c.queue + in_hand_of b c.in_hand

abbrev pub of_clients : ℕ → List Client → ℕ
of_clients b [] = 0
of_clients b (c ∷ cs) = of_client b c + of_clients b cs

-- The hub counts once while it hands a chunk round, and once more for the send that it is at.
abbrev pub of_hub : ℕ → HubPhase → ℕ
of_hub b resting = 0
of_hub b (sharing x is) = one_if x b
of_hub b (offering x i is) = 2 * one_if x b
of_hub b (panicked x) = 2 * one_if x b

-- How many places hold chunk b: the pipe, the hub, the clients' channels and their hands.
abbrev pub holders : LogState → ℕ → ℕ
holders s b = count b s.pipe + of_hub b s.hub + of_clients b s.clients

-- A chunk that is held has a count of its holders and is not in the pool; a chunk is in the pool
-- once at most; a chunk that is still to be made is nowhere.
pub record Account (refs pooled held allocated b : ℕ) : Type 0 where
  pub counted : (held ≡ 0) ⊎ ((refs ≡ held) × (pooled ≡ 0))
  pub once : pooled ≤ 1
  pub fresh : allocated ≤ b → (held ≡ 0) × (pooled ≡ 0)

abbrev pub IsCounted : LogState → Type 0
IsCounted s = (b : ℕ) → Account (s.refs b) (s.pooled b) (holders s b) s.allocated b

pub count-append : (b : ℕ) (xs ys : List ℕ) → count b (xs ++ ys) ≡ count b xs + count b ys
count-append b [] ys = omega arith
count-append b (x ∷ xs) ys = omega (arith, count-append b xs ys)

pub of_clients-set :
    (b : ℕ) (cs : List Client) (i : ℕ) (c : Client)
    → i < length cs
    → of_clients b (set cs i c) + of_client b (get_or cs i no_client)
      ≡ of_clients b cs + of_client b c
of_clients-set b [] i c h = absurd (omega arith)
of_clients-set b (d ∷ cs) zero c h = omega arith
of_clients-set b (d ∷ cs) (suc i) c h = omega (arith, of_clients-set b cs i c (omega arith))

pub of_clients-set_same :
    (b : ℕ) (cs : List Client) (i : ℕ) (c : Client)
    → of_client b c ≡ of_client b (get_or cs i no_client)
    → of_clients b (set cs i c) ≡ of_clients b cs
of_clients-set_same b [] i c e = refl
of_clients-set_same b (d ∷ cs) zero c e = omega (arith, e)
of_clients-set_same b (d ∷ cs) (suc i) c e = omega (arith, of_clients-set_same b cs i c e)

pub open_known : (cs : List Client) (i : ℕ) → (get_or cs i no_client).closed ≡ false → i < length cs
open_known [] i e = ground arith
open_known (c ∷ cs) zero e = omega arith
open_known (c ∷ cs) (suc i) e = omega (arith, open_known cs i e)
