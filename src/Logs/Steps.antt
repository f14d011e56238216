-- ===== src/Logs/Steps.antt =====
-- The interleavings of the hub, the producers and the clients, as steps.
use dst_nucleus.Logs.{
  Client, LogState, List, resting, ClientPhase, connecting, look, publish, length, none, client,
  get_pooled, get_new, take_join, take_leave, take_chunk, sharing, share, offering, offer, connect,
  serving, receive, draining, let_go, leave, true, return_client,
}
use mathlib.Core.List.{Perm}
use dst_nucleus.Prelude.{◌∷◌, [], ℕ, ◌<◌, List, suc, length, false, none, zero, ◌≡◌, true}

-- What a step of client i needs.
pub record CanAct (s : LogState) (i : ℕ) (p : ClientPhase) : Type 0 where
  pub known : i < length s.clients
  pub at : (client s i).phase ≡ p
  pub free : (client s i).in_hand ≡ none

pub data Step : LogState → LogState → Type 0 where
  looks : (s : LogState) → Step s (look s)
  publish_pooled :
      (s : LogState) (b : ℕ)
      → s.watched ≡ true
      → 0 < s.pooled b
      → Step s (publish b (get_pooled b s))
  publish_new : (s : LogState) → s.watched ≡ true → Step s (publish s.allocated (get_new s))
  joins : (s : LogState) → s.hub ≡ resting → Step s (take_join s)
  leaves : (s : LogState) → s.hub ≡ resting → Step s (take_leave s)
  chunks :
      (s : LogState) (order : List ℕ)
      → s.hub ≡ resting
      → Perm order s.subscribers
      → Step s (take_chunk order s)
  shares : (s : LogState) (b : ℕ) (is : List ℕ) → s.hub ≡ sharing b is → Step s (share b is s)
  offers :
      (s : LogState) (b i : ℕ) (is : List ℕ) → s.hub ≡ offering b i is → Step s (offer b i is s)
  connects : (s : LogState) (i : ℕ) → CanAct s i connecting → Step s (connect i s)
  receives : (s : LogState) (i : ℕ) → CanAct s i serving → Step s (receive i s)
  drains : (s : LogState) (i : ℕ) → CanAct s i draining → Step s (receive i s)
  lets_go : (s : LogState) (i : ℕ) → i < length s.clients → Step s (let_go i s)
  leaving : (s : LogState) (i : ℕ) → CanAct s i serving → Step s (leave i s)
  returns :
      (s : LogState) (i : ℕ)
      → CanAct s i draining
      → (client s i).queue ≡ []
      → (client s i).closed ≡ true
      → Step s (return_client i s)

pub data Reach (s : LogState) : LogState → Type 0 where
  here : Reach s s
  next : {t u : LogState} → Reach s t → Step t u → Reach s u

abbrev new_client : Client
new_client = record { phase = connecting; queue = []; closed = false; in_hand = none }

abbrev clients_of : ℕ → List Client
clients_of zero = []
clients_of (suc n) = new_client ∷ clients_of n

-- The start, with the clients that will ever connect.
abbrev pub start_of : ℕ → LogState
start_of n = record {
  refs = λ b. 0;
  pooled = λ b. 0;
  allocated = 0;
  pipe = [];
  joins = [];
  leaves = [];
  subscribers = [];
  hub = resting;
  clients = clients_of n;
  connections = 0;
  watched = false;
}
