-- ===== src/Logs/References.antt =====
-- The reference counts of the log chunks.
use dst_nucleus.Logs.Holders.{
  IsCounted, of_clients-set, count-append, of_clients-set_same, of_clients, open_known,
}
use dst_nucleus.Logs.Steps.{
  Step, Reach, here, next, looks, publish_pooled, publish_new, joins, leaves, chunks, shares,
  offers, connects, receives, drains, lets_go, leaving, returns, start_of,
}
use dst_nucleus.Logs.{
  LogState, look, share, publish, release, get_new, List, get_pooled, some, sharing, length,
  offering, set, resting, let_go, receive, offer, client, take_leave, take_chunk, take_join,
  ClientPhase, close_client, true, connect, serving, leave, draining, return_client, gone,
}
use dst_nucleus.Prelude.{
  ◌∷◌, [], ℕ, ◌≡◌, List, ◌++◌, ◌+◌, ◌-◌, arith, ◌<◌, some, none, length, refl, set, suc, zero,
  Option-cases, inl, inr, Bool-cases, List-cases, true,
}

publish_pooled-IsCounted :
    (s : LogState) (b : ℕ) → 0 < s.pooled b → IsCounted s → IsCounted (publish b (get_pooled b s))
unfolding publish get_pooled
publish_pooled-IsCounted s b h a j = ground (arith, a j, a b, count-append j s.pipe (b ∷ []))

publish_new-IsCounted : (s : LogState) → IsCounted s → IsCounted (publish s.allocated (get_new s))
unfolding publish get_new
publish_new-IsCounted s a j =
    ground (arith, a j, a s.allocated, count-append j s.pipe (s.allocated ∷ []))

share-IsCounted :
    (s : LogState) (b : ℕ) (is : List ℕ)
    → s.hub ≡ sharing b is
    → IsCounted s
    → IsCounted (share b is s)
unfolding share release
share-IsCounted s b [] h a j = ground (arith, a j, a b)
share-IsCounted s b (i ∷ is) h a j = ground (arith, a j, a b)

offer-IsCounted :
    (s : LogState) (b i : ℕ) (is : List ℕ)
    → s.hub ≡ offering b i is
    → IsCounted s
    → IsCounted (offer b i is s)
unfolding offer
offer-IsCounted s b i is h a j = elim (Bool-cases (client s i).closed) [
  | inl e ↦ ground (arith, a j)
  | inr e ↦ ground (
    arith,
    a j,
    count-append j (client s i).queue (b ∷ []),
    of_clients-set j s.clients i (record (client s i) { queue = (client s i).queue ++ b ∷ [] })
        (open_known s.clients i e),
  )
]

receive-IsCounted :
    (s : LogState) (i : ℕ)
    → i < length s.clients
    → (client s i).in_hand ≡ none
    → IsCounted s
    → IsCounted (receive i s)
unfolding receive
receive-IsCounted s i k free a j = elim (List-cases (client s i).queue) [
  | inl e ↦ ground (arith, a j)
  | inr (b, bs, e) ↦ ground (
    arith,
    a j,
    of_clients-set j s.clients i (record (client s i) { queue = bs; in_hand = some b }) k,
  )
]

let_go-IsCounted :
    (s : LogState) (i : ℕ) → i < length s.clients → IsCounted s → IsCounted (let_go i s)
unfolding let_go release
let_go-IsCounted s i k a j = elim (Option-cases (client s i).in_hand) [
  | inl e ↦ ground (arith, a j)
  | inr (b, e) ↦
      ground
        (arith, a j, a b, of_clients-set j s.clients i (record (client s i) { in_hand = none }) k)
]

take_leave-IsCounted : (s : LogState) → IsCounted s → IsCounted (take_leave s)
unfolding take_leave close_client
take_leave-IsCounted s a j = elim (List-cases s.leaves) [
  | inl e ↦ ground (arith, a j)
  | inr (i, is, e) ↦
      ground
        (arith, a j, of_clients-set_same j s.clients i (record (client s i) { closed = true }) refl)
]

take_join-IsCounted : (s : LogState) → IsCounted s → IsCounted (take_join s)
unfolding take_join
take_join-IsCounted s a j = elim (List-cases s.joins) [
  | inl e ↦ ground (arith, a j)
  | inr (i, is, e) ↦ ground (arith, a j)
]

take_chunk-IsCounted :
    (s : LogState) (order : List ℕ) → s.hub ≡ resting → IsCounted s → IsCounted (take_chunk order s)
unfolding take_chunk
take_chunk-IsCounted s order h a j = elim (List-cases s.pipe) [
  | inl e ↦ ground (arith, a j)
  | inr (b, bs, e) ↦ ground (arith, a j)
]

-- A step that changes only the phase of a client.
phase-IsCounted :
    (s : LogState) (i : ℕ) (p : ClientPhase) (js ls : List ℕ) (m : ℕ)
    → IsCounted s
    → IsCounted (record s {
      joins = js;
      leaves = ls;
      connections = m;
      clients = set s.clients i (record (client s i) { phase = p });
    })
phase-IsCounted s i p js ls m a j =
    ground (arith, a j, of_clients-set_same j s.clients i (record (client s i) { phase = p }) refl)

Step-IsCounted : {s t : LogState} → Step s t → IsCounted s → IsCounted t
Step-IsCounted (looks s) a = unfold look in λ j. a j
Step-IsCounted (publish_pooled s b w h) a = publish_pooled-IsCounted s b h a
Step-IsCounted (publish_new s w) a = publish_new-IsCounted s a
Step-IsCounted (joins s h) a = take_join-IsCounted s a
Step-IsCounted (leaves s h) a = take_leave-IsCounted s a
Step-IsCounted (chunks s order h p) a = take_chunk-IsCounted s order h a
Step-IsCounted (shares s b is h) a = share-IsCounted s b is h a
Step-IsCounted (offers s b i is h) a = offer-IsCounted s b i is h a
Step-IsCounted (connects s i c) a =
    unfold connect in phase-IsCounted s i serving (s.joins ++ i ∷ []) s.leaves (s.connections + 1) a
Step-IsCounted (receives s i c) a = receive-IsCounted s i c.known c.free a
Step-IsCounted (drains s i c) a = receive-IsCounted s i c.known c.free a
Step-IsCounted (lets_go s i k) a = let_go-IsCounted s i k a
Step-IsCounted (leaving s i c) a =
    unfold leave in phase-IsCounted s i draining s.joins (s.leaves ++ i ∷ []) (s.connections - 1) a
Step-IsCounted (returns s i c q e) a =
    unfold return_client in phase-IsCounted s i gone s.joins s.leaves s.connections a

start-IsCounted : (n : ℕ) → IsCounted (start_of n)
start-IsCounted n b = record {
  counted = inl (omega (arith, none_held n));
  once = omega arith;
  fresh = λ h. (omega (arith, none_held n), refl);
}
  where
    none_held : (n : ℕ) → of_clients b (start_of n).clients ≡ 0
    none_held zero = refl
    none_held (suc n) = omega (arith, none_held n)

-- In every state that any interleaving reaches, with any number of clients: a chunk that the pipe,
-- the hub or a client holds has as many references as holders and is not in the pool; no chunk is
-- in the pool twice; and a chunk that the pool has not made yet is nowhere.
pub Reach-IsCounted : (n : ℕ) {s : LogState} → Reach (start_of n) s → IsCounted s
Reach-IsCounted n here = start-IsCounted n
Reach-IsCounted n (next r st) = Step-IsCounted st (Reach-IsCounted n r)
