-- ===== src/Logs/Channels.antt =====
-- The hub's channels of subscriptions and unsubscriptions, between which its select picks at random.
use dst_nucleus.Logs.Steps.{
  Reach, here, next, looks, publish_new, joins, leaves, chunks, shares, offers, connects, leaving,
  start_of,
}
use dst_nucleus.Logs.{
  LogState, look, publish, take_leave, take_join, connect, leave, get_new, ℕ, take_chunk, share,
  offer, panicked,
}
use dst_nucleus.Prelude.{◌∷◌, [], ℕ, suc, ◌≡◌, arith, refl}
use mathlib.Core.List.Perm

abbrev connected : ℕ → LogState
connected n = connect 1 (leave 0 (connect 0 (start_of (suc (suc n)))))

abbrev crossed : ℕ → LogState
crossed n = take_join (take_leave (connected n))

abbrev published : ℕ → LogState
published n = publish 0 (get_new (look (crossed n)))

-- With two clients or more there is an interleaving in which the hub panics: a client connects and
-- leaves at once, another one connects, the hub takes the unsubscription before the subscription, and
-- sends the next chunk on the channel that it has closed.
pub Reach-panicked :
    (n : ℕ) → (t : LogState) × Reach (start_of (suc (suc n))) t × (t.hub ≡ panicked 0)
unfolding connect leave take_leave take_join look publish get_new take_chunk share offer
Reach-panicked n =
    let s₀ = start_of (suc (suc n)) in
    let r₁ = next here (connects s₀ 0 (record { known = omega arith; at = refl; free = refl })) in
    let r₂ =
      next r₁ (leaving (connect 0 s₀) 0 (record { known = omega arith; at = refl; free = refl })) in
    let r₃ = next r₂ (
      connects (leave 0 (connect 0 s₀)) 1
        (record { known = omega arith; at = refl; free = refl })) in
    let r₄ = next r₃ (leaves (connected n) refl) in
    let r₅ = next r₄ (joins (take_leave (connected n)) refl) in
    let r₆ = next r₅ (looks (crossed n)) in
    let r₇ = next r₆ (publish_new (look (crossed n)) refl) in
    let r₈ = next r₇ (chunks (published n) (0 ∷ []) refl (Perm.refl (0 ∷ []))) in
    let s₈ = take_chunk (0 ∷ []) (published n) in
    let r₉ = next r₈ (shares s₈ 0 (0 ∷ []) refl) in
    (_, next r₉ (offers (share 0 (0 ∷ []) s₈) 0 0 [] refl), refl)
