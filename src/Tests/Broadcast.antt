-- ===== src/Tests/Broadcast.antt =====
-- The log broadcast.
use dst_nucleus.Prelude.{arith, ◌≡◌, refl, ◌∷◌, []}
use dst_nucleus.Logs.Steps.{Reach, here, next, looks, publish_new, connects, start_of}
use dst_nucleus.Logs.{LogState, look, publish, connect, get_new, panicked}
use dst_nucleus.Logs.References.{Reach-IsCounted}
use dst_nucleus.Logs.Channels.{Reach-panicked}
use dst_nucleus.Logs.Holders.{IsCounted}

abbrev one_chunk : LogState
one_chunk = publish 0 (get_new (look (connect 1 (start_of 2))))

one_chunk-piped : one_chunk.pipe ≡ 0 ∷ []
unfolding publish get_new look connect
one_chunk-piped = refl

Reach-IsCounted_example : IsCounted one_chunk
unfolding connect look
Reach-IsCounted_example = Reach-IsCounted 2 (
    next
      (next
        (next here
          (connects (start_of 2) 1 (record { known = omega arith; at = refl; free = refl })))
        (looks (connect 1 (start_of 2))))
      (publish_new (look (connect 1 (start_of 2))) refl))

Reach-panicked_example : (t : LogState) × Reach (start_of 4) t × (t.hub ≡ panicked 0)
Reach-panicked_example = Reach-panicked 2
