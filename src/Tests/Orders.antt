-- ===== src/Tests/Orders.antt =====
-- The command channels.
use dst_nucleus.Prelude.{◌≡◌, ◌∷◌, [], codes, true, false, refl, ◌||◌}
use dst_nucleus.Commands.{
  Pipes, api_command, target_of, raw_line, success200, deliver, offer, is_ended,
}
use dst_nucleus.Commands.Delivery.{
  Told, IsAccepted, reached_master, reached_caves, api_command-Told,
}

abbrev empty_pipes : Pipes
empty_pipes = record { master = []; caves = codes "c_save()\n" ∷ [] }

api_command-sends : api_command false true (codes "all") (codes "c_save()") true empty_pipes ≡ (
  record { master = codes "c_save()\n" ∷ []; caves = codes "c_save()\n" ∷ codes "c_save()\n" ∷ [] },
  success200,
)
unfolding api_command target_of deliver offer raw_line is_ended
api_command-sends = refl

api_command-Told_example :
    let r = api_command false true (codes "caves") (codes "c_save()") true empty_pipes in
    let t = target_of (codes "caves") in
    Told (reached_master r.1 t) (raw_line (codes "c_save()")) [] r.0.master
    × Told (reached_caves r.1 t) (raw_line (codes "c_save()")) (codes "c_save()\n" ∷ []) r.0.caves
    × ((reached_master r.1 t || reached_caves r.1 t) ≡ true
        → IsAccepted false true (codes "c_save()") true)
api_command-Told_example =
    api_command-Told false true (codes "caves") (codes "c_save()") true empty_pipes
