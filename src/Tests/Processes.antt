-- ===== src/Tests/Processes.antt =====
-- The probe of a process.
use dst_nucleus.Prelude.Decimal.{append_uint}
use dst_nucleus.Prelude.{◌≡◌, ◌∷◌, [], Bytes, List, codes, some, arith, refl}
use dst_nucleus.Probe.{collect_process, cpu_share}
use dst_nucleus.Probe.Fields.{stat_line}
use dst_nucleus.Probe.Share.{IsShare}
use dst_nucleus.Probe.Sampling.{statm_line, collect_process_lem}

abbrev odd_name : Bytes
odd_name = codes "4711 (dst) S 3 (x"

abbrev numbers : List Bytes
numbers =
    codes "S"
    ∷ codes "1"
    ∷ codes "2"
    ∷ codes "3"
    ∷ codes "4"
    ∷ codes "5"
    ∷ codes "6"
    ∷ codes "7"
    ∷ codes "8"
    ∷ codes "9"
    ∷ codes "10"
    ∷ codes "250"
    ∷ codes "30"
    ∷ []

collect_process_lem_example :
    let a =
      collect_process
        (some (statm_line 900 100 (codes "5\n")))
        (some (stat_line odd_name numbers (codes "20\n")))
        200
        500000000 in
    (a.memory ≡ 409600) × (a.ticks ≡ 280) × IsShare a.cpu 280 200 500000000
unfolding append_uint
collect_process_lem_example =
    collect_process_lem 900 100 (codes "5\n") odd_name (codes "20\n") numbers 250 30 200 500000000
      (omega arith) (ground arith) (ground arith) (omega arith) refl refl (omega arith)
      (omega arith) (omega arith) (omega arith)

sixteen_percent : cpu_share 280 200 500000000 ≡ 16000
unfolding cpu_share
sixteen_percent = refl
