-- ===== src/Mods/Setup/Words.antt =====
-- update.go, `解析Setup`: the range of the ids.
use dst_nucleus.Mods.Digits.{u64_mod, span_digits, bytes_to_uint64-lt}
use dst_nucleus.Prelude.{
  Bytes, Bool, ℕ, All, if◌then◌else◌, ◌<◌, true, suc, length, All-if, zero, drop, false, All-append,
  [],
}
use dst_nucleus.Mods.Setup.{
  Scan, add_id, setup_hit, setup_step, setup_loop, parse_setup, Bytes, Bool, ℕ, length,
  skip_comment, ◌∷◌, suc, drop, skip_quoted,
}

-- A result whose ids are words.
record Words (r : Scan × Bytes) : Type 0 where
  ids : All (λ id. id < u64_mod) r.0.result

Words-if : (b : Bool) (x y : Scan × Bytes) → Words x → Words y → Words (if b then x else y)
Words-if true x y h k = h
Words-if false x y h k = k

add_id-words :
    (st : Scan) (ds : Bytes)
    → All (λ id. id < u64_mod) st.result
    → All (λ id. id < u64_mod) (add_id st ds).result
unfolding add_id
add_id-words st [] h = h
add_id-words st (d ∷ ds) h =
    All-if (λ id. id < u64_mod) _ st.result _ h
      (All-append (λ id. id < u64_mod) st.result _ h (bytes_to_uint64-lt (d ∷ ds), tt))

setup_hit-Words :
    (st : Scan) (s : Bytes) → All (λ id. id < u64_mod) st.result → Words (setup_hit st s)
unfolding setup_hit
setup_hit-Words st s h = record { ids = add_id-words st (span_digits s).0 h }

setup_step-Words :
    (st : Scan) (c : ℕ) (cs : Bytes)
    → All (λ id. id < u64_mod) st.result
    → Words (setup_step st c cs)
unfolding setup_step
setup_step-Words st c cs h =
    let stay = λ (s : Bytes). let w : Words (st, s) = record { ids = h } in w in
    Words-if _ _ _ (stay (skip_comment (drop 1 cs))) (
      Words-if _ _ _ (stay (skip_quoted c cs)) (
        Words-if _ _ _ (setup_hit-Words st (drop 16 (c ∷ cs)) h)
          (Words-if _ _ _ (setup_hit-Words st (drop 9 (c ∷ cs)) h) (stay cs))))

setup_loop-words :
    (n : ℕ) (st : Scan) (s : Bytes)
    → All (λ id. id < u64_mod) st.result
    → All (λ id. id < u64_mod) (setup_loop n st s).result
unfolding setup_loop
setup_loop-words zero st s h = h
setup_loop-words (suc n) st [] h = h
setup_loop-words (suc n) st (c ∷ cs) h =
    setup_loop-words n (setup_step st c cs).0 (setup_step st c cs).1
      (setup_step-Words st c cs h).ids

pub parse_setup-words :
    (content : Bytes) (st : Scan)
    → All (λ id. id < u64_mod) st.result
    → All (λ id. id < u64_mod) (parse_setup content st).result
unfolding parse_setup
parse_setup-words content st h = setup_loop-words (length content) st content h
