-- ===== src/Telemetry/Report/RoundTrip.antt =====
-- `发送洞穴参数` of api_status.go against `api_update_state` of api.go.
use dst_nucleus.Prelude.Decimal.{
  parse_uint-append_uint, append_uint-cons, is_digit, append_uint-digits, length-append_uint,
}
use dst_nucleus.Prelude.{
  ℕ, ◌≡◌, Bytes, ◌<◌, All, suc, codes, arith, ◌++◌, ◌∷◌, true, [], Bool, ◌∙◌, length, refl, some,
  ◌-◌, length-append,
}
use dst_nucleus.Telemetry.Report.{
  split_key, split_val, store_form, store_pair, store_key, key_of, parse_api_uint, api_update_state,
  caves_telemetry, success200, GameState, u32_mod, append_uint,
}

split_val-digits :
    (xs rest : Bytes) → All (λ c. is_digit c ≡ true) xs → split_val (xs ++ b'&' ∷ rest) ≡ (xs, rest)
unfolding split_val
split_val-digits [] rest h = refl
split_val-digits (x ∷ xs) rest h = ground (arith, split_val-digits xs rest h.1)

split_val-digits_end : (xs : Bytes) → All (λ c. is_digit c ≡ true) xs → split_val xs ≡ (xs, [])
unfolding split_val
split_val-digits_end [] h = refl
split_val-digits_end (x ∷ xs) h = ground (arith, split_val-digits_end xs h.1)

parse_api_uint-append_uint : (n : ℕ) → n < u32_mod → parse_api_uint (append_uint n) ≡ n
unfolding parse_api_uint
parse_api_uint-append_uint n h = ground (arith, parse_uint-append_uint u32_mod n h)

store_pair-toadstool :
    (s : GameState) (n : ℕ)
    → n < u32_mod
    → store_pair s (codes "toadstool") (append_uint n) ≡ record s { toadstool_timer = n }
unfolding store_pair key_of store_key
store_pair-toadstool s n h =
    let (c, cs, p) = append_uint-cons n in
    let e : parse_api_uint (c ∷ cs) ≡ n = rw p at (parse_api_uint-append_uint n h) in rw p (rw e)

store_pair-fuelweaver :
    (s : GameState) (n : ℕ)
    → n < u32_mod
    → store_pair s (codes "fuelweaver") (append_uint n) ≡ record s { fuelweaver_timer = n }
unfolding store_pair key_of store_key
store_pair-fuelweaver s n h =
    let (c, cs, p) = append_uint-cons n in
    let e : parse_api_uint (c ∷ cs) ≡ n = rw p at (parse_api_uint-append_uint n h) in rw p (rw e)

store_form_step :
    (n : ℕ) (s : GameState) (body : Bytes) {key rest val rest' : Bytes}
    → split_key body ≡ some (key, rest)
    → split_val rest ≡ (val, rest')
    → store_form (suc n) s body ≡ store_form n (store_pair s key val) rest'
unfolding store_form
store_form_step n s body e f = rw (e, store_form) (rw f refl)

store_form_end : (n : ℕ) (s : GameState) → store_form (suc n) s [] ≡ s
unfolding store_form split_key
store_form_end n s = refl

abbrev telemetry : ℕ → ℕ → Bytes
telemetry toad fw =
    codes "toadstool=" ++ (append_uint toad ++ (codes "&fuelweaver=" ++ append_uint fw))

store_form-telemetry :
    (m : ℕ) (s : GameState) (toad fw : ℕ)
    → toad < u32_mod
    → fw < u32_mod
    → store_form (suc (suc (suc m))) s (telemetry toad fw)
      ≡ record s { toadstool_timer = toad; fuelweaver_timer = fw }
unfolding split_key
store_form-telemetry m s toad fw ht hf =
    let s₁ = record s { toadstool_timer = toad } in
    let e₁ = rw (store_pair-toadstool s toad ht) at (
      store_form_step (suc (suc m)) s (telemetry toad fw) {key = codes "toadstool"} refl (
        split_val-digits (append_uint toad) (codes "fuelweaver=" ++ append_uint fw)
          (append_uint-digits toad))) in
    let e₂ = rw (store_pair-fuelweaver s₁ fw hf) at (
      store_form_step (suc m) s₁ (codes "fuelweaver=" ++ append_uint fw) {key = codes "fuelweaver"}
        refl (split_val-digits_end (append_uint fw) (append_uint-digits fw))) in
    e₁ ∙ e₂ ∙ store_form_end m (record s₁ { fuelweaver_timer = fw })

length-telemetry :
    (toad fw : ℕ)
    → toad < u32_mod
    → fw < u32_mod
    → (m : ℕ) × (length (telemetry toad fw) ≡ suc (suc (suc m))) × (m < 100)
length-telemetry toad fw ht hf = (
  length (telemetry toad fw) - 3,
  omega arith,
  omega (
    arith,
    length-append (append_uint toad) (codes "&fuelweaver=" ++ append_uint fw),
    length-append_uint 9 toad (omega arith),
    length-append_uint 9 fw (omega arith),
  ),
)

-- The form that a caves-only node posts to an address for two 32-bit timers is taken by the
-- receiving handler, whatever its state: it answers success, stores the two timers, and changes
-- nothing else.
pub api_update_state-caves_telemetry :
    (clean : Bool) (s : GameState) (url body : Bytes) (toad fw : ℕ)
    → toad < u32_mod
    → fw < u32_mod
    → caves_telemetry url toad fw ≡ some body
    → api_update_state true clean s body
      ≡ (record s { toadstool_timer = toad; fuelweaver_timer = fw }, success200)
unfolding api_update_state caves_telemetry
api_update_state-caves_telemetry clean s [] body toad fw ht hf e = cc
api_update_state-caves_telemetry clean s (u ∷ url) body toad fw ht hf e =
    let (m, len, small) = length-telemetry toad fw ht hf in
    let same : telemetry toad fw ≡ body = ground arith in
    rw (← same) (ground (arith, len, store_form-telemetry m s toad fw ht hf))
