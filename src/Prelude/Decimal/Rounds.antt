-- ===== src/Prelude/Decimal/Rounds.antt =====
-- The text of a number, by its last digit.
use mathlib.Core.Logic.{inl, inr}
use mathlib.Core.List.{◌++◌}
use native.Mathlib.Omega.{arith}
use mathlib.Core.Path.{◌≡◌, ◌∙◌, ap, sym}
use Prim.Native.Nat.{ℕ, ◌≤◌, ◌<◌, ◌/◌, ◌+◌, suc, ◌%◌, zero}
use dst_nucleus.Prelude.Decimal.{append_uint, decimal_onto, decimal_onto_last, decimal_onto_more}
use dst_nucleus.Prelude.{◌∷◌, [], ltb, Bool-cases, lt→ltb, le→ltb}

decimal_onto_enough : (f g n : ℕ) → n < f → n < g → decimal_onto f n ≡ decimal_onto g n
decimal_onto_enough zero g n h k = absurd (omega arith)
decimal_onto_enough (suc f) zero n h k = absurd (omega arith)
decimal_onto_enough (suc f) (suc g) n h k = elim (Bool-cases (ltb n 10)) [
  | inl e ↦ decimal_onto_last f n e ∙ sym (decimal_onto_last g n e)
  | inr e ↦
      let same : decimal_onto f (n / 10) ≡ decimal_onto g (n / 10) =
        decimal_onto_enough f g (n / 10) (ground arith) (ground arith) in
      decimal_onto_more f n e
      ∙ ap (λ t. t ++ (b'0' + n % 10) ∷ []) same
      ∙ sym (decimal_onto_more g n e)
]

pub append_uint_last : (n : ℕ) → n < 10 → append_uint n ≡ (b'0' + n) ∷ []
unfolding append_uint
append_uint_last n h = decimal_onto_last n n (lt→ltb n 10 h)

pub append_uint_more :
    (n : ℕ) → 10 ≤ n → append_uint n ≡ append_uint (n / 10) ++ (b'0' + n % 10) ∷ []
unfolding append_uint
append_uint_more n h =
    decimal_onto_more n n (le→ltb n 10 h)
    ∙ ap (λ t. t ++ (b'0' + n % 10) ∷ [])
        (decimal_onto_enough n (suc (n / 10)) (n / 10) (omega arith) (omega arith))
