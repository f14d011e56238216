-- ===== src/Probe/Path.antt =====
-- main_linux.go, `拼接进程路径`: the path of a process's file, with the zero byte that ends it.
use native.Mathlib.Nat.{pow-suc}
use dst_nucleus.Prelude.{
  ◌∷◌, [], Bool-cases, ℕ, Bytes, ◌<◌, codes, suc, ◌≡◌, ◌^◌, zero, ◌==◌, ◌++◌, true, refl, arith, ap,
  ◌∙◌, false, ◌/◌, append-nil, ◌+◌, ◌%◌, ltb, inl, ltb→lt, inr, ◌≤◌, sym, append_assoc,
}
use dst_nucleus.Prelude.Decimal.{append_uint}
use dst_nucleus.Prelude.Decimal.Rounds.{append_uint_last, append_uint_more}

-- The digits, from the last one to the first; the fuel is the room in `临时`.
unfoldable pub pid_digits : ℕ → ℕ → Bytes → Bytes
pid_digits zero n acc = acc
pid_digits (suc room) n acc = elim (n == 0) [
  | true ↦ acc
  | false ↦ pid_digits room (n / 10) ((b'0' + n % 10) ∷ acc)
]

-- What stands at the head of the buffer; the conversion of an int32 to uint32 keeps a pid that is
-- not negative.
unfoldable pub process_path : ℕ → Bytes → Bytes
unfolding pid_digits
process_path pid suffix = codes "/proc/" ++ (pid_digits 16 pid [] ++ (suffix ++ 0 ∷ []))

pid_digits_zero : (room : ℕ) (acc : Bytes) → pid_digits room 0 acc ≡ acc
unfolding pid_digits
pid_digits_zero zero acc = refl
pid_digits_zero (suc room) acc = refl

pid_digits-append_uint :
    (room n : ℕ) (acc : Bytes)
    → 0 < n
    → n < 10 ^ room
    → pid_digits room n acc ≡ append_uint n ++ acc
unfolding pid_digits
pid_digits-append_uint zero n acc h k = absurd (omega arith)
pid_digits-append_uint (suc room) n acc h k =
    let positive : (n == 0) ≡ false = ground arith in
    let bound : n / 10 < 10 ^ room = omega (arith, pow-suc 10 room) in
    elim (Bool-cases (ltb n 10)) [
      | inl e ↦
          let small : n < 10 = ltb→lt n 10 e in
          let gone : n / 10 ≡ 0 = omega arith in
          let digit : n % 10 ≡ n = omega arith in
          rw
            (
              positive,
              pid_digits,
              gone,
              pid_digits_zero room ((b'0' + n % 10) ∷ acc),
              append_uint_last n small,
            )
            (ap (λ x. (b'0' + x) ∷ acc) digit)
      | inr e ↦
          let large : 10 ≤ n = ground arith in
          rw (positive, pid_digits, append_uint_more n large)
            (pid_digits-append_uint room (n / 10) ((b'0' + n % 10) ∷ acc) (omega arith) bound
              ∙ sym (append_assoc (append_uint (n / 10)) ((b'0' + n % 10) ∷ []) acc))
    ]

-- For every positive int32 as the pid, the path is the one of the process's directory, its decimal text, the
-- suffix and the zero byte.
pub process_path-append_uint :
    (pid : ℕ) (suffix : Bytes)
    → 0 < pid
    → pid < 2147483648
    → process_path pid suffix ≡ codes "/proc/" ++ (append_uint pid ++ (suffix ++ 0 ∷ []))
unfolding process_path
process_path-append_uint pid suffix h k =
    ap (λ t. codes "/proc/" ++ (t ++ (suffix ++ 0 ∷ [])))
      (pid_digits-append_uint 16 pid [] h (omega arith) ∙ append-nil (append_uint pid))
