-- ===== src/Console/Output.antt =====
-- main_linux.go and main_windows.go, `控制台合并输出` and `控制台合并输出换行`: the pieces of a message are written with one
-- system call.
use dst_nucleus.Prelude.{
  List, [], ◌∷◌, ◌++◌, ℕ, zero, suc, Bool, Bytes, Option, none, some, joined, length, ◌==◌, ◌≡◌,
  ◌≤◌, refl, ap, arith, if◌then◌else◌, true,
}

-- The pieces that are not empty, up to so many: the vector on Linux.
unfoldable pub io_vector : ℕ → List Bytes → List Bytes
io_vector n [] = []
io_vector n ([] ∷ pieces) = io_vector n pieces
io_vector zero ((c ∷ cs) ∷ pieces) = []
io_vector (suc n) ((c ∷ cs) ∷ pieces) = (c ∷ cs) ∷ io_vector n pieces

-- What one `writev` writes, `none` where there is no call.
unfoldable pub merged_linux : List Bytes → Option Bytes
unfolding io_vector
merged_linux pieces =
    let vector = io_vector 64 pieces in if length vector == 0 then none else some (joined vector)

unfoldable pub merged_line_linux : List Bytes → Bytes
unfolding io_vector
merged_line_linux pieces = joined (io_vector 63 pieces) ++ b'\n' ∷ []

-- The same on Windows, through a buffer; without a handle nothing is written.
unfoldable pub merged_windows : Bool → List Bytes → Option Bytes
merged_windows handle pieces =
    if handle then (if length (joined pieces) == 0 then none else some (joined pieces)) else none

unfoldable pub merged_line_windows : Bool → List Bytes → Option Bytes
merged_line_windows handle pieces =
    if handle then some (joined pieces ++ b'\r' ∷ b'\n' ∷ []) else none

joined-io_vector :
    (n : ℕ) (pieces : List Bytes) → length pieces ≤ n → joined (io_vector n pieces) ≡ joined pieces
unfolding io_vector
joined-io_vector n [] h = refl
joined-io_vector n ([] ∷ pieces) h = joined-io_vector n pieces (omega arith)
joined-io_vector zero ((c ∷ cs) ∷ pieces) h = ground arith
joined-io_vector (suc n) ((c ∷ cs) ∷ pieces) h =
    ap (λ t. (c ∷ cs) ++ t) (joined-io_vector n pieces (omega arith))

-- The vector is empty just if its text is.
io_vector_empty :
    (n : ℕ) (pieces : List Bytes)
    → (length (io_vector n pieces) == 0) ≡ (length (joined (io_vector n pieces)) == 0)
unfolding io_vector
io_vector_empty n [] = refl
io_vector_empty n ([] ∷ pieces) = io_vector_empty n pieces
io_vector_empty zero ((c ∷ cs) ∷ pieces) = refl
io_vector_empty (suc n) ((c ∷ cs) ∷ pieces) = ground arith

-- A message of at most 63 pieces is written with the same text on both systems, the end of a line apart:
-- no piece is left out, however many of them are empty, and nothing is written where all of them are.
pub merged-linux_windows :
    (pieces : List Bytes)
    → length pieces ≤ 63
    → (merged_linux pieces ≡ merged_windows true pieces)
      × (merged_line_linux pieces ≡ joined pieces ++ b'\n' ∷ [])
      × (merged_line_windows true pieces ≡ some (joined pieces ++ b'\r' ∷ b'\n' ∷ []))
unfolding merged_linux merged_windows merged_line_linux merged_line_windows
merged-linux_windows pieces h =
    let whole : joined (io_vector 64 pieces) ≡ joined pieces =
      joined-io_vector 64 pieces (omega arith) in
    (
      rw (io_vector_empty 64 pieces, whole) refl,
      ap (λ t. t ++ b'\n' ∷ []) (joined-io_vector 63 pieces h),
      refl,
    )
