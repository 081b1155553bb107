-- ===== src/Prelude/Int.antt =====
-- Signed integers over the native numbers, as an `i64` field of the program holds them.
use Prim.Native.Nat.{ℕ, suc, ◌+◌, ◌-◌}

-- `negsuc n` is -(n + 1).
pub data ℤ : Type 0 where
  pos : ℕ → ℤ
  negsuc : ℕ → ℤ

-- `n + z` and `n - z`, held at 0 from below (`clamp(0, ..)` of the program's `i128` sums).
abbrev pub add_held : ℕ → ℤ → ℕ
add_held n (pos k) = n + k
add_held n (negsuc k) = n - suc k

abbrev pub sub_held : ℕ → ℤ → ℕ
sub_held n (pos k) = n - k
sub_held n (negsuc k) = n + suc k
