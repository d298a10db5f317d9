-- ===== src/Prelude/Int.antt =====
-- Signed integers over the native numbers, as far as differences of times need them.
use Prim.Native.Nat.{ℕ, suc, ◌-◌, ◌/◌}
use sawtai.Prelude.Tests.{leb, if◌then◌else◌}

-- `negsuc n` is -(n + 1).
pub data ℤ : Type 0 where
  pos : ℕ → ℤ
  negsuc : ℕ → ℤ

abbrev pub pos_part : ℤ → ℕ
pos_part (pos n) = n
pos_part (negsuc n) = 0

-- a - b, as an integer
abbrev pub sub_ℕ : ℕ → ℕ → ℤ
sub_ℕ a b = if leb b a then pos (a - b) else negsuc (b - a - 1)

-- `int(a / n)` of Python: division that rounds towards zero
abbrev pub trunc_div : ℤ → ℕ → ℤ
trunc_div (pos a) n = pos (a / n)
trunc_div (negsuc a) n = sub_ℕ 0 (suc a / n)
