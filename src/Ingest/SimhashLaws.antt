-- ===== src/Ingest/SimhashLaws.antt =====
-- `simhash64` fits the column BIGINT.
use Prim.Native.String.{String}
use native.Mathlib.Numerals.{unary_clauses}
use sawtai.Prelude.{ℕ, zero, suc, ◌+◌, ◌^◌, ◌<◌, ◌≡◌, Bool, leb, arith, Bool-cases, inl, inr}
use sawtai.Prelude.Int.{ℤ, pos, negsuc}
use sawtai.Session.{World}
use sawtai.Ingest.Simhash.{tokens, is_up, sum_bits, to_signed, simhash64}

power : (n : ℕ) → 2 ^ suc n ≡ 2 ^ n + 2 ^ n
power n = simp unary_clauses (omega arith)

sum_bits-bound : (up : ℕ → Bool) (n : ℕ) → sum_bits up n < 2 ^ n
unfolding sum_bits
sum_bits-bound up zero = omega arith
sum_bits-bound up (suc n) = ground (arith, sum_bits-bound up n, power n)

-- from - 2 ^ 63 up to 2 ^ 63 - 1
abbrev pub IsInt64 : ℤ → Type 0
IsInt64 (pos n) = n < 2 ^ 63
IsInt64 (negsuc n) = n < 2 ^ 63

to_signed-IsInt64 : (n : ℕ) → n < 2 ^ 64 → IsInt64 (to_signed n)
to_signed-IsInt64 n h = elim (Bool-cases (leb (2 ^ 63) n)) [
  | inl high ↦ rw high (ground (arith, high, h))
  | inr low ↦ rw low (ground (arith, low))
]

-- The similarity hash of every text, the empty one included, is a signed number of 64 bits.
pub simhash64-IsInt64 : (w : World) (value : String) → IsInt64 (simhash64 w value)
unfolding simhash64
simhash64-IsInt64 w value =
    to_signed-IsInt64 (sum_bits (is_up w (tokens value)) 64)
      (sum_bits-bound (is_up w (tokens value)) 64)
