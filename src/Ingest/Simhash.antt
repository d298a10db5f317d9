-- ===== src/Ingest/Simhash.antt =====
-- `simhash64`: a signed number of 64 bits, by the votes of the hashes of all three characters in a row.
use Prim.Native.String.{String}
use sawtai.Prelude.{
  ℕ, zero, suc, ◌+◌, ◌-◌, ◌/◌, ◌%◌, ◌^◌, Bool, List, [], ◌∷◌, leb, ◌==◌, if◌then◌else◌,
}
use sawtai.Prelude.Int.{ℤ, pos, negsuc}
use sawtai.Text.{length, take}
use sawtai.Session.{World}

-- `value[index:]`
unfoldable pub skip : ℕ → String → String
skip zero s = s
skip (suc n) String.[] = ""
skip (suc n) (String.◌∷◌ c s) = skip n s

-- `[value[index : index + 3] for index in range(...)]`, for `n` more indices from `index`
unfoldable pub tokens_from : String → ℕ → ℕ → List String
unfolding skip
tokens_from value index zero = []
tokens_from value index (suc n) = take 3 (skip index value) ∷ tokens_from value (suc index) n

-- range(max(1, len(value) - 2))
unfoldable pub tokens : String → List String
unfolding tokens_from
tokens value = let n = length value - 2 in tokens_from value 0 (if leb n 1 then 1 else n)

-- hashed & (1 << bit)
abbrev pub has_bit : ℕ → ℕ → Bool
has_bit bit hashed = (hashed / 2 ^ bit) % 2 == 1

-- the votes for and against a bit: vector[bit] is their difference
unfoldable pub votes : World → ℕ → List String → ℕ × ℕ
votes w bit [] = (0, 0)
votes w bit (token ∷ more) =
    let (ups, downs) = votes w bit more in
    if has_bit bit (w.engine.blake64 token) then (suc ups, downs) else (ups, suc downs)

-- vector[bit] >= 0
unfoldable pub is_up : World → List String → ℕ → Bool
unfolding votes
is_up w all bit = let (ups, downs) = votes w bit all in leb downs ups

-- sum(1 << bit for bit in range(n) if ...)
unfoldable pub sum_bits : (ℕ → Bool) → ℕ → ℕ
sum_bits up zero = 0
sum_bits up (suc n) = let rest = sum_bits up n in if up n then rest + 2 ^ n else rest

-- unsigned - (1 << 64) if unsigned >= (1 << 63) else unsigned
abbrev pub to_signed : ℕ → ℤ
to_signed unsigned = if leb (2 ^ 63) unsigned then negsuc (2 ^ 64 - unsigned - 1) else pos unsigned

unfoldable pub simhash64 : World → String → ℤ
unfolding tokens is_up sum_bits
simhash64 w value = to_signed (sum_bits (is_up w (tokens value)) 64)
