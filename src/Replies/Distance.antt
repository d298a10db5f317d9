-- ===== src/Replies/Distance.antt =====
-- The number that `update_whatsapp_reply` stores as `edit_distance`.
use Prim.Native.Char.{code}
use Prim.Native.String.{[], ◌∷◌}
use sawtai.Prelude.{ℕ, ◌+◌, ◌-◌, String, ◌==◌, if◌then◌else◌}
use sawtai.Text.{length}

-- sum(left != right for left, right in zip(previous, normalized, strict=False))
unfoldable pub mismatches : String → String → ℕ
mismatches [] t = 0
mismatches (c ∷ s) [] = 0
mismatches (c ∷ s) (d ∷ t) = (if code c == code d then 0 else 1) + mismatches s t

-- abs(m - n)
abbrev pub gap : ℕ → ℕ → ℕ
gap m n = (m - n) + (n - m)

unfoldable pub edit_distance : String → String → ℕ
edit_distance previous normalized =
    mismatches previous normalized + gap (length previous) (length normalized)
