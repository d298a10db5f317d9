-- ===== src/Text.antt =====
-- Python's texts as native strings: the few operations of `str` that the services use.
pub mod Words
pub mod WordLaws
use Prim.Native.Char.{code}
use Prim.Native.String.{[], ◌∷◌, ◌++◌ as ◌^^◌}
use text.Mathlib.Text.{starts_with}
use sawtai.Prelude.{ℕ, zero, suc, String, Bool, true, false, ◌&&◌, ◌||◌, ◌==◌, if◌then◌else◌}

-- `len(s)`
unfoldable pub length : String → ℕ
length [] = 0
length (c ∷ s) = suc (length s)

-- `s[:n]`
unfoldable pub take : ℕ → String → String
take zero s = []
take (suc n) [] = []
take (suc n) (c ∷ s) = c ∷ take n s

abbrev pub is_empty : String → Bool
is_empty [] = true
is_empty (c ∷ s) = false

module _ (is_space : ℕ → Bool) where
  unfoldable pub lstrip : String → String
  lstrip [] = []
  lstrip (c ∷ s) = let rest = lstrip s in if is_space (code c) then rest else c ∷ s

  unfoldable pub rstrip : String → String
  rstrip [] = []
  rstrip (c ∷ s) =
      let rest = rstrip s in if is_empty rest && is_space (code c) then [] else c ∷ rest

  -- `s.strip()`
  unfoldable pub strip : String → String
  unfolding lstrip rstrip
  strip s = rstrip (lstrip s)

-- `s.replace("\n", " ")`
unfoldable pub unfold_lines : String → String
unfold_lines [] = []
unfold_lines (c ∷ s) = if code c == 10 then " " ^^ unfold_lines s else c ∷ unfold_lines s

-- `word in s`
unfoldable pub contains : String → String → Bool
contains word [] = is_empty word
contains word (c ∷ s) = starts_with (c ∷ s) word || contains word s

-- `s.partition(c)[0]`, for the code point `c`
unfoldable pub before : ℕ → String → String
before k [] = []
before k (c ∷ s) = let rest = before k s in if code c == k then [] else c ∷ rest

has_code : ℕ → String → Bool
has_code k [] = false
has_code k (c ∷ s) = code c == k || has_code k s

-- `s.split(c, 1)[-1]`
unfoldable pub after_first : ℕ → String → String
unfolding has_code
after_first k [] = []
after_first k (c ∷ s) =
    let rest = after_first k s in
    if has_code k (c ∷ s) then (if code c == k then s else rest) else c ∷ s

-- `s.rsplit(c, 1)[-1]`
unfoldable pub after_last : ℕ → String → String
unfolding has_code
after_last k [] = []
after_last k (c ∷ s) =
    let rest = after_last k s in if has_code k s then rest else (if code c == k then s else c ∷ s)
