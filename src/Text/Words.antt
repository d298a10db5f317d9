-- ===== src/Text/Words.antt =====
-- Texts cut into lines and words, as `str.split` and `str.join` of Python do it.
use Prim.Native.Char.{code}
use Prim.Native.String.{String, ◌++◌ as ◌^^◌}
use sawtai.Prelude.{ℕ, Bool, List, [], ◌∷◌, ◌==◌, if◌then◌else◌}
use sawtai.Text.{is_empty}

-- a word in front of others, if it is one
abbrev pub add_word : String → List String → List String
add_word w ws = if is_empty w then ws else w ∷ ws

-- the first line, and those after it
unfoldable pub cut_lines : String → String × List String
cut_lines String.[] = ("", [])
cut_lines (String.◌∷◌ c s) =
    let (line, rest) = cut_lines s in
    if code c == 10 then ("", line ∷ rest) else (String.◌∷◌ c line, rest)

-- `s.split("\n")`
unfoldable pub split_lines : String → List String
unfolding cut_lines
split_lines s = let (line, rest) = cut_lines s in line ∷ rest

-- `s.replace("\r\n", "\n")`
unfoldable pub unify_newlines : String → String
unify_newlines String.[] = ""
unify_newlines (String.◌∷◌ c String.[]) = String.◌∷◌ c ""
unify_newlines (String.◌∷◌ c (String.◌∷◌ d s)) =
    let rest = unify_newlines (String.◌∷◌ d s) in
    if code c == 13 then (if code d == 10 then rest else String.◌∷◌ c rest) else String.◌∷◌ c rest

-- `c.join(texts)`, for a text `c`
unfoldable pub join : String → List String → String
join sep [] = ""
join sep (s ∷ []) = s
join sep (s ∷ (t ∷ ts)) = s ^^ (sep ^^ join sep (t ∷ ts))

module _ (is_space : ℕ → Bool) where
  -- the word that the text begins with, if it does, and the words after it
  unfoldable pub scan : String → String × List String
  scan String.[] = ("", [])
  scan (String.◌∷◌ c s) =
      let (w, ws) = scan s in
      if is_space (code c) then ("", add_word w ws) else (String.◌∷◌ c w, ws)

  -- `s.split()`
  unfoldable pub words : String → List String
  unfolding scan
  words s = let (w, ws) = scan s in add_word w ws
