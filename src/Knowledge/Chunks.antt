-- ===== src/Knowledge/Chunks.antt =====
-- rag/service.py: `structure_chunks`, which cuts a document into sections of at most 180 words.
use Prim.Native.String.{String}
use text.Mathlib.Text.{starts_with}
use sawtai.Prelude.{
  ℕ, zero, suc, ◌+◌, Bool, Option, some, List, [], ◌∷◌, ◌++◌, length, take, drop, ltb, ◌==◌,
  if◌then◌else◌,
}
use sawtai.Text.{is_empty, lstrip, strip}
use sawtai.Text.Words.{split_lines, unify_newlines, join, words}

-- a section: its heading and its text
abbrev pub Section : Type 0
Section = Option String × String

-- `for start in range(start, len(words), 180)`, on fuel: the slices `words[start : start + 180]`
unfoldable pub slices {ℓ} : {A : Type ℓ} → ℕ → ℕ → List A → List (List A)
slices zero start all = []
slices (suc fuel) start all =
    let rest = slices fuel (start + 180) all in
    if ltb start (length all) then take 180 (drop start all) ∷ rest else []

-- the variables of the loop over the lines
pub record Outline : Type 0 where
  pub heading : Option String
  pub sections : List Section
  pub buffer : List String

-- `value or otherwise`
abbrev pub text_or : String → Option String → Option String
text_or t otherwise = if is_empty t then otherwise else some t

module _ (is_space : ℕ → Bool) where
  -- the sections with a text among the slices
  unfoldable pub sections_of : Option String → List (List String) → List Section
  sections_of heading [] = []
  sections_of heading (ws ∷ rest) =
      let text_value = strip is_space (join " " ws) in
      let more = sections_of heading rest in
      if is_empty text_value then more else (heading, text_value) ∷ more

  -- the sections of a paragraph
  unfoldable pub paragraph_sections : Option String → List String → List Section
  unfolding sections_of slices
  paragraph_sections heading buffer =
      let ws = words is_space (strip is_space (join "\n" buffer)) in
      sections_of heading (slices (length ws) 0 ws)

  unfoldable pub flush : Outline → Outline
  unfolding paragraph_sections
  flush o = record {
    heading = o.heading;
    sections = o.sections ++ paragraph_sections o.heading o.buffer;
    buffer = [];
  }

  -- one turn of the loop, on a line that is stripped
  unfoldable pub take_line : String → Outline → Outline
  unfolding flush
  take_line line o =
      if starts_with line "#"
      then record (flush o) {
        heading = text_or (strip is_space (lstrip (λ c. c == 35) line)) o.heading;
      }
      else (if is_empty line then flush o else record o { buffer = o.buffer ++ line ∷ [] })

  unfoldable pub take_lines : List String → Outline → Outline
  unfolding take_line
  take_lines [] o = o
  take_lines (raw_line ∷ rest) o = take_lines rest (take_line (strip is_space raw_line) o)

  unfoldable pub structure_chunks : String → Option String → List Section
  unfolding take_lines flush
  structure_chunks content default_heading =
      (flush (
        take_lines (split_lines (unify_newlines content))
          (record { heading = default_heading; sections = []; buffer = [] }))).sections
