-- ===== src/Knowledge/ChunkLaws.antt =====
-- What `structure_chunks` keeps of a document, and how long its sections are.
use Prim.Native.String.{String}
use text.Mathlib.Text.{starts_with}
use mathlib.Core.List.{flat_map, append_assoc, append-nil}
use sawtai.Prelude.{
  ℕ, ◌≤◌, ◌≡◌, refl, ◌∙◌, sym, ap, Bool, true, Option, List, [], ◌∷◌, ◌++◌, length, All, arith,
  if◌then◌else◌, Bool-cases, inl, inr,
}
use sawtai.Prelude.Slicing.{All-append}
use sawtai.Text.{is_empty, lstrip, rstrip, strip}
use sawtai.Text.Words.{split_lines, unify_newlines, join, scan, words}
use sawtai.Text.WordLaws.{IsWord, words-IsWord, words-join, words-strip, flat_map-words}
use sawtai.Knowledge.Chunks.{
  Section, Outline, sections_of, paragraph_sections, flush, take_line, take_lines, structure_chunks,
}
use sawtai.Knowledge.SliceLaws.{joined, joined-slices, IsSlice, All-slices}

module _ (is_space : ℕ → Bool) where
  abbrev pub section_words : List Section → List String
  section_words [] = []
  section_words (s ∷ rest) = words is_space s.1 ++ section_words rest

  -- between 1 and 180 words
  abbrev pub IsShort : Section → Type 0
  IsShort s = (1 ≤ length (words is_space s.1)) × (length (words is_space s.1) ≤ 180)

  section_words-append :
      (ss ts : List Section) → section_words (ss ++ ts) ≡ section_words ss ++ section_words ts
  section_words-append [] ts = refl
  section_words-append (s ∷ ss) ts =
      rw (section_words-append ss ts) (sym (append_assoc (words is_space s.1) _ _))

  module _ (blank : is_space 32 ≡ true) where
    -- the text of a slice of words has these words
    words-slice :
        (ws : List String)
        → All (IsWord is_space) ws
        → words is_space (strip is_space (join " " ws)) ≡ ws
    words-slice ws h =
        words-strip is_space (join " " ws)
        ∙ (words-join is_space _ ws blank ∙ flat_map-words is_space ws h)

    no_words : (t : String) → is_empty t ≡ true → words is_space t ≡ []
    unfolding words scan
    no_words String.[] h = refl
    no_words (String.◌∷◌ c t) h = cc

    empty-slice :
        (ws : List String)
        → is_empty (strip is_space (join " " ws)) ≡ true
        → All (IsWord is_space) ws
        → ws ≡ []
    empty-slice ws e h = sym (words-slice ws h) ∙ no_words (strip is_space (join " " ws)) e

    section-words :
        (heading : Option String) (wss : List (List String))
        → All (IsSlice (IsWord is_space)) wss
        → section_words (sections_of is_space heading wss) ≡ joined wss
    unfolding sections_of
    section-words heading [] h = refl
    section-words heading (ws ∷ wss) h =
        elim (Bool-cases (is_empty (strip is_space (join " " ws)))) [
          | inl none_left ↦
              rw (none_left, section-words heading wss h.1)
                (ap (λ xs. xs ++ joined wss) (sym (empty-slice ws none_left h.0.0)))
          | inr there ↦ rw (there, words-slice ws h.0.0, section-words heading wss h.1) refl
        ]

    strip-nil : strip is_space (join " " []) ≡ ""
    unfolding strip lstrip rstrip join
    strip-nil = refl

    section-IsShort :
        (heading : Option String) (wss : List (List String))
        → All (IsSlice (IsWord is_space)) wss
        → All IsShort (sections_of is_space heading wss)
    unfolding sections_of
    section-IsShort heading [] h = tt
    section-IsShort heading ([] ∷ wss) h = rw (strip-nil) (section-IsShort heading wss h.1)
    section-IsShort heading ((w ∷ ws) ∷ wss) h =
        elim (Bool-cases (is_empty (strip is_space (join " " (w ∷ ws))))) [
          | inl none_left ↦ rw none_left (section-IsShort heading wss h.1)
          | inr there ↦
              rw (there, words-slice (w ∷ ws) h.0.0)
                ((omega arith, h.0.1), section-IsShort heading wss h.1)
        ]

    module _ (newline : is_space 10 ≡ true) where
      paragraph-words :
          (heading : Option String) (buffer : List String)
          → section_words (paragraph_sections is_space heading buffer)
            ≡ flat_map (words is_space) buffer
      unfolding paragraph_sections
      paragraph-words heading buffer =
          let ws = words is_space (strip is_space (join "\n" buffer)) in
          section-words heading _
            (All-slices (IsWord is_space) (length ws) 0 ws (words-IsWord is_space _))
          ∙ (joined-slices (length ws) 0 ws (omega arith)
              ∙ (words-strip is_space (join "\n" buffer) ∙ words-join is_space _ buffer newline))

      paragraph-IsShort :
          (heading : Option String) (buffer : List String)
          → All IsShort (paragraph_sections is_space heading buffer)
      unfolding paragraph_sections
      paragraph-IsShort heading buffer =
          let ws = words is_space (strip is_space (join "\n" buffer)) in
          section-IsShort heading _
            (All-slices (IsWord is_space) (length ws) 0 ws (words-IsWord is_space _))

      -- the words that the loop has read
      outline_words : Outline → List String
      outline_words o = section_words o.sections ++ flat_map (words is_space) o.buffer

      flush-words : (o : Outline) → section_words (flush is_space o).sections ≡ outline_words o
      unfolding flush outline_words
      flush-words o =
          section_words-append o.sections _
          ∙ ap (λ ws. section_words o.sections ++ ws) (paragraph-words o.heading o.buffer)

      -- the words of the lines that are no headings
      abbrev pub body_words : List String → List String
      body_words [] = []
      body_words (raw_line ∷ rest) =
          if starts_with (strip is_space raw_line) "#"
          then body_words rest
          else words is_space raw_line ++ body_words rest

      flat_map-append :
          (xs : List String) (x : String)
          → flat_map (words is_space) (xs ++ x ∷ [])
            ≡ flat_map (words is_space) xs ++ words is_space x
      unfolding flat_map
      flat_map-append [] x = append-nil (words is_space x)
      flat_map-append (y ∷ xs) x =
          rw (flat_map-append xs x) (sym (append_assoc (words is_space y) _ _))

      outline_words-flush : (o : Outline) → outline_words (flush is_space o) ≡ outline_words o
      unfolding outline_words flat_map flush
      outline_words-flush o = append-nil _ ∙ (flush-words o)

      words-blank :
          (line : String) → is_empty (strip is_space line) ≡ true → words is_space line ≡ []
      words-blank line h = sym (words-strip is_space line) ∙ no_words (strip is_space line) h

      take_line-words :
          (raw_line : String) (o : Outline) (rest : List String)
          → outline_words (take_line is_space (strip is_space raw_line) o) ++ body_words rest
            ≡ outline_words o ++ body_words (raw_line ∷ rest)
      unfolding take_line outline_words
      take_line-words raw_line o rest =
          elim (Bool-cases (starts_with (strip is_space raw_line) "#")) [
            | inl head ↦ rw head (ap (λ ws. ws ++ body_words rest) (outline_words-flush o))
            | inr body ↦ elim (Bool-cases (is_empty (strip is_space raw_line))) [
              | inl blank_line ↦
                  rw (body, blank_line, words-blank raw_line blank_line)
                    (ap (λ ws. ws ++ body_words rest) (outline_words-flush o))
              | inr there ↦
                  rw
                    (
                      body,
                      there,
                      flat_map-append o.buffer (strip is_space raw_line),
                      words-strip is_space raw_line,
                    )
                    (simp append_assoc)
            ]
          ]

      take_lines-words :
          (lines : List String) (o : Outline)
          → outline_words (take_lines is_space lines o) ≡ outline_words o ++ body_words lines
      unfolding take_lines
      take_lines-words [] o = sym (append-nil (outline_words o))
      take_lines-words (raw_line ∷ rest) o =
          take_lines-words rest (take_line is_space (strip is_space raw_line) o)
          ∙ take_line-words raw_line o rest

      -- The sections of a document hold the words of its lines, headings left out, each
      -- once and in order, if the newline and the space count as white space.
      pub structure_chunks-words :
          (content : String) (default_heading : Option String)
          → section_words (structure_chunks is_space content default_heading)
            ≡ body_words (split_lines (unify_newlines content))
      unfolding structure_chunks outline_words flat_map
      structure_chunks-words content default_heading =
          flush-words _ ∙ take_lines-words (split_lines (unify_newlines content)) _

      flush-IsShort :
          (o : Outline) → All IsShort o.sections → All IsShort (flush is_space o).sections
      unfolding flush
      flush-IsShort o h = All-append IsShort o.sections _ h (paragraph-IsShort o.heading o.buffer)

      take_line-IsShort :
          (line : String) (o : Outline)
          → All IsShort o.sections
          → All IsShort (take_line is_space line o).sections
      unfolding take_line
      take_line-IsShort line o h = elim (Bool-cases (starts_with line "#")) [
        | inl head ↦ rw head (flush-IsShort o h)
        | inr body ↦ elim (Bool-cases (is_empty line)) [
          | inl blank_line ↦ rw (body, blank_line) (flush-IsShort o h)
          | inr there ↦ rw (body, there) h
        ]
      ]

      take_lines-IsShort :
          (lines : List String) (o : Outline)
          → All IsShort o.sections
          → All IsShort (take_lines is_space lines o).sections
      unfolding take_lines
      take_lines-IsShort [] o h = h
      take_lines-IsShort (raw_line ∷ rest) o h =
          take_lines-IsShort rest _ (take_line-IsShort (strip is_space raw_line) o h)

      -- Every section of a document has between 1 and 180 words, if the newline and the
      -- space count as white space.
      pub structure_chunks-IsShort :
          (content : String) (default_heading : Option String)
          → All IsShort (structure_chunks is_space content default_heading)
      unfolding structure_chunks
      structure_chunks-IsShort content default_heading =
          flush-IsShort _ (take_lines-IsShort (split_lines (unify_newlines content)) _ tt)
