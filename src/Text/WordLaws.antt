-- ===== src/Text/WordLaws.antt =====
-- How splitting into words goes with stripping, joining and appending.
use Prim.Native.Char.{Char, code}
use Prim.Native.String.append
use Prim.Native.String.{String, ◌++◌ as ◌^^◌}
use mathlib.Core.List.{flat_map, append-nil}
use sawtai.Prelude.{
  ℕ, ◌≡◌, refl, ◌∙◌, ap, sym, subst, Bool, true, false, ◌&&◌, List, [], ◌∷◌, ◌++◌, All,
  if◌then◌else◌, Bool-cases, inl, inr,
}
use sawtai.Text.{is_empty, lstrip, rstrip, strip}
use sawtai.Text.Words.{add_word, scan, words, join}

add_word-append : (w : String) (xs ys : List String) → add_word w (xs ++ ys) ≡ add_word w xs ++ ys
add_word-append String.[] xs ys = refl
add_word-append (String.◌∷◌ c w) xs ys = refl

module _ (is_space : ℕ → Bool) where
  scan-nil : scan is_space "" ≡ ("", [])
  unfolding scan
  scan-nil = refl

  scan-space :
      (c : Char) (s : String)
      → is_space (code c) ≡ true
      → scan is_space (String.◌∷◌ c s) ≡ ("", words is_space s)
  unfolding scan words
  scan-space c s h = rw h refl

  scan-letter :
      (c : Char) (s : String)
      → is_space (code c) ≡ false
      → scan is_space (String.◌∷◌ c s) ≡ (String.◌∷◌ c (scan is_space s).0, (scan is_space s).1)
  unfolding scan
  scan-letter c s h = rw h refl

  words-space :
      (c : Char) (s : String)
      → is_space (code c) ≡ true
      → words is_space (String.◌∷◌ c s) ≡ words is_space s
  unfolding words
  words-space c s h = rw (scan-space c s h) refl

  scan-append :
      (s t : String) (c : Char)
      → is_space (code c) ≡ true
      → scan is_space (s ^^ String.◌∷◌ c t)
        ≡ ((scan is_space s).0, (scan is_space s).1 ++ words is_space t)
  unfolding words
  scan-append String.[] t c h =
      rw (append.nil (String.◌∷◌ c t), scan-space c t h)
        (ap (λ p. (p.0, p.1 ++ words is_space t)) (sym scan-nil))
  scan-append (String.◌∷◌ d s) t c h = elim (Bool-cases (is_space (code d))) [
    | inl space ↦
        rw
          (
            append.cons d s (String.◌∷◌ c t),
            scan-space d s space,
            scan-space d (s ^^ String.◌∷◌ c t) space,
          )
          (ap (λ p. ("", add_word p.0 p.1)) (scan-append s t c h)
            ∙ ap (λ ws. ("", ws))
                (add_word-append (scan is_space s).0 (scan is_space s).1 (words is_space t)))
    | inr letter ↦
        rw
          (
            append.cons d s (String.◌∷◌ c t),
            scan-letter d s letter,
            scan-letter d (s ^^ String.◌∷◌ c t) letter,
            scan-append s t c h,
          )
          refl
  ]

  -- a separator ends a word
  pub words-append :
      (s t : String) (c : Char)
      → is_space (code c) ≡ true
      → words is_space (s ^^ String.◌∷◌ c t) ≡ words is_space s ++ words is_space t
  unfolding words
  words-append s t c h =
      ap (λ p. add_word p.0 p.1) (scan-append s t c h)
      ∙ add_word-append (scan is_space s).0 (scan is_space s).1 (words is_space t)

  pub words-lstrip : (s : String) → words is_space (lstrip is_space s) ≡ words is_space s
  unfolding lstrip
  words-lstrip String.[] = refl
  words-lstrip (String.◌∷◌ c s) = elim (Bool-cases (is_space (code c))) [
    | inl space ↦ rw (space, words-space c s space) (words-lstrip s)
    | inr letter ↦ rw letter refl
  ]

  scan-cong :
      (c : Char) (r s : String)
      → scan is_space r ≡ scan is_space s
      → scan is_space (String.◌∷◌ c r) ≡ scan is_space (String.◌∷◌ c s)
  unfolding scan
  scan-cong c r s e =
      ap (λ p. if is_space (code c) then ("", add_word p.0 p.1) else (String.◌∷◌ c p.0, p.1)) e

  -- one step of `rstrip`
  scan-trim :
      (c : Char) (r s : String) (b : Bool)
      → is_space (code c) ≡ b
      → scan is_space r ≡ scan is_space s
      → scan is_space (if is_empty r && b then "" else String.◌∷◌ c r)
        ≡ scan is_space (String.◌∷◌ c s)
  unfolding words
  scan-trim c String.[] s true space e =
      scan-nil ∙ (ap (λ p. ("", add_word p.0 p.1)) (sym scan-nil ∙ e) ∙ sym (scan-space c s space))
  scan-trim c String.[] s false letter e = scan-cong c "" s e
  scan-trim c (String.◌∷◌ d r) s b h e = scan-cong c (String.◌∷◌ d r) s e

  scan-rstrip : (s : String) → scan is_space (rstrip is_space s) ≡ scan is_space s
  unfolding rstrip
  scan-rstrip String.[] = refl
  scan-rstrip (String.◌∷◌ c s) =
      scan-trim c (rstrip is_space s) s (is_space (code c)) refl (scan-rstrip s)

  pub words-strip : (s : String) → words is_space (strip is_space s) ≡ words is_space s
  unfolding words strip
  words-strip s = ap (λ p. add_word p.0 p.1) (scan-rstrip (lstrip is_space s)) ∙ words-lstrip s

  -- one word
  abbrev pub IsWord : String → Type 0
  IsWord w = words is_space w ≡ w ∷ []

  scan-word : (s : String) → scan is_space (scan is_space s).0 ≡ ((scan is_space s).0, [])
  scan-word String.[] = rw (scan-nil, scan-nil) refl
  scan-word (String.◌∷◌ c s) = elim (Bool-cases (is_space (code c))) [
    | inl space ↦ rw (scan-space c s space, scan-nil) refl
    | inr letter ↦
        rw (scan-letter c s letter, scan-letter c (scan is_space s).0 letter, scan-word s) refl
  ]

  add_word-IsWord :
      (w : String) (ws : List String)
      → scan is_space w ≡ (w, [])
      → All IsWord ws
      → All IsWord (add_word w ws)
  unfolding words
  add_word-IsWord String.[] ws e h = h
  add_word-IsWord (String.◌∷◌ c w) ws e h = (ap (λ p. add_word p.0 p.1) e, h)

  scan-IsWord : (s : String) → All IsWord (scan is_space s).1
  unfolding words
  scan-IsWord String.[] = subst (λ p. All IsWord p.1) (sym scan-nil) tt
  scan-IsWord (String.◌∷◌ c s) = elim (Bool-cases (is_space (code c))) [
    | inl space ↦ rw (scan-space c s space) (add_word-IsWord _ _ (scan-word s) (scan-IsWord s))
    | inr letter ↦ rw (scan-letter c s letter) (scan-IsWord s)
  ]

  pub words-IsWord : (s : String) → All IsWord (words is_space s)
  unfolding words
  words-IsWord s = add_word-IsWord _ _ (scan-word s) (scan-IsWord s)

  -- lines or words, put together with a separator, have the words of each
  pub words-join :
      (c : Char) (ss : List String)
      → is_space (code c) ≡ true
      → words is_space (join (String.◌∷◌ c "") ss) ≡ flat_map (words is_space) ss
  unfolding words join flat_map
  words-join c [] h = ap (λ p. add_word p.0 p.1) scan-nil
  words-join c (s ∷ []) h = sym (append-nil (words is_space s))
  words-join c (s ∷ (t ∷ ts)) h =
      rw (append.cons c "" _, append.nil _, words-append s _ c h)
        (ap (λ ws. words is_space s ++ ws) (words-join c (t ∷ ts) h))

  pub flat_map-words : (ws : List String) → All IsWord ws → flat_map (words is_space) ws ≡ ws
  unfolding flat_map
  flat_map-words [] h = refl
  flat_map-words (w ∷ ws) h = rw (h.0, flat_map-words ws h.1) refl
