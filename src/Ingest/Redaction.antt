-- ===== src/Ingest/Redaction.antt =====
-- `redact_pii`, `pseudonymize_author` and `identify_language`.
use Prim.Native.Char.{code}
use Prim.Native.String.{◌++◌}
use sawtai.Prelude.{
  ℕ, suc, ◌+◌, ◌*◌, String, Bool, ◌&&◌, ◌||◌, List, [], ◌∷◌, leb, ltb, ◌==◌, if◌then◌else◌,
}
use sawtai.Text.{take}
use sawtai.Session.{World}

-- the texts between the matches, with numbered labels in place of the matches
abbrev pub labelled : World → String → ℕ → List String → String
labelled w label index [] = ""
labelled w label index (piece ∷ pieces) =
    "<"
    ++ (label
        ++ ("_"
            ++ (w.engine.decimal index ++ (">" ++ (piece ++ labelled w label (suc index) pieces)))))

-- `pattern.sub(replacement, current)` for the n-th pattern
abbrev pub replace_matches : World → ℕ → String → String → String
replace_matches w n label current =
    let (first, pieces) = w.engine.between_matches n current in first ++ labelled w label 1 pieces

-- the redacted text
unfoldable pub redact_pii : World → String → String
redact_pii w value =
    replace_matches w 2 "PHONE"
      (replace_matches w 1 "EMAIL" (replace_matches w 0 "EMIRATES_ID" value))

unfoldable pub pseudonymize_author : World → String → String → String → String
pseudonymize_author w native_id tenant_code pepper =
    take 32 (w.engine.hmac_hex pepper (tenant_code ++ (":" ++ native_id)))

-- [\u0600-\u06FF]
abbrev pub is_arabic : ℕ → Bool
is_arabic c = leb 1536 c && leb c 1791

-- [A-Za-z]
abbrev pub is_latin : ℕ → Bool
is_latin c = (leb 65 c && leb c 90) || (leb 97 c && leb c 122)

-- the number of characters that satisfy a test
unfoldable pub count : (ℕ → Bool) → String → ℕ
count p String.[] = 0
count p (String.◌∷◌ c s) = let rest = count p s in if p (code c) then suc rest else rest

-- min(a, b) / total >= 0.12, both above 0
abbrev pub is_mixed : ℕ → ℕ → Bool
is_mixed a b = ltb 0 a && (ltb 0 b && leb ((a + b) * 12) ((if leb a b then a else b) * 100))

unfoldable pub language_of : ℕ → ℕ → String
language_of arabic latin =
    if arabic + latin == 0
    then "other"
    else if is_mixed arabic latin
    then "mixed"
    else if leb latin arabic
    then "ar"
    else "en"

-- the language, and the quotient of the Latin letters
unfoldable pub identify_language : String → String × (ℕ × ℕ)
unfolding count language_of
identify_language value =
    let arabic_count = count is_arabic value in
    let latin_count = count is_latin value in
    (language_of arabic_count latin_count, (latin_count, arabic_count + latin_count))
