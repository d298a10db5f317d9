-- ===== src/Session/Outside.antt =====
-- What the knowledge base takes from libraries and from other servers: text normalisation, file
-- formats, the object store, the encoder and the reranker, and PostgreSQL's measures of similarity.
-- A score is a whole number of hundred-thousandths.
use sawtai.Prelude.{ℕ, String, Bool, Option, List}

-- a member of a ZIP archive
pub record Member : Type 0 where
  pub filename : String
  pub file_size : ℕ
  pub compress_size : ℕ

-- a paragraph of a DOCX file, with the number in its style "heading n"
pub record Paragraph : Type 0 where
  pub text : String
  pub heading : Option ℕ

-- a DOCX file: its paragraphs, and the cells of its tables, by rows
pub record Docx : Type 0 where
  pub paragraphs : List Paragraph
  pub tables : List (List (List String))

-- a PDF file: the texts of its pages, with none for a page whose text cannot be read
pub record Pdf : Type 0 where
  pub is_encrypted : Bool
  pub pages : List (Option String)

pub record Engine : Type 0 where
  -- `normalize_for_search`, over Unicode's NFKC and regular expressions
  pub normalize_for_search : String → String
  -- `value.encode("utf-8")`, `digest.hex()`, and the day of a time
  pub utf8 : String → List ℕ
  pub hex : List ℕ → String
  pub day : ℕ → ℕ
  -- `date.isoformat()`, and `str(n)`
  pub iso_date : ℕ → String
  pub decimal : ℕ → String
  -- whether the n-th of INJECTION_PATTERNS is found in a text
  pub pattern_search : ℕ → String → Bool
  -- the texts before, between and after the matches of the n-th of EMIRATES_ID, EMAIL and PHONE
  pub between_matches : ℕ → String → String × List String
  -- HMAC-SHA256 in hexadecimal, by its key, and the 8 bytes of BLAKE2b as a number
  pub hmac_hex : String → String → String
  pub blake64 : String → ℕ
  -- the regular expression of `sanitize_filename` on the stripped name, and `Path.suffix`
  pub clean_name : String → String
  pub suffix : String → String
  -- the formats of files: none where the library raises
  pub decode_utf8 : List ℕ → Option String
  pub zip_members : List ℕ → Option (List Member)
  pub docx : List ℕ → Option Docx
  pub pdf : List ℕ → Option Pdf
  -- the pages that Tesseract reads, by their number
  pub ocr : List ℕ → ℕ → Option (List String)
  -- the n-th call of the object store: whether a write succeeds, and what a read returns
  pub put_object : ℕ → String → List ℕ → Bool
  pub get_object : ℕ → String → Option (List ℕ)
  -- the n-th call of the encoder and of the reranker, with the name of the model; none on an
  -- error of HTTP or a malformed reply
  pub encoder : ℕ → List String → Option (List (List ℕ) × String)
  pub reranker : ℕ → String → List String → Option (List ℕ × String)
  pub hash_embedding : String → List ℕ
  -- pg_trgm's similarity, the greater of 0 and 1 - <=>, whether a vector is zero, and the logistic function
  -- of a score that is clipped to [-20, 20]
  pub similarity : String → String → ℕ
  pub closeness : List ℕ → List ℕ → ℕ
  pub is_zero_vector : List ℕ → Bool
  pub logistic : ℕ → ℕ
