-- ===== src/Knowledge/Extraction.antt =====
-- rag/ingestion.py: the text of an uploaded file.
use Prim.Native.String.{◌++◌}
use text.Mathlib.Text.{◌==◌ as str_eq}
use sawtai.Prelude.{
  ℕ, zero, suc, ◌*◌, String, Bool, ◌&&◌, ◌||◌, Option, none, some, List, [], ◌∷◌, length, ltb, leb,
  if◌then◌else◌,
}
use mathlib.Core.List.{◌++◌ as ◌+++◌}
use sawtai.Text
use sawtai.Text.{is_empty, strip}
use sawtai.Text.Words.{join}
use sawtai.Schema.{Bytes}
use sawtai.Session.{
  World, Paragraph, Exec, ingestion_error, ◌>>=◌, ◌>>◌, pure, raise_if, require_row, gets,
}
use sawtai.Knowledge.Uploads.{ValidatedUpload}

pub record ExtractionResult : Type 0 where
  pub text : String
  pub method : String
  pub page_count : Option ℕ
  pub warnings : List String

unfoldable pub extract_text : World → Bytes → String → Exec ExtractionResult
extract_text w content extension = do
  value ←
      require_row (w.engine.decode_utf8 content)
        (ingestion_error "encoding_error" "Text and Markdown files must use UTF-8 encoding")
  raise_if (ltb (Text.length (strip w.is_space value)) 20)
      (ingestion_error "insufficient_text" "The file does not contain enough readable text")
  pure (record {
    text = strip w.is_space value;
    method = if str_eq extension ".md" then "markdown" else "plain_text";
    page_count = none;
    warnings = [];
  })

-- `"#" * min(n, 6)`
abbrev pub hashes : ℕ → ℕ → String
hashes zero n = ""
hashes (suc most) zero = ""
hashes (suc most) (suc n) = "#" ++ hashes most n

-- the line of a paragraph: a heading begins with its signs
abbrev pub paragraph_line : Option ℕ → String → String
paragraph_line none value = value
paragraph_line (some n) value = hashes 6 n ++ (" " ++ value)

-- the texts of a list that are not empty when stripped
unfoldable pub present : (ℕ → Bool) → List String → List String
present is_space [] = []
present is_space (t ∷ ts) =
    let rest = present is_space ts in
    if is_empty (strip is_space t) then rest else strip is_space t ∷ rest

unfoldable pub paragraph_lines : (ℕ → Bool) → List Paragraph → List String
paragraph_lines is_space [] = []
paragraph_lines is_space (p ∷ ps) =
    let rest = paragraph_lines is_space ps in
    let value = strip is_space p.text in
    if is_empty value then rest else paragraph_line p.heading value ∷ rest

unfoldable pub row_lines : (ℕ → Bool) → List (List String) → List String
unfolding present
row_lines is_space [] = []
row_lines is_space (cells ∷ more) =
    let rest = row_lines is_space more in
    let values = present is_space cells in
    if ltb 0 (length values) then join " | " values ∷ rest else rest

unfoldable pub table_lines : (ℕ → Bool) → List (List (List String)) → List String
unfolding row_lines
table_lines is_space [] = []
table_lines is_space (t ∷ ts) = row_lines is_space t +++ table_lines is_space ts

unfoldable pub extract_docx : World → Bytes → Exec ExtractionResult
extract_docx w content = do
  document ←
      require_row (w.engine.docx content)
        (ingestion_error "docx_parse_failed" "The DOCX document could not be parsed")
  let lines =
      paragraph_lines w.is_space document.paragraphs +++ table_lines w.is_space document.tables
  let extracted = strip w.is_space (join "\n\n" lines)
  raise_if (ltb (Text.length extracted) 20) (
      ingestion_error "insufficient_text" "The DOCX document does not contain enough readable text")
  pure (record { text = extracted; method = "docx_structure"; page_count = none; warnings = [] })

unfoldable pub ocr_pdf : World → Bytes → ℕ → Exec String
ocr_pdf w content page_count = do
  values ←
      require_row (w.engine.ocr content page_count)
        (ingestion_error "ocr_failed" "Arabic OCR processing failed")
  pure (strip w.is_space (join "\n\n" (present w.is_space values)))

abbrev pub scanned : World → Bytes → ℕ → Exec ExtractionResult
scanned w content page_count = do
  raise_if (ltb 40 page_count)
      (ingestion_error "ocr_page_limit" "Scanned PDFs are limited to 40 pages per upload")
  ocr_text ← ocr_pdf w content page_count
  raise_if (ltb (Text.length ocr_text) 20)
      (ingestion_error "ocr_no_text" "Arabic OCR could not find enough readable text")
  pure (record {
    text = ocr_text;
    method = "pdf_ocr_ara_eng";
    page_count = some page_count;
    warnings = "ocr_review_recommended" ∷ [];
  })

-- `len(extracted) >= max(80, page_count * 30)`
abbrev pub is_readable : String → ℕ → Bool
is_readable extracted page_count =
    let n = Text.length extracted in leb 80 n && leb (page_count * 30) n

abbrev pub pdf_text_result : String → ℕ → ExtractionResult
pdf_text_result extracted page_count = record {
  text = extracted;
  method = "pdf_text";
  page_count = some page_count;
  warnings = [];
}

-- the texts of the pages, unless one cannot be read
abbrev pub one_read : Option String → Option (List String) → Option (List String)
one_read none later = none
one_read (some t) none = none
one_read (some t) (some later) = some (t ∷ later)

abbrev pub all_read : List (Option String) → Option (List String)
all_read [] = some []
all_read (p ∷ rest) = one_read p (all_read rest)

unfoldable pub extract_pdf : World → Bytes → ℕ → Exec ExtractionResult
extract_pdf w content max_pages = do
  reader ←
      require_row (w.engine.pdf content)
        (ingestion_error "pdf_parse_failed" "The PDF document could not be parsed safely")
  raise_if reader.is_encrypted
      (ingestion_error "encrypted_pdf" "Password-protected PDF files are not accepted")
  let page_count = length reader.pages
  raise_if (ltb max_pages page_count) (
      ingestion_error "page_limit"
        ("The PDF exceeds the " ++ (w.engine.decimal max_pages ++ "-page limit")))
  texts ←
      require_row (all_read reader.pages)
        (ingestion_error "pdf_parse_failed" "The PDF document could not be parsed safely")
  let extracted = strip w.is_space (join "\n\n" (present w.is_space texts))
  if is_readable extracted page_count
      then pure (pdf_text_result extracted page_count)
      else scanned w content page_count

unfoldable pub extract_document : Bytes → ValidatedUpload → ℕ → Exec ExtractionResult
extract_document content validated max_pages = do
  w ← gets (λ s. s.world)
  if str_eq validated.extension ".txt" || str_eq validated.extension ".md"
      then extract_text w content validated.extension
      else (if str_eq validated.extension ".docx"
          then extract_docx w content
          else extract_pdf w content max_pages)
