-- ===== src/Knowledge/Uploads.antt =====
-- rag/ingestion.py: what an uploaded file has to satisfy.
use Prim.Native.Char.{code}
use Prim.Native.String.{◌++◌}
use text.Mathlib.Text.{◌==◌ as str_eq}
use sawtai.Prelude.{
  ℕ, ◌+◌, ◌*◌, ◌/◌, String, Bool, true, false, not, ◌&&◌, ◌||◌, Option, none, some, List, [], ◌∷◌,
  any, length, take, ltb, ◌==◌, if◌then◌else◌,
}
use sawtai.Text
use sawtai.Text.{is_empty, strip}
use sawtai.Schema.{Bytes}
use sawtai.Session.{
  World, Member, Exec, ingestion_error, ◌>>=◌, ◌>>◌, pure, raise_if, require_row, gets,
}

pub record ValidatedUpload : Type 0 where
  pub filename : String
  pub extension : String
  pub media_type : String
  pub sha256 : Bytes

-- a text literal of ASCII as bytes
abbrev pub ascii : String → Bytes
ascii String.[] = []
ascii (String.◌∷◌ c s) = code c ∷ ascii s

-- `content.startswith(marker)`
unfoldable pub begins_with : Bytes → Bytes → Bool
begins_with [] content = true
begins_with (b ∷ marker) [] = false
begins_with (b ∷ marker) (c ∷ content) = b == c && begins_with marker content

-- `marker in content`
unfoldable pub occurs_in : Bytes → Bytes → Bool
unfolding begins_with
occurs_in marker [] = begins_with marker []
occurs_in marker (c ∷ content) = begins_with marker (c ∷ content) || occurs_in marker content

abbrev pub pdf_active_markers : List Bytes
pdf_active_markers =
    ascii "/JavaScript" ∷ ascii "/JS " ∷ ascii "/Launch" ∷ ascii "/EmbeddedFile" ∷ []

abbrev pub docx_type : String
docx_type = "application/vnd.openxmlformats-officedocument.wordprocessingml.document"

-- the table of media types: none for an extension that is not in ALLOWED_EXTENSIONS
unfoldable pub media_type_of : String → Option String
media_type_of extension =
    if str_eq extension ".pdf"
    then some "application/pdf"
    else if str_eq extension ".docx"
    then some docx_type
    else if str_eq extension ".txt"
    then some "text/plain"
    else if str_eq extension ".md"
    then some "text/markdown"
    else none

unfoldable pub sanitize_filename : World → String → Exec String
sanitize_filename w filename = do
  let clean = w.engine.clean_name filename
  raise_if (is_empty clean) (ingestion_error "invalid_filename" "The uploaded filename is invalid")
  pure (Text.take 180 clean)

abbrev pub named : String → Member → Bool
named name m = str_eq m.filename name

abbrev pub total_size : List Member → ℕ
total_size [] = 0
total_size (m ∷ ms) = m.file_size + total_size ms

abbrev pub compressed_size : List Member → ℕ
compressed_size [] = 0
compressed_size (m ∷ ms) = m.compress_size + compressed_size ms

-- `max(1, n)`
abbrev pub at_least_one : ℕ → ℕ
at_least_one n = if n == 0 then 1 else n

-- total_size > 100 MB, or total_size / compressed_size > 120
unfoldable pub expands_too_far : List Member → Bool
expands_too_far members =
    ltb 104857600 (total_size members)
    || ltb (120 * at_least_one (compressed_size members)) (total_size members)

unfoldable pub validate_docx_archive : World → Bytes → Exec (Unit {0})
unfolding expands_too_far
validate_docx_archive w content = do
  members ←
      require_row (w.engine.zip_members content)
        (ingestion_error "signature_mismatch" "The file is not a valid DOCX document")
  raise_if
      (not (any (named "[Content_Types].xml") members && any (named "word/document.xml") members))
      (ingestion_error "signature_mismatch" "The file is not a valid DOCX document")
  raise_if (ltb 5000 (length members))
      (ingestion_error "archive_limit" "The DOCX archive contains too many entries")
  raise_if (expands_too_far members)
      (ingestion_error "archive_limit" "The DOCX archive exceeds safe expansion limits")
  raise_if (any (λ (m : Member). Text.contains "vbaproject.bin" (w.lower m.filename)) members)
      (ingestion_error "active_content" "Macro-enabled Office documents are not accepted")

abbrev pub validate_pdf : Bytes → Exec (Unit {0})
validate_pdf content = do
  raise_if (not (begins_with (ascii "%PDF-") content))
      (ingestion_error "signature_mismatch" "The file extension does not match PDF content")
  raise_if (any (λ marker. occurs_in marker content) pdf_active_markers) (
      ingestion_error "active_content"
        "PDF files containing active or embedded content are not accepted")

-- the checks that depend on the extension
abbrev pub validate_format : World → String → Bytes → Exec (Unit {0})
validate_format w extension content =
    if str_eq extension ".pdf"
    then validate_pdf content
    else if str_eq extension ".docx"
    then validate_docx_archive w content
    else raise_if (occurs_in (0 ∷ []) (take 4096 content))
        (ingestion_error "signature_mismatch" "The text file contains binary content")

-- declared_media_type and declared_media_type not in {media_type, "application/octet-stream"}
abbrev pub declares_other : String → Option String → Bool
declares_other media_type none = false
declares_other media_type (some declared) =
    not (is_empty declared)
    && not (str_eq declared media_type || str_eq declared "application/octet-stream")

unfoldable pub validate_upload : String → Bytes → Option String → ℕ → Exec ValidatedUpload
validate_upload filename content declared_media_type max_bytes = do
  w ← gets (λ s. s.world)
  clean_name ← sanitize_filename w filename
  let extension = w.lower (w.engine.suffix clean_name)
  media_type ←
      require_row (media_type_of extension)
        (ingestion_error "unsupported_type" "Only PDF, DOCX, TXT, and Markdown files are accepted")
  raise_if (length content == 0) (ingestion_error "empty_file" "The uploaded file is empty")
  raise_if (ltb max_bytes (length content)) (
      ingestion_error "file_too_large"
        ("The file exceeds the " ++ (w.engine.decimal (max_bytes / 1048576) ++ " MB limit")))
  raise_if (occurs_in (ascii "EICAR-STANDARD-ANTIVIRUS-TEST-FILE") content)
      (ingestion_error "malware_detected" "The uploaded file failed malware screening")
  validate_format w extension content
  raise_if (declares_other media_type declared_media_type)
      (ingestion_error "mime_mismatch" "The declared file type does not match its extension")
  pure (record {
    filename = clean_name;
    extension = extension;
    media_type = media_type;
    sha256 = w.sha256 content;
  })
