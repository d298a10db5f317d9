-- ===== src/Knowledge/Asides.antt =====
-- What reads files, calls other servers or checks does not touch the database.
use sawtai.Prelude.{ℕ, refl, String, Option, List, arith}
use sawtai.Schema.{Bytes}
use sawtai.Session.Aside.{IsAside, aside_rules}
use sawtai.Knowledge.Uploads.{
  ValidatedUpload, sanitize_filename, validate_docx_archive, validate_upload,
}
use sawtai.Knowledge.Extraction.{extract_text, extract_docx, extract_pdf, ocr_pdf, extract_document}
use sawtai.Knowledge.Encoding.{
  KnowledgeSettings, embed_texts, rerank_texts, vector_literal, put_object, get_object,
}
use sawtai.Knowledge.Retrieval.{retrieve_approved_chunks}

pub embed_texts-IsAside :
    (values : List String) (g : KnowledgeSettings) → IsAside (embed_texts values g)
unfolding embed_texts
embed_texts-IsAside values g = record { db = λ s. ground arith; saved = λ s. ground arith }

pub rerank_texts-IsAside :
    (query : String) (values : List String) (g : KnowledgeSettings)
    → IsAside (rerank_texts query values g)
unfolding rerank_texts
rerank_texts-IsAside query values g = record { db = λ s. ground arith; saved = λ s. ground arith }

pub put_object-IsAside :
    (g : KnowledgeSettings) (key : String) (content : Bytes) → IsAside (put_object g key content)
unfolding put_object
put_object-IsAside g key content = record { db = λ s. refl; saved = λ s. refl }

pub get_object-IsAside : (g : KnowledgeSettings) (key : String) → IsAside (get_object g key)
unfolding get_object
get_object-IsAside g key = record { db = λ s. refl; saved = λ s. refl }

pub vector_literal-IsAside : (v : List ℕ) → IsAside (vector_literal v)
unfolding vector_literal
vector_literal-IsAside v = search aside_rules

pub validate_upload-IsAside :
    (filename : String) (content : Bytes) (declared : Option String) (most : ℕ)
    → IsAside (validate_upload filename content declared most)
unfolding validate_upload sanitize_filename validate_docx_archive
validate_upload-IsAside filename content declared most = search aside_rules depth 30

pub extract_document-IsAside :
    (content : Bytes) (v : ValidatedUpload) (most : ℕ) → IsAside (extract_document content v most)
unfolding extract_document extract_text extract_docx extract_pdf ocr_pdf
extract_document-IsAside content v most = search aside_rules depth 30

pub retrieve-IsAside :
    (t : ℕ) (query : String) (limit : ℕ) (g : KnowledgeSettings)
    → IsAside (retrieve_approved_chunks t query limit g)
unfolding retrieve_approved_chunks
retrieve-IsAside t query limit g =
    search (aside_rules, embed_texts-IsAside, rerank_texts-IsAside, vector_literal-IsAside) depth 20
