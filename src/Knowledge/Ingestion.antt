-- ===== src/Knowledge/Ingestion.antt =====
-- rag/service.py: uploaded files become documents, whose failures are recorded and may be retried.
use Prim.Native.String.{◌++◌}
use sawtai.Prelude.{
  ℕ, String, Bool, false, ◌||◌, Option, none, some, List, [], ◌∷◌, any, length, ◌==◌, if◌then◌else◌,
}
use sawtai.Text.{is_empty, take, after_first, after_last}
use sawtai.Schema.{Bytes, Document, Citation, Json, Scalar, null, num, str, flag, texts}
use sawtai.Session.{
  Exec, Error, Result, ok, err, lookup_error, value_error, ingestion_error, uploaded_error, ◌>>=◌,
  ◌>>◌, pure, raise, raise_if, require_row, gets, uuid4, sql_now, commit, rollback,
}
use sawtai.Audit.{Event, event, write_audit}
use sawtai.Knowledge.Uploads.{ValidatedUpload, validate_upload}
use sawtai.Knowledge.Extraction.{ExtractionResult, extract_document}
use sawtai.Knowledge.Encoding.{KnowledgeSettings, embed_texts, put_object, get_object}
use sawtai.Knowledge.Rows.{find_document, version_exists, insert_document}
use sawtai.Knowledge.Documents.{NewDocument, draft_document, object_folder, replace_chunks}

-- what an upload returns
pub record Indexed : Type 0 where
  pub document_id : ℕ
  pub chunks : ℕ
  pub extraction : ExtractionResult
  pub embedding_provider : String
  pub storage_backend : String

abbrev pub num_or_null : Option ℕ → Scalar
num_or_null none = null
num_or_null (some n) = num n

abbrev pub indexed_state : Indexed → Json
indexed_state x =
    ("ingestion_status", str "indexed")
    ∷ ("chunks", num x.chunks)
    ∷ ("extraction_method", str x.extraction.method)
    ∷ ("page_count", num_or_null x.extraction.page_count)
    ∷ ("warnings", texts x.extraction.warnings)
    ∷ ("embedding_provider", str x.embedding_provider)
    ∷ ("storage_backend", str x.storage_backend)
    ∷ []

-- an upload that is stored: whose it is, and its checked content
pub record Upload : Type 0 where
  pub tenant_id : ℕ
  pub actor_user_id : ℕ
  pub document_id : ℕ
  pub language : String
  pub content : Bytes
  pub validated : ValidatedUpload
  pub storage : String

-- the row of the ledger, the commit and the answer
abbrev pub finish_upload : Upload → Indexed → Exec Indexed
finish_upload u x = do
  let e = event u.tenant_id u.actor_user_id "document.index" "document" u.document_id
  write_audit (record e { after_state = some (indexed_state x) })
  commit
  pure x

-- the body of the `try`
abbrev pub index_upload : Upload → KnowledgeSettings → Exec Indexed
index_upload u settings = do
  extraction ← extract_document u.content u.validated settings.document_max_pages
  chunk_count ← replace_chunks u.tenant_id u.document_id u.language extraction.text none settings
  batch ← embed_texts (take 4000 extraction.text ∷ []) settings
  finish_upload u (record {
    document_id = u.document_id;
    chunks = chunk_count;
    extraction = extraction;
    embedding_provider = batch.provider;
    storage_backend = u.storage;
  })

abbrev pub ingestion_failed_event : ℕ → ℕ → ℕ → String → String → Event
ingestion_failed_event tenant_id actor_user_id document_id code message =
    record (event tenant_id actor_user_id "document.ingest.failed" "document" document_id) {
      outcome = "failure";
      after_state = some (
          ("ingestion_status", str "failed")
          ∷ ("error_code", str code)
          ∷ ("error_message", str message)
          ∷ []);
    }

unfoldable pub record_ingestion_failure : ℕ → ℕ → ℕ → String → String → Exec (Unit {0})
record_ingestion_failure tenant_id actor_user_id document_id code message =
    write_audit (ingestion_failed_event tenant_id actor_user_id document_id code message) >> commit

-- code and message of a DocumentIngestionError, or of its subclass; none for another exception
abbrev pub ingestion_failure : Error → Option (String × String)
ingestion_failure (ingestion_error code message) = some (code, message)
ingestion_failure (uploaded_error document_id code message) = some (code, message)
ingestion_failure e = none

abbrev pub fail_upload : Upload → String → String → Exec Indexed
fail_upload u code message = do
  rollback
  record_ingestion_failure u.tenant_id u.actor_user_id u.document_id code message
  raise (uploaded_error u.document_id code message)

abbrev pub settle_failure : Upload → Error → Option (String × String) → Exec Indexed
settle_failure u e none = raise e
settle_failure u e (some (code, message)) = fail_upload u code message

-- `except DocumentIngestionError`
abbrev pub settle : Upload → Result Indexed → Exec Indexed
settle u (ok x) = pure x
settle u (err e) = settle_failure u e (ingestion_failure e)

unfoldable pub process_uploaded_content : Upload → KnowledgeSettings → Exec Indexed
process_uploaded_content u settings s = let (r, s') = index_upload u settings s in settle u r s'

abbrev pub stored_state : NewDocument → ValidatedUpload → ℕ → String → Json
stored_state n validated size storage =
    ("version", str n.version)
    ∷ ("kind", str n.kind)
    ∷ ("approved", flag false)
    ∷ ("ingestion_status", str "processing")
    ∷ ("filename", str validated.filename)
    ∷ ("media_type", str validated.media_type)
    ∷ ("file_size", num size)
    ∷ ("storage_backend", str storage)
    ∷ []

-- the row of the ledger of a document that is inserted, its commit, and the index
abbrev pub complete_upload : Upload → NewDocument → KnowledgeSettings → Exec Indexed
complete_upload u n settings = do
  let e = event u.tenant_id u.actor_user_id "document.create" "document" u.document_id
  write_audit
      (record e { after_state = some (stored_state n u.validated (length u.content) u.storage) })
  commit
  process_uploaded_content u settings

abbrev pub new_upload : NewDocument → ℕ → ℕ → Bytes → ValidatedUpload → String → Upload
new_upload n actor_user_id document_id content validated storage = record {
  tenant_id = n.tenant_id;
  actor_user_id = actor_user_id;
  document_id = document_id;
  language = n.language;
  content = content;
  validated = validated;
  storage = storage;
}

unfoldable pub ingest_uploaded_document :
    NewDocument → ℕ → String → Option String → Bytes → KnowledgeSettings → Exec Indexed
ingest_uploaded_document n actor_user_id filename media_type content settings = do
  validated ← validate_upload filename content media_type settings.document_max_upload_bytes
  duplicate ← gets (λ s. version_exists n.tenant_id validated.sha256 n.title_ar n.version s.db)
  raise_if duplicate (ingestion_error "duplicate_version" "This document version already exists")
  w ← gets (λ s. s.world)
  document_id ← uuid4
  let object_key =
      object_folder w n.tenant_id document_id validated.sha256 ++ ("-" ++ validated.filename)
  storage ← put_object settings object_key content
  at ← sql_now
  insert_document document_id (draft_document n object_key validated.sha256 at)
  complete_upload (new_upload n actor_user_id document_id content validated storage) n settings

-- the citations of a document
abbrev pub is_cited : ℕ → List Citation → Bool
is_cited document_id = any (λ (c : Citation). c.document_id == document_id)

abbrev pub retried_upload : ℕ → ℕ → ℕ → Document → Bytes → ValidatedUpload → String → Upload
retried_upload tenant_id document_id actor_user_id row content validated storage = record {
  tenant_id = tenant_id;
  actor_user_id = actor_user_id;
  document_id = document_id;
  language = row.lang;
  content = content;
  validated = validated;
  storage = storage;
}

-- the last part of the key without the digest before its dash
abbrev pub filename_of : String → String
filename_of object_key = after_first 45 (after_last 47 object_key)

abbrev pub retry_storage : KnowledgeSettings → String
retry_storage settings =
    if is_empty settings.object_store_endpoint then "local-prototype" else "s3-compatible"

-- the content from the store, checked and indexed again
abbrev pub reprocess : ℕ → ℕ → ℕ → Document → KnowledgeSettings → Exec Indexed
reprocess tenant_id document_id actor_user_id row settings = do
  content ← get_object settings row.object_key
  validated ←
      validate_upload (filename_of row.object_key) content none settings.document_max_upload_bytes
  process_uploaded_content
      (retried_upload tenant_id document_id actor_user_id row content validated
        (retry_storage settings))
      settings

unfoldable pub retry_document_ingestion : ℕ → ℕ → ℕ → KnowledgeSettings → Exec Indexed
retry_document_ingestion tenant_id document_id actor_user_id settings = do
  found ← gets (find_document tenant_id document_id)
  row ← require_row found (lookup_error "Document not found")
  cited ← gets (λ s. is_cited document_id s.db.response_citations)
  raise_if (row.is_approved || cited)
      (value_error "Approved or cited documents cannot be reprocessed")
  reprocess tenant_id document_id actor_user_id row settings
