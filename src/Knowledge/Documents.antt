-- ===== src/Knowledge/Documents.antt =====
-- rag/service.py: `_replace_chunks` and `create_document`.
use Prim.Native.String.{◌++◌}
use sawtai.Prelude.{ℕ, suc, String, false, Option, none, some, List, [], ◌∷◌, map, length, ◌==◌}
use sawtai.Text
use sawtai.Text.Words.{words}
use sawtai.Schema.{Bytes, Document, DocChunk, Json, num, str, flag}
use sawtai.Session.{
  World, Exec, value_error, ◌>>=◌, ◌>>◌, pure, raise, raise_if, gets, uuid4, sql_now, modify,
  commit,
}
use sawtai.Audit.{event, write_audit}
use sawtai.Knowledge.Chunks.{Section, structure_chunks}
use sawtai.Knowledge.Encoding.{KnowledgeSettings, embed_texts, vector_literal, put_object}
use sawtai.Knowledge.Rows.{delete_chunks, insert_chunk, version_exists, insert_document}

-- the row of a section
abbrev pub new_chunk : World → ℕ → ℕ → ℕ → String → ℕ → Section → List ℕ → DocChunk
new_chunk w chunk_id tenant_id document_id language seq section embedding = record {
  chunk_id = chunk_id;
  tenant_id = tenant_id;
  document_id = document_id;
  seq = seq;
  heading_path = section.0;
  text = section.1;
  norm_text = w.engine.normalize_for_search section.1;
  token_count = length (words w.is_space section.1);
  lang = language;
  embedding = embedding;
}

abbrev pub store_chunk : ℕ → ℕ → String → ℕ → Section → List ℕ → Exec (Unit {0})
store_chunk tenant_id document_id language seq section vector = do
  w ← gets (λ s. s.world)
  chunk_id ← uuid4
  embedding ← vector_literal vector
  insert_chunk (new_chunk w chunk_id tenant_id document_id language seq section embedding)

-- `for sequence, ... in enumerate(zip(chunks, vectors, strict=True), start=seq)`
unfoldable pub store_chunks : ℕ → ℕ → String → ℕ → List Section → List (List ℕ) → Exec (Unit {0})
store_chunks tenant_id document_id language seq [] [] = pure tt
store_chunks tenant_id document_id language seq [] (v ∷ vs) =
    raise (value_error "zip() argument 2 is longer than argument 1")
store_chunks tenant_id document_id language seq (c ∷ cs) [] =
    raise (value_error "zip() argument 2 is shorter than argument 1")
store_chunks tenant_id document_id language seq (c ∷ cs) (v ∷ vs) =
    store_chunk tenant_id document_id language seq c v
    >> store_chunks tenant_id document_id language (suc seq) cs vs

abbrev pub section_text : Section → String
section_text s = s.1

unfoldable pub replace_chunks : ℕ → ℕ → String → String → Option String → KnowledgeSettings → Exec ℕ
replace_chunks tenant_id document_id language content heading_path settings = do
  w ← gets (λ s. s.world)
  let chunks = structure_chunks w.is_space content heading_path
  raise_if (length chunks == 0) (value_error "Document content must contain readable text")
  modify (delete_chunks tenant_id document_id)
  embeddings ← embed_texts (map section_text chunks) settings
  store_chunks tenant_id document_id language 1 chunks embeddings.vectors
  pure (length chunks)

-- the arguments that both ways to make a document take
pub record NewDocument : Type 0 where
  pub tenant_id : ℕ
  pub kind : String
  pub title_ar : String
  pub title_en : Option String
  pub language : String
  pub version : String
  pub effective_from : Option ℕ
  pub effective_to : Option ℕ
  pub org_unit_id : Option ℕ

-- the inserted row: is_approved is false
abbrev pub draft_document : NewDocument → String → Bytes → ℕ → Document
draft_document n object_key sha256 at = record {
  tenant_id = n.tenant_id;
  kind = n.kind;
  title_ar = n.title_ar;
  title_en = n.title_en;
  lang = n.language;
  version = n.version;
  effective_from = n.effective_from;
  effective_to = n.effective_to;
  is_approved = false;
  approved_by = none;
  object_key = object_key;
  sha256 = sha256;
  org_unit_id = n.org_unit_id;
  created_at = at;
}

abbrev pub object_folder : World → ℕ → ℕ → Bytes → String
object_folder w tenant_id document_id digest =
    "knowledge/"
    ++ (w.uuid_text tenant_id
        ++ ("/" ++ (w.uuid_text document_id ++ ("/" ++ Text.take 16 (w.engine.hex digest)))))

abbrev pub created_state : NewDocument → ℕ → String → Json
created_state n chunk_count storage =
    ("version", str n.version)
    ∷ ("kind", str n.kind)
    ∷ ("chunks", num chunk_count)
    ∷ ("approved", flag false)
    ∷ ("ingestion_status", str "indexed")
    ∷ ("extraction_method", str "manual_text")
    ∷ ("storage_backend", str storage)
    ∷ []

-- the chunks, the row of the ledger and the commit of a document that is inserted
abbrev pub complete_document :
    NewDocument → ℕ → ℕ → String → Option String → String → KnowledgeSettings → Exec ℕ
complete_document n actor_user_id document_id content heading_path storage settings = do
  chunk_count ← replace_chunks n.tenant_id document_id n.language content heading_path settings
  let e = event n.tenant_id actor_user_id "document.create" "document" document_id
  write_audit (record e { after_state = some (created_state n chunk_count storage) })
  commit
  pure document_id

unfoldable pub create_document :
    NewDocument → ℕ → String → Option String → KnowledgeSettings → Exec ℕ
create_document n actor_user_id content heading_path settings = do
  w ← gets (λ s. s.world)
  let digest = w.sha256 (w.engine.utf8 content)
  duplicate ← gets (λ s. version_exists n.tenant_id digest n.title_ar n.version s.db)
  raise_if duplicate (value_error "This document version already exists")
  document_id ← uuid4
  let object_key = object_folder w n.tenant_id document_id digest ++ ".txt"
  storage ← put_object settings object_key (w.engine.utf8 content)
  at ← sql_now
  insert_document document_id (draft_document n object_key digest at)
  complete_document n actor_user_id document_id content heading_path storage settings
