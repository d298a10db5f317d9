-- ===== src/Knowledge/Life.antt =====
-- rag/service.py: the approval, the retirement and the new index of a document.
use sawtai.Prelude.{
  ℕ, String, Bool, true, false, ◌&&◌, Option, none, some, List, [], ◌∷◌, map, length, leb, ltb,
  ◌==◌, if◌then◌else◌,
}
use sawtai.Prelude.Sorting.{sort_by}
use sawtai.Text.Words.{words}
use sawtai.Schema.{Document, DocChunk, Db, num, str, flag}
use sawtai.Session.{
  World, Session, Exec, lookup_error, value_error, permission_error, ◌>>=◌, ◌>>◌, pure, raise,
  raise_if, require_row, gets, now, modify, commit,
}
use sawtai.Audit.{event, write_audit}
use sawtai.Knowledge.Encoding.{KnowledgeSettings, embed_texts, vector_literal}
use sawtai.Knowledge.Rows.{find_document, update_documents, is_id, creator_of, chunks_of}

-- `date.today()`
abbrev pub today : Exec ℕ
today = do w ← gets (λ s. s.world); at ← now; pure (w.engine.day at)

-- `effective_to is not None and effective_to <= date.today()`
abbrev pub is_over : Option ℕ → Exec Bool
is_over none = pure false
is_over (some day) = today >>= λ t. pure (leb day t)

abbrev pub approved_row : ℕ → Document → Document
approved_row approver d = record d { is_approved = true; approved_by = some approver }

abbrev pub retired_row : ℕ → Document → Document
retired_row day d = record d { is_approved = false; effective_to = some day }

-- the guards of an approval after the row is found
abbrev pub check_approval : ℕ → ℕ → ℕ → Document → Exec (Unit {0})
check_approval tenant_id document_id approver row = do
  raise_if row.is_approved (value_error "Document is already approved")
  chunk_count ← gets (λ s. length (chunks_of document_id s.db))
  raise_if (chunk_count == 0) (value_error "Document processing must succeed before approval")
  over ← is_over row.effective_to
  raise_if over (value_error "A retired or expired document cannot be approved")
  own ← gets (λ s. is_id approver (creator_of tenant_id document_id s.db.audit_log))
  raise_if own (permission_error "Document creators cannot approve their own source")

unfoldable pub approve_document : ℕ → ℕ → ℕ → Exec (Unit {0})
approve_document tenant_id document_id approver = do
  found ← gets (find_document tenant_id document_id)
  row ← require_row found (lookup_error "Document not found")
  check_approval tenant_id document_id approver row
  modify (update_documents tenant_id document_id (approved_row approver))
  let e = event tenant_id approver "document.approve" "document" document_id
  write_audit (record e {
    before_state = some (("approved", flag false) ∷ []);
    after_state = some (("approved", flag true) ∷ []);
  })
  commit

-- CURRENT_DATE
abbrev pub current_date : Session → ℕ
current_date s = s.world.engine.day s.started

unfoldable pub retire_document : ℕ → ℕ → ℕ → Exec (Unit {0})
retire_document tenant_id document_id actor_user_id = do
  found ← gets (find_document tenant_id document_id)
  row ← require_row found (lookup_error "Document not found")
  over ← is_over row.effective_to
  raise_if over (value_error "Document is already retired")
  day ← gets current_date
  modify (update_documents tenant_id document_id (retired_row day))
  w ← gets (λ s. s.world)
  t ← today
  let e = event tenant_id actor_user_id "document.retire" "document" document_id
  write_audit (record e {
    before_state = some (("approved", flag row.is_approved) ∷ []);
    after_state =
        some (("approved", flag false) ∷ ("effective_to", str (w.engine.iso_date t)) ∷ []);
  })
  commit

abbrev pub by_seq : DocChunk → DocChunk → Bool
by_seq a b = ltb a.seq b.seq

abbrev pub chunk_text : DocChunk → String
chunk_text c = c.text

-- SET of the new index
abbrev pub reindexed : World → String → List ℕ → DocChunk → DocChunk
reindexed w text embedding c = record c {
  norm_text = w.engine.normalize_for_search text;
  token_count = length (words w.is_space text);
  embedding = embedding;
}

abbrev pub is_chunk : ℕ → ℕ → DocChunk → Bool
is_chunk tenant_id chunk_id c = c.tenant_id == tenant_id && c.chunk_id == chunk_id

-- UPDATE core.doc_chunks SET ... WHERE tenant_id = ... AND chunk_id = ..., from the row that was read
abbrev pub reindexed_if : World → ℕ → DocChunk → List ℕ → DocChunk → DocChunk
reindexed_if w tenant_id read embedding c =
    if is_chunk tenant_id read.chunk_id c then reindexed w read.text embedding c else c

abbrev pub update_chunk : World → ℕ → DocChunk → List ℕ → Db → Db
update_chunk w tenant_id read embedding db = record db {
  doc_chunks = map (reindexed_if w tenant_id read embedding) db.doc_chunks;
}

abbrev pub reindex_chunk : ℕ → DocChunk → List ℕ → Exec (Unit {0})
reindex_chunk tenant_id c vector = do
  w ← gets (λ s. s.world)
  embedding ← vector_literal vector
  modify (update_chunk w tenant_id c embedding)

-- `for row, embedding in zip(rows, vectors, strict=True)`
unfoldable pub update_chunks : ℕ → List DocChunk → List (List ℕ) → Exec (Unit {0})
update_chunks tenant_id [] [] = pure tt
update_chunks tenant_id [] (v ∷ vs) =
    raise (value_error "zip() argument 2 is longer than argument 1")
update_chunks tenant_id (c ∷ cs) [] =
    raise (value_error "zip() argument 2 is shorter than argument 1")
update_chunks tenant_id (c ∷ cs) (v ∷ vs) =
    reindex_chunk tenant_id c v >> update_chunks tenant_id cs vs

unfoldable pub reindex_document : ℕ → ℕ → ℕ → KnowledgeSettings → Exec ℕ
reindex_document tenant_id document_id actor_user_id settings = do
  found ← gets (find_document tenant_id document_id)
  row ← require_row found (lookup_error "Document not found")
  rows ← gets (λ s. sort_by by_seq (chunks_of document_id s.db))
  raise_if (length rows == 0) (value_error "Document has no indexed content")
  embeddings ← embed_texts (map chunk_text rows) settings
  update_chunks tenant_id rows embeddings.vectors
  let e = event tenant_id actor_user_id "document.reindex" "document" document_id
  write_audit (record e {
    after_state = some (
        ("chunks", num (length rows))
        ∷ ("ingestion_status", str "indexed")
        ∷ ("embedding_provider", str embeddings.provider)
        ∷ []);
  })
  commit
  pure (length rows)
