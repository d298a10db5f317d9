-- ===== src/Knowledge/Rows.antt =====
-- rag/service.py: the statements on documents and their chunks that the operations share.
use text.Mathlib.Text.{◌==◌ as str_eq}
use sawtai.Prelude.{
  ℕ, String, Bool, true, false, not, ◌&&◌, ◌||◌, Option, none, some, List, [], ◌∷◌, any, is_some,
  where_row, ltb, ◌==◌, if◌then◌else◌,
}
use sawtai.Prelude.Sorting.{filter}
use sawtai.Table.{get, put, rows, update}
use sawtai.Schema.{AuditRow, Bytes, Document, DocChunk, Db}
use sawtai.Session.{Session, Exec, ok, err, integrity_error}

abbrev pub of_tenant : ℕ → Document → Bool
of_tenant tenant_id d = d.tenant_id == tenant_id

-- the document of a tenant, by its id
abbrev pub find_document : ℕ → ℕ → Session → Option Document
find_document tenant_id document_id s =
    where_row (of_tenant tenant_id) (get s.db.documents document_id)

abbrev pub update_documents : ℕ → ℕ → (Document → Document) → Db → Db
update_documents tenant_id document_id f db = record db {
  documents = update db.documents document_id (of_tenant tenant_id) f;
}

abbrev pub is_earlier : AuditRow → AuditRow → Bool
is_earlier a b =
    ltb a.occurred_at b.occurred_at || (a.occurred_at == b.occurred_at && ltb a.audit_id b.audit_id)

abbrev pub oldest : AuditRow → Option AuditRow → AuditRow
oldest r none = r
oldest r (some b) = if is_earlier r b then r else b

-- SELECT ... WHERE p ORDER BY occurred_at, audit_id LIMIT 1
unfoldable pub earliest : (AuditRow → Bool) → List AuditRow → Option AuditRow
earliest p [] = none
earliest p (r ∷ rest) = let best = earliest p rest in if p r then some (oldest r best) else best

abbrev pub is_id : ℕ → Option ℕ → Bool
is_id k none = false
is_id k (some j) = j == k

-- tenant_id = ... AND object_id = ... AND action = 'document.create'
abbrev pub is_creation : ℕ → ℕ → AuditRow → Bool
is_creation tenant_id document_id r =
    r.tenant_id == tenant_id && (is_id document_id r.object_id && str_eq r.action "document.create")

abbrev pub actor_of : Option AuditRow → Option ℕ
actor_of none = none
actor_of (some r) = r.actor_user_id

-- creator.actor_user_id
abbrev pub creator_of : ℕ → ℕ → List AuditRow → Option ℕ
creator_of tenant_id document_id log = actor_of (earliest (is_creation tenant_id document_id) log)

abbrev pub chunks_of : ℕ → Db → List DocChunk
chunks_of document_id db = filter (λ (c : DocChunk). c.document_id == document_id) db.doc_chunks

abbrev pub is_owned : ℕ → ℕ → DocChunk → Bool
is_owned tenant_id document_id c = c.tenant_id == tenant_id && c.document_id == document_id

-- DELETE FROM core.doc_chunks WHERE tenant_id = ... AND document_id = ...
abbrev pub delete_chunks : ℕ → ℕ → Db → Db
delete_chunks tenant_id document_id db = record db {
  doc_chunks = filter (λ c. not (is_owned tenant_id document_id c)) db.doc_chunks;
}

-- PRIMARY KEY (chunk_id) and UNIQUE (document_id, seq)
abbrev pub clashes : DocChunk → DocChunk → Bool
clashes c d = d.chunk_id == c.chunk_id || (d.document_id == c.document_id && d.seq == c.seq)

unfoldable pub insert_chunk : DocChunk → Exec (Unit {0})
insert_chunk c s =
    if any (clashes c) s.db.doc_chunks
    then (err integrity_error, s)
    else (ok tt, record s { db = record s.db { doc_chunks = c ∷ s.db.doc_chunks } })

abbrev pub bytes_eq : Bytes → Bytes → Bool
bytes_eq [] [] = true
bytes_eq [] (b ∷ bs) = false
bytes_eq (a ∷ more) [] = false
bytes_eq (a ∷ more) (b ∷ bs) = a == b && bytes_eq more bs

-- tenant_id, sha256, title_ar and version are the same
abbrev pub is_version : ℕ → Bytes → String → String → ℕ × Document → Bool
is_version tenant_id sha256 title_ar version (_, d) =
    d.tenant_id == tenant_id
    && (bytes_eq d.sha256 sha256 && (str_eq d.title_ar title_ar && str_eq d.version version))

abbrev pub version_exists : ℕ → Bytes → String → String → Db → Bool
version_exists tenant_id sha256 title_ar version db =
    any (is_version tenant_id sha256 title_ar version) (rows db.documents)

-- UNIQUE (tenant_id, object_key, version)
abbrev pub same_object : Document → ℕ × Document → Bool
same_object d (_, e) =
    e.tenant_id == d.tenant_id && (str_eq e.object_key d.object_key && str_eq e.version d.version)

-- INSERT INTO core.documents
unfoldable pub insert_document : ℕ → Document → Exec (Unit {0})
insert_document document_id d s =
    if is_some (get s.db.documents document_id) || any (same_object d) (rows s.db.documents)
    then (err integrity_error, s)
    else (ok tt, record s { db = record s.db { documents = put s.db.documents document_id d } })
