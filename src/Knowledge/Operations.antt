-- ===== src/Knowledge/Operations.antt =====
-- The requests on documents (rag/routes.py), one after another, each in a session of its own.
use sawtai.Prelude.{ℕ, String, Option, List, [], ◌∷◌}
use sawtai.Schema.{Bytes}
use sawtai.Session.{Session, Exec, ◌>>=◌, pure, request}
use sawtai.Knowledge.Encoding.{KnowledgeSettings}
use sawtai.Knowledge.Documents.{NewDocument, create_document}
use sawtai.Knowledge.Ingestion.{ingest_uploaded_document, retry_document_ingestion}
use sawtai.Knowledge.Life.{approve_document, retire_document, reindex_document}

pub data KnowledgeOp : Type 0 where
  -- document, user, content, heading
  create : NewDocument → ℕ → String → Option String → KnowledgeOp
  -- document, user, file name, declared type, content
  upload : NewDocument → ℕ → String → Option String → Bytes → KnowledgeOp
  -- tenant, document, user
  retry approve retire reindex : ℕ → ℕ → ℕ → KnowledgeOp

abbrev pub done : {A : Type 0} → Exec A → Exec (Unit {0})
done m = m >>= λ a. pure tt

unfoldable pub run : KnowledgeSettings → KnowledgeOp → Exec (Unit {0})
run g (create n u content heading) = done (create_document n u content heading g)
run g (upload n u filename declared content) =
    done (ingest_uploaded_document n u filename declared content g)
run g (retry t k u) = done (retry_document_ingestion t k u g)
run g (approve t k u) = approve_document t k u
run g (retire t k u) = retire_document t k u
run g (reindex t k u) = done (reindex_document t k u g)

unfoldable pub serve : KnowledgeSettings → List KnowledgeOp → Session → Session
unfolding run
serve g [] s = s
serve g (op ∷ ops) s = serve g ops (request (run g op) s).1
