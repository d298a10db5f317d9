-- ===== src/Knowledge/Encoding.antt =====
-- rag/ingestion.py: embeddings, reranking and the object store, and the settings that they read.
use sawtai.Prelude.{
  ℕ, ◌+◌, String, Bool, not, ◌&&◌, Option, none, some, List, map, any, length, ◌==◌, if◌then◌else◌,
}
use sawtai.Text.{is_empty}
use sawtai.Schema.{Bytes}
use sawtai.Session.{
  World, Session, Exec, Error, Result, ok, err, transport_error, ingestion_error, value_error, ◌>>◌,
  pure, raise_if,
}

pub record KnowledgeSettings : Type 0 where
  pub document_max_upload_bytes : ℕ
  pub document_max_pages : ℕ
  -- rag_encoder_mode == "remote"
  pub rag_encoder_is_remote : Bool
  pub object_store_endpoint : String
  pub object_store_access_key : String
  pub object_store_secret_key : String
  -- in hundred-thousandths
  pub rag_hybrid_gate : ℕ

abbrev pub embedding_dimension : ℕ
embedding_dimension = 1024

pub record EmbeddingBatch : Type 0 where
  pub vectors : List (List ℕ)
  pub provider : String

abbrev pub is_full : List ℕ → Bool
is_full v = length v == embedding_dimension

-- the check of the encoder's answer
abbrev pub is_well_shaped : List String → List (List ℕ) → Bool
is_well_shaped values vectors =
    length vectors == length values && not (any (λ v. not (is_full v)) vectors)

abbrev pub local_batch : World → List String → EmbeddingBatch
local_batch w values = record {
  vectors = map w.engine.hash_embedding values;
  provider = "local-hash-fallback-v1";
}

-- what the encoder answered, or the local embedding if that is an error or has another shape
unfoldable pub batch_of : World → List String → Option (List (List ℕ) × String) → EmbeddingBatch
batch_of w values none = local_batch w values
batch_of w values (some (vectors, model)) =
    if is_well_shaped values vectors
    then record { vectors = vectors; provider = model }
    else local_batch w values

-- one more call of another server
abbrev pub called : Session → Session
called s = record s { calls = s.calls + 1 }

unfoldable pub embed_texts : List String → KnowledgeSettings → Exec EmbeddingBatch
unfolding batch_of
embed_texts values settings s =
    if settings.rag_encoder_is_remote
    then (ok (batch_of s.world values (s.world.engine.encoder s.calls values)), called s)
    else (ok (local_batch s.world values), s)

-- scores as many as texts, or nothing
abbrev pub checked_scores : List String → Option (List ℕ × String) → Option (List ℕ × String)
checked_scores values none = none
checked_scores values (some (scores, model)) =
    if length scores == length values then some (scores, model) else none

unfoldable pub rerank_texts :
    String → List String → KnowledgeSettings → Exec (Option (List ℕ × String))
rerank_texts query values settings s =
    if not settings.rag_encoder_is_remote
    then (ok none, s)
    else (if length values == 0
        then (ok none, s)
        else (ok (checked_scores values (s.world.engine.reranker s.calls query values)), called s))

-- the vector that the text is cast to
unfoldable pub vector_literal : List ℕ → Exec (List ℕ)
vector_literal vector =
    raise_if (not (is_full vector)) (value_error "Embedding dimension must be 1024") >> pure vector

abbrev pub is_s3 : KnowledgeSettings → Bool
is_s3 settings =
    not (is_empty settings.object_store_endpoint)
    && (not (is_empty settings.object_store_access_key)
        && not (is_empty settings.object_store_secret_key))

abbrev pub storage_backend : KnowledgeSettings → String
storage_backend settings = if is_s3 settings then "s3-compatible" else "local-prototype"

-- the backend, or what the store raises
unfoldable pub put_object : KnowledgeSettings → String → Bytes → Exec String
put_object settings object_key content s = (
  if s.world.engine.put_object s.calls object_key content
      then ok (storage_backend settings)
      else err transport_error,
  called s,
)

abbrev pub read_error : KnowledgeSettings → Error
read_error settings =
    if is_s3 settings
    then transport_error
    else ingestion_error "object_missing" "The original uploaded file is unavailable"

abbrev pub content_of : KnowledgeSettings → Option Bytes → Result Bytes
content_of settings none = err (read_error settings)
content_of settings (some content) = ok content

unfoldable pub get_object : KnowledgeSettings → String → Exec Bytes
get_object settings object_key s =
    (content_of settings (s.world.engine.get_object s.calls object_key), called s)
