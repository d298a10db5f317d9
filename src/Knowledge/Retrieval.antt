-- ===== src/Knowledge/Retrieval.antt =====
-- rag/service.py: which sections answer a question.
use text.Mathlib.Text.{starts_with, ◌==◌ as str_eq}
use sawtai.Prelude.{
  ℕ, ◌+◌, ◌*◌, ◌/◌, String, Bool, true, not, ◌&&◌, ◌||◌, Option, none, some, List, [], ◌∷◌, map,
  any, length, take, where_row, leb, ltb, ◌==◌, if◌then◌else◌,
}
use sawtai.Prelude.Sorting.{filter, sort_by}
use sawtai.Table.{get}
use sawtai.Text
use sawtai.Text.Words.{words}
use sawtai.Schema.{Document, DocChunk, Db}
use sawtai.Session.{World, Exec, ◌>>=◌, pure, gets}
use sawtai.Knowledge.Encoding.{KnowledgeSettings, embed_texts, rerank_texts, vector_literal}
use sawtai.Knowledge.Life.{current_date}

-- 1.0
abbrev pub unit_score : ℕ
unit_score = 100000

abbrev pub max : ℕ → ℕ → ℕ
max a b = if leb a b then b else a

abbrev pub min : ℕ → ℕ → ℕ
min a b = if leb a b then a else b

abbrev pub starts_by : ℕ → Option ℕ → Bool
starts_by day none = true
starts_by day (some from) = leb from day

abbrev pub ends_after : ℕ → Option ℕ → Bool
ends_after day none = true
ends_after day (some to) = ltb day to

-- the WHERE of the retrieval
unfoldable pub is_retrievable : ℕ → ℕ → Document → Bool
is_retrievable tenant_id day d =
    d.tenant_id == tenant_id
    && (d.is_approved && (starts_by day d.effective_from && ends_after day d.effective_to))

-- a row of the query
pub record Scored : Type 0 where
  pub chunk : DocChunk
  pub document : Document
  pub sparse_score : ℕ
  pub dense_score : ℕ
  pub hybrid_score : ℕ

-- dense_score * 0.55 + sparse_score * 0.45
abbrev pub hybrid : ℕ → ℕ → ℕ
hybrid dense sparse = (dense * 55 + sparse * 45) / 100

abbrev pub sparse_of : World → String → DocChunk → ℕ
sparse_of w query c =
    max (w.engine.similarity c.norm_text (w.engine.normalize_for_search query))
      (w.engine.similarity c.text query)

abbrev pub dense_of : World → List ℕ → DocChunk → ℕ
dense_of w embedding c =
    if w.engine.is_zero_vector c.embedding then 0 else w.engine.closeness c.embedding embedding

abbrev pub score : World → String → List ℕ → DocChunk → Document → Scored
score w query embedding c d =
    let sparse = sparse_of w query c in
    let dense = dense_of w embedding c in
    record {
      chunk = c;
      document = d;
      sparse_score = sparse;
      dense_score = dense;
      hybrid_score = hybrid dense sparse;
    }

abbrev pub add_scored :
    World → String → List ℕ → DocChunk → Option Document → List Scored → List Scored
add_scored w query embedding c none rest = rest
add_scored w query embedding c (some d) rest = score w query embedding c d ∷ rest

-- the document of a chunk of the tenant, if the chunk may be used
abbrev pub source_of : ℕ → ℕ → Db → DocChunk → Option Document
source_of tenant_id day db c =
    if c.tenant_id == tenant_id
    then where_row (is_retrievable tenant_id day) (get db.documents c.document_id)
    else none

-- FROM core.doc_chunks JOIN core.documents WHERE ...
unfoldable pub scored : World → ℕ → ℕ → Db → String → List ℕ → List DocChunk → List Scored
scored w tenant_id day db query embedding [] = []
scored w tenant_id day db query embedding (c ∷ cs) =
    add_scored w query embedding c (source_of tenant_id day db c)
      (scored w tenant_id day db query embedding cs)

-- ORDER BY hybrid_score DESC, seq
abbrev pub by_hybrid : Scored → Scored → Bool
by_hybrid a b =
    ltb b.hybrid_score a.hybrid_score
    || (a.hybrid_score == b.hybrid_score && ltb a.chunk.seq b.chunk.seq)

-- a set of texts as a list without repetitions
unfoldable pub distinct : List String → List String
distinct [] = []
distinct (t ∷ ts) = let rest = distinct ts in if any (str_eq t) rest then rest else t ∷ rest

abbrev pub is_term : String → Bool
is_term t = ltb 2 (Text.length t) && not (starts_with t "<")

unfoldable pub lexical_overlap : World → String → String → ℕ
unfolding distinct
lexical_overlap w query document =
    let query_terms =
      distinct (filter is_term (words w.is_space (w.engine.normalize_for_search query))) in
    let document_terms = words w.is_space (w.engine.normalize_for_search document) in
    let shared = filter (λ t. any (str_eq t) document_terms) query_terms in
    if length query_terms == 0 then 0 else length shared * unit_score / length query_terms

pub record RetrievedChunk : Type 0 where
  pub chunk_id : ℕ
  pub document_id : ℕ
  pub title_ar : String
  pub title_en : Option String
  pub heading_path : Option String
  pub text : String
  pub score : ℕ
  pub dense_score : ℕ
  pub sparse_score : ℕ
  pub rerank_score : ℕ
  pub embedding_provider : String
  pub rerank_provider : String

-- `x if x else None`
abbrev pub text_or_none : Option String → Option String
text_or_none none = none
text_or_none (some t) = if Text.is_empty t then none else some t

-- rerank_score and final_score
abbrev pub final_scores : World → ℕ → ℕ → Option ℕ → ℕ × ℕ
final_scores w hybrid_score lexical_score none = (lexical_score, max hybrid_score lexical_score)
final_scores w hybrid_score lexical_score (some remote_score) =
    let rerank_score = w.engine.logistic remote_score in
    (rerank_score, (rerank_score * 65 + hybrid_score * 35) / 100)

unfoldable pub retrieved_chunk :
    World → Scored → String → String → Option ℕ → String → RetrievedChunk
retrieved_chunk w row query embedding_provider remote_score rerank_provider =
    let lexical_score = lexical_overlap w query row.chunk.text in
    let (rerank_score, final_score) = final_scores w row.hybrid_score lexical_score remote_score in
    record {
      chunk_id = row.chunk.chunk_id;
      document_id = row.chunk.document_id;
      title_ar = row.document.title_ar;
      title_en = text_or_none row.document.title_en;
      heading_path = text_or_none row.chunk.heading_path;
      text = row.chunk.text;
      score = min unit_score final_score;
      dense_score = min unit_score row.dense_score;
      sparse_score = min unit_score row.sparse_score;
      rerank_score = min unit_score rerank_score;
      embedding_provider = embedding_provider;
      rerank_provider = rerank_provider;
    }

-- the candidates with the scores of the reranker, in their order
unfoldable pub ranked :
    World → String → String → String → List Scored → List ℕ → List RetrievedChunk
ranked w query provider reranker [] scores = []
ranked w query provider reranker (r ∷ rs) [] = []
ranked w query provider reranker (r ∷ rs) (x ∷ xs) =
    retrieved_chunk w r query provider (some x) reranker ∷ ranked w query provider reranker rs xs

abbrev pub candidates :
    World → String → String → List Scored → Option (List ℕ × String) → List RetrievedChunk
candidates w query provider rows none =
    map (λ r. retrieved_chunk w r query provider none "lexical-overlap-v1") rows
candidates w query provider rows (some (scores, reranker)) =
    ranked w query provider reranker rows scores

-- sorted(..., key=score, reverse=True)
abbrev pub by_score : RetrievedChunk → RetrievedChunk → Bool
by_score a b = ltb b.score a.score

abbrev pub scored_text : Scored → String
scored_text r = r.chunk.text

-- `vectors[0]`
abbrev pub first_vector : List (List ℕ) → List ℕ
first_vector [] = []
first_vector (v ∷ vs) = v

abbrev pub limited_rows : World → ℕ → ℕ → Db → String → List ℕ → ℕ → List Scored
limited_rows w tenant_id day db query embedding limit =
    take (max 20 (limit * 4))
      (sort_by by_hybrid (scored w tenant_id day db query embedding db.doc_chunks))

-- the rows ranked again, the best first, and cut
abbrev pub rank_rows :
    World → String → String → ℕ → KnowledgeSettings → List Scored → Exec (List RetrievedChunk)
rank_rows w query provider limit settings rows = do
  ranking ← rerank_texts query (map scored_text rows) settings
  pure (take limit (sort_by by_score (candidates w query provider rows ranking)))

unfoldable pub retrieve_approved_chunks :
    ℕ → String → ℕ → KnowledgeSettings → Exec (List RetrievedChunk)
retrieve_approved_chunks tenant_id query limit settings = do
  w ← gets (λ s. s.world)
  batch ← embed_texts (query ∷ []) settings
  embedding ← vector_literal (first_vector batch.vectors)
  rows ← gets (λ s. limited_rows w tenant_id (current_date s) s.db query embedding limit)
  rank_rows w query batch.provider limit settings rows
