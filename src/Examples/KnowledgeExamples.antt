-- ===== src/Examples/KnowledgeExamples.antt =====
-- The theorems on documents and answers.
use sawtai.Prelude.{
  ℕ, zero, suc, String, ◌≤◌, ◌≡◌, refl, true, false, none, some, List, [], ◌∷◌, All, length,
}
use sawtai.Table.{empty, seek, get, put}
use sawtai.Prelude.Sorting.{filter, sort_by}
use sawtai.Text.{length as length_of}
use sawtai.Text.Words.{words, split_lines, unify_newlines}
use sawtai.Schema.{AuditRow, Document, DocChunk, Db}
use sawtai.Session.{World, Session, Result, ok, err, uploaded_error}
use sawtai.Audit.{write_audit}
use sawtai.Knowledge.Chunks.{structure_chunks}
use sawtai.Knowledge.ChunkLaws.{
  section_words, body_words, IsShort, structure_chunks-words, structure_chunks-IsShort,
}
use sawtai.Knowledge.Encoding.{KnowledgeSettings, embed_texts, rerank_texts, vector_literal}
use sawtai.Knowledge.Documents.{NewDocument}
use sawtai.Knowledge.Extraction.{extract_document, extract_text}
use sawtai.Knowledge.Ingestion.{Upload, record_ingestion_failure, process_uploaded_content}
use sawtai.Knowledge.Operations.{KnowledgeOp, create, approve, retire}
use sawtai.Knowledge.Life.{current_date}
use sawtai.Knowledge.Retrieval.{
  RetrievedChunk, retrieve_approved_chunks, scored, is_retrievable, retrieved_chunk,
  lexical_overlap,
}
use sawtai.Knowledge.Sources.{IsSourced, retrieve-IsSourced}
use sawtai.Knowledge.Generation.{
  Question, GeneratedReply, has_prompt_injection, decide, insert_run, insert_reply, insert_citation,
  generate_grounded_reply,
}
use sawtai.Knowledge.Failures.{IsFailureRow, process_failure}
use sawtai.Examples.Fixtures.{an_engine, a_world, a_case, a_reply, db_with, session_with}

abbrev two_paragraphs : String
two_paragraphs = "# Water\nThe office opens\nat eight.\n\nCall us."

structure_chunks-words_example :
    section_words a_world.is_space (structure_chunks a_world.is_space two_paragraphs none)
    ≡ body_words a_world.is_space refl refl (split_lines (unify_newlines two_paragraphs))
structure_chunks-words_example =
    structure_chunks-words a_world.is_space refl refl two_paragraphs none

structure_chunks-IsShort_example :
    All (IsShort a_world.is_space) (structure_chunks a_world.is_space two_paragraphs none)
structure_chunks-IsShort_example =
    structure_chunks-IsShort a_world.is_space refl refl two_paragraphs none

abbrev local_settings : KnowledgeSettings
local_settings = record {
  document_max_upload_bytes = 1000;
  document_max_pages = 10;
  rag_encoder_is_remote = false;
  object_store_endpoint = "";
  object_store_access_key = "";
  object_store_secret_key = "";
  rag_hybrid_gate = 20000;
}

abbrev an_article : NewDocument
an_article = record {
  tenant_id = 1;
  kind = "faq";
  title_ar = "water";
  title_en = none;
  language = "en";
  version = "1";
  effective_from = none;
  effective_to = none;
  org_unit_id = none;
}

-- user 3 writes a document; they cannot approve it, user 4 can, and retires it
abbrev a_career : List KnowledgeOp
a_career =
    create an_article 3 two_paragraphs none
    ∷ approve 1 100 3
    ∷ approve 1 100 4
    ∷ retire 1 100 4
    ∷ []

abbrev zeros_of : ℕ → List ℕ
zeros_of zero = []
zeros_of (suc n) = 0 ∷ zeros_of n

abbrev a_document : Document
a_document = record {
  tenant_id = 1;
  kind = "faq";
  title_ar = "water";
  title_en = none;
  lang = "en";
  version = "1";
  effective_from = none;
  effective_to = none;
  is_approved = true;
  approved_by = some 4;
  object_key = "knowledge/1";
  sha256 = [];
  org_unit_id = none;
  created_at = 5;
}

abbrev a_chunk : DocChunk
a_chunk = record {
  chunk_id = 70;
  tenant_id = 1;
  document_id = 7;
  seq = 1;
  heading_path = none;
  text = "The office opens at eight.";
  norm_text = "the office opens at eight.";
  token_count = 5;
  lang = "en";
  embedding = [];
}

-- the approved document 7 with one chunk
abbrev library_db : Db
library_db = record (db_with a_case a_reply) {
  documents = put empty 7 a_document;
  doc_chunks = a_chunk ∷ [];
}

abbrev full_world : World
full_world = record a_world { engine = record an_engine { hash_embedding = λ t. zeros_of 1024 } }

abbrev library_session : Session
library_session = session_with full_world library_db

abbrev value_or : {A : Type 0} → A → Result A → A
value_or a (ok b) = b
value_or a (err e) = a

abbrev retrieved : List RetrievedChunk
retrieved = value_or [] (retrieve_approved_chunks 1 "opens" 5 local_settings library_session).0

retrieved_ok :
    (retrieve_approved_chunks 1 "opens" 5 local_settings library_session).0 ≡ ok retrieved
unfolding retrieve_approved_chunks embed_texts vector_literal rerank_texts
retrieved_ok = refl

retrieve-IsSourced_example :
    All (IsSourced 1 (current_date library_session) library_session.db) retrieved
    × (length retrieved ≤ 5)
retrieve-IsSourced_example =
    retrieve-IsSourced 1 "opens" 5 local_settings library_session retrieved retrieved_ok

abbrev a_question : Question
a_question = record {
  tenant_id = 1;
  message_id = 40;
  occurred_at = 12;
  citizen_text = "When does the office open?";
  language = "en";
}

abbrev nothing_said : GeneratedReply
nothing_said = record {
  response_id = 0;
  inference_run_id = 0;
  body = "";
  grounding_score = 0;
  abstained = true;
  abstain_reason = none;
  policy_flags = [];
  citations = [];
}

abbrev generated : GeneratedReply
generated =
    value_or nothing_said
      (generate_grounded_reply a_question 20000 local_settings library_session).0

-- the answer quotes the chunk
generated_cites : (length generated.citations ≡ 1) × (generated.abstained ≡ false)
unfolding generate_grounded_reply retrieve_approved_chunks embed_texts vector_literal rerank_texts
    decide has_prompt_injection insert_run insert_reply insert_citation get put scored
    is_retrievable retrieved_chunk sort_by seek empty lexical_overlap filter words length_of
generated_cites = (refl, refl)

-- a file that is no UTF-8
abbrev broken_session : Session
broken_session =
    session_with (record a_world { engine = record an_engine { decode_utf8 = λ b. none } })
      (db_with a_case a_reply)

abbrev an_upload : Upload
an_upload = record {
  tenant_id = 1;
  actor_user_id = 3;
  document_id = 7;
  language = "en";
  content = 255 ∷ [];
  validated = record {
    filename = "a.txt";
    extension = ".txt";
    media_type = "text/plain";
    sha256 = [];
  };
  storage = "local-prototype";
}

abbrev why : String
why = "Text and Markdown files must use UTF-8 encoding"

upload_fails :
    (process_uploaded_content an_upload local_settings broken_session).0
    ≡ err (uploaded_error 7 "encoding_error" why)
unfolding process_uploaded_content extract_document extract_text record_ingestion_failure
    write_audit
upload_fails = refl

process_failure_example :
    (7 ≡ an_upload.document_id)
    × (r : AuditRow) × ((process_uploaded_content an_upload local_settings broken_session).1.saved
        ≡ record broken_session.saved { audit_log = r ∷ broken_session.saved.audit_log })
    × IsFailureRow an_upload "encoding_error" why r
process_failure_example =
    process_failure an_upload local_settings broken_session (uploaded_error 7 "encoding_error" why)
      upload_fails
