-- ===== src/Schema/Knowledge.antt =====
-- core.documents, core.doc_chunks, core.response_citations and core.ai_inference_log. A date is a
-- number of days; a component of an embedding is a number that stands for it.
use sawtai.Prelude.{ℕ, String, Bool, Option, List}

pub record Document : Type 0 where
  pub tenant_id : ℕ
  pub kind : String
  pub title_ar : String
  pub title_en : Option String
  pub lang : String
  pub version : String
  pub effective_from : Option ℕ
  pub effective_to : Option ℕ
  pub is_approved : Bool
  pub approved_by : Option ℕ
  pub object_key : String
  pub sha256 : List ℕ
  pub org_unit_id : Option ℕ
  pub created_at : ℕ

pub record DocChunk : Type 0 where
  pub chunk_id : ℕ
  pub tenant_id : ℕ
  pub document_id : ℕ
  pub seq : ℕ
  pub heading_path : Option String
  pub text : String
  pub norm_text : String
  pub token_count : ℕ
  pub lang : String
  pub embedding : List ℕ

pub record Citation : Type 0 where
  pub response_id : ℕ
  pub seq : ℕ
  pub claim_text : String
  pub chunk_id : ℕ
  pub document_id : ℕ
  pub quoted_text : String
  pub start_char : ℕ
  pub end_char : ℕ
  -- in the unit of the scores
  pub entailment : ℕ

-- `input_ref` is its two fields
pub record InferenceRun : Type 0 where
  pub inference_run_id : ℕ
  pub tenant_id : ℕ
  pub task : String
  pub model_name : String
  pub model_version : String
  pub message_id : ℕ
  pub occurred_at : ℕ
  pub status : String
  pub error_code : Option String
  pub created_at : ℕ
