-- ===== src/Schema/ReplyRows.antt =====
-- core.responses as the WhatsApp workflow uses it.
use sawtai.Prelude.{ℕ, String, Bool, Option}

pub data ReplyStatus : Type 0 where
  draft pending_approval approved rejected published withdrawn : ReplyStatus

pub record Reply : Type 0 where
  pub tenant_id : ℕ
  pub case_id : Option ℕ
  pub body : String
  pub status : ReplyStatus
  -- thousandths; NULL is `none`
  pub grounding_score : Option ℕ
  -- whether the JSON list of flags has a member
  pub policy_flags : Bool
  pub abstained : Bool
  pub created_by : Option ℕ
  pub edited_by : Option ℕ
  pub edit_distance : Option ℕ
  pub submitted_at : Option ℕ
  pub approved_by : Option ℕ
  pub approved_at : Option ℕ
  pub published_at : Option ℕ
  pub published_ref : Option String
  pub created_at : ℕ
  -- the run of the generator that wrote the draft
  pub inference_run_id : Option ℕ
  pub abstain_reason : Option String
