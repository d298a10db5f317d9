-- ===== src/Schema/CaseRows.antt =====
-- core.cases, core.complaints, core.taxonomy_nodes and their enumerations.
use sawtai.Prelude.{ℕ, String, Bool, Option}

pub data CaseStatus : Type 0 where
  new triaged assigned awaiting_response responded resolved closed rejected : CaseStatus

pub data Severity : Type 0 where
  low medium high critical : Severity

-- "SHJ-<year>-<hex>", where <hex> is the first six hexadecimal digits of the case's UUID: the
-- text is determined by the year and the number that those digits stand for.
pub record Reference : Type 0 where
  pub year : ℕ
  pub hex_prefix : ℕ

pub record Case : Type 0 where
  pub tenant_id : ℕ
  pub reference : Reference
  pub title_ar : String
  pub title_en : String
  pub node_id : Option ℕ
  pub org_unit_id : Option ℕ
  pub assigned_to : Option ℕ
  pub status : CaseStatus
  pub severity : Severity
  pub sla_due_at : Option ℕ
  pub first_response_at : Option ℕ
  pub resolved_at : Option ℕ
  pub created_at : ℕ
  pub updated_at : ℕ

pub record TaxonomyNode : Type 0 where
  pub tenant_id : ℕ
  pub code : String
  pub label_en : String
  pub owner_org_unit_id : Option ℕ
  pub sla_hours : Option ℕ
  pub is_active : Bool

pub record Complaint : Type 0 where
  pub tenant_id : ℕ
  pub message_id : ℕ
  pub occurred_at : ℕ
  pub node_id : Option ℕ
  pub severity : Severity
  pub issue_summary_ar : String
  pub issue_summary_en : String
  pub case_id : Option ℕ
