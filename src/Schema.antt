-- ===== src/Schema.antt =====
-- The rows of the tables that the services read and write (migrations/versions/0001_core_schema.sql),
-- and the database as their collection. A UUID and a time (microseconds) are numbers.
mod AuditRows
mod CaseRows
mod ReplyRows
mod Accounts
mod Knowledge
mod Inbound
pub use AuditRows.*
pub use CaseRows.*
pub use ReplyRows.*
pub use Accounts.*
pub use Knowledge.*
pub use Inbound.*
use sawtai.Prelude.{List}
use sawtai.Table.{Table}

pub record Db : Type 0 where
  -- newest insertion first
  pub audit_log : List AuditRow
  pub cases : Table Case
  pub taxonomy_nodes : Table TaxonomyNode
  pub complaints : List Complaint
  pub users : Table User
  pub tenants : List Tenant
  pub responses : Table Reply
  pub documents : Table Document
  pub doc_chunks : List DocChunk
  pub response_citations : List Citation
  pub ai_inference_log : List InferenceRun
  pub sources : List Source
  -- newest insertion first
  pub messages : List Message
  pub pii_vault : List VaultEntry
