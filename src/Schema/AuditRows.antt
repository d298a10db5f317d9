-- ===== src/Schema/AuditRows.antt =====
-- core.audit_log. The two JSONB columns hold dictionaries of scalars.
use sawtai.Prelude.{ℕ, String, Bool, Option, List}

pub data Scalar : Type 0 where
  null : Scalar
  uuid : ℕ → Scalar
  str : String → Scalar
  num : ℕ → Scalar
  flag : Bool → Scalar
  texts : List String → Scalar
  -- the text of a case's reference, by its year and the number of its hexadecimal digits
  case_reference : ℕ → ℕ → Scalar

abbrev pub Json : Type 0
Json = List (String × Scalar)

abbrev pub Bytes : Type 0
Bytes = List ℕ

pub record AuditRow : Type 0 where
  pub audit_id : ℕ
  pub tenant_id : ℕ
  pub occurred_at : ℕ
  pub actor_user_id : Option ℕ
  pub actor_type : String
  pub action : String
  pub object_type : String
  pub object_id : Option ℕ
  pub outcome : String
  pub before_state : Option Json
  pub after_state : Option Json
  pub prev_hash : Option Bytes
  pub row_hash : Bytes

-- the dictionary that `write_audit` hashes
pub record Canonical : Type 0 where
  pub tenant_id : ℕ
  pub actor_user_id : Option ℕ
  pub actor_type : String
  pub action : String
  pub object_type : String
  pub object_id : Option ℕ
  pub outcome : String
  pub occurred_at : ℕ
