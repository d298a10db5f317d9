-- ===== src/Schema/Accounts.antt =====
-- core.users with the roles and permissions that core.user_roles and core.roles give them.
use sawtai.Prelude.{ℕ, String, Bool, Option, List}

pub record User : Type 0 where
  pub tenant_id : ℕ
  pub email : String
  pub display_name_ar : Option String
  pub display_name_en : Option String
  pub org_unit_id : Option ℕ
  pub password_hash : Option String
  pub is_active : Bool
  pub mfa_enrolled : Bool
  pub roles : List String
  pub permissions : List String
  pub last_login_at : Option ℕ

-- core.tenants
pub record Tenant : Type 0 where
  pub tenant_id : ℕ
  pub code : String
