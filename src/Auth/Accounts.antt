-- ===== src/Auth/Accounts.antt =====
-- `UserContext`, `verify_password`, `load_user_context`, `authenticate_user` and `has_permission`.
use Prim.Native.String.{compare, ◌++◌}
use Prim.Native.Nat.{Ordering}
use text.Mathlib.Text.{◌==◌ as str_eq}
use sawtai.Prelude.{
  ℕ, String, Bool, true, false, not, ◌&&◌, ◌||◌, Option, none, some, List, [], ◌∷◌, coalesce,
  where_row, any, ◌==◌, if◌then◌else◌,
}
use sawtai.Prelude.Sorting.{filter, sort_by}
use sawtai.Table.{get, rows}
use sawtai.Text.{is_empty, strip, before}
use sawtai.Schema.{User, Tenant}
use sawtai.Session.{World, Exec, ◌>>=◌, pure, gets}
use sawtai.Auth.Tokens.{Crypto}

pub record UserContext : Type 0 where
  pub user_id : ℕ
  pub tenant_id : ℕ
  pub email : String
  pub display_name_ar : String
  pub display_name_en : String
  pub org_unit_id : Option ℕ
  pub roles : List String
  pub permissions : List String
  pub mfa_enrolled : Bool

-- text order of code points
abbrev pub text_precedes : String → String → Bool
text_precedes s t = elim (compare s t) [ Ordering.lt ↦ true | _ ↦ false ]

-- an unset or empty hash, or another hash, is none of the password's
abbrev pub verify_password : Crypto → Option String → String → Bool
verify_password lib none password = false
verify_password lib (some h) password = if is_empty h then false else lib.argon2_verify h password

-- the active users of the tenant
abbrev pub is_active_of : ℕ → User → Bool
is_active_of tenant_id u = u.tenant_id == tenant_id && u.is_active

abbrev pub context_of : ℕ → User → UserContext
context_of user_id u = record {
  user_id = user_id;
  tenant_id = u.tenant_id;
  email = u.email;
  display_name_ar = coalesce u.display_name_ar "";
  display_name_en = coalesce u.display_name_en "";
  org_unit_id = u.org_unit_id;
  roles = sort_by text_precedes u.roles;
  permissions = u.permissions;
  mfa_enrolled = u.mfa_enrolled;
}

abbrev pub context_or_none : ℕ → Option User → Option UserContext
context_or_none user_id none = none
context_or_none user_id (some u) = some (context_of user_id u)

unfoldable pub load_user_context : ℕ → ℕ → Exec (Option UserContext)
load_user_context user_id tenant_id =
    gets
      (λ s. context_or_none user_id (where_row (is_active_of tenant_id) (get s.db.users user_id)))

-- `t.code = :tenant_code` for the tenant of a user
abbrev pub has_code : String → List Tenant → ℕ → Bool
has_code tenant_code tenants tenant_id =
    any (λ (t : Tenant). t.tenant_id == tenant_id && str_eq t.code tenant_code) tenants

unfoldable pub find_login :
    World → String → String → List Tenant → List (ℕ × User) → Option (ℕ × User)
find_login w tenant_code email tenants [] = none
find_login w tenant_code email tenants ((k, u) ∷ rest) =
    let found = find_login w tenant_code email tenants rest in
    if has_code tenant_code tenants u.tenant_id
      && (str_eq (w.lower u.email) (w.lower email) && u.is_active)
    then some (k, u)
    else found

abbrev pub checked_login : Crypto → String → Option (ℕ × User) → Exec (Option UserContext)
checked_login lib password none = pure none
checked_login lib password (some (k, u)) =
    if verify_password lib u.password_hash password
    then load_user_context k u.tenant_id
    else pure none

unfoldable pub authenticate_user : Crypto → String → String → String → Exec (Option UserContext)
authenticate_user lib tenant_code email password = do
  w ← gets (λ s. s.world)
  found ←
      gets (λ s. find_login w tenant_code (strip w.is_space email) s.db.tenants (rows s.db.users))
  checked_login lib password found

abbrev pub holds : List String → String → Bool
holds permissions p = any (λ q. str_eq q p) permissions

-- the namespace is permission.partition(":")[0]
unfoldable pub has_permission : UserContext → String → Bool
has_permission user permission =
    holds user.permissions permission || holds user.permissions (before 58 permission ++ ":*")

-- what `require(...)` refuses with 403, in the order of its arguments
unfoldable pub missing : UserContext → List String → List String
missing user permissions = filter (λ p. not (has_permission user p)) permissions
