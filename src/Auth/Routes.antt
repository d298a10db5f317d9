-- ===== src/Auth/Routes.antt =====
-- auth/routes.py and the dependencies of the routes. A cookie that is set is part of the result.
use text.Mathlib.Text.{◌==◌ as str_eq}
use sawtai.Prelude.{
  ℕ, ◌+◌, String, Bool, true, false, not, Option, none, some, List, [], ◌∷◌, is_some, if◌then◌else◌,
}
use sawtai.Table.{get, update}
use sawtai.Text.{is_empty, strip}
use sawtai.Schema.{User, Tenant, Db, str}
use sawtai.Session.{
  World, ok, Exec, http_error, runtime_error, ◌>>=◌, ◌>>◌, pure, raise, require_row, raise_if, gets,
  sql_now, modify, commit,
}
use sawtai.Audit.{Event, event, write_audit}
use sawtai.Auth.Tokens.{Crypto, Settings, decode_token}
use sawtai.Auth.Accounts.{
  UserContext, verify_password, load_user_context, authenticate_user, missing,
}
use sawtai.Auth.Tickets.{TokenPair, issue_token_pair, rotate_refresh_token, revoke_refresh_token}

-- `get_current_user`: the bearer token of the request, if there is one
unfoldable pub get_current_user : Crypto → Option String → Exec UserContext
get_current_user lib credentials = do
  token ← require_row credentials (http_error 401 "Authentication required")
  payload ← decode_token lib token "access"
  found ← load_user_context payload.sub payload.tenant_id
  require_row found (http_error 401 "Account is unavailable")

abbrev pub is_nil : List String → Bool
is_nil [] = true
is_nil (p ∷ rest) = false

-- the body of the dependency that `require` returns
abbrev pub admit : List String → UserContext → Exec UserContext
admit permissions user = do
  raise_if (not (is_nil (missing user permissions))) (http_error 403 "Missing permissions")
  pure user

-- `require(*permissions)`
unfoldable pub require : Crypto → List String → Option String → Exec UserContext
require lib permissions credentials = do
  user ← get_current_user lib credentials
  admit permissions user

unfoldable pub tenant_by_code : String → List Tenant → Option ℕ
tenant_by_code code [] = none
tenant_by_code code (t ∷ rest) =
    let found = tenant_by_code code rest in if str_eq t.code code then some t.tenant_id else found

abbrev pub denied_event : World → ℕ → String → Event
denied_event w tenant_id email = record {
  tenant_id = tenant_id;
  actor_user_id = none;
  actor_type = "system";
  action = "auth.login";
  object_type = "user";
  object_id = none;
  outcome = "denied";
  before_state = none;
  after_state = some (("email", str (w.lower (strip w.is_space email))) ∷ []);
}

abbrev pub deny : World → String → Option ℕ → Exec (UserContext × TokenPair)
deny w email none = raise (http_error 401 "Invalid credentials")
deny w email (some tenant) =
    write_audit (denied_event w tenant email)
    >> (commit >> raise (http_error 401 "Invalid credentials"))

abbrev pub update_users : ℕ → (User → User) → Db → Db
update_users user_id f db = record db { users = update db.users user_id (λ _. true) f }

abbrev pub open_session : Crypto → Settings → UserContext → Exec (UserContext × TokenPair)
open_session lib g user = do
  pair ← issue_token_pair lib g user
  at ← sql_now
  modify (update_users user.user_id (λ u. record u { last_login_at = some at }))
  write_audit (event user.tenant_id user.user_id "auth.login" "user" user.user_id)
  commit
  pure (user, pair)

abbrev pub answer_login :
    Crypto
    → Settings
    → World
    → String
    → Option ℕ
    → Option UserContext
    → Exec (UserContext × TokenPair)
answer_login lib g w email tenant none = deny w email tenant
answer_login lib g w email tenant (some user) = open_session lib g user

-- POST /token
unfoldable pub login : Crypto → Settings → String → String → String → Exec (UserContext × TokenPair)
login lib g email password tenant_code = do
  w ← gets (λ s. s.world)
  tenant ← gets (λ s. tenant_by_code tenant_code s.db.tenants)
  user ← authenticate_user lib tenant_code email password
  answer_login lib g w email tenant user

-- POST /refresh
unfoldable pub refresh : Crypto → Settings → String → Exec (UserContext × TokenPair)
refresh lib g token = do
  raise_if (is_empty token) (http_error 401 "Refresh session missing")
  pair ← rotate_refresh_token lib g token
  commit
  pure pair

-- POST /logout
unfoldable pub logout : Crypto → String → Exec (Unit {0})
logout lib token = do revoke_refresh_token lib token; commit

abbrev pub password_of : Option User → Option String
password_of none = none
password_of (some u) = u.password_hash

-- a new random salt
abbrev pub hash_password : Crypto → String → Exec String
hash_password lib password s =
    (ok (lib.argon2_hash s.drawn password), record s { drawn = s.drawn + 1 })

-- POST /password/change
unfoldable pub change_password : Crypto → Option String → String → String → Exec (Unit {0})
change_password lib credentials current_password new_password = do
  user ← get_current_user lib credentials
  row ← gets (λ s. get s.db.users user.user_id)
  raise_if (not (is_some row)) (runtime_error "NoResultFound")
  raise_if (not (verify_password lib (password_of row) current_password))
      (http_error 401 "Current password is incorrect")
  hash ← hash_password lib new_password
  modify (update_users user.user_id (λ u. record u { password_hash = some hash }))
  write_audit (event user.tenant_id user.user_id "user.password_change" "user" user.user_id)
  commit
