-- ===== src/Auth/Grants.antt =====
-- What a route that asks for permissions lets through.
use sawtai.Prelude.{◌==◌, ℕ, none, some, String, ◌≡◌, true, Option, List, All}
use text.Mathlib.Text.{◌==◌ as str_eq}
use sawtai.Table.{get}
use sawtai.Schema.{User}
use sawtai.Session.{Session, Result, ok, err, http_error}
use sawtai.Auth.Tokens.{Crypto, Payload}
use sawtai.Auth.Accounts.{UserContext, has_permission, context_of}

-- the user has every one of the permissions, by its name or by its namespace
abbrev pub HasAll : UserContext → List String → Type 0
HasAll u ps = All (λ p. has_permission u p ≡ true) ps

-- the request bears an access token that the server signed, for an account of the token's tenant
-- that is active; `u` is what the database says of it
pub record IsBearer (lib : Crypto) (credentials : Option String) (s : Session) (u : UserContext)
    : Type 0 where
  pub token : String
  pub sent : credentials ≡ some token
  pub payload : Payload
  pub signed : lib.decode (s.world.clock s.reads) token ≡ some payload
  pub is_access : str_eq payload.token_type "access" ≡ true
  pub account : User
  pub known : get s.db.users payload.sub ≡ some account
  pub tenant : account.tenant_id == payload.tenant_id ≡ true
  pub active : account.is_active ≡ true
  pub context : context_of payload.sub account ≡ u

module _ (lib : Crypto) (token : String) (s : Session) where
  -- with an access token, the account decides
  abbrev account_of : ℕ → Option User → Result UserContext
  account_of k none = err (http_error 401 "Account is unavailable")
  account_of k (some a) = ok (context_of k a)
