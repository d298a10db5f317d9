-- ===== src/Auth/Tokens.antt =====
-- `_encode_token` and `decode_token`, and the libraries behind them: PyJWT, Argon2, hashlib.
use sawtai.Prelude.{ℕ, ◌+◌, String, Bool, not, Option, List}
use text.Mathlib.Text.{◌==◌ as str_eq}
use sawtai.Session.{Exec, http_error, ◌>>=◌, ◌>>◌, pure, require_row, raise_if, now, uuid4}

pub record Payload : Type 0 where
  pub sub : ℕ
  pub tenant_id : ℕ
  pub token_type : String
  pub jti : ℕ
  pub iat : ℕ
  pub exp : ℕ
  pub roles : List String
  pub permissions : List String

-- `jwt.encode` and `jwt.decode` under the server's secret; `decode` is given the time, and `none`
-- stands for a PyJWTError. `token_digest` is hashlib.sha256(token.encode()).hexdigest().
pub record Crypto : Type 0 where
  pub encode : Payload → String
  pub decode : ℕ → String → Option Payload
  pub token_digest : String → String
  pub isoformat : ℕ → String
  -- Argon2: a hash under the n-th random salt, and whether a hash is of a password
  pub argon2_hash : ℕ → String → String
  pub argon2_verify : String → String → Bool

pub record Settings : Type 0 where
  pub access_token_minutes : ℕ
  pub refresh_token_days : ℕ

-- the text, its `jti`, and when it expires
pub record Token : Type 0 where
  pub text : String
  pub jti : ℕ
  pub expires_at : ℕ

abbrev pub payload_of : ℕ → ℕ → String → ℕ → ℕ → ℕ → List String → List String → Payload
payload_of user_id tenant_id token_type token_id at lifetime roles permissions = record {
  sub = user_id;
  tenant_id = tenant_id;
  token_type = token_type;
  jti = token_id;
  iat = at;
  exp = at + lifetime;
  roles = roles;
  permissions = permissions;
}

unfoldable pub encode_token : Crypto → ℕ → ℕ → String → ℕ → List String → List String → Exec Token
encode_token lib user_id tenant_id token_type lifetime roles permissions = do
  at ← now
  token_id ← uuid4
  pure (record {
    text =
        lib.encode (payload_of user_id tenant_id token_type token_id at lifetime roles permissions);
    jti = token_id;
    expires_at = at + lifetime;
  })

unfoldable pub decode_token : Crypto → String → String → Exec Payload
decode_token lib token expected_type = do
  at ← now
  payload ← require_row (lib.decode at token) (http_error 401 "Invalid or expired session")
  raise_if (not (str_eq payload.token_type expected_type)) (http_error 401 "Invalid token type")
  pure payload
