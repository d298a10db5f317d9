-- ===== src/Auth/Tickets.antt =====
-- Refresh tokens: `issue_token_pair`, `rotate_refresh_token` and `revoke_refresh_token`. The ledger
-- is the only record of which of them are valid.
use text.Mathlib.Text.{◌==◌ as str_eq}
use sawtai.Prelude.{
  ℕ, ◌*◌, String, Bool, false, not, ◌&&◌, Option, none, some, [], ◌∷◌, ◌==◌, if◌then◌else◌,
}
use sawtai.Text.{is_empty}
use sawtai.Schema.{Scalar, str, Json, AuditRow}
use sawtai.Session.{
  Result, ok, err, Exec, http_error, runtime_error, ◌>>=◌, ◌>>◌, pure, require_row, raise_if, gets,
}
use sawtai.Audit.{event, latest, write_audit}
use sawtai.Cases.Sla.{minutes, hours}
use sawtai.Auth.Tokens.{Crypto, Settings, Payload, encode_token, decode_token}
use sawtai.Auth.Accounts.{UserContext, load_user_context}

pub record TokenPair : Type 0 where
  pub access : String
  pub refresh : String
  pub expires_in : ℕ

unfoldable pub issue_token_pair : Crypto → Settings → UserContext → Exec TokenPair
issue_token_pair lib g user = do
  access ←
      encode_token lib user.user_id user.tenant_id "access" (minutes g.access_token_minutes)
        user.roles user.permissions
  refresh ←
      encode_token lib user.user_id user.tenant_id "refresh" (hours (24 * g.refresh_token_days)) []
        []
  let e = event user.tenant_id user.user_id "auth.refresh.issue" "auth_session" refresh.jti
  write_audit (record e {
    after_state = some (
        ("token_hash", str (lib.token_digest refresh.text))
        ∷ ("expires_at", str (lib.isoformat refresh.expires_at))
        ∷ []);
  })
  pure (record {
    access = access.text;
    refresh = refresh.text;
    expires_in = g.access_token_minutes * 60;
  })

abbrev pub is_uuid : ℕ → Option ℕ → Bool
is_uuid k none = false
is_uuid k (some j) = j == k

-- the rows of one session
abbrev pub of_session : ℕ → ℕ → AuditRow → Bool
of_session tenant_id session_id r =
    r.tenant_id == tenant_id
    && (is_uuid session_id r.object_id && str_eq r.object_type "auth_session")

abbrev pub is_issue : Option AuditRow → Bool
is_issue none = false
is_issue (some r) = str_eq r.action "auth.refresh.issue"

abbrev pub state_of : Option AuditRow → Option Json
state_of none = none
state_of (some r) = r.after_state

abbrev pub is_text : String → Scalar → Bool
is_text t (str u) = str_eq u t
is_text t x = false

-- after_state.get("token_hash") == token_hash
unfoldable pub has_hash : String → Json → Bool
has_hash digest [] = false
has_hash digest ((key, x) ∷ rest) =
    let later = has_hash digest rest in if str_eq key "token_hash" then is_text digest x else later

-- the old token is revoked before the new ones are issued
abbrev pub reissue : Crypto → Settings → UserContext → ℕ → Exec (UserContext × TokenPair)
reissue lib g user refresh_id = do
  let e = event user.tenant_id user.user_id "auth.refresh.revoke" "auth_session" refresh_id
  write_audit (record e { after_state = some (("reason", str "rotated") ∷ []) })
  pair ← issue_token_pair lib g user
  pure (user, pair)

unfoldable pub rotate_refresh_token : Crypto → Settings → String → Exec (UserContext × TokenPair)
rotate_refresh_token lib g token = do
  payload ← decode_token lib token "refresh"
  ledger ← gets (λ s. latest (of_session payload.tenant_id payload.jti) s.db.audit_log)
  raise_if (not (is_issue ledger)) (http_error 401 "Session was revoked")
  state ← require_row (state_of ledger) (runtime_error "'NoneType' object has no attribute 'get'")
  raise_if (not (has_hash (lib.token_digest token) state)) (http_error 401 "Session was revoked")
  found ← load_user_context payload.sub payload.tenant_id
  user ← require_row found (http_error 401 "Account is unavailable")
  reissue lib g user payload.jti

-- `except HTTPException: return`
abbrev pub log_logout : Result Payload → Exec (Unit {0})
log_logout (err e) = pure tt
log_logout (ok payload) =
    let e = event payload.tenant_id payload.sub "auth.refresh.revoke" "auth_session" payload.jti in
    write_audit (record e { after_state = some (("reason", str "logout") ∷ []) })

abbrev pub revoke_decoded : Crypto → String → Exec (Unit {0})
revoke_decoded lib token s =
    let (payload, s') = decode_token lib token "refresh" s in log_logout payload s'

-- an absent cookie is an empty one
unfoldable pub revoke_refresh_token : Crypto → String → Exec (Unit {0})
revoke_refresh_token lib token = if is_empty token then pure tt else revoke_decoded lib token
