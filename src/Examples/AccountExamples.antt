-- ===== src/Examples/AccountExamples.antt =====
-- The theorems on tokens and permissions.
use sawtai.Prelude.{◌≡◌, ◌≢◌, refl, none, some, [], ◌∷◌, arith}
use text.Mathlib.Text.{◌==◌ as str_eq}
use sawtai.Schema.{AuditRow, str}
use sawtai.Session.{Session, ok}
use sawtai.Audit.{latest, entry, write_audit}
use sawtai.Audit.Chain.{HasLedger}
use sawtai.Auth.Tokens.{Crypto, Settings, Payload, encode_token, decode_token}
use sawtai.Auth.Accounts.{context_of, load_user_context}
use sawtai.Auth.Tickets.{TokenPair, has_hash, issue_token_pair, rotate_refresh_token}
use sawtai.Auth.Routes.{logout}
use sawtai.Auth.Replay.{rotate_once, logout_ends}
use sawtai.Examples.Fixtures.{
  a_world, a_case, a_reply, an_officer, db_with, session_with, user_there, zeros,
}

-- of user 3, with the id 9
abbrev a_payload : Payload
a_payload = record {
  sub = 3;
  tenant_id = 1;
  token_type = "refresh";
  jti = 9;
  iat = 0;
  exp = 9000;
  roles = [];
  permissions = [];
}

abbrev lib : Crypto
lib = record {
  encode = λ p. "signed";
  decode = λ at t. some a_payload;
  token_digest = λ t. t;
  isoformat = λ t. "2026-01-01T00:00:00+00:00";
  argon2_hash = λ n t. t;
  argon2_verify = λ h t. str_eq h t;
}

abbrev settings : Settings
settings = record { access_token_minutes = 15; refresh_token_days = 7 }

abbrev access_lib : Crypto
access_lib = record lib { decode = λ at t. some (record a_payload { token_type = "access" }) }

-- the ledger says that the token "old" was issued
abbrev issued : AuditRow
issued = record {
  audit_id = 0;
  tenant_id = 1;
  occurred_at = 500;
  actor_user_id = some 3;
  actor_type = "user";
  action = "auth.refresh.issue";
  object_type = "auth_session";
  object_id = some 9;
  outcome = "success";
  before_state = none;
  after_state = some (("token_hash", str "old") ∷ []);
  prev_hash = none;
  row_hash = zeros;
}

abbrev issued_session : Session
issued_session =
    record (session_with a_world (record (db_with a_case a_reply) { audit_log = issued ∷ [] })) {
      serial = 1;
    }

issued-HasLedger : HasLedger issued_session
issued-HasLedger = record {
  monotone = record { step = λ n. omega arith };
  opened = record {
    ordered = (tt, tt);
    recent = ((omega arith, omega arith), tt);
    chained = (refl, refl, tt);
  };
  saved = record {
    ordered = (tt, tt);
    recent = ((omega arith, omega arith), tt);
    chained = (refl, refl, tt);
  };
}

abbrev new_pair : TokenPair
new_pair = record { access = "signed"; refresh = "signed"; expires_in = 900 }

rotated :
    (rotate_refresh_token lib settings "old" issued_session).0
    ≡ ok (context_of 3 an_officer, new_pair)
unfolding rotate_refresh_token decode_token latest has_hash load_user_context issue_token_pair
    encode_token write_audit entry
rotated = rw (user_there a_case a_reply) refl

rotate_once_example :
    (rotate_refresh_token lib settings "old"
      (rotate_refresh_token lib settings "old" issued_session).1).0
    ≢ ok (context_of 3 an_officer, new_pair)
rotate_once_example =
    rotate_once lib settings settings "old" a_payload issued_session
      (rotate_refresh_token lib settings "old" issued_session).1 (context_of 3 an_officer, new_pair)
      (context_of 3 an_officer, new_pair) issued-HasLedger refl (λ n h e. absurd (omega arith))
      (cc rotated) refl

logout_ends_example :
    (rotate_refresh_token lib settings "old" (logout lib "old" issued_session).1).0
    ≢ ok (context_of 3 an_officer, new_pair)
logout_ends_example =
    logout_ends lib settings "old" a_payload issued_session (context_of 3 an_officer, new_pair)
      issued-HasLedger refl refl refl refl
