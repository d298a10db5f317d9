-- ===== src/Auth/Replay.antt =====
-- A refresh token works once: after a rotation or a logout the ledger says so.
use text.Mathlib.Text.{◌==◌ as str_eq}
use sawtai.Prelude.{
  ℕ, true, ==_refl, ap, subst, ◌+◌, ◌≤◌, String, ◌≡◌, ◌≢◌, false, inl, inr, Bool-cases,
  Option-cases, Option, some, arith, where_row,
}
use sawtai.Table.{get}
use sawtai.Schema.{User}
use sawtai.Session.{Result, err, Session, ok, require_row}
use sawtai.Session.Post.{IfOk, if_ok}
use sawtai.Session.Effects.{Keeps}
use sawtai.Audit.{entry, latest, write_audit}
use sawtai.Audit.Chain.{
  last_inserted, HasLedger, latest-eq-last_inserted, ledger_rules, uuid4-HasLedger,
}
use sawtai.Auth.Tokens.{Crypto, Settings, Payload, encode_token, decode_token}
use sawtai.Auth.Accounts.{UserContext, is_active_of, context_of, context_or_none, load_user_context}
use sawtai.Auth.Routes.{logout}
use sawtai.Text.{is_empty}
use sawtai.Auth.Tickets.{
  log_logout, revoke_decoded, revoke_refresh_token, TokenPair, reissue, issue_token_pair,
  of_session, is_issue, state_of, has_hash, rotate_refresh_token,
}

-- the last row of the session in the ledger is none that issued it
abbrev IsRevoked : ℕ → ℕ → Session → Type 0
IsRevoked t k s = is_issue (last_inserted (of_session t k) s.db.audit_log) ≡ false

-- ids drawn from now on are new
abbrev pub IsFresh : ℕ → Session → Type 0
IsFresh k s = (n : ℕ) → s.drawn ≤ n → s.world.uuid4 n ≢ k

reissue-IsRevoked :
    (lib : Crypto) (g : Settings) (user : UserContext) (t k : ℕ) (s : Session)
    → user.tenant_id ≡ t
    → IsFresh k s
    → IfOk (λ _ s'. IsRevoked t k s') (reissue lib g user k s)
unfolding write_audit entry issue_token_pair encode_token
reissue-IsRevoked lib g user t k s same fresh =
    ground (arith, same, fresh (s.drawn + 1) (omega arith))

-- the account that the token names, if it is active
abbrev account : Payload → Session → Option User
account p s = where_row (is_active_of p.tenant_id) (get s.db.users p.sub)

rotate-IsRevoked :
    (lib : Crypto) (g : Settings) (token : String) (p : Payload) (s : Session)
    → lib.decode (s.world.clock s.reads) token ≡ some p
    → IsFresh p.jti s
    → IfOk (λ _ s'. IsRevoked p.tenant_id p.jti s') (rotate_refresh_token lib g token s)
unfolding rotate_refresh_token decode_token load_user_context
rotate-IsRevoked lib g token p s decoded fresh =
    let row = latest (of_session p.tenant_id p.jti) s.db.audit_log in
    elim (Bool-cases (str_eq p.token_type "refresh")) [
      | inr other ↦ rw (decoded, require_row, other) tt
      | inl right ↦ elim (Bool-cases (is_issue row)) [
        | inr revoked ↦ rw (decoded, require_row, right, revoked) tt
        | inl issued ↦ elim (Option-cases (state_of row)) [
          | inl stateless ↦ rw (decoded, require_row, right, issued, stateless) tt
          | inr (state, kept) ↦ elim (Bool-cases (has_hash (lib.token_digest token) state)) [
            | inr forged ↦ rw (decoded, require_row, right, issued, kept, forged) tt
            | inl genuine ↦ elim (Option-cases (account p s)) [
              | inl gone ↦
                  rw (decoded, require_row, right, issued, kept, genuine, gone, context_or_none) tt
              | inr (u, found) ↦
                  rw (decoded, require_row, right, issued, kept, genuine, found, context_or_none)
                    (reissue-IsRevoked lib g (context_of p.sub u) p.tenant_id p.jti
                      (record s { reads = s.reads + 1 }) (ground (arith, found)) fresh)
            ]
          ]
        ]
      ]
    ]

-- keeps the ledger
rotate-HasLedger :
    (lib : Crypto) (g : Settings) (token : String)
    → Keeps HasLedger (rotate_refresh_token lib g token)
unfolding rotate_refresh_token issue_token_pair encode_token decode_token load_user_context
rotate-HasLedger lib g token = search (ledger_rules, uuid4-HasLedger) depth 30

revoked-refused :
    (lib : Crypto) (g : Settings) (token : String) (p : Payload) (s : Session)
    (x : UserContext × TokenPair)
    → lib.decode (s.world.clock s.reads) token ≡ some p
    → HasLedger s
    → IsRevoked p.tenant_id p.jti s
    → (rotate_refresh_token lib g token s).0 ≢ ok x
unfolding rotate_refresh_token decode_token
revoked-refused lib g token p s x decoded h revoked =
    let last =
      latest-eq-last_inserted (of_session p.tenant_id p.jti) s.db.audit_log h.opened.ordered in
    elim (Bool-cases (str_eq p.token_type "refresh")) [
      | inr other ↦ rw (decoded, require_row, other) (λ e. cc e)
      | inl right ↦ rw (decoded, require_row, right, last, revoked) (λ e. cc e)
    ]

-- A refresh token works once. On a monotone clock, with new ids that are none of the token's: after
-- a rotation that succeeded, the same token, which decodes to the same payload, is refused under
-- any settings.
pub rotate_once :
    (lib : Crypto) (g h : Settings) (token : String) (p : Payload) (s s' : Session)
    (x y : UserContext × TokenPair)
    → HasLedger s
    → lib.decode (s.world.clock s.reads) token ≡ some p
    → IsFresh p.jti s
    → rotate_refresh_token lib g token s ≡ (ok x, s')
    → lib.decode (s'.world.clock s'.reads) token ≡ some p
    → (rotate_refresh_token lib h token s').0 ≢ ok y
rotate_once lib g h token p s s' x y ledger decoded fresh worked decoded' =
    revoked-refused lib h token p s' y decoded'
      (subst HasLedger (ap (λ r. r.1) worked) ((rotate-HasLedger lib g token).at s ledger))
      (subst (IsRevoked p.tenant_id p.jti) (ap (λ r. r.1) worked) (
        if_ok (λ _ u. IsRevoked p.tenant_id p.jti u) (rotate_refresh_token lib g token s) x
          (rotate-IsRevoked lib g token p s decoded fresh) (ap (λ r. r.0) worked)))

logout-IsRevoked :
    (lib : Crypto) (token : String) (p : Payload) (s : Session)
    → is_empty token ≡ false
    → lib.decode (s.world.clock s.reads) token ≡ some p
    → str_eq p.token_type "refresh" ≡ true
    → IsRevoked p.tenant_id p.jti (logout lib token s).1
unfolding logout revoke_refresh_token decode_token write_audit entry
logout-IsRevoked lib token p s full decoded right =
    rw (full, decoded, require_row, right) (ground (arith, ==_refl p.tenant_id, ==_refl p.jti))

log_logout-HasLedger : (r : Result Payload) → Keeps HasLedger (log_logout r)
log_logout-HasLedger (ok p) = search ledger_rules
log_logout-HasLedger (err e) = search ledger_rules

decode-HasLedger :
    (lib : Crypto) (token : String) → Keeps HasLedger (decode_token lib token "refresh")
unfolding decode_token
decode-HasLedger lib token = search ledger_rules depth 20

revoke_decoded-HasLedger :
    (lib : Crypto) (token : String) → Keeps HasLedger (revoke_decoded lib token)
unfolding decode_token
revoke_decoded-HasLedger lib token = record {
  at = λ s h.
      let (payload, s') = decode_token lib token "refresh" s in
      (log_logout-HasLedger payload).at s' ((decode-HasLedger lib token).at s h);
}

logout-HasLedger : (lib : Crypto) (token : String) → Keeps HasLedger (logout lib token)
unfolding logout revoke_refresh_token
logout-HasLedger lib token = search (ledger_rules, revoke_decoded-HasLedger) depth 20

-- Logging out ends the session. On a monotone clock: after a logout with a refresh token that
-- decodes, the token is refused, under any settings.
pub logout_ends :
    (lib : Crypto) (g : Settings) (token : String) (p : Payload) (s : Session)
    (x : UserContext × TokenPair)
    → HasLedger s
    → is_empty token ≡ false
    → lib.decode (s.world.clock s.reads) token ≡ some p
    → str_eq p.token_type "refresh" ≡ true
    → lib.decode ((logout lib token s).1.world.clock (logout lib token s).1.reads) token ≡ some p
    → (rotate_refresh_token lib g token (logout lib token s).1).0 ≢ ok x
logout_ends lib g token p s x ledger full decoded right decoded' =
    revoked-refused lib g token p (logout lib token s).1 x decoded'
      ((logout-HasLedger lib token).at s ledger) (logout-IsRevoked lib token p s full decoded right)
