-- ===== src/Audit.antt =====
-- audit/service.py: the append-only ledger and its hash chain.
pub mod Keeps
pub mod Chain
pub mod Tampering
use sawtai.Prelude.{
  ℕ, ◌+◌, String, Bool, ◌&&◌, ◌||◌, Option, none, some, List, [], ◌∷◌, ◌++◌, ltb, ◌==◌,
  if◌then◌else◌,
}
use mathlib.Core.Option
use sawtai.Schema.{Json, Bytes, AuditRow, Canonical}
use sawtai.Session.{World, Session, Exec, ok, ◌>>=◌, ◌>>◌, now}

-- the keyword arguments of `write_audit`
pub record Event : Type 0 where
  pub tenant_id : ℕ
  pub actor_user_id : Option ℕ
  pub actor_type : String
  pub action : String
  pub object_type : String
  pub object_id : Option ℕ
  pub outcome : String
  pub before_state : Option Json
  pub after_state : Option Json

-- the defaults: an action of a user, which succeeded
abbrev pub event : ℕ → ℕ → String → String → ℕ → Event
event tenant_id actor_user_id action object_type object_id = record {
  tenant_id = tenant_id;
  actor_user_id = some actor_user_id;
  actor_type = "user";
  action = action;
  object_type = object_type;
  object_id = some object_id;
  outcome = "success";
  before_state = none;
  after_state = none;
}

-- `a` comes before `b` in ORDER BY occurred_at DESC, audit_id DESC
abbrev pub later : AuditRow → AuditRow → Bool
later a b =
    ltb b.occurred_at a.occurred_at || (a.occurred_at == b.occurred_at && ltb b.audit_id a.audit_id)

abbrev pub newest : AuditRow → Option AuditRow → AuditRow
newest r none = r
newest r (some b) = if later b r then b else r

-- SELECT ... WHERE p ORDER BY occurred_at DESC, audit_id DESC LIMIT 1
unfoldable pub latest : (AuditRow → Bool) → List AuditRow → Option AuditRow
latest p [] = none
latest p (r ∷ rest) = let best = latest p rest in if p r then some (newest r best) else best

abbrev pub of_tenant : ℕ → AuditRow → Bool
of_tenant t r = r.tenant_id == t

-- `previous_hash or b""`
abbrev pub or_empty : Option Bytes → Bytes
or_empty none = []
or_empty (some h) = h

abbrev pub digest : World → Option Bytes → Canonical → Bytes
digest w prev c = w.sha256 (or_empty prev ++ w.dumps c)

abbrev pub canonical : Event → ℕ → Canonical
canonical e occurred_at = record {
  tenant_id = e.tenant_id;
  actor_user_id = e.actor_user_id;
  actor_type = e.actor_type;
  action = e.action;
  object_type = e.object_type;
  object_id = e.object_id;
  outcome = e.outcome;
  occurred_at = occurred_at;
}

-- the inserted row
unfoldable pub entry : World → Event → ℕ → ℕ → List AuditRow → AuditRow
entry w e audit_id occurred_at log =
    let prev = Option.map (λ (r : AuditRow). r.row_hash) (latest (of_tenant e.tenant_id) log) in
    record {
      audit_id = audit_id;
      tenant_id = e.tenant_id;
      occurred_at = occurred_at;
      actor_user_id = e.actor_user_id;
      actor_type = e.actor_type;
      action = e.action;
      object_type = e.object_type;
      object_id = e.object_id;
      outcome = e.outcome;
      before_state = e.before_state;
      after_state = e.after_state;
      prev_hash = prev;
      row_hash = digest w prev (canonical e occurred_at);
    }

insert_row : Event → ℕ → Exec (Unit {0})
insert_row e occurred_at s = (
  ok tt,
  record s {
    db = record s.db {
      audit_log = entry s.world e s.serial occurred_at s.db.audit_log ∷ s.db.audit_log;
    };
    serial = s.serial + 1;
  },
)

unfoldable pub write_audit : Event → Exec (Unit {0})
unfolding insert_row
write_audit e = do occurred_at ← now; insert_row e occurred_at
