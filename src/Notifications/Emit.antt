-- ===== src/Notifications/Emit.antt =====
-- `_emit`, `_evaluate_tenant` and `evaluate_notification_rules`.
use text.Mathlib.Text.{◌==◌ as str_eq}
use sawtai.Prelude.{
  ℕ, ◌+◌, ◌-◌, String, Bool, false, ◌&&◌, Option, none, some, List, [], ◌∷◌, map, any, length, ◌++◌,
  ◌==◌, if◌then◌else◌,
}
use sawtai.Prelude.Sorting.{filter}
use sawtai.Table.{rows}
use sawtai.Schema.{AuditRow, Scalar, null, uuid, str, Json, Tenant}
use sawtai.Session.{World, Session, Exec, ◌>>=◌, ◌>>◌, pure, gets, now}
use sawtai.Audit.{Event, write_audit}
use sawtai.Notifications.Rules.{
  Notice, users_with, case_notices, reply_notices, is_open_of, is_pending_of,
}

-- `notification_id`
abbrev pub notice_id : World → Notice → ℕ
notice_id w n = w.uuid5 n.kind n.target_id n.recipient_id

abbrev pub is_id : ℕ → Option ℕ → Bool
is_id k none = false
is_id k (some j) = j == k

-- the row of the ledger is the notice with this id
abbrev pub is_trigger : ℕ → ℕ → AuditRow → Bool
is_trigger tenant_id event_id r =
    r.tenant_id == tenant_id
    && (str_eq r.object_type "notification"
        && (is_id event_id r.object_id && str_eq r.action "notification.trigger"))

abbrev pub reference_or_null : Option String → Scalar
reference_or_null none = null
reference_or_null (some t) = str t

abbrev pub notice_state : Notice → Json
notice_state n =
    ("recipient_user_id", uuid n.recipient_id)
    ∷ ("kind", str n.kind)
    ∷ ("level", str n.level)
    ∷ ("title_ar", str n.title_ar)
    ∷ ("title_en", str n.title_en)
    ∷ ("body_ar", str n.body_ar)
    ∷ ("body_en", str n.body_en)
    ∷ ("target_type", str n.target_type)
    ∷ ("target_id", uuid n.target_id)
    ∷ ("target_page", str n.target_page)
    ∷ ("reference", reference_or_null n.reference)
    ∷ []

abbrev pub trigger_event : World → ℕ → Notice → Event
trigger_event w tenant_id n = record {
  tenant_id = tenant_id;
  actor_user_id = none;
  actor_type = "system";
  action = "notification.trigger";
  object_type = "notification";
  object_id = some (notice_id w n);
  outcome = "success";
  before_state = none;
  after_state = some (notice_state n);
}

-- `_emit`
unfoldable pub emit : ℕ → Notice → Exec (Unit {0})
emit tenant_id n = do
  w ← gets (λ s. s.world)
  exists ← gets (λ s. any (is_trigger tenant_id (notice_id w n)) s.db.audit_log)
  if exists then pure tt else write_audit (trigger_event w tenant_id n)

unfoldable pub emit_all : ℕ → List Notice → Exec (Unit {0})
emit_all tenant_id [] = pure tt
emit_all tenant_id (n ∷ rest) = emit tenant_id n >> emit_all tenant_id rest

abbrev pub concat : List (List Notice) → List Notice
concat [] = []
concat (x ∷ rest) = x ++ concat rest

-- every notice that the rules give at the time `at`, in the order of the loops
abbrev pub notices : World → ℕ → ℕ → Session → List Notice
notices w at tenant_id s =
    let users = rows s.db.users in
    let managers = users_with tenant_id ("comms_officer" ∷ "dept_head" ∷ []) users in
    let leads = users_with tenant_id ("crisis_lead" ∷ []) users in
    let approvers = users_with tenant_id ("dept_head" ∷ []) users in
    concat
      (map (case_notices w at managers leads) (filter (is_open_of tenant_id) (rows s.db.cases)))
    ++ concat
        (map (reply_notices approvers) (filter (is_pending_of tenant_id) (rows s.db.responses)))

abbrev pub count_triggers : ℕ → List AuditRow → ℕ
count_triggers tenant_id log = length (
    filter (λ (r : AuditRow). r.tenant_id == tenant_id && str_eq r.action "notification.trigger")
      log)

-- `_evaluate_tenant`, which holds an advisory lock of the tenant
unfoldable pub evaluate_tenant : ℕ → Exec ℕ
evaluate_tenant tenant_id = do
  w ← gets (λ s. s.world)
  existing ← gets (λ s. count_triggers tenant_id s.db.audit_log)
  at ← now
  todo ← gets (notices w at tenant_id)
  emit_all tenant_id todo
  after ← gets (λ s. count_triggers tenant_id s.db.audit_log)
  pure (after - existing)

unfoldable pub evaluate_each : List ℕ → Exec ℕ
evaluate_each [] = pure 0
evaluate_each (t ∷ rest) = do n ← evaluate_tenant t; m ← evaluate_each rest; pure (n + m)

abbrev pub tenants_of : Option ℕ → List Tenant → List ℕ
tenants_of none all = map (λ (t : Tenant). t.tenant_id) all
tenants_of (some t) all = t ∷ []

unfoldable pub evaluate_notification_rules : Option ℕ → Exec ℕ
evaluate_notification_rules tenant_id = do
  all ← gets (λ s. tenants_of tenant_id s.db.tenants)
  evaluate_each all
