-- ===== src/Notifications/Reading.antt =====
-- `list_notifications`, `mark_notification_read` and `mark_all_notifications_read`.
use text.Mathlib.Text.{◌==◌ as str_eq}
use sawtai.Prelude.{
  ℕ, Bool, false, not, ◌&&◌, Option, none, some, List, [], ◌∷◌, map, any, take, length, ◌==◌,
  if◌then◌else◌,
}
use sawtai.Prelude.Sorting.{filter, sort_by}
use sawtai.Schema.{AuditRow, Scalar, uuid, str, Json}
use sawtai.Session.{Exec, lookup_error, ◌>>=◌, ◌>>◌, pure, raise_if, gets, now, commit}
use sawtai.Audit.{event, later, write_audit}
use sawtai.Notifications.Emit.{is_id, evaluate_notification_rules}

abbrev pub is_uuid_of : ℕ → Scalar → Bool
is_uuid_of k (uuid j) = j == k
is_uuid_of k x = false

unfoldable pub has_recipient : ℕ → Json → Bool
has_recipient user_id [] = false
has_recipient user_id ((key, x) ∷ rest) =
    let later = has_recipient user_id rest in
    if str_eq key "recipient_user_id" then is_uuid_of user_id x else later

-- after_state ->> 'recipient_user_id' = :user_id
abbrev pub is_for : ℕ → Option Json → Bool
is_for user_id none = false
is_for user_id (some state) = has_recipient user_id state

abbrev pub is_notice_for : ℕ → ℕ → AuditRow → Bool
is_notice_for tenant_id user_id r =
    r.tenant_id == tenant_id
    && (str_eq r.action "notification.trigger" && is_for user_id r.after_state)

abbrev pub is_read_by : ℕ → ℕ → ℕ → AuditRow → Bool
is_read_by tenant_id user_id event_id r =
    r.tenant_id == tenant_id
    && (is_id event_id r.object_id
        && (str_eq r.action "notification.read" && is_id user_id r.actor_user_id))

pub record Item : Type 0 where
  pub notification_id : Option ℕ
  pub occurred_at : ℕ
  pub is_read : Bool
  pub state : Option Json

abbrev pub was_read : ℕ → ℕ → Option ℕ → List AuditRow → Bool
was_read tenant_id user_id none log = false
was_read tenant_id user_id (some k) log =
    any (λ (r : AuditRow). str_eq r.object_type "notification" && is_read_by tenant_id user_id k r)
      log

abbrev pub item_of : ℕ → ℕ → List AuditRow → AuditRow → Item
item_of tenant_id user_id log r = record {
  notification_id = r.object_id;
  occurred_at = r.occurred_at;
  is_read = was_read tenant_id user_id r.object_id log;
  state = r.after_state;
}

-- the newest notices of the user
abbrev pub items_of : ℕ → ℕ → ℕ → List AuditRow → List Item
items_of tenant_id user_id limit log =
    map (item_of tenant_id user_id log)
      (take limit (sort_by later (filter (is_notice_for tenant_id user_id) log)))

abbrev pub is_unread : Item → Bool
is_unread i = not i.is_read

pub record Inbox : Type 0 where
  pub items : List Item
  pub unread : ℕ
  pub count : ℕ

unfoldable pub list_notifications : ℕ → ℕ → ℕ → Exec Inbox
list_notifications tenant_id user_id limit = do
  evaluate_notification_rules (some tenant_id)
  commit
  items ← gets (λ s. items_of tenant_id user_id limit s.db.audit_log)
  pure (record { items = items; unread = length (filter is_unread items); count = length items })

abbrev pub log_read : ℕ → ℕ → ℕ → Exec (Unit {0})
log_read tenant_id user_id event_id = do
  w ← gets (λ s. s.world)
  at ← now
  let e = event tenant_id user_id "notification.read" "notification" event_id
  write_audit (record e { after_state = some (("read_at", str (w.iso_text at)) ∷ []) })
  commit

unfoldable pub mark_notification_read : ℕ → ℕ → ℕ → Exec (Unit {0})
mark_notification_read tenant_id user_id event_id = do
  known ← gets (λ s.
      any (λ (r : AuditRow). is_id event_id r.object_id && is_notice_for tenant_id user_id r)
        s.db.audit_log)
  raise_if (not known) (lookup_error "Notification not found")
  already_read ← gets (λ s. any (is_read_by tenant_id user_id event_id) s.db.audit_log)
  if already_read then pure tt else log_read tenant_id user_id event_id

abbrev pub mark_item : ℕ → ℕ → Option ℕ → Exec (Unit {0})
mark_item tenant_id user_id none = pure tt
mark_item tenant_id user_id (some k) = mark_notification_read tenant_id user_id k

unfoldable pub mark_each : ℕ → ℕ → List Item → Exec (Unit {0})
mark_each tenant_id user_id [] = pure tt
mark_each tenant_id user_id (i ∷ rest) =
    mark_item tenant_id user_id i.notification_id >> mark_each tenant_id user_id rest

-- of the newest 200 notices
unfoldable pub mark_all_notifications_read : ℕ → ℕ → Exec ℕ
mark_all_notifications_read tenant_id user_id = do
  inbox ← list_notifications tenant_id user_id 200
  let unread = filter is_unread inbox.items
  mark_each tenant_id user_id unread
  pure (length unread)
