-- ===== src/Notifications/Laws.antt =====
-- How often a notice is given, and read (notifications/service.py).
use text.Mathlib.Text.{◌==◌ as str_eq}
use sawtai.Prelude.{
  ℕ, ◌+◌, ◌≤◌, ◌≡◌, ◌≢◌, refl, Bool, true, false, inl, inr, Bool-cases, List, [], ◌∷◌, All, any,
  ◌&&◌, ◌==◌, arith, ==_refl, if◌then◌else◌,
}
use sawtai.Schema.{AuditRow, Db}
use sawtai.Session.{Session, ok}
use sawtai.Session.Effects.{Both, Keeps}
use sawtai.Audit.{Event, entry, write_audit}
use sawtai.Notifications.Emit.{is_id}
use sawtai.Notifications.Reading.{is_notice_for, is_read_by, log_read, mark_notification_read}

-- a row that the inbox shows as a notice, whatever its object is
abbrev pub is_shown : ℕ → ℕ → AuditRow → Bool
is_shown t k r = r.tenant_id == t && (str_eq r.action "notification.trigger" && is_id k r.object_id)

-- how many rows of the ledger are shown as the notice `k` of the tenant
abbrev pub given : ℕ → ℕ → List AuditRow → ℕ
given t k [] = 0
given t k (r ∷ rest) = (if is_shown t k r then 1 else 0) + given t k rest

-- what is shown as a notice is one
abbrev pub IsTyped : AuditRow → Type 0
IsTyped r =
    str_eq r.action "notification.trigger" ≡ true → str_eq r.object_type "notification" ≡ true

pub record Unrepeated (db : Db) : Type 0 where
  pub once : (t k : ℕ) → given t k db.audit_log ≤ 1
  pub typed : All IsTyped db.audit_log

-- writing a row that is no notice
other-Unrepeated :
    (e : Event)
    → str_eq e.action "notification.trigger" ≡ false
    → Keeps (Both Unrepeated) (write_audit e)
unfolding write_audit entry
other-Unrepeated e h = record {
  at = λ s b. record {
    opened = record {
      once = λ t k. ground (arith, h, b.opened.once t k);
      typed = (λ e. cc (h, e), b.opened.typed);
    };
    saved = record { once = λ t k. b.saved.once t k; typed = b.saved.typed };
  };
}

log_read-is_read :
    (t u k : ℕ) (s : Session) → any (is_read_by t u k) (log_read t u k s).1.db.audit_log ≡ true
unfolding write_audit entry
log_read-is_read t u k s = ground (arith, ==_refl t, ==_refl u, ==_refl k)

log_read-known :
    (t u k : ℕ) (p : AuditRow → Bool) (s : Session)
    → any p s.db.audit_log ≡ true
    → any p (log_read t u k s).1.db.audit_log ≡ true
unfolding write_audit
log_read-known t u k p s h = ground (arith, h)

abbrev is_known : ℕ → ℕ → ℕ → AuditRow → Bool
is_known t u k r = is_id k r.object_id && is_notice_for t u r

read_again :
    (t u k : ℕ) (s : Session)
    → any (is_known t u k) s.db.audit_log ≡ true
    → any (is_read_by t u k) s.db.audit_log ≡ true
    → mark_notification_read t u k s ≡ (ok tt, s)
unfolding mark_notification_read
read_again t u k s known seen = rw (known, seen) refl

unknown-refused :
    (t u k : ℕ) (s : Session)
    → any (is_known t u k) s.db.audit_log ≡ false
    → (mark_notification_read t u k s).0 ≢ ok tt
unfolding mark_notification_read
unknown-refused t u k s unknown = rw unknown (λ e. cc e)

-- A notice is read once: after a call that returned, a second call returns and changes nothing.
pub mark_read_idem :
    (t u k : ℕ) (s : Session)
    → (mark_notification_read t u k s).0 ≡ ok tt
    → let s' = (mark_notification_read t u k s).1 in mark_notification_read t u k s' ≡ (ok tt, s')
unfolding mark_notification_read
mark_read_idem t u k s h = elim (Bool-cases (any (is_known t u k) s.db.audit_log)) [
  | inr unknown ↦ absurd (unknown-refused t u k s unknown h)
  | inl known ↦ elim (Bool-cases (any (is_read_by t u k) s.db.audit_log)) [
    | inl seen ↦ rw (known, seen) (read_again t u k s known seen)
    | inr unseen ↦
        rw (known, unseen)
          (read_again t u k _ (log_read-known t u k (is_known t u k) s known)
            (log_read-is_read t u k s))
  ]
]
