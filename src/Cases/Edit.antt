-- ===== src/Cases/Edit.antt =====
-- `update_case`, `add_case_note` and `escalate_case`.
use sawtai.Prelude.{ℕ, String, Option, none, some, [], ◌∷◌, coalesce}
use mathlib.Core.Bool.{true}
use sawtai.Text.{strip}
use sawtai.Schema.{Severity, critical, Json, str}
use sawtai.Session.{
  World, Exec, lookup_error, ◌>>=◌, ◌>>◌, require_row, gets, sql_now, modify, commit,
}
use sawtai.Audit.{event, write_audit}
use sawtai.Cases.Status.{severity_name}
use sawtai.Cases.Rows.{of_tenant, select_case, update_cases}

-- `title.strip() if title is not None else row["title"]`
abbrev pub new_title : World → Option String → String → String
new_title w none old = old
new_title w (some title) old = strip w.is_space title

abbrev pub edit_state : String → String → Severity → Json
edit_state title_ar title_en severity =
    ("title_ar", str title_ar)
    ∷ ("title_en", str title_en)
    ∷ ("severity", str (severity_name severity))
    ∷ []

unfoldable pub update_case :
    ℕ → ℕ → ℕ → Option String → Option String → Option Severity → Exec (Unit {0})
update_case tenant_id actor_user_id case_id title_ar title_en severity = do
  found ← select_case tenant_id case_id
  row ← require_row found (lookup_error "Case not found")
  w ← gets (λ s. s.world)
  let ar = new_title w title_ar row.title_ar
  let en = new_title w title_en row.title_en
  let sev = coalesce severity row.severity
  at ← sql_now
  modify (
      update_cases case_id (of_tenant tenant_id)
        (λ c. record c { title_ar = ar; title_en = en; severity = sev; updated_at = at }))
  let e = event tenant_id actor_user_id "case.update" "case" case_id
  write_audit (record e {
    before_state = some (edit_state row.title_ar row.title_en row.severity);
    after_state = some (edit_state ar en sev);
  })
  commit

-- the UPDATE names the case alone; the SELECT above it named the tenant
unfoldable pub add_case_note : ℕ → ℕ → ℕ → String → Exec (Unit {0})
add_case_note tenant_id actor_user_id case_id note = do
  found ← select_case tenant_id case_id
  require_row found (lookup_error "Case not found")
  w ← gets (λ s. s.world)
  let e = event tenant_id actor_user_id "case.note" "case" case_id
  write_audit (record e { after_state = some (("note", str (strip w.is_space note)) ∷ []) })
  at ← sql_now
  modify (update_cases case_id (λ _. true) (λ c. record c { updated_at = at }))
  commit

-- UPDATE ... RETURNING: the row is looked for and changed by one statement
unfoldable pub escalate_case : ℕ → ℕ → ℕ → String → Exec (Unit {0})
escalate_case tenant_id actor_user_id case_id reason = do
  found ← select_case tenant_id case_id
  at ← sql_now
  modify (
      update_cases case_id (of_tenant tenant_id)
        (λ c. record c { severity = critical; updated_at = at }))
  require_row found (lookup_error "Case not found")
  w ← gets (λ s. s.world)
  let e = event tenant_id actor_user_id "case.escalate" "case" case_id
  write_audit (record e {
    after_state =
        some (("severity", str "critical") ∷ ("reason", str (strip w.is_space reason)) ∷ []);
  })
  commit
