-- ===== src/Cases/Queries.antt =====
-- `list_cases` and `get_case_detail`: filters, order, limit and the counts of the summary.
use sawtai.Prelude.{
  ℕ, suc, String, Bool, true, false, not, ◌&&◌, ◌||◌, Option, none, some, List, [], ◌∷◌, take, ltb,
  is_some, ◌==◌, if◌then◌else◌,
}
use sawtai.Prelude.Sorting.{filter, sort_by}
use text.Mathlib.Text.{◌==◌ as str_eq}
use sawtai.Table.{rows}
use sawtai.Text
use sawtai.Text.{strip}
use sawtai.Schema.{CaseStatus, Severity, Case, AuditRow, Reply}
use sawtai.Session.{World, Exec, lookup_error, ◌>>=◌, pure, require_row, gets, now, sql_now}
use sawtai.Audit.{later}
use sawtai.Cases.Status.{is_open, same_status, is_critical, status_transitions}
use sawtai.Cases.Sla.{EnrichedCase, enrich_case}

pub record Filters : Type 0 where
  pub tenant_id : ℕ
  pub case_id : Option ℕ
  pub status : Option CaseStatus
  pub severity : Option Severity
  pub assigned_to : Option ℕ
  pub search : Option String
  pub limit : ℕ

abbrev pub is_assignee : Option ℕ → ℕ → Bool
is_assignee none u = false
is_assignee (some v) u = v == u

-- a filter that is NULL lets every row through
abbrev pub optionally {ℓ} : {A : Type ℓ} → Option A → (A → Bool) → Bool
optionally none p = true
optionally (some a) p = p a

abbrev pub severity_rank : Severity → ℕ
severity_rank Severity.low = 0
severity_rank Severity.medium = 1
severity_rank Severity.high = 2
severity_rank Severity.critical = 3

-- the WHERE clause
unfoldable pub matches : World → Filters → ℕ × Case → Bool
matches w f (k, c) =
    c.tenant_id == f.tenant_id
    && (optionally f.case_id (λ i. k == i)
        && (optionally f.status (same_status c.status)
            && (optionally f.severity (λ v. severity_rank c.severity == severity_rank v)
                && (optionally f.assigned_to (is_assignee c.assigned_to)
                    && optionally f.search (λ t.
                      w.ilike_reference c.reference.year c.reference.hex_prefix t
                      || (w.ilike c.title_ar t || w.ilike c.title_en t))))))

abbrev pub due_before : Option ℕ → Option ℕ → Bool
due_before none b = false
due_before (some a) none = true
due_before (some a) (some b) = ltb a b

-- ORDER BY finished, sla_due_at NULLS LAST, updated_at DESC
abbrev pub precedes : ℕ × Case → ℕ × Case → Bool
precedes (_, a) (_, b) =
    (is_open a.status && not (is_open b.status))
    || (not (not (is_open a.status) && is_open b.status)
        && (due_before a.sla_due_at b.sla_due_at
            || (not (due_before b.sla_due_at a.sla_due_at) && ltb b.updated_at a.updated_at)))

-- `search.strip() if search else None`
abbrev pub trimmed : World → Option String → Option String
trimmed w none = none
trimmed w (some t) = if Text.is_empty t then none else some (strip w.is_space t)

pub record Summary : Type 0 where
  pub total : ℕ
  pub open_count : ℕ
  pub breached : ℕ
  pub unassigned : ℕ
  pub critical : ℕ

unfoldable pub count : (Case → Bool) → List (ℕ × Case) → ℕ
count p [] = 0
count p ((k, c) ∷ rest) = if p c then suc (count p rest) else count p rest

-- `sla_due_at < now()` on a column that may be NULL
abbrev pub is_overdue : ℕ → Option ℕ → Bool
is_overdue at none = false
is_overdue at (some due) = ltb due at

-- counts the open cases of the tenant that satisfy `p`
abbrev pub count_open : ℕ → (Case → Bool) → List (ℕ × Case) → ℕ
count_open tenant_id p = count (λ c. c.tenant_id == tenant_id && (is_open c.status && p c))

unfoldable pub summarize : ℕ → ℕ → List (ℕ × Case) → Summary
unfolding count
summarize tenant_id at all = record {
  total = count (λ c. c.tenant_id == tenant_id) all;
  open_count = count_open tenant_id (λ _. true) all;
  breached = count_open tenant_id (λ c. is_overdue at c.sla_due_at) all;
  unassigned = count_open tenant_id (λ c. not (is_some c.assigned_to)) all;
  critical = count_open tenant_id (λ c. is_critical c.severity) all;
}

-- every row reads the clock twice
unfoldable pub enrich_all : List (ℕ × Case) → Exec (List (ℕ × EnrichedCase))
enrich_all [] = pure []
enrich_all ((k, c) ∷ rest) = do
  first ← now
  second ← now
  others ← enrich_all rest
  pure ((k, enrich_case c first second) ∷ others)

unfoldable pub list_cases : Filters → Exec (List (ℕ × EnrichedCase) × Summary)
list_cases f = do
  w ← gets (λ s. s.world)
  all ← gets (λ s. rows s.db.cases)
  let wanted = record f { search = trimmed w f.search }
  items ← enrich_all (take f.limit (sort_by precedes (filter (matches w wanted) all)))
  at ← sql_now
  pure (items, summarize f.tenant_id at all)

pub record CaseDetail : Type 0 where
  pub case : EnrichedCase
  pub history : List AuditRow
  pub responses : List (ℕ × Reply)
  pub allowed_transitions : List CaseStatus

abbrev pub is_history : ℕ → ℕ → AuditRow → Bool
is_history tenant_id case_id r =
    r.tenant_id == tenant_id && (str_eq r.object_type "case" && is_assignee r.object_id case_id)

-- ORDER BY occurred_at DESC, audit_id DESC LIMIT 100
unfoldable pub history_of : ℕ → ℕ → List AuditRow → List AuditRow
history_of tenant_id case_id log =
    take 100 (sort_by later (filter (is_history tenant_id case_id) log))

-- `sorted(...)` of the names of the statuses
abbrev pub alphabetical : CaseStatus → ℕ
alphabetical CaseStatus.assigned = 0
alphabetical CaseStatus.awaiting_response = 1
alphabetical CaseStatus.closed = 2
alphabetical CaseStatus.new = 3
alphabetical CaseStatus.rejected = 4
alphabetical CaseStatus.resolved = 5
alphabetical CaseStatus.responded = 6
alphabetical CaseStatus.triaged = 7

unfoldable pub allowed_transitions : CaseStatus → List CaseStatus
allowed_transitions s =
    sort_by (λ a b. ltb (alphabetical a) (alphabetical b)) (status_transitions s)

abbrev pub first_item : List (ℕ × EnrichedCase) → Option EnrichedCase
first_item [] = none
first_item ((k, c) ∷ rest) = some c

unfoldable pub get_case_detail : ℕ → ℕ → Exec CaseDetail
get_case_detail tenant_id case_id = do
  result ← list_cases (record {
    tenant_id = tenant_id;
    case_id = some case_id;
    status = none;
    severity = none;
    assigned_to = none;
    search = none;
    limit = 1;
  })
  case ← require_row (first_item result.0) (lookup_error "Case not found")
  log ← gets (λ s. s.db.audit_log)
  replies ← gets (λ s. rows s.db.responses)
  pure (record {
    case = case;
    history = history_of tenant_id case_id log;
    responses =
        sort_by (λ (a : ℕ × Reply) (b : ℕ × Reply). ltb b.1.created_at a.1.created_at)
          (filter (λ (r : ℕ × Reply). r.1.tenant_id == tenant_id && is_assignee r.1.case_id case_id)
            replies);
    allowed_transitions = allowed_transitions case.row.status;
  })
