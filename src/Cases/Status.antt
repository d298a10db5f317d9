-- ===== src/Cases/Status.antt =====
-- The statuses of a case, its severities, and the table of allowed transitions.
use sawtai.Prelude.{ℕ, String, Bool, true, false, List, [], ◌∷◌, any, ◌==◌}
use sawtai.Schema.{
  CaseStatus, new, triaged, assigned, awaiting_response, responded, resolved, closed, Severity, low,
  medium, high, critical,
}

-- OPEN_STATUSES
abbrev pub is_open : CaseStatus → Bool
is_open new = true
is_open triaged = true
is_open assigned = true
is_open awaiting_response = true
is_open responded = true
is_open resolved = false
is_open closed = false
is_open CaseStatus.rejected = false

-- STATUS_TRANSITIONS; a set is a list without repetition
abbrev pub status_transitions : CaseStatus → List CaseStatus
status_transitions new = triaged ∷ assigned ∷ CaseStatus.rejected ∷ []
status_transitions triaged = assigned ∷ CaseStatus.rejected ∷ []
status_transitions assigned = awaiting_response ∷ responded ∷ resolved ∷ []
status_transitions awaiting_response = assigned ∷ responded ∷ resolved ∷ []
status_transitions responded = awaiting_response ∷ resolved ∷ []
status_transitions resolved = assigned ∷ closed ∷ []
status_transitions closed = []
status_transitions CaseStatus.rejected = []

abbrev pub rank : CaseStatus → ℕ
rank new = 0
rank triaged = 1
rank assigned = 2
rank awaiting_response = 3
rank responded = 4
rank resolved = 5
rank closed = 6
rank CaseStatus.rejected = 7

-- equality of two statuses
abbrev pub same_status : CaseStatus → CaseStatus → Bool
same_status a b = rank a == rank b

-- `next_status in STATUS_TRANSITIONS[current]`
abbrev pub may_move : CaseStatus → CaseStatus → Bool
may_move current next = any (same_status next) (status_transitions current)

-- the statuses that an unassigned case cannot take
abbrev pub needs_assignee : CaseStatus → Bool
needs_assignee assigned = true
needs_assignee awaiting_response = true
needs_assignee responded = true
needs_assignee resolved = true
needs_assignee new = false
needs_assignee triaged = false
needs_assignee closed = false
needs_assignee CaseStatus.rejected = false

abbrev pub status_name : CaseStatus → String
status_name new = "new"
status_name triaged = "triaged"
status_name assigned = "assigned"
status_name awaiting_response = "awaiting_response"
status_name responded = "responded"
status_name resolved = "resolved"
status_name closed = "closed"
status_name CaseStatus.rejected = "rejected"

abbrev pub severity_name : Severity → String
severity_name low = "low"
severity_name medium = "medium"
severity_name high = "high"
severity_name critical = "critical"

abbrev pub is_critical : Severity → Bool
is_critical low = false
is_critical medium = false
is_critical high = false
is_critical critical = true
