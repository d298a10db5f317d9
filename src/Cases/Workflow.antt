-- ===== src/Cases/Workflow.antt =====
-- `assign_case` and `transition_case`.
use Prim.Native.String.{◌++◌}
use sawtai.Prelude.{
  ℕ, String, Bool, true, false, not, ◌&&◌, Option, none, some, [], ◌∷◌, coalesce, is_some,
  where_row, ◌==◌, if◌then◌else◌,
}
use sawtai.Table.{get}
use sawtai.Schema.{
  CaseStatus, new, triaged, assigned, responded, resolved, closed, Case, User, Scalar, null, uuid,
  str,
}
use sawtai.Session.{
  Session, Exec, lookup_error, value_error, ◌>>=◌, ◌>>◌, require_row, raise_if, gets, sql_now,
  modify, commit,
}
use sawtai.Audit.{event, write_audit}
use sawtai.Cases.Status.{may_move, needs_assignee, status_name}
use sawtai.Cases.Rows.{of_tenant, select_case, update_cases}

-- an active user of the tenant
abbrev pub find_assignee : ℕ → ℕ → Session → Option User
find_assignee tenant_id user_id s =
    where_row (λ (u : User). u.tenant_id == tenant_id && u.is_active) (get s.db.users user_id)

-- a case that waits for work, or is reopened, becomes assigned; another keeps its status
abbrev pub assigned_status : CaseStatus → CaseStatus
assigned_status new = assigned
assigned_status triaged = assigned
assigned_status resolved = assigned
assigned_status s = s

abbrev pub is_assigned : CaseStatus → Bool
is_assigned assigned = true
is_assigned s = false

abbrev pub is_responded : CaseStatus → Bool
is_responded responded = true
is_responded s = false

abbrev pub is_finished : CaseStatus → Bool
is_finished resolved = true
is_finished closed = true
is_finished s = false

-- SET of `assign_case`
abbrev pub assign_row : ℕ → CaseStatus → ℕ → Case → Case
assign_row assignee status at c = record c {
  assigned_to = some assignee;
  status = status;
  resolved_at = if is_assigned status then none else c.resolved_at;
  updated_at = at;
}

-- SET of `transition_case`
abbrev pub transition_row : CaseStatus → ℕ → Case → Case
transition_row status at c = record c {
  status = status;
  first_response_at =
      if is_responded status then some (coalesce c.first_response_at at) else c.first_response_at;
  resolved_at =
      if is_finished status
      then some (coalesce c.resolved_at at)
      else if is_assigned status
      then none
      else c.resolved_at;
  updated_at = at;
}

abbrev pub uuid_or_null : Option ℕ → Scalar
uuid_or_null none = null
uuid_or_null (some u) = uuid u

abbrev pub str_or_null : Option String → Scalar
str_or_null none = null
str_or_null (some t) = str t

unfoldable pub assign_case : ℕ → ℕ → ℕ → ℕ → Exec (Unit {0})
assign_case tenant_id actor_user_id case_id assignee_user_id = do
  target ← gets (find_assignee tenant_id assignee_user_id)
  require_row target (value_error "Assignee is unavailable")
  found ← select_case tenant_id case_id
  row ← require_row found (lookup_error "Case not found")
  let status = assigned_status row.status
  at ← sql_now
  modify (update_cases case_id (of_tenant tenant_id) (assign_row assignee_user_id status at))
  let e = event tenant_id actor_user_id "case.assign" "case" case_id
  write_audit (record e {
    before_state = some (
        ("assigned_to", uuid_or_null row.assigned_to)
        ∷ ("status", str (status_name row.status))
        ∷ []);
    after_state =
        some (("assigned_to", uuid assignee_user_id) ∷ ("status", str (status_name status)) ∷ []);
  })
  commit

unfoldable pub transition_case : ℕ → ℕ → ℕ → CaseStatus → Option String → Exec (Unit {0})
transition_case tenant_id actor_user_id case_id next_status note = do
  found ← select_case tenant_id case_id
  current ← require_row found (lookup_error "Case not found")
  raise_if (not (may_move current.status next_status)) (
      value_error (
        "Case cannot move from "
        ++ (status_name current.status ++ (" to " ++ status_name next_status))))
  raise_if (needs_assignee next_status && not (is_some current.assigned_to))
      (value_error "Assign the case before changing to this status")
  at ← sql_now
  modify (update_cases case_id (of_tenant tenant_id) (transition_row next_status at))
  let e = event tenant_id actor_user_id "case.status" "case" case_id
  write_audit (record e {
    before_state = some (("status", str (status_name current.status)) ∷ []);
    after_state =
        some (("status", str (status_name next_status)) ∷ ("note", str_or_null note) ∷ []);
  })
  commit
