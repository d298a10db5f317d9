-- ===== src/Cases/Moves.antt =====
-- When an assignment or a change of status is accepted, and what it leaves behind.
use sawtai.Prelude.{
  ℕ, ◌⊎◌, none, ◌≡◌, ◌↔◌, true, false, not, ◌&&◌, Option, some, String, inl, inr, Option-cases,
  arith, is_some,
}
use sawtai.Table.{get, get-update}
use sawtai.Schema.{CaseStatus, Case}
use sawtai.Session.{Session, ok, require_row}
use sawtai.Audit.{write_audit}
use sawtai.Cases.Status.{may_move, needs_assignee}
use sawtai.Cases.Rows.{of_tenant, find_case}
use sawtai.Cases.Survival.{Is}
use sawtai.Cases.Workflow.{is_finished, transition_row, transition_case}

-- the case may be moved to `n`
abbrev pub MayMove : CaseStatus → Case → Type 0
MayMove n c =
    (may_move c.status n ≡ true) × (needs_assignee n && not (is_some c.assigned_to) ≡ false)

transition_case-ok :
    (t a k : ℕ) (n : CaseStatus) (remark : Option String) (s : Session) (c : Case)
    → find_case t k s ≡ some c
    → MayMove n c
    → (transition_case t a k n remark s).0 ≡ ok tt
unfolding transition_case write_audit
transition_case-ok t a k n remark s c found (moves, held) = rw (found, require_row, moves, held)

transition_case-only :
    (t a k : ℕ) (n : CaseStatus) (remark : Option String) (s : Session)
    → (transition_case t a k n remark s).0 ≡ ok tt
    → (c : Case) × (find_case t k s ≡ some c) × MayMove n c
unfolding transition_case write_audit
transition_case-only t a k n remark s h = elim (Option-cases (find_case t k s)) [
  | inl absent ↦ absurd (cc (absent, h))
  | inr (c, found) ↦ (c, found, ground (arith, found))
]

-- A change of status is accepted exactly if the tenant has the case, STATUS_TRANSITIONS leads from
-- its status to the new one, and it has an assignee where the new status needs one.
pub transition_case_iff :
    (t a k : ℕ) (n : CaseStatus) (remark : Option String) (s : Session)
    → ((transition_case t a k n remark s).0 ≡ ok tt)
      ↔ ((c : Case) × (find_case t k s ≡ some c) × MayMove n c)
transition_case_iff t a k n remark s = (
  transition_case-only t a k n remark s,
  λ (c, found, may). transition_case-ok t a k n remark s c found may,
)

-- After an accepted change the committed row has the new status and the old assignee; it has a
-- time of resolution exactly if the new status is resolved or closed, provided that held before;
-- and a first response that was there is kept.
pub transition_case_effect :
    (t a k : ℕ) (n : CaseStatus) (remark : Option String) (s : Session) (c : Case)
    → find_case t k s ≡ some c
    → MayMove n c
    → is_finished c.status ≡ is_some c.resolved_at
    → Is
        (λ d.
          (d.status ≡ n)
          × (d.assigned_to ≡ c.assigned_to)
          × (is_some d.resolved_at ≡ is_finished n)
          × ((c.first_response_at ≡ none) ⊎ (d.first_response_at ≡ c.first_response_at)))
        (get (transition_case t a k n remark s).1.saved.cases k)
unfolding transition_case write_audit
transition_case_effect t a k n remark s c found (moves, held) resolved =
    rw (found, require_row, moves, held)
      (ground (arith, found, get-update s.db.cases k k (of_tenant t) (transition_row n s.started)))
