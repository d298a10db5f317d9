-- ===== src/Cases/Operations.antt =====
-- Every operation of cases/service.py that changes state, as one type of requests, and sequences
-- of them. Each runs in a session of its own, as FastAPI's `get_session` gives it.
use sawtai.Prelude.{ℕ, String, Option, List, [], ◌∷◌}
use sawtai.Schema.{CaseStatus, Severity}
use sawtai.Session.{Session, Exec, ok, ◌>>◌, commit, request}
use sawtai.Cases.Create.{create_case}
use sawtai.Cases.Edit.{update_case, add_case_note, escalate_case}
use sawtai.Cases.Workflow.{assign_case, transition_case}
use sawtai.Cases.Intake.{create_case_from_message}

-- the first number of an operation is the tenant that asks for it
pub data CaseOp : Type 0 where
  create : (tenant actor : ℕ) → String → String → Option ℕ → Severity → CaseOp
  edit : (tenant actor case_id : ℕ) → Option String → Option String → Option Severity → CaseOp
  assign : (tenant actor case_id assignee : ℕ) → CaseOp
  transition : (tenant actor case_id : ℕ) → CaseStatus → Option String → CaseOp
  add_note : (tenant actor case_id : ℕ) → String → CaseOp
  escalate : (tenant actor case_id : ℕ) → String → CaseOp
  -- the worker commits after it
  intake : (tenant message occurred_at : ℕ) → String → CaseOp

abbrev pub tenant_of : CaseOp → ℕ
tenant_of (create t _ _ _ _ _) = t
tenant_of (edit t _ _ _ _ _) = t
tenant_of (assign t _ _ _) = t
tenant_of (transition t _ _ _ _) = t
tenant_of (add_note t _ _ _) = t
tenant_of (escalate t _ _ _) = t
tenant_of (intake t _ _ _) = t

unfoldable pub run : CaseOp → Exec (Unit {0})
run (create t a ar en node severity) = do create_case t a ar en node severity; λ s. (ok tt, s)
run (edit t a k ar en severity) = update_case t a k ar en severity
run (assign t a k u) = assign_case t a k u
run (transition t a k status remark) = transition_case t a k status remark
run (add_note t a k remark) = add_case_note t a k remark
run (escalate t a k reason) = escalate_case t a k reason
run (intake t m at raw_text) = do create_case_from_message t m at raw_text; commit

-- the requests of a day, one after the other
unfoldable pub serve : List CaseOp → Session → Session
serve [] s = s
serve (op ∷ ops) s = serve ops (request (run op) s).1
