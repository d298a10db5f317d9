-- ===== src/Cases/Ledger.antt =====
-- The operations on cases leave a ledger that is a hash chain.
use sawtai.Prelude.{ℕ, String, refl, Bool, Option, none, some, List, [], ◌∷◌, arith}
use sawtai.Schema.{Case, Complaint}
use sawtai.Session.{Session, modify, request}
use sawtai.Session.Effects.{Keeps}
use sawtai.Audit.Chain.{HasLedger, modify-HasLedger, request-HasLedger, ledger_rules}
use sawtai.Cases.Rows.{insert_case, update_cases}
use sawtai.Cases.Create.{route, due_at, create_case}
use sawtai.Cases.Edit.{update_case, add_case_note, escalate_case}
use sawtai.Cases.Workflow.{assign_case, transition_case}
use sawtai.Cases.Intake.{insert_complaint, existing_or_open, open_case, create_case_from_message}
use sawtai.Cases.Operations.{
  CaseOp, create, edit, assign, transition, add_note, escalate, intake, run, serve,
}

update-HasLedger :
    (k : ℕ) (p : Case → Bool) (f : Case → Case) → Keeps HasLedger (modify (update_cases k p f))
update-HasLedger k p f = modify-HasLedger (update_cases k p f) (λ db. refl)

insert-HasLedger : (k : ℕ) (c : Case) → Keeps HasLedger (insert_case k c)
unfolding insert_case
insert-HasLedger k c = record { at = λ s h. ground arith }

complaint-HasLedger : (c : Complaint) → Keeps HasLedger (insert_complaint c)
unfolding insert_complaint
complaint-HasLedger c = modify-HasLedger _ (λ db. refl)

route-HasLedger : (t : ℕ) (place : Option ℕ) → Keeps HasLedger (route t place)
unfolding route
route-HasLedger t none = search ledger_rules
route-HasLedger t (some k) = record { at = λ s h. ground arith }

due_at-HasLedger : (h : Option ℕ) → Keeps HasLedger (due_at h)
unfolding due_at
due_at-HasLedger none = search ledger_rules
due_at-HasLedger (some h) = search ledger_rules

ruleset rules = (
  ledger_rules, update-HasLedger, insert-HasLedger, complaint-HasLedger, route-HasLedger,
  due_at-HasLedger,
)

open_case-HasLedger : (t m at : ℕ) (raw_text : String) → Keeps HasLedger (open_case t m at raw_text)
unfolding open_case
open_case-HasLedger t m at raw_text = search rules depth 25

existing_or_open-HasLedger :
    (t m at : ℕ) (raw_text : String) (o : Option ℕ)
    → Keeps HasLedger (existing_or_open t m at raw_text o)
existing_or_open-HasLedger t m at raw_text none = open_case-HasLedger t m at raw_text
existing_or_open-HasLedger t m at raw_text (some k) = record { at = λ s h. h }

run-HasLedger : (op : CaseOp) → Keeps HasLedger (run op)
unfolding run create_case update_case assign_case transition_case add_case_note escalate_case
    create_case_from_message
run-HasLedger (create t a ar en place v) = search rules depth 25
run-HasLedger (edit t a k ar en v) = search rules depth 25
run-HasLedger (assign t a k u) = search rules depth 25
run-HasLedger (transition t a k n remark) = search rules depth 25
run-HasLedger (add_note t a k remark) = search rules depth 25
run-HasLedger (escalate t a k reason) = search rules depth 25
run-HasLedger (intake t m at raw_text) = search (rules, existing_or_open-HasLedger) depth 25

-- On a monotone clock, whatever requests on cases come and whether they return or raise, the
-- committed ledger stays a hash chain for every tenant.
pub serve-HasLedger : (ops : List CaseOp) (s : Session) → HasLedger s → HasLedger (serve ops s)
unfolding serve
serve-HasLedger [] s h = h
serve-HasLedger (op ∷ ops) s h =
    serve-HasLedger ops (request (run op) s).1
      ((request-HasLedger (run op) (run-HasLedger op)).at s h)
