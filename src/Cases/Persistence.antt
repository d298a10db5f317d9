-- ===== src/Cases/Persistence.antt =====
-- What holds of one case and survives every later operation: a rule, from what each statement
-- may do to a row of its own tenant.
use sawtai.Prelude.{
  ℕ, String, ◌≡◌, true, not, ◌&&◌, Option, none, some, List, [], ◌∷◌, All, inl, inr, Bool-cases,
  Option-cases, arith, is_some, where_row,
}
use sawtai.Table.{get, get-put}
use sawtai.Schema.{CaseStatus, Severity, Case, Complaint, AuditRow, Db}
use sawtai.Session.{Session, ◌>>◌, commit, modify, require_row, request}
use sawtai.Session.Effects.{
  Both, Keeps, Keeps-bind, Keeps-commit, Keeps-request, Keeps-modify, keeps_rules,
}
use sawtai.Audit.{Event, write_audit}
use sawtai.Audit.Keeps.{Keeps-write_audit}
use sawtai.Cases.Status.{may_move, needs_assignee}
use sawtai.Cases.Rows.{of_tenant, find_case, update_cases, insert_case}
use sawtai.Cases.Create.{route, due_at, create_case}
use sawtai.Cases.Edit.{update_case, add_case_note, escalate_case}
use sawtai.Cases.Workflow.{
  assigned_status, find_assignee, assign_row, transition_row, assign_case, transition_case,
}
use sawtai.Cases.Intake.{
  insert_complaint, find_complaint, existing_or_open, open_case, create_case_from_message,
}
use sawtai.Cases.Operations.{
  CaseOp, create, edit, assign, transition, add_note, escalate, intake, tenant_of, run, serve,
}
use sawtai.Cases.RowUpdates.{of_tenant-found, update-At}
use sawtai.Cases.Survival.{At, SameCase, Survives, same_case}

module _ (j t : ℕ) (P : Case → Type 0) (survives : Survives t P) where
  audit-At : (e : Event) → Keeps (Both (At j P)) (write_audit e)
  audit-At = Keeps-write_audit (λ db log h. record { row = h.row })

  route-At : (u : ℕ) (place : Option ℕ) → Keeps (Both (At j P)) (route u place)
  unfolding route
  route-At u none = search keeps_rules
  route-At u (some k) = record { at = λ s h. ground arith }

  due_at-At : (h : Option ℕ) → Keeps (Both (At j P)) (due_at h)
  unfolding due_at
  due_at-At none = search keeps_rules
  due_at-At (some h) = search keeps_rules

  -- the key of a case that is there is not free
  insert_case-At : (k : ℕ) (c : Case) → Keeps (Both (At j P)) (insert_case k c)
  unfolding insert_case
  insert_case-At k c = record {
    at = λ s h. record {
      opened = record { row = ground (arith, get-put s.db.cases k j c, h.opened.row) };
      saved = record { row = ground (arith, h.saved.row) };
    };
  }

  insert_complaint-At : (c : Complaint) → Keeps (Both (At j P)) (insert_complaint c)
  unfolding insert_complaint
  insert_complaint-At c = Keeps-modify _ (λ db h. record { row = h.row })

  ruleset at_rules =
      (keeps_rules, audit-At, route-At, due_at-At, insert_case-At, insert_complaint-At)

  create_case-At :
      (u a : ℕ) (ar en : String) (place : Option ℕ) (v : Severity)
      → Keeps (Both (At j P)) (create_case u a ar en place v)
  unfolding create_case
  create_case-At u a ar en place v = search at_rules depth 20

  retouch-At :
      (k : ℕ) (f : Case → Case)
      → ((c : Case) → SameCase c (f c))
      → Keeps (Both (At j P)) (modify (update_cases k (of_tenant t) f))
  retouch-At k f same = Keeps-modify (update_cases k (of_tenant t) f) (λ db.
      update-At j P k (of_tenant t) f db (λ c _ own h. survives.retouched c (f c) own (same c) h))

  update_case-At :
      (a k : ℕ) (ar en : Option String) (v : Option Severity)
      → Keeps (Both (At j P)) (update_case t a k ar en v)
  unfolding update_case
  update_case-At a k ar en v = search (at_rules, retouch-At, same_case) depth 20

  escalate_case-At :
      (a k : ℕ) (reason : String) → Keeps (Both (At j P)) (escalate_case t a k reason)
  unfolding escalate_case
  escalate_case-At a k reason = search (at_rules, retouch-At, same_case) depth 20

  finish-At : (e : Event) → Keeps (Both (At j P)) (write_audit e >> commit)
  finish-At e = search at_rules

  -- the UPDATE of `add_case_note` names no tenant: its SELECT did
  note-At :
      (k at : ℕ) (db : Db) (log : List AuditRow) {c : Case}
      → where_row (of_tenant t) (get db.cases k) ≡ some c
      → At j P db
      → At j P (
          update_cases k
            (λ _. true)
            (λ d. record d { updated_at = at })
            (record db { audit_log = log }))
  note-At k at db log found h =
      update-At j P k (λ _. true) (λ d. record d { updated_at = at })
        (record db { audit_log = log })
        (λ d there _ p.
          survives.retouched d _ (of_tenant-found k t db found there).1 (same_case d) p)
        (record { row = h.row })

  add_case_note-At :
      (a k : ℕ) (remark : String) → Keeps (Both (At j P)) (add_case_note t a k remark)
  unfolding add_case_note write_audit
  add_case_note-At a k remark = record {
    at = λ s h. elim (Option-cases (find_case t k s)) [
      | inl absent ↦ rw (absent, require_row) h
      | inr (c, found) ↦
          rw (found, require_row)
            (record {
              opened = note-At k s.started s.db _ found h.opened;
              saved = note-At k s.started s.db _ found h.opened;
            })
    ];
  }

  assign_case-At : (a k u : ℕ) → Keeps (Both (At j P)) (assign_case t a k u)
  unfolding assign_case
  assign_case-At a k u = record {
    at = λ s h. elim (Option-cases (find_assignee t u s)) [
      | inl nobody ↦ rw (nobody, require_row) h
      | inr (user, known) ↦ elim (Option-cases (find_case t k s)) [
        | inl absent ↦ rw (known, require_row, absent) h
        | inr (c, found) ↦
            rw (known, require_row, found)
              ((finish-At _).at _ (record {
                opened =
                    update-At j P k (of_tenant t)
                      (assign_row u (assigned_status c.status) s.started) s.db
                      (λ d there own p.
                        rw (of_tenant-found k t s.db found there).0
                          (survives.assigned d u s.started own p))
                      h.opened;
                saved = h.saved;
              }))
      ]
    ];
  }

  transition_case-At :
      (a k : ℕ) (n : CaseStatus) (remark : Option String)
      → Keeps (Both (At j P)) (transition_case t a k n remark)
  unfolding transition_case
  transition_case-At a k n remark = record {
    at = λ s h. elim (Option-cases (find_case t k s)) [
      | inl absent ↦ rw (absent, require_row) h
      | inr (c, found) ↦ elim (Bool-cases (may_move c.status n)) [
        | inr stays ↦ rw (found, require_row, stays) h
        | inl moves ↦ elim (Bool-cases (needs_assignee n && not (is_some c.assigned_to))) [
          | inl unheld ↦ rw (found, require_row, moves, unheld) h
          | inr held ↦
              rw (found, require_row, moves, held)
                ((finish-At _).at _ (record {
                  opened =
                      update-At j P k (of_tenant t) (transition_row n s.started) s.db
                        (λ d there own p.
                          survives.moved d n s.started own
                            (rw (of_tenant-found k t s.db found there).0 at moves) p)
                        h.opened;
                  saved = h.saved;
                }))
        ]
      ]
    ];
  }

  open_case-At :
      (u m at : ℕ) (raw_text : String) → Keeps (Both (At j P)) (open_case u m at raw_text)
  unfolding open_case
  open_case-At u m at raw_text = search at_rules depth 25

  create_case_from_message-At :
      (u m at : ℕ) (raw_text : String)
      → Keeps (Both (At j P)) (create_case_from_message u m at raw_text)
  unfolding create_case_from_message
  create_case_from_message-At u m at raw_text = record {
    at = λ s h. elim (Option-cases (find_complaint u m at s.db.complaints)) [
      | inl fresh ↦ rw (fresh, existing_or_open) ((open_case-At u m at raw_text).at s h)
      | inr (k, known) ↦ rw (known, existing_or_open) h
    ];
  }

-- a property that survives the tenant of a request survives the request
pub run-At :
    (j : ℕ) (P : Case → Type 0) (op : CaseOp)
    → Survives (tenant_of op) P
    → Keeps (Both (At j P)) (run op)
unfolding run
run-At j P (create t a ar en place v) h =
    Keeps-bind _ _ (create_case-At j t P h t a ar en place v) (λ k. record { at = λ s p. p })
run-At j P (edit t a k ar en v) h = update_case-At j t P h a k ar en v
run-At j P (assign t a k u) h = assign_case-At j t P h a k u
run-At j P (transition t a k n remark) h = transition_case-At j t P h a k n remark
run-At j P (add_note t a k remark) h = add_case_note-At j t P h a k remark
run-At j P (escalate t a k reason) h = escalate_case-At j t P h a k reason
run-At j P (intake t m at raw_text) h =
    Keeps-bind _ _ (create_case_from_message-At j t P h t m at raw_text) (λ k. Keeps-commit)

-- and so any sequence of requests of such tenants
pub serve-At :
    (j : ℕ) (P : Case → Type 0) (ops : List CaseOp) (s : Session)
    → All (λ op. Survives (tenant_of op) P) ops
    → Both (At j P) s
    → Both (At j P) (serve ops s)
unfolding serve
serve-At j P [] s hs h = h
serve-At j P (op ∷ ops) s hs h =
    serve-At j P ops (request (run op) s).1 hs.1
      ((Keeps-request (run op) (run-At j P op hs.0)).at s h)
