-- ===== src/Cases/Lifecycle.antt =====
-- What the columns of a case say about each other, at every point of its life.
use sawtai.Prelude.{
  ℕ, String, ◌≡◌, true, false, inl, inr, Bool-cases, Option-cases, not, ◌&&◌, Option, some, List,
  [], ◌∷◌, arith, is_some, where_row,
}
use sawtai.Table.{get, get-update}
use sawtai.Schema.{CaseStatus, Case, Db}
use sawtai.Session.{Session, ◌>>◌, commit, require_row, request}
use sawtai.Session.Effects.{Both, Keeps, Keeps-bind, Keeps-commit, Keeps-request}
use sawtai.Audit.{Event, write_audit}
use sawtai.Cases.Status.{may_move, needs_assignee}
use sawtai.Cases.Rows.{of_tenant, find_case, update_cases}
use sawtai.Cases.Workflow.{
  assigned_status, find_assignee, assign_row, transition_row, assign_case, transition_case,
}
use sawtai.Cases.Intake.{find_complaint, existing_or_open, create_case_from_message}
use sawtai.Cases.Operations.{
  CaseOp, create, edit, assign, transition, add_note, escalate, intake, run, serve,
}
use sawtai.Cases.Soundness.{
  HasSoundCases, add_case_note-HasSoundCases, create_case-HasSoundCases,
  escalate_case-HasSoundCases, open_case-HasSoundCases, sound_rules, update_case-HasSoundCases,
}

create_case_from_message-HasSoundCases :
    (t m at : ℕ) (raw_text : String)
    → Keeps (Both HasSoundCases) (create_case_from_message t m at raw_text)
unfolding create_case_from_message
create_case_from_message-HasSoundCases t m at raw_text = record {
  at = λ s h. elim (Option-cases (find_complaint t m at s.db.complaints)) [
    | inl fresh ↦ rw (fresh, existing_or_open) ((open_case-HasSoundCases t m at raw_text).at s h)
    | inr (k, known) ↦ rw (known, existing_or_open) h
  ];
}

finish-HasSoundCases : (e : Event) → Keeps (Both HasSoundCases) (write_audit e >> commit)
finish-HasSoundCases e = search sound_rules

-- the part of `assign_case` after the two look-ups
assign_row-HasSoundCases :
    (t k u at : ℕ) (c : Case) (db : Db)
    → where_row (of_tenant t) (get db.cases k) ≡ some c
    → HasSoundCases db
    → HasSoundCases (update_cases k (of_tenant t) (assign_row u (assigned_status c.status) at) db)
assign_row-HasSoundCases t k u at c db found h = record {
  rows = λ j. ground (
    arith,
    found,
    get-update db.cases k j (of_tenant t) (assign_row u (assigned_status c.status) at),
    h.rows j,
    h.rows k,
  );
}

assign_case-HasSoundCases : (t a k u : ℕ) → Keeps (Both HasSoundCases) (assign_case t a k u)
unfolding assign_case
assign_case-HasSoundCases t a k u = record {
  at = λ s h. elim (Option-cases (find_assignee t u s)) [
    | inl nobody ↦ rw (nobody, require_row) h
    | inr (user, known) ↦ elim (Option-cases (find_case t k s)) [
      | inl absent ↦ rw (known, require_row, absent) h
      | inr (c, found) ↦
          rw (known, require_row, found)
            ((finish-HasSoundCases _).at _ (record {
              opened = assign_row-HasSoundCases t k u s.started c s.db found h.opened;
              saved = h.saved;
            }))
    ]
  ];
}

-- the guards of `transition_case` are what keeps the row sound
transition_row-HasSoundCases :
    (t k at : ℕ) (n : CaseStatus) (c : Case) (db : Db)
    → where_row (of_tenant t) (get db.cases k) ≡ some c
    → may_move c.status n ≡ true
    → needs_assignee n && not (is_some c.assigned_to) ≡ false
    → HasSoundCases db
    → HasSoundCases (update_cases k (of_tenant t) (transition_row n at) db)
transition_row-HasSoundCases t k at n c db found moves held h = record {
  rows = λ j. ground (
    arith,
    found,
    moves,
    held,
    get-update db.cases k j (of_tenant t) (transition_row n at),
    h.rows j,
    h.rows k,
  );
}

transition_case-HasSoundCases :
    (t a k : ℕ) (n : CaseStatus) (remark : Option String)
    → Keeps (Both HasSoundCases) (transition_case t a k n remark)
unfolding transition_case
transition_case-HasSoundCases t a k n remark = record {
  at = λ s h. elim (Option-cases (find_case t k s)) [
    | inl absent ↦ rw (absent, require_row) h
    | inr (c, found) ↦ elim (Bool-cases (may_move c.status n)) [
      | inr stays ↦ rw (found, require_row, stays) h
      | inl moves ↦ elim (Bool-cases (needs_assignee n && not (is_some c.assigned_to))) [
        | inl unheld ↦ rw (found, require_row, moves, unheld) h
        | inr held ↦
            rw (found, require_row, moves, held)
              ((finish-HasSoundCases _).at _ (record {
                opened =
                    transition_row-HasSoundCases t k s.started n c s.db found moves held h.opened;
                saved = h.saved;
              }))
      ]
    ]
  ];
}

-- every operation, whether it returns or raises
pub run-HasSoundCases : (op : CaseOp) → Keeps (Both HasSoundCases) (run op)
unfolding run
run-HasSoundCases (create t a ar en place v) =
    Keeps-bind _ _ (create_case-HasSoundCases t a ar en place v) (λ k. record { at = λ s h. h })
run-HasSoundCases (edit t a k ar en v) = update_case-HasSoundCases t a k ar en v
run-HasSoundCases (assign t a k u) = assign_case-HasSoundCases t a k u
run-HasSoundCases (transition t a k n remark) = transition_case-HasSoundCases t a k n remark
run-HasSoundCases (add_note t a k remark) = add_case_note-HasSoundCases t a k remark
run-HasSoundCases (escalate t a k reason) = escalate_case-HasSoundCases t a k reason
run-HasSoundCases (intake t m at raw_text) =
    Keeps-bind _ _ (create_case_from_message-HasSoundCases t m at raw_text) (λ k. Keeps-commit)

-- From sound cases, after any requests, whether they return or raise, all cases are sound: each is
-- resolved or closed exactly if it has a time of resolution, has an assignee in every status but
-- new, triaged and rejected, and has a time of first response while it is responded.
pub serve-HasSoundCases :
    (ops : List CaseOp) (s : Session) → Both HasSoundCases s → Both HasSoundCases (serve ops s)
unfolding serve
serve-HasSoundCases [] s h = h
serve-HasSoundCases (op ∷ ops) s h =
    serve-HasSoundCases ops (request (run op) s).1
      ((Keeps-request (run op) (run-HasSoundCases op)).at s h)
