-- ===== src/Examples/CaseExamples.antt =====
-- The theorems on cases.
use sawtai.Prelude.{
  ◌⊎◌, ℕ, ◌≡◌, ◌≤◌, ◌<◌, ◌+◌, ◌==◌, ◌&&◌, ◌↔◌, refl, true, false, none, some, List, [], ◌∷◌, arith,
  is_some,
}
use sawtai.Table.{get, empty, rows, seek}
use sawtai.Schema.{new, triaged, closed, critical, Case}
use sawtai.Session.{Session, ok, err, integrity_error, value_error, request}
use sawtai.Session.Effects.{Both}
use sawtai.Audit.{write_audit}
use sawtai.Session.Atomic.{Accounted}
use sawtai.Cases.Status.{is_open}
use sawtai.Cases.Sla.{sla_state, breached, due_soon, on_track, completed, hours}
use sawtai.Cases.Operations.{CaseOp, assign, transition, escalate, add_note, run, serve}
use sawtai.Cases.Create.{find_node, route, due_at, create_case}
use sawtai.Cases.Intake.{
  find_complaint, insert_complaint, best_node, open_case, create_case_from_message,
}
use sawtai.Cases.Workflow.{transition_case}
use sawtai.Cases.Queries.{summarize, count, count_open}
use sawtai.Cases.Rows.{insert_case, find_case}
use sawtai.Cases.Survival.{Is, At}
use sawtai.Cases.Lifecycle.{serve-HasSoundCases}
use sawtai.Cases.Soundness.{IsSound, HasSoundCases}
use sawtai.Cases.Guarantees.{IsLaterState, final_status_stays, case_history, tenant_isolation}
use sawtai.Cases.Accountability.{Names, run-Accounted}
use sawtai.Cases.Moves.{MayMove, transition_case_iff, transition_case_effect}
use sawtai.Cases.Deadlines.{
  sla_state_lem, urgency, urgency_mono, is_due_now, says_breached, summary_breached,
}
use sawtai.Cases.IntakeLaws.{intake_idem}
use sawtai.Cases.Collisions.{create_case_collision}
use sawtai.Examples.Fixtures.{
  a_world, a_case, a_reply, db_with, session_with, a_session, one_row, case_there,
}

-- an assignment, an illegal move, an escalation and a note
abbrev a_day : List CaseOp
a_day =
    assign 1 3 7 3
    ∷ transition 1 3 7 closed none
    ∷ escalate 2 9 7 "not theirs"
    ∷ add_note 1 3 7 " seen "
    ∷ []

sound_start : Both HasSoundCases a_session
sound_start = record {
  opened = record { rows = λ k. one_row IsSound 7 a_case k (ground arith) };
  saved = record { rows = λ k. one_row IsSound 7 a_case k (ground arith) };
}

serve-HasSoundCases_example : Both HasSoundCases (serve a_day a_session)
serve-HasSoundCases_example = serve-HasSoundCases a_day a_session sound_start

abbrev closed_case : Case
closed_case = record a_case { status = closed; resolved_at = some 4 }

abbrev closed_session : Session
closed_session = session_with a_world (db_with closed_case a_reply)

closed_start : Both (At 7 (λ c. c.status ≡ closed)) closed_session
closed_start = record {
  opened = record { row = rw (case_there closed_case a_reply) refl };
  saved = record { row = rw (case_there closed_case a_reply) refl };
}

final_status_stays_example : Both (At 7 (λ c. c.status ≡ closed)) (serve a_day closed_session)
final_status_stays_example = final_status_stays closed 7 a_day closed_session refl closed_start

case_history_example : Is (IsLaterState a_case) (get (serve a_day a_session).saved.cases 7)
case_history_example =
    case_history 7 a_case a_day a_session (case_there a_case a_reply) (case_there a_case a_reply)

-- the requests of the other tenants
abbrev foreign_day : List CaseOp
foreign_day = escalate 2 9 7 "not theirs" ∷ assign 3 9 7 3 ∷ []

tenant_isolation_example : Is (λ d. d ≡ a_case) (get (serve foreign_day a_session).saved.cases 7)
tenant_isolation_example =
    tenant_isolation 7 a_case foreign_day a_session (case_there a_case a_reply)
      (case_there a_case a_reply) ((λ e. absurd (omega arith)), ((λ e. absurd (omega arith)), tt))

run-Accounted_example : Accounted (Names 1 3) a_session (run (escalate 1 3 7 "leak") a_session)
run-Accounted_example = run-Accounted (escalate 1 3 7 "leak") 3 a_session refl

transition_case_iff_example :
    ((transition_case 1 3 7 triaged none a_session).0 ≡ ok tt)
    ↔ ((c : Case) × (find_case 1 7 a_session ≡ some c) × MayMove triaged c)
transition_case_iff_example = transition_case_iff 1 3 7 triaged none a_session

case_found : find_case 1 7 a_session ≡ some a_case
case_found = rw (case_there a_case a_reply) refl

transition_case_effect_example :
    Is
      (λ d.
        (d.status ≡ triaged)
        × (d.assigned_to ≡ none)
        × (is_some d.resolved_at ≡ false)
        × ((a_case.first_response_at ≡ none) ⊎ (d.first_response_at ≡ none)))
      (get (transition_case 1 3 7 triaged none a_session).1.saved.cases 7)
transition_case_effect_example =
    transition_case_effect 1 3 7 triaged none a_session a_case case_found (refl, refl) refl

sla_state_lem_example :
    ((sla_state new (some 5000) 6000 ≡ breached) ↔ ((is_open new ≡ true) × (5000 ≤ 6000)))
    × ((sla_state new (some 5000) 6000 ≡ due_soon)
        ↔ ((is_open new ≡ true) × (6000 < 5000) × (5000 ≤ 6000 + hours 4)))
    × ((sla_state new (some 5000) 6000 ≡ on_track)
        ↔ ((is_open new ≡ true) × (6000 + hours 4 < 5000)))
    × ((sla_state new (some 5000) 6000 ≡ completed) ↔ (is_open new ≡ false))
sla_state_lem_example = sla_state_lem new 5000 6000

urgency_mono_example :
    urgency (sla_state new (some 5000) 4000) ≤ urgency (sla_state new (some 5000) 6000)
urgency_mono_example = urgency_mono new (some 5000) 4000 6000 (omega arith)

abbrev two_rows : List (ℕ × Case)
two_rows = (7, a_case) ∷ (8, record a_case { status = closed }) ∷ []

summary_breached_example :
    (summarize 1 5000 two_rows).breached + count_open 1 (λ c. is_due_now 5000 c.sla_due_at) two_rows
    ≡ count (λ c. c.tenant_id == 1 && says_breached (sla_state c.status c.sla_due_at 5000)) two_rows
summary_breached_example = summary_breached 1 5000 two_rows

create_case_collision_example :
    (((create_case 1 3 "fire" "fire" (some 9) critical a_session).0 ≡ err integrity_error)
      ⊎ ((k : ℕ) × (some 9 ≡ some k)
          × (find_node 1 k a_session ≡ none)
          × ((create_case 1 3 "fire" "fire" (some 9) critical a_session).0
              ≡ err (value_error "Taxonomy node is unavailable"))))
    × ((request (create_case 1 3 "fire" "fire" (some 9) critical) a_session).1.db ≡ a_session.saved)
create_case_collision_example =
    create_case_collision 1 3 "fire" "fire" (some 9) critical a_session 7 a_case
      (case_there a_case a_reply) refl refl refl

-- no case, no complaint, no taxonomy
abbrev empty_session : Session
empty_session = session_with a_world (record (db_with a_case a_reply) { cases = empty })

first_intake : (create_case_from_message 1 44 900 "No water" empty_session).0 ≡ ok 100
unfolding create_case_from_message open_case route due_at insert_case insert_complaint best_node
    write_audit find_complaint rows empty get seek
first_intake = refl

intake_idem_example :
    create_case_from_message 1 44 900 "Still no water"
      (create_case_from_message 1 44 900 "No water" empty_session).1
    ≡ (ok 100, (create_case_from_message 1 44 900 "No water" empty_session).1)
intake_idem_example =
    intake_idem 1 44 900 "No water" "Still no water" empty_session 100 first_intake
