-- ===== src/Cases/Deadlines.antt =====
-- The SLA state of a case: its meaning, its course over time, and the counts of the summary.
use sawtai.Prelude.{
  ℕ, ◌+◌, ◌≤◌, ◌<◌, ◌≡◌, ◌↔◌, Bool, true, false, ◌&&◌, Option, none, some, List, [], ◌∷◌, arith,
  ◌==◌,
}
use sawtai.Prelude.Int.{pos_part}
use sawtai.Schema.{CaseStatus, Case}
use sawtai.Cases.Status.{is_open}
use sawtai.Cases.Sla.{
  SlaState, completed, not_set, breached, due_soon, on_track, hours, sla_state, deadline_state,
  remaining_seconds,
}
use sawtai.Cases.Queries.{count, count_open, summarize}

-- An open case with a deadline is breached from the deadline on, due soon in the four hours
-- before it, and on track earlier; a case that is not open is completed, whatever its deadline.
pub sla_state_lem :
    (st : CaseStatus) (due at : ℕ)
    → ((sla_state st (some due) at ≡ breached) ↔ ((is_open st ≡ true) × (due ≤ at)))
      × ((sla_state st (some due) at ≡ due_soon)
          ↔ ((is_open st ≡ true) × (at < due) × (due ≤ at + hours 4)))
      × ((sla_state st (some due) at ≡ on_track) ↔ ((is_open st ≡ true) × (at + hours 4 < due)))
      × ((sla_state st (some due) at ≡ completed) ↔ (is_open st ≡ false))
unfolding sla_state
sla_state_lem st due at = ground arith

abbrev pub urgency : SlaState → ℕ
urgency completed = 0
urgency not_set = 0
urgency on_track = 1
urgency due_soon = 2
urgency breached = 3

-- While status and deadline stay, the state only moves from on track to due soon to breached.
pub urgency_mono :
    (st : CaseStatus) (due : Option ℕ) (at later : ℕ)
    → at ≤ later
    → urgency (sla_state st due at) ≤ urgency (sla_state st due later)
unfolding sla_state
urgency_mono st none at later h = ground arith
urgency_mono st (some due) at later h = ground arith

abbrev pub says_breached : SlaState → Bool
says_breached breached = true
says_breached completed = false
says_breached not_set = false
says_breached due_soon = false
says_breached on_track = false

abbrev pub is_due_now : ℕ → Option ℕ → Bool
is_due_now at none = false
is_due_now at (some due) = due == at

-- The count `breached` of the summary is that of the tenant's cases which `sla_state` calls
-- breached at the same instant, less the open ones whose deadline is that very instant: the query
-- tests `<` where `sla_state` tests `<=`.
pub summary_breached :
    (t at : ℕ) (rows : List (ℕ × Case))
    → (summarize t at rows).breached + count_open t (λ c. is_due_now at c.sla_due_at) rows
      ≡ count (λ c. c.tenant_id == t && says_breached (sla_state c.status c.sla_due_at at)) rows
unfolding summarize sla_state
summary_breached t at [] = omega arith
summary_breached t at ((k, c) ∷ rest) = ground (arith, summary_breached t at rest)

-- With both readings of the clock at one instant, the remaining time agrees with the state: at
-- most zero when breached, and at least four hours when on track.
pub remaining_agrees :
    (due at : ℕ)
    → (deadline_state due at ≡ breached → pos_part (remaining_seconds due at) ≡ 0)
      × (deadline_state due at ≡ on_track → 14400 ≤ pos_part (remaining_seconds due at))
remaining_agrees due at = ground arith
