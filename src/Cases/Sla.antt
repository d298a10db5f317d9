-- ===== src/Cases/Sla.antt =====
-- The service-level clock of a case: `sla_state` and `enrich_case`.
use sawtai.Prelude.{ℕ, ◌+◌, ◌*◌, Option, none, some, leb, if◌then◌else◌}
use sawtai.Prelude.Int.{ℤ, sub_ℕ, trunc_div}
use sawtai.Schema.{CaseStatus, Case}
use sawtai.Cases.Status.{is_open}

-- microseconds
abbrev pub seconds : ℕ → ℕ
seconds n = n * 1_000_000

abbrev pub minutes : ℕ → ℕ
minutes n = seconds (60 * n)

abbrev pub hours : ℕ → ℕ
hours n = seconds (3600 * n)

pub data SlaState : Type 0 where
  completed not_set breached due_soon on_track : SlaState

abbrev pub deadline_state : ℕ → ℕ → SlaState
deadline_state due current =
    if leb due current then breached else if leb due (current + hours 4) then due_soon else on_track

unfoldable pub sla_state : CaseStatus → Option ℕ → ℕ → SlaState
sla_state status none current = if is_open status then not_set else completed
sla_state status (some due) current =
    if is_open status then deadline_state due current else completed

-- `int((due_at - now).total_seconds())`, with the sign of the difference
abbrev pub remaining_seconds : ℕ → ℕ → ℤ
remaining_seconds due current = trunc_div (sub_ℕ due current) (seconds 1)

pub record EnrichedCase : Type 0 where
  pub row : Case
  pub sla_state : SlaState
  pub sla_remaining_seconds : Option ℤ

-- the two readings of the clock come one after the other
unfoldable pub enrich_case : Case → ℕ → ℕ → EnrichedCase
unfolding sla_state
enrich_case row first second = record {
  row = row;
  sla_state = sla_state row.status row.sla_due_at first;
  sla_remaining_seconds = elim row.sla_due_at [
    | none ↦ none
    | some due ↦ if is_open row.status then some (remaining_seconds due second) else none
  ];
}
