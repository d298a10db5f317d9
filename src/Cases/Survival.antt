-- ===== src/Cases/Survival.antt =====
-- Properties of a row that every operation of a tenant keeps.
use sawtai.Prelude.{ℕ, ◌≡◌, refl, true, Option, none, some}
use sawtai.Table.{get}
use sawtai.Schema.{CaseStatus, Case, Db}
use sawtai.Cases.Status.{may_move}
use sawtai.Cases.Rows.{of_tenant}
use sawtai.Cases.Workflow.{assigned_status, assign_row, transition_row}

-- the row is there, and satisfies `P`
abbrev pub Is : {A : Type 0} → (A → Type 0) → Option A → Type 0
Is P none = ⊥
Is P (some a) = P a

-- all columns but the two titles, the severity and `updated_at`
abbrev pub SameCase : Case → Case → Type 0
SameCase c d =
    (c.tenant_id ≡ d.tenant_id)
    × (c.reference ≡ d.reference)
    × (c.node_id ≡ d.node_id)
    × (c.org_unit_id ≡ d.org_unit_id)
    × (c.assigned_to ≡ d.assigned_to)
    × (c.status ≡ d.status)
    × (c.sla_due_at ≡ d.sla_due_at)
    × (c.first_response_at ≡ d.first_response_at)
    × (c.resolved_at ≡ d.resolved_at)
    × (c.created_at ≡ d.created_at)

pub same_case : (c : Case) → SameCase c c
same_case c = (refl, refl, refl, refl, refl, refl, refl, refl, refl, refl)

-- `P` survives what tenant `t` may do to a case of its own
pub record Survives (t : ℕ) (P : Case → Type 0) : Type 0 where
  pub retouched : (c d : Case) → of_tenant t c ≡ true → SameCase c d → P c → P d
  pub assigned :
      (c : Case) (u at : ℕ)
      → of_tenant t c ≡ true
      → P c
      → P (assign_row u (assigned_status c.status) at c)
  pub moved :
      (c : Case) (n : CaseStatus) (at : ℕ)
      → of_tenant t c ≡ true
      → may_move c.status n ≡ true
      → P c
      → P (transition_row n at c)

pub record At (j : ℕ) (P : Case → Type 0) (db : Db) : Type 0 where
  pub row : Is P (get db.cases j)
