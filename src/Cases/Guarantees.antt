-- ===== src/Cases/Guarantees.antt =====
-- What a case keeps for ever: a final status, its identity, its first response, and its
-- independence from other tenants.
use sawtai.Prelude.{
  ℕ, ◌⊎◌, none, ◌≡◌, ◌≢◌, refl, true, Option, some, List, [], ◌∷◌, All, arith, is_some,
}
use sawtai.Table.{get}
use sawtai.Schema.{CaseStatus, Case}
use sawtai.Session.{Session}
use sawtai.Session.Effects.{Both}
use sawtai.Cases.Status.{status_transitions}
use sawtai.Cases.Persistence.{serve-At}
use sawtai.Cases.Survival.{Is, Survives, At}
use sawtai.Cases.Operations.{CaseOp, tenant_of, serve}

-- `P` survives every tenant
AllSurvive :
    (P : Case → Type 0)
    → ((t : ℕ) → Survives t P)
    → (ops : List CaseOp) → All (λ op. Survives (tenant_of op) P) ops
AllSurvive P h [] = tt
AllSurvive P h (op ∷ ops) = (h (tenant_of op), AllSurvive P h ops)

final-Survives :
    (f : CaseStatus) → status_transitions f ≡ [] → (t : ℕ) → Survives t (λ c. c.status ≡ f)
final-Survives f final t = record {
  retouched = λ c d own same h. cc;
  assigned = λ c u at own h. ground arith;
  moved = λ c n at own moves h. ground arith;
}

-- A status with no way out in STATUS_TRANSITIONS is final: whatever the requests, of any tenant
-- and whether they return or raise, a committed case in it is never found in another one.
pub final_status_stays :
    (f : CaseStatus) (j : ℕ) (ops : List CaseOp) (s : Session)
    → status_transitions f ≡ []
    → Both (At j (λ c. c.status ≡ f)) s
    → Both (At j (λ c. c.status ≡ f)) (serve ops s)
final_status_stays f j ops s final h =
    serve-At j (λ c. c.status ≡ f) ops s
      (AllSurvive (λ c. c.status ≡ f) (final-Survives f final) ops) h

-- the columns that no operation writes after the INSERT
abbrev pub SameIdentity : Case → Case → Type 0
SameIdentity c d =
    (c.tenant_id ≡ d.tenant_id)
    × (c.reference ≡ d.reference)
    × (c.node_id ≡ d.node_id)
    × (c.org_unit_id ≡ d.org_unit_id)
    × (c.sla_due_at ≡ d.sla_due_at)
    × (c.created_at ≡ d.created_at)

-- `d` is `c` at a later point: a first response and an assignment are never taken back
abbrev pub IsLaterState : Case → Case → Type 0
IsLaterState c d =
    SameIdentity c d
    × ((c.first_response_at ≡ none) ⊎ (d.first_response_at ≡ c.first_response_at))
    × ((c.assigned_to ≡ none) ⊎ (is_some d.assigned_to ≡ true))

IsLaterState-Survives : (c : Case) (t : ℕ) → Survives t (IsLaterState c)
IsLaterState-Survives c t = record {
  retouched = λ d e own same h. ground arith;
  assigned = λ d u at own h. ground arith;
  moved = λ d n at own moves h. ground arith;
}

IsLaterState-refl : (c : Case) → IsLaterState c c
IsLaterState-refl c = ground arith

Is-of_eq : (P : Case → Type 0) (o : Option Case) (c : Case) → o ≡ some c → P c → Is P o
Is-of_eq P o c e h = rw e h

-- Whatever the requests, a committed case keeps its tenant, reference, node, unit, SLA deadline
-- and time of creation; its time of first response, once set, does not change; and once it has
-- been assigned it always has an assignee.
pub case_history :
    (j : ℕ) (c : Case) (ops : List CaseOp) (s : Session)
    → get s.db.cases j ≡ some c
    → get s.saved.cases j ≡ some c
    → Is (IsLaterState c) (get (serve ops s).saved.cases j)
case_history j c ops s here saved =
    (serve-At j (IsLaterState c) ops s (AllSurvive (IsLaterState c) (IsLaterState-Survives c) ops)
      (record {
        opened = record { row = Is-of_eq (IsLaterState c) _ c here (IsLaterState-refl c) };
        saved = record { row = Is-of_eq (IsLaterState c) _ c saved (IsLaterState-refl c) };
      })).saved.row

-- a row of another tenant survives as it is
foreign-Survives : (c : Case) (t : ℕ) → c.tenant_id ≢ t → Survives t (λ d. d ≡ c)
foreign-Survives c t ne = record {
  retouched = λ d e own same h. ground arith;
  assigned = λ d u at own h. ground arith;
  moved = λ d n at own moves h. ground arith;
}

abbrev pub Foreign : ℕ → List CaseOp → Type 0
Foreign t ops = All (λ op. t ≢ tenant_of op) ops

AllForeign :
    (c : Case) (ops : List CaseOp)
    → Foreign c.tenant_id ops
    → All (λ op. Survives (tenant_of op) (λ d. d ≡ c)) ops
AllForeign c [] h = tt
AllForeign c (op ∷ ops) h = (foreign-Survives c (tenant_of op) h.0, AllForeign c ops h.1)

-- Tenants are isolated: requests of other tenants leave every column of a committed case as it is.
pub tenant_isolation :
    (j : ℕ) (c : Case) (ops : List CaseOp) (s : Session)
    → get s.db.cases j ≡ some c
    → get s.saved.cases j ≡ some c
    → Foreign c.tenant_id ops
    → Is (λ d. d ≡ c) (get (serve ops s).saved.cases j)
tenant_isolation j c ops s here saved foreign =
    (serve-At j (λ d. d ≡ c) ops s (AllForeign c ops foreign)
      (record {
        opened = record { row = Is-of_eq (λ d. d ≡ c) _ c here refl };
        saved = record { row = Is-of_eq (λ d. d ≡ c) _ c saved refl };
      })).saved.row
