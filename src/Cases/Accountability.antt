-- ===== src/Cases/Accountability.antt =====
-- Every change that a user makes to a case is accounted for in the ledger.
use mathlib.Core.Option.{some-injective}
use sawtai.Prelude.{ℕ, String, ◌≡◌, refl, inl, inr, Bool, Option-cases, arith, Option, none, some}
use sawtai.Schema.{CaseStatus, Severity, Case, AuditRow}
use sawtai.Session.{Session, ◌>>◌, commit, pure, require_row, modify}
use sawtai.Session.Atomic.{
  IsSilent, IsSilent-modify, silent_rules, IsAccounted, IsAccounted-bind, IsAccounted-done,
  Accounted,
}
use sawtai.Audit.{Event, entry, write_audit}
use sawtai.Cases.Rows.{find_case, insert_case, update_cases}
use sawtai.Cases.Create.{route, due_at, create_case}
use sawtai.Cases.Edit.{update_case, add_case_note, escalate_case}
use sawtai.Cases.Workflow.{assign_case, transition_case}
use sawtai.Cases.Operations.{
  CaseOp, create, edit, assign, transition, add_note, escalate, intake, tenant_of, run,
}

-- the row names the tenant and the user who asked, and is a success on a case
pub record Names (t a : ℕ) (r : AuditRow) : Type 0 where
  pub tenant : r.tenant_id ≡ t
  pub actor : r.actor_user_id ≡ some a
  pub outcome : r.outcome ≡ "success"
  pub object : r.object_type ≡ "case"

update-IsSilent :
    (k : ℕ) (p : Case → Bool) (f : Case → Case) → IsSilent (modify (update_cases k p f))
update-IsSilent k p f = IsSilent-modify (update_cases k p f) (λ db. refl)

insert-IsSilent : (k : ℕ) (c : Case) → IsSilent (insert_case k c)
unfolding insert_case
insert-IsSilent k c = record { log = λ s. ground arith; saved = λ s. ground arith }

route-IsSilent : (t : ℕ) (place : Option ℕ) → IsSilent (route t place)
unfolding route
route-IsSilent t none = search silent_rules
route-IsSilent t (some k) = record { log = λ s. ground arith; saved = λ s. ground arith }

due_at-IsSilent : (h : Option ℕ) → IsSilent (due_at h)
unfolding due_at
due_at-IsSilent none = search silent_rules
due_at-IsSilent (some h) = search silent_rules

abbrev IsOn : ℕ → ℕ → Event → Type 0
IsOn t a e =
    (e.tenant_id ≡ t)
    × (e.actor_user_id ≡ some a)
    × (e.outcome ≡ "success")
    × (e.object_type ≡ "case")

module _ (t a : ℕ) (e : Event) (on : IsOn t a e) where
  finish-IsAccounted : IsAccounted (Names t a) (write_audit e >> commit)
  unfolding write_audit entry
  finish-IsAccounted = record {
    at =
        λ s. (_, refl, refl, record { tenant = on.0; actor = on.1; outcome = on.2; object = on.3 });
  }

  finish_pure-IsAccounted : (k : ℕ) → IsAccounted (Names t a) (write_audit e >> (commit >> pure k))
  unfolding write_audit entry
  finish_pure-IsAccounted k = record {
    at =
        λ s. (_, refl, refl, record { tenant = on.0; actor = on.1; outcome = on.2; object = on.3 });
  }

ruleset accounted_rules = (
  silent_rules, IsAccounted-bind, update-IsSilent, insert-IsSilent, route-IsSilent, due_at-IsSilent,
)

create_case-IsAccounted :
    (t a : ℕ) (ar en : String) (place : Option ℕ) (v : Severity)
    → IsAccounted (Names t a) (create_case t a ar en place v)
unfolding create_case
create_case-IsAccounted t a ar en place v =
    search (accounted_rules, finish_pure-IsAccounted) depth 20

update_case-IsAccounted :
    (t a k : ℕ) (ar en : Option String) (v : Option Severity)
    → IsAccounted (Names t a) (update_case t a k ar en v)
unfolding update_case
update_case-IsAccounted t a k ar en v = search (accounted_rules, finish-IsAccounted) depth 20

assign_case-IsAccounted : (t a k u : ℕ) → IsAccounted (Names t a) (assign_case t a k u)
unfolding assign_case
assign_case-IsAccounted t a k u = search (accounted_rules, finish-IsAccounted) depth 20

transition_case-IsAccounted :
    (t a k : ℕ) (n : CaseStatus) (remark : Option String)
    → IsAccounted (Names t a) (transition_case t a k n remark)
unfolding transition_case
transition_case-IsAccounted t a k n remark = search (accounted_rules, finish-IsAccounted) depth 20

add_case_note-IsAccounted :
    (t a k : ℕ) (remark : String) → IsAccounted (Names t a) (add_case_note t a k remark)
unfolding add_case_note write_audit entry
add_case_note-IsAccounted t a k remark = record {
  at = λ s. elim (Option-cases (find_case t k s)) [
    | inl absent ↦ rw (absent, require_row) refl
    | inr (c, found) ↦
        rw (found, require_row)
          (_, refl, refl, record { tenant = refl; actor = refl; outcome = refl; object = refl })
  ];
}

escalate_case-IsAccounted :
    (t a k : ℕ) (reason : String) → IsAccounted (Names t a) (escalate_case t a k reason)
unfolding escalate_case
escalate_case-IsAccounted t a k reason = search (accounted_rules, finish-IsAccounted) depth 20

-- who asked for the operation; `none` for the worker
abbrev pub actor_of : CaseOp → Option ℕ
actor_of (create _ a _ _ _ _) = some a
actor_of (edit _ a _ _ _ _) = some a
actor_of (assign _ a _ _) = some a
actor_of (transition _ a _ _ _) = some a
actor_of (add_note _ a _ _) = some a
actor_of (escalate _ a _ _) = some a
actor_of (intake _ _ _ _) = none

-- Every operation that a user asks for ends in one of two ways. It returns, and has committed
-- what it did together with exactly one new ledger row, which names the tenant and the user; or it
-- raises, and the committed database is what it was.
pub run-Accounted :
    (op : CaseOp) (a : ℕ) (s : Session)
    → actor_of op ≡ some a
    → Accounted (Names (tenant_of op) a) s (run op s)
unfolding run
run-Accounted (create t b ar en place v) a s h = rw (← some-injective b a h) (
    (IsAccounted-done (create_case t b ar en place v)
        (create_case-IsAccounted t b ar en place v)).at
      s)
run-Accounted (edit t b k ar en v) a s h =
    rw (← some-injective b a h) ((update_case-IsAccounted t b k ar en v).at s)
run-Accounted (assign t b k u) a s h =
    rw (← some-injective b a h) ((assign_case-IsAccounted t b k u).at s)
run-Accounted (transition t b k n remark) a s h =
    rw (← some-injective b a h) ((transition_case-IsAccounted t b k n remark).at s)
run-Accounted (add_note t b k remark) a s h =
    rw (← some-injective b a h) ((add_case_note-IsAccounted t b k remark).at s)
run-Accounted (escalate t b k reason) a s h =
    rw (← some-injective b a h) ((escalate_case-IsAccounted t b k reason).at s)
run-Accounted (intake t m at raw_text) a s h = cc
