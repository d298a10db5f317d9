-- ===== src/Audit/Chain.antt =====
-- The ledger as a hash chain, and that `write_audit` extends it: the row that the query takes for
-- the latest is the row of the tenant that was inserted last.
use mathlib.Core.Option
use sawtai.Prelude.{
  ℕ, ◌+◌, ◌≤◌, ◌<◌, ◌≡◌, refl, Bool, Option, none, some, List, [], ◌∷◌, All, Holds, arith,
  if◌then◌else◌,
}
use sawtai.Schema.{Bytes, AuditRow, Canonical, Db}
use sawtai.Session.{World, Session, Exec, now, modify, commit, request, uuid4}
use sawtai.Session.Effects.{Keeps, keeps_free_rules}
use sawtai.Audit.{Event, entry, latest, of_tenant, digest, write_audit}

-- the dictionary that was hashed, read back from a row
abbrev pub canonical_of : AuditRow → Canonical
canonical_of r = record {
  tenant_id = r.tenant_id;
  actor_user_id = r.actor_user_id;
  actor_type = r.actor_type;
  action = r.action;
  object_type = r.object_type;
  object_id = r.object_id;
  outcome = r.outcome;
  occurred_at = r.occurred_at;
}

-- the row inserted last among those that satisfy `p`
abbrev pub last_inserted : (AuditRow → Bool) → List AuditRow → Option AuditRow
last_inserted p [] = none
last_inserted p (r ∷ rest) = if p r then some r else last_inserted p rest

abbrev pub hash_of : Option AuditRow → Option Bytes
hash_of = Option.map (λ (r : AuditRow). r.row_hash)

-- every row holds the hash of its tenant's row before it, and the digest of that and of itself
abbrev pub Chained : World → List AuditRow → Type 0
Chained w [] = Unit
Chained w (r ∷ rest) =
    (r.prev_hash ≡ hash_of (last_inserted (of_tenant r.tenant_id) rest))
    × (r.row_hash ≡ digest w r.prev_hash (canonical_of r))
    × Chained w rest

abbrev pub Below : ℕ → ℕ → List AuditRow → Type 0
Below at id log = All (λ r. (r.occurred_at ≤ at) × (r.audit_id < id)) log

-- the order of insertion is the order of (occurred_at, audit_id)
abbrev pub Ordered : List AuditRow → Type 0
Ordered [] = Unit
Ordered (r ∷ rest) = Below r.occurred_at r.audit_id rest × Ordered rest

latest-Below :
    (p : AuditRow → Bool) (at id : ℕ) (log : List AuditRow)
    → Below at id log
    → Holds (λ r. (r.occurred_at ≤ at) × (r.audit_id < id)) (latest p log)
unfolding latest
latest-Below p at id [] h = tt
latest-Below p at id (r ∷ rest) h = ground (arith, latest-Below p at id rest h.1)

pub latest-eq-last_inserted :
    (p : AuditRow → Bool) (log : List AuditRow) → Ordered log → latest p log ≡ last_inserted p log
unfolding latest
latest-eq-last_inserted p [] h = refl
latest-eq-last_inserted p (r ∷ rest) h =
    ground
      (arith, latest-eq-last_inserted p rest h.1, latest-Below p r.occurred_at r.audit_id rest h.0)

Below-mono :
    (at at' id id' : ℕ) (log : List AuditRow)
    → at ≤ at'
    → id ≤ id'
    → Below at id log
    → Below at' id' log
Below-mono at at' id id' [] h k b = tt
Below-mono at at' id id' (r ∷ rest) h k b =
    ((omega arith, omega arith), Below-mono at at' id id' rest h k b.1)

-- the clock does not run backwards
pub record IsMonotone (clock : ℕ → ℕ) : Type 0 where
  pub step : (n : ℕ) → clock n ≤ clock (n + 1)

pub record IsLedger (w : World) (reads serial : ℕ) (log : List AuditRow) : Type 0 where
  pub ordered : Ordered log
  pub recent : Below (w.clock reads) serial log
  pub chained : Chained w log

pub record HasLedger (s : Session) : Type 0 where
  pub monotone : IsMonotone s.world.clock
  pub opened : IsLedger s.world s.reads s.serial s.db.audit_log
  pub saved : IsLedger s.world s.reads s.serial s.saved.audit_log

IsLedger-tick :
    (w : World) (reads serial : ℕ) (log : List AuditRow)
    → IsMonotone w.clock
    → IsLedger w reads serial log
    → IsLedger w (reads + 1) serial log
IsLedger-tick w reads serial log m h = record {
  ordered = h.ordered;
  recent =
      Below-mono (w.clock reads) (w.clock (reads + 1)) serial serial log (m.step reads)
        (omega arith) h.recent;
  chained = h.chained;
}

IsLedger-serial :
    (w : World) (reads serial : ℕ) (log : List AuditRow)
    → IsLedger w reads serial log
    → IsLedger w reads (serial + 1) log
IsLedger-serial w reads serial log h = record {
  ordered = h.ordered;
  recent = Below-mono _ _ serial (serial + 1) log (omega arith) (omega arith) h.recent;
  chained = h.chained;
}

IsLedger-entry :
    (w : World) (e : Event) (reads serial : ℕ) (log : List AuditRow)
    → IsMonotone w.clock
    → IsLedger w reads serial log
    → IsLedger w (reads + 1) (serial + 1) (entry w e serial (w.clock reads) log ∷ log)
unfolding entry
IsLedger-entry w e reads serial log m h = record {
  ordered = (h.recent, h.ordered);
  recent = (
    (m.step reads, omega arith),
    Below-mono (w.clock reads) (w.clock (reads + 1)) serial (serial + 1) log (m.step reads)
        (omega arith) h.recent,
  );
  chained = (rw (latest-eq-last_inserted (of_tenant e.tenant_id) log h.ordered), refl, h.chained);
}

-- On a monotone clock `write_audit` keeps the ledger a chain: every row of a tenant holds the
-- hash of the row of that tenant inserted before it.
pub write_audit-HasLedger : (e : Event) → Keeps HasLedger (write_audit e)
unfolding write_audit
write_audit-HasLedger e = record {
  at = λ s h. record {
    monotone = h.monotone;
    opened = IsLedger-entry s.world e s.reads s.serial s.db.audit_log h.monotone h.opened;
    saved =
        IsLedger-serial s.world (s.reads + 1) s.serial s.saved.audit_log
          (IsLedger-tick s.world s.reads s.serial s.saved.audit_log h.monotone h.saved);
  };
}

-- what leaves the ledger alone
pub now-HasLedger : Keeps HasLedger now
now-HasLedger = record {
  at = λ s h. record {
    monotone = h.monotone;
    opened = IsLedger-tick s.world s.reads s.serial s.db.audit_log h.monotone h.opened;
    saved = IsLedger-tick s.world s.reads s.serial s.saved.audit_log h.monotone h.saved;
  };
}

pub uuid4-HasLedger : Keeps HasLedger uuid4
uuid4-HasLedger = record {
  at = λ s h. record { monotone = h.monotone; opened = h.opened; saved = h.saved };
}

pub commit-HasLedger : Keeps HasLedger commit
commit-HasLedger = record {
  at = λ s h. record {
    monotone = h.monotone;
    opened = IsLedger-tick s.world s.reads s.serial s.db.audit_log h.monotone h.opened;
    saved = IsLedger-tick s.world s.reads s.serial s.db.audit_log h.monotone h.opened;
  };
}

pub modify-HasLedger :
    (f : Db → Db) → ((db : Db) → (f db).audit_log ≡ db.audit_log) → Keeps HasLedger (modify f)
modify-HasLedger f same = record {
  at = λ s h. record { monotone = h.monotone; opened = rw (same s.db) h.opened; saved = h.saved };
}

pub request-HasLedger : {A : Type 0} (m : Exec A) → Keeps HasLedger m → Keeps HasLedger (request m)
request-HasLedger m km = record {
  at = λ s h.
      let after = km.at s h in
      let (r, s') = m s in
      let ledger =
        IsLedger-tick s'.world s'.reads s'.serial s'.saved.audit_log after.monotone after.saved in
      record { monotone = after.monotone; opened = ledger; saved = ledger };
}

pub ruleset ledger_rules =
    (keeps_free_rules, write_audit-HasLedger, now-HasLedger, uuid4-HasLedger, commit-HasLedger)
