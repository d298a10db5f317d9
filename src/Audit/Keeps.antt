-- ===== src/Audit/Keeps.antt =====
-- `write_audit` touches nothing but the ledger.
use sawtai.Prelude.{List}
use sawtai.Schema.{AuditRow, Db}
use sawtai.Session.Effects.{Both, Keeps}
use sawtai.Audit.{Event, write_audit}

module _ {I : Db → Type 0}
    (blind : (db : Db) (log : List AuditRow) → I db → I (record db { audit_log = log })) where
  pub Keeps-write_audit : (e : Event) → Keeps (Both I) (write_audit e)
  unfolding write_audit
  Keeps-write_audit e = record {
    at = λ s h. record { opened = blind s.db _ h.opened; saved = h.saved };
  }
