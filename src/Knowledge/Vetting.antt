-- ===== src/Knowledge/Vetting.antt =====
-- Documents that answer citizens have been vetted: the state of a vetted document, and what keeps it.
use text.Mathlib.Text.{◌==◌ as str_eq}
use sawtai.Prelude.{
  ℕ, ◌≡◌, ◌≢◌, ◌⊎◌, inl, inr, refl, sym, false, Option, none, some, List, ◌∷◌, length, Holds, arith,
  is_some, ◌==◌, ==_iff, ==_refl, Bool-cases,
}
use sawtai.Table.{get, put, get-put}
use sawtai.Schema.{AuditRow, Document, Db}
use sawtai.Session.Effects.{Both, Keeps}
use sawtai.Session.Halves.{Halves}
use sawtai.Audit.{Event, entry, write_audit}
use sawtai.Knowledge.Rows.{earliest, is_id, is_creation, creator_of, chunks_of}

-- not approved, or approved by a user who is not its creator, and with chunks
abbrev pub IsVettedDocument : Db → ℕ → Document → Type 0
IsVettedDocument db k d =
    (d.is_approved ≡ false)
    ⊎ ((u : ℕ) × (d.approved_by ≡ some u)
        × (is_id u (creator_of d.tenant_id k db.audit_log) ≡ false)
        × (length (chunks_of k db) ≢ 0))

pub record IsVetted (db : Db) : Type 0 where
  pub at : (k : ℕ) → Holds (IsVettedDocument db k) (get db.documents k)

abbrev pub IsDraft : Document → Type 0
IsDraft d = d.is_approved ≡ false

-- all are vetted, and one is not approved
pub record IsGuarded (k : ℕ) (db : Db) : Type 0 where
  pub vetted : IsVetted db
  pub guarded : Holds IsDraft (get db.documents k)

creator_of-other :
    (t j : ℕ) (r : AuditRow) (log : List AuditRow)
    → is_creation t j r ≡ false
    → creator_of t j (r ∷ log) ≡ creator_of t j log
unfolding earliest
creator_of-other t j r log h = rw h refl

-- documents and chunks stay, and so do the creators of all documents but those not approved
IsVettedDocument-log :
    (db : Db) (r : AuditRow) (j : ℕ) (o : Option Document)
    → ((t : ℕ) → is_creation t j r ≡ false)
    → Holds (IsVettedDocument db j) o
    → Holds (IsVettedDocument (record db { audit_log = r ∷ db.audit_log }) j) o
IsVettedDocument-log db r j none new h = tt
IsVettedDocument-log db r j (some d) new (inl draft) = inl draft
IsVettedDocument-log db r j (some d) new (inr (u, by, other, there)) =
    inr (u, by, rw (creator_of-other d.tenant_id j r db.audit_log (new d.tenant_id)) other, there)

pub IsVettedDocument-draft :
    (db : Db) (j : ℕ) (o : Option Document) → Holds IsDraft o → Holds (IsVettedDocument db j) o
IsVettedDocument-draft db j none h = tt
IsVettedDocument-draft db j (some d) h = inl h

-- a row of the ledger that creates no document
pub IsVetted-log :
    (db : Db) (r : AuditRow)
    → ((t j : ℕ) → is_creation t j r ≡ false)
    → IsVetted db
    → IsVetted (record db { audit_log = r ∷ db.audit_log })
IsVetted-log db r new h = record {
  at = λ j. IsVettedDocument-log db r j (get db.documents j) (λ t. new t j) (h.at j);
}

-- a row of the ledger about the document that is not approved
IsGuarded-log :
    (k : ℕ) (db : Db) (r : AuditRow)
    → ((t j : ℕ) → (k == j) ≡ false → is_creation t j r ≡ false)
    → IsGuarded k db
    → IsGuarded k (record db { audit_log = r ∷ db.audit_log })
IsGuarded-log k db r new h = record {
  vetted = record {
    at = λ j. elim (Bool-cases (k == j)) [
      | inl same ↦
          IsVettedDocument-draft (record db { audit_log = r ∷ db.audit_log }) j (get db.documents j)
            (rw (sym ((==_iff k j).0 same)) h.guarded)
      | inr other ↦
          IsVettedDocument-log db r j (get db.documents j) (λ t. new t j other) (h.vetted.at j)
    ];
  };
  guarded = h.guarded;
}

pub write_audit-IsVetted :
    (e : Event) → str_eq e.action "document.create" ≡ false → Keeps (Both IsVetted) (write_audit e)
unfolding write_audit entry
write_audit-IsVetted e other = record {
  at = λ s h. record {
    opened = IsVetted-log s.db _ (λ t j. ground (arith, other)) h.opened;
    saved = h.saved;
  };
}

module _ {J : Db → Type 0} (k : ℕ) where
  pub write_audit-IsGuarded :
      (e : Event) → e.object_id ≡ some k → Keeps (Halves (IsGuarded k) J) (write_audit e)
  unfolding write_audit entry
  write_audit-IsGuarded e same = record {
    at = λ s h. record {
      opened = IsGuarded-log k s.db _ (λ t j other. ground (arith, same, other)) h.opened;
      saved = h.saved;
    };
  }

pub insert-IsGuarded :
    (k : ℕ) (db : Db) (d : Document)
    → is_some (get db.documents k) ≡ false
    → IsDraft d
    → IsVetted db
    → IsGuarded k (record db { documents = put db.documents k d })
insert-IsGuarded k db d free new h = record {
  vetted = record {
    at = λ j. elim (Bool-cases (k == j)) [
      | inl same ↦ rw (get-put db.documents k j d, same) (inl new)
      | inr other ↦ rw (get-put db.documents k j d, other) (h.at j)
    ];
  };
  guarded = rw (get-put db.documents k k d, ==_refl k) new;
}
