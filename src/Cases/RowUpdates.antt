-- ===== src/Cases/RowUpdates.antt =====
-- The UPDATE of one case and the SELECT before it (cases/service.py), read as facts on the row.
use sawtai.Prelude.{
  ℕ, ◌≡◌, refl, Bool, true, Option, none, some, inl, inr, Bool-cases, arith, where_row, ◌==◌,
}
use sawtai.Table.{get, get-update, changed}
use sawtai.Schema.{Case, Db}
use sawtai.Cases.Rows.{of_tenant, update_cases}
use sawtai.Cases.Survival.{At, Is}

-- a lookup that found the row, read as a fact on the row
pub of_tenant-found :
    (k u : ℕ) (db : Db) {c d : Case}
    → where_row (of_tenant u) (get db.cases k) ≡ some c
    → get db.cases k ≡ some d
    → (c ≡ d) × (of_tenant u d ≡ true)
of_tenant-found k u db found there = ground arith

module _ (j : ℕ) (P : Case → Type 0) where
  Is-changed :
      (p : Case → Bool) (f : Case → Case) (o : Option Case)
      → ((c : Case) → o ≡ some c → p c ≡ true → P c → P (f c))
      → Is P o
      → Is P (changed p f o)
  Is-changed p f none kf h = h
  Is-changed p f (some c) kf h = elim (Bool-cases (p c)) [
    | inl e ↦ rw e (kf c refl e h)
    | inr e ↦ rw e h
  ]

  -- an UPDATE of row `k`
  pub update-At :
      (k : ℕ) (p : Case → Bool) (f : Case → Case) (db : Db)
      → ((c : Case) → get db.cases k ≡ some c → p c ≡ true → P c → P (f c))
      → At j P db
      → At j P (update_cases k p f db)
  update-At k p f db kf h = record {
    row = elim (Bool-cases (k == j)) [
      | inl e ↦
          rw (get-update, e)
            (Is-changed p f (get db.cases j) (λ c found. kf c (ground (arith, found))) h.row)
      | inr e ↦ rw (get-update, e) h.row
    ];
  }
