-- ===== src/Cases/Rows.antt =====
-- The statements on core.cases that the operations share.
use sawtai.Prelude.{
  ℕ, ◌^◌, ◌/◌, Bool, ◌&&◌, ◌||◌, Option, List, any, is_some, where_row, ◌==◌, if◌then◌else◌,
}
use sawtai.Table.{get, put, update, rows}
use sawtai.Schema.{Reference, Case, Db}
use sawtai.Session.{Session, Exec, ok, err, integrity_error, gets}

abbrev pub of_tenant : ℕ → Case → Bool
of_tenant tenant_id c = c.tenant_id == tenant_id

-- SELECT ... FROM core.cases WHERE case_id = :case_id AND tenant_id = :tenant_id
abbrev pub find_case : ℕ → ℕ → Session → Option Case
find_case tenant_id case_id s = where_row (of_tenant tenant_id) (get s.db.cases case_id)

abbrev pub select_case : ℕ → ℕ → Exec (Option Case)
select_case tenant_id case_id = gets (find_case tenant_id case_id)

-- UPDATE core.cases SET f WHERE case_id = :case_id AND p
abbrev pub update_cases : ℕ → (Case → Bool) → (Case → Case) → Db → Db
update_cases case_id p f db = record db { cases = update db.cases case_id p f }

-- f"SHJ-{year}-{case_id.hex[:6].upper()}": the top 24 of the 128 bits
abbrev pub reference_of : ℕ → ℕ → Reference
reference_of year case_id = record { year = year; hex_prefix = case_id / 2 ^ 104 }

abbrev pub same_reference : ℕ → Reference → ℕ × Case → Bool
same_reference tenant_id r (_, c) =
    c.tenant_id == tenant_id
    && (c.reference.year == r.year && c.reference.hex_prefix == r.hex_prefix)

abbrev pub reference_taken : ℕ → Reference → List (ℕ × Case) → Bool
reference_taken tenant_id r = any (same_reference tenant_id r)

-- INSERT INTO core.cases, under PRIMARY KEY (case_id) and UNIQUE (tenant_id, reference)
unfoldable pub insert_case : ℕ → Case → Exec (Unit {0})
insert_case case_id c s =
    if is_some (get s.db.cases case_id) || reference_taken c.tenant_id c.reference (rows s.db.cases)
    then (err integrity_error, s)
    else (ok tt, record s { db = record s.db { cases = put s.db.cases case_id c } })
