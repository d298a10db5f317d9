-- ===== src/Cases/Collisions.antt =====
-- The reference of a case has 24 bits of its UUID, and the database wants it to be unique.
use sawtai.Prelude.{
  ℕ, ◌/◌, ◌^◌, String, ◌≡◌, refl, true, any, ◌⊎◌, inl, inr, Option, none, some, arith, Bool-cases,
  Option-cases, ◌==◌,
}
use sawtai.Table.{get, rows, any-rows}
use sawtai.Schema.{Severity, Case, TaxonomyNode, Reference}
use sawtai.Session.{Session, err, integrity_error, value_error, request}
use sawtai.Cases.Rows.{reference_of, same_reference, insert_case}
use sawtai.Cases.Create.{find_node, route, due_at, create_case}

-- the reference that the next case gets
abbrev next_reference : Session → Reference
next_reference s = reference_of (s.world.year (s.world.clock s.reads)) (s.world.uuid4 s.drawn)

module _ (t a : ℕ) (ar en : String) (v : Severity) (s : Session)
    (taken : any (same_reference t (next_reference s)) (rows s.db.cases) ≡ true) where
  refused_unplaced :
      ((create_case t a ar en none v s).0 ≡ err integrity_error)
      × ((request (create_case t a ar en none v) s).1.db ≡ s.saved)
  unfolding create_case route due_at insert_case
  refused_unplaced = ground (arith, taken)

  refused_placed :
      (k : ℕ) (n : TaxonomyNode) (sla : Option ℕ)
      → find_node t k s ≡ some n
      → n.sla_hours ≡ sla
      → ((create_case t a ar en (some k) v s).0 ≡ err integrity_error)
        × ((request (create_case t a ar en (some k) v) s).1.db ≡ s.saved)
  unfolding create_case route due_at insert_case
  refused_placed k n none found sla = rw (found, sla) (ground (arith, taken))
  refused_placed k n (some h) found sla = elim (Bool-cases (h == 0)) [
    | inl unset ↦ rw (found, sla, unset) (ground (arith, taken))
    | inr set ↦ rw (found, sla, set) (ground (arith, taken))
  ]

  -- the error of the second `create_case`, by the node that it asks for
  refused :
      (place : Option ℕ)
      → (((create_case t a ar en place v s).0 ≡ err integrity_error)
          ⊎ ((k : ℕ) × (place ≡ some k)
              × (find_node t k s ≡ none)
              × ((create_case t a ar en place v s).0
                  ≡ err (value_error "Taxonomy node is unavailable"))))
        × ((request (create_case t a ar en place v) s).1.db ≡ s.saved)
  unfolding create_case route
  refused none = (inl refused_unplaced.0, refused_unplaced.1)
  refused (some k) = elim (Option-cases (find_node t k s)) [
    | inl absent ↦ (inr (k, refl, absent, rw absent refl), rw absent refl)
    | inr (n, found) ↦ let (e, kept) = refused_placed k n n.sla_hours found refl in (inl e, kept)
  ]

-- Two cases of a tenant in one year whose UUIDs agree in their first six hexadecimal digits cannot
-- both be created. The second `create_case` raises the database's IntegrityError, which is no
-- ValueError, unless it asks for a taxonomy node that is unavailable and raises the ValueError of
-- that; and what is committed stays as it was.
pub create_case_collision :
    (t a : ℕ) (ar en : String) (place : Option ℕ) (v : Severity) (s : Session) (j : ℕ) (c : Case)
    → get s.db.cases j ≡ some c
    → c.tenant_id ≡ t
    → c.reference.year ≡ s.world.year (s.world.clock s.reads)
    → c.reference.hex_prefix ≡ s.world.uuid4 s.drawn / 2 ^ 104
    → (((create_case t a ar en place v s).0 ≡ err integrity_error)
        ⊎ ((k : ℕ) × (place ≡ some k)
            × (find_node t k s ≡ none)
            × ((create_case t a ar en place v s).0
                ≡ err (value_error "Taxonomy node is unavailable"))))
      × ((request (create_case t a ar en place v) s).1.db ≡ s.saved)
create_case_collision t a ar en place v s j c there et ey eh =
    refused t a ar en v s
      (any-rows s.db.cases j c (same_reference t (next_reference s)) there
        (ground (arith, et, ey, eh)))
      place
