-- ===== src/Knowledge/Vetted.antt =====
-- Every operation on documents leaves them vetted.
use text.Mathlib.Text.{◌==◌ as str_eq}
use sawtai.Prelude.{
  ℕ, ◌+◌, ◌≡◌, refl, sym, Bool, true, false, ◌||◌, Option, none, some, Bool-cases, Option-cases,
  inl, inr, leb, length, Holds, ◌==◌, ==_iff, arith,
}
use sawtai.Table.{get, get-update, changed}
use sawtai.Schema.{Document, Db}
use sawtai.Session.{Session, ok, modify, commit, ◌>>◌, require_row}
use sawtai.Session.Effects.{Both, Keeps, Keeps-bind, Keeps-modify, keeps_rules}
use sawtai.Session.Halves.{Halves, aside}
use sawtai.Audit.{Event, write_audit}
use sawtai.Knowledge.Encoding.{KnowledgeSettings}
use sawtai.Knowledge.Rows.{of_tenant, find_document, update_documents, chunks_of, creator_of, is_id}
use sawtai.Knowledge.Ingestion.{
  is_cited, filename_of, retried_upload, retry_storage, reprocess, retry_document_ingestion,
}
use sawtai.Knowledge.Asides.{get_object-IsAside, validate_upload-IsAside}
use sawtai.Knowledge.Vetting.{IsVetted, IsVettedDocument, IsGuarded, write_audit-IsVetted}
use sawtai.Knowledge.Indexing.{process-InHand}
use sawtai.Knowledge.Creation.{IsSavedVetted}
use sawtai.Knowledge.Life.{
  today, is_over, approved_row, retired_row, approve_document, retire_document,
}

-- all are vetted, and nothing is uncommitted
pub record IsSettled (s : Session) : Type 0 where
  pub vetted : IsVetted s.db
  pub clean : s.saved ≡ s.db

module _ (t : ℕ) (f : Document → Document) (Q : Document → Type 0) where
  changed-Holds :
      (o : Option Document)
      → ((d : Document) → o ≡ some d → of_tenant t d ≡ true → Q (f d))
      → Holds Q o
      → Holds Q (changed (of_tenant t) f o)
  changed-Holds none new h = tt
  changed-Holds (some d) new h = elim (Bool-cases (of_tenant t d)) [
    | inl ours ↦ rw ours (new d refl ours)
    | inr other ↦ rw other h
  ]

-- an update of a document that leaves it vetted
update-IsVetted :
    (t k : ℕ) (f : Document → Document) (db : Db)
    → ((d : Document)
        → get db.documents k ≡ some d
        → of_tenant t d ≡ true
        → IsVettedDocument db k (f d))
    → IsVetted db
    → IsVetted (update_documents t k f db)
update-IsVetted t k f db new h = record {
  at = λ j. elim (Bool-cases (k == j)) [
    | inr other ↦ rw (get-update db.documents k j (of_tenant t) f, other) (h.at j)
    | inl same ↦
        rw (get-update db.documents k j (of_tenant t) f, same, sym ((==_iff k j).0 same))
          (changed-Holds t f (IsVettedDocument db k) (get db.documents k) new (h.at k))
  ];
}

-- the test reads at most the clock
is_over-cases :
    (o : Option ℕ) (s : Session)
    → (b : Bool) × (n : ℕ) × (is_over o s ≡ (ok b, record s { reads = n }))
is_over-cases none s = (false, s.reads, refl)
is_over-cases (some day) s =
    (leb day (s.world.engine.day (s.world.clock s.reads)), s.reads + 1, refl)

find_document-get :
    (t k : ℕ) (s : Session) (d : Document)
    → find_document t k s ≡ some d
    → (get s.db.documents k ≡ some d) × (of_tenant t d ≡ true)
find_document-get t k s d found = ground (arith, found)

reprocess-InHand :
    (t k u : ℕ) (d : Document) (g : KnowledgeSettings)
    → Keeps (Halves (IsGuarded k) (IsGuarded k)) (reprocess t k u d g)
reprocess-InHand t k u d g =
    Keeps-bind _ _ (aside _ (get_object-IsAside g d.object_key)) (λ content.
      Keeps-bind _ _
        (aside _ (
          validate_upload-IsAside (filename_of d.object_key) content none
            g.document_max_upload_bytes))
        (λ v. process-InHand (retried_upload t k u d content v (retry_storage g)) g))

draft-IsGuarded :
    (t k : ℕ) (d : Document) (cited : Bool) (s : Session)
    → IsSettled s
    → find_document t k s ≡ some d
    → (d.is_approved || cited) ≡ false
    → IsGuarded k s.db
draft-IsGuarded t k d cited s h found free = record {
  vetted = h.vetted;
  guarded = rw (find_document-get t k s d found).0 (ground (arith, free));
}

pub retry-SavedVetted :
    (t k u : ℕ) (g : KnowledgeSettings) (s : Session)
    → IsSettled s
    → IsSavedVetted (retry_document_ingestion t k u g s).1
unfolding retry_document_ingestion
retry-SavedVetted t k u g s h = elim (Option-cases (find_document t k s)) [
  | inl absent ↦ rw (absent, require_row, h.clean) h.vetted
  | inr (d, found) ↦ elim (Bool-cases (d.is_approved || is_cited k s.db.response_citations)) [
    | inl refused ↦ rw (found, require_row, refused, h.clean) h.vetted
    | inr free ↦
        rw (found, require_row, free)
          ((reprocess-InHand t k u d g).at s (record {
            opened = draft-IsGuarded t k d _ s h found free;
            saved = rw h.clean (draft-IsGuarded t k d _ s h found free);
          })).saved.vetted
  ]
]

retire_update :
    (t k day : ℕ) → Keeps (Both IsVetted) (modify (update_documents t k (retired_row day)))
retire_update t k day =
    Keeps-modify (update_documents t k (retired_row day))
      (λ db h. update-IsVetted t k (retired_row day) db (λ d found ours. inl refl) h)

finish-Vetted :
    (e : Event)
    → str_eq e.action "document.create" ≡ false
    → Keeps (Both IsVetted) (write_audit e >> commit)
finish-Vetted e other = search (keeps_rules, write_audit-IsVetted e other) depth 20

today-Vetted : Keeps (Both IsVetted) today
today-Vetted = search keeps_rules depth 20

is_over-Vetted : (o : Option ℕ) → Keeps (Both IsVetted) (is_over o)
is_over-Vetted none = search keeps_rules
is_over-Vetted (some day) = search (keeps_rules, today-Vetted) depth 20

pub retire-Vetted : (t k u : ℕ) → Keeps (Both IsVetted) (retire_document t k u)
unfolding retire_document
retire-Vetted t k u =
    search (keeps_rules, retire_update, write_audit-IsVetted, is_over-Vetted, today-Vetted) depth 30

approve_update :
    (t k u : ℕ) (d : Document) (db : Db)
    → get db.documents k ≡ some d
    → of_tenant t d ≡ true
    → is_id u (creator_of t k db.audit_log) ≡ false
    → (length (chunks_of k db) == 0) ≡ false
    → IsVetted db
    → IsVetted (update_documents t k (approved_row u) db)
approve_update t k u d db found ours other there h =
    update-IsVetted t k (approved_row u) db
      (λ e found' mine.
        inr (u, refl, rw ((==_iff e.tenant_id t).0 mine) other, ground (arith, there)))
      h

pub approve-Vetted : (t k u : ℕ) → Keeps (Both IsVetted) (approve_document t k u)
unfolding approve_document
approve-Vetted t k u = record {
  at = λ s h. elim (Option-cases (find_document t k s)) [
    | inl absent ↦ rw (absent, require_row) h
    | inr (d, found) ↦ elim (Bool-cases d.is_approved) [
      | inl already ↦ rw (found, require_row, already) h
      | inr draft ↦ elim (Bool-cases (length (chunks_of k s.db) == 0)) [
        | inl bare ↦ rw (found, require_row, draft, bare) h
        | inr there ↦
            let (b, n, over) = is_over-cases d.effective_to s in
            elim (Bool-cases b) [
              | inl past ↦
                  rw (found, require_row, draft, there, over, past)
                    (record { opened = h.opened; saved = h.saved })
              | inr current ↦ elim (Bool-cases (is_id u (creator_of t k s.db.audit_log))) [
                | inl own ↦
                    rw (found, require_row, draft, there, over, current, own)
                      (record { opened = h.opened; saved = h.saved })
                | inr other ↦
                    rw (found, require_row, draft, there, over, current, other)
                      ((finish-Vetted _ refl).at _ (record {
                        opened =
                            approve_update t k u d s.db (find_document-get t k s d found).0
                              (find_document-get t k s d found).1 other there h.opened;
                        saved = h.saved;
                      }))
              ]
            ]
      ]
    ]
  ];
}
