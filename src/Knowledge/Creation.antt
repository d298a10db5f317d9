-- ===== src/Knowledge/Creation.antt =====
-- New documents leave the documents vetted.
use Prim.Native.String.{String}
use sawtai.Prelude.{ℕ, ◌≡◌, refl, Option, some, Bool-cases, inl, inr, any, is_some}
use sawtai.Table.{get, rows}
use sawtai.Schema.{Bytes, Document}
use sawtai.Session.{Session, Exec, ◌>>=◌, commit}
use sawtai.Session.Effects.{Keeps, keeps_free_rules}
use sawtai.Session.Aside.{IsAside, aside_rules}
use sawtai.Session.Halves.{Halves, aside, Keeps-commit_as, Leads, Leads-bind, Leads-Keeps}
use sawtai.Audit.{Event, write_audit}
use sawtai.Knowledge.Encoding.{KnowledgeSettings}
use sawtai.Knowledge.Uploads.{ValidatedUpload}
use sawtai.Knowledge.Rows.{same_object, insert_document}
use sawtai.Knowledge.Documents.{NewDocument, draft_document, complete_document, create_document}
use sawtai.Knowledge.Ingestion.{
  Upload, complete_upload, new_upload, process_uploaded_content, ingest_uploaded_document,
}
use sawtai.Knowledge.Asides.{put_object-IsAside, validate_upload-IsAside}
use sawtai.Knowledge.Vetting.{IsVetted, IsDraft, IsGuarded, insert-IsGuarded, write_audit-IsGuarded}
use sawtai.Knowledge.Indexing.{replace_chunks-IsGuarded, process-InHand}

abbrev pub IsSavedVetted : Session → Type 0
IsSavedVetted s = IsVetted s.saved

abbrev pub Vetted : Session → Type 0
Vetted = Halves IsVetted IsVetted

insert-Leads :
    (k : ℕ) (d : Document)
    → IsDraft d
    → Leads Vetted (insert_document k d) (λ x s. Halves (IsGuarded k) IsVetted s) IsSavedVetted
unfolding insert_document
insert-Leads k d new = record {
  at = λ s h. elim (Bool-cases (is_some (get s.db.documents k))) [
    | inl taken ↦ rw taken h.saved
    | inr free ↦ elim (Bool-cases (any (same_object d) (rows s.db.documents))) [
      | inl twin ↦ rw (free, twin) h.saved
      | inr fresh ↦
          rw (free, fresh)
            (record { opened = insert-IsGuarded k s.db d free new h.opened; saved = h.saved })
    ]
  ];
}

-- what does not touch the database
aside-Leads : {A : Type 0} (m : Exec A) → IsAside m → Leads Vetted m (λ x s. Vetted s) IsSavedVetted
aside-Leads m h = Leads-Keeps m (λ s k. k) (λ s k. k.saved) (aside m h)

module _ (k : ℕ) where
  abbrev HalfDone : Session → Type 0
  HalfDone = Halves (IsGuarded k) IsVetted

  commit-HalfDone : Keeps HalfDone commit
  commit-HalfDone = Keeps-commit_as (λ db h. h.vetted)

  audit-HalfDone : (e : Event) → e.object_id ≡ some k → Keeps HalfDone (write_audit e)
  audit-HalfDone e same = write_audit-IsGuarded k e same

free :
    {A B : Type 0} (m : Exec A) (f : A → Exec B)
    → IsAside m
    → ((a : A) → Leads Vetted (f a) (λ b s. IsSavedVetted s) IsSavedVetted)
    → Leads Vetted (m >>= f) (λ b s. IsSavedVetted s) IsSavedVetted
free m f h kf = Leads-bind m f (aside-Leads m h) kf

-- after the commit, the document is guarded on both sides
commit-Leads :
    (k : ℕ) → Leads (HalfDone k) commit (λ x s. Halves (IsGuarded k) (IsGuarded k) s) IsSavedVetted
commit-Leads k = record { at = λ s h. record { opened = h.opened; saved = h.opened } }

complete-Leads :
    (u : Upload) (n : NewDocument) (g : KnowledgeSettings)
    → Leads (HalfDone u.document_id) (complete_upload u n g) (λ x s. IsSavedVetted s) IsSavedVetted
complete-Leads u n g =
    Leads-bind (write_audit _) _
      (Leads-Keeps _ (λ s h. h) (λ s h. h.saved) (audit-HalfDone u.document_id _ refl))
      (λ x. Leads-bind commit _ (commit-Leads u.document_id) (λ y.
        Leads-Keeps (process_uploaded_content u g) (λ s h. h.saved.vetted) (λ s h. h.saved.vetted)
          (process-InHand u g)))

complete_new-Leads :
    (n : NewDocument) (actor k : ℕ) (content : Bytes) (v : ValidatedUpload) (storage : String)
    (g : KnowledgeSettings)
    → Leads
        (HalfDone k)
        (complete_upload (new_upload n actor k content v storage) n g)
        (λ x s. IsSavedVetted s)
        IsSavedVetted
complete_new-Leads n actor k content v storage g =
    complete-Leads (new_upload n actor k content v storage) n g

keep_complete :
    (n : NewDocument) (u k : ℕ) (content : String) (heading : Option String) (storage : String)
    (g : KnowledgeSettings)
    → Keeps (HalfDone k) (complete_document n u k content heading storage g)
keep_complete n u k content heading storage g =
    search (keeps_free_rules, replace_chunks-IsGuarded, audit-HalfDone k _ refl, commit-HalfDone)
      depth 20

complete-HalfDone :
    (n : NewDocument) (u k : ℕ) (content : String) (heading : Option String) (storage : String)
    (g : KnowledgeSettings)
    → Leads
        (HalfDone k)
        (complete_document n u k content heading storage g)
        (λ x s. IsSavedVetted s)
        IsSavedVetted
complete-HalfDone n u k content heading storage g =
    Leads-Keeps _ (λ s h. h.saved) (λ s h. h.saved) (keep_complete n u k content heading storage g)

-- after the insertion of a document that is not approved
inserted :
    {B : Type 0} (n : NewDocument) (k : ℕ) (key : String) (sha256 : Bytes) (at : ℕ)
    (f : Unit {0} → Exec B)
    → ((x : Unit {0}) → Leads (HalfDone k) (f x) (λ b s. IsSavedVetted s) IsSavedVetted)
    → Leads Vetted
        (insert_document k (draft_document n key sha256 at) >>= f)
        (λ b s. IsSavedVetted s)
        IsSavedVetted
inserted n k key sha256 at f kf =
    Leads-bind _ f (insert-Leads k (draft_document n key sha256 at) refl) kf

pub create-Leads :
    (n : NewDocument) (u : ℕ) (content : String) (heading : Option String) (g : KnowledgeSettings)
    → Leads Vetted (create_document n u content heading g) (λ x s. IsSavedVetted s) IsSavedVetted
unfolding create_document
create-Leads n u content heading g =
    search (free, aside_rules, put_object-IsAside, inserted, complete-HalfDone) depth 30

pub upload-Leads :
    (n : NewDocument) (u : ℕ) (filename : String) (declared : Option String) (content : Bytes)
    (g : KnowledgeSettings)
    → Leads Vetted
        (ingest_uploaded_document n u filename declared content g)
        (λ x s. IsSavedVetted s)
        IsSavedVetted
unfolding ingest_uploaded_document
upload-Leads n u filename declared content g =
    search
      (free, aside_rules, validate_upload-IsAside, put_object-IsAside, inserted, complete_new-Leads)
      depth 30
