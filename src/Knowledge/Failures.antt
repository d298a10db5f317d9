-- ===== src/Knowledge/Failures.antt =====
-- What a failed upload leaves behind.
use Prim.Native.String.{String}
use sawtai.Prelude.{
  ℕ, suc, ◌+◌, ◌≡◌, refl, subst, ◌∙◌, ap, Option, none, some, List, [], ◌∷◌, any, Bool-cases, inl,
  inr,
}
use sawtai.Schema.{AuditRow, DocChunk, Db, str}
use sawtai.Session.{
  Session, Exec, Error, Result, ok, err, uploaded_error, ingestion_error, lookup_error, value_error,
  permission_error, runtime_error, delivery_error, integrity_error, transport_error, http_error,
  modify,
}
use sawtai.Session.Atomic.{IsSilent, IsSilent-bind, IsSilent-modify, silent_rules}
use sawtai.Session.Aside.{IsAside}
use sawtai.Session.Halves.{Leads, Leads-bind, Ends}
use sawtai.Audit.{entry, write_audit}
use sawtai.Knowledge.Chunks.{Section}
use sawtai.Knowledge.Encoding.{KnowledgeSettings, embed_texts, vector_literal}
use sawtai.Knowledge.Rows.{clashes, delete_chunks, insert_chunk}
use sawtai.Knowledge.Documents.{store_chunk, store_chunks, replace_chunks}
use sawtai.Knowledge.Extraction.{extract_document}
use sawtai.Knowledge.Ingestion.{
  Upload, Indexed, index_upload, finish_upload, fail_upload, ingestion_failed_event,
  record_ingestion_failure, settle, process_uploaded_content,
}
use sawtai.Knowledge.Asides.{embed_texts-IsAside, vector_literal-IsAside, extract_document-IsAside}

aside-IsSilent : {A : Type 0} (m : Exec A) → IsAside m → IsSilent m
aside-IsSilent m h = record { log = λ s. ap (λ (db : Db). db.audit_log) (h.db s); saved = h.saved }

insert_chunk-IsSilent : (c : DocChunk) → IsSilent (insert_chunk c)
unfolding insert_chunk
insert_chunk-IsSilent c = record {
  log = λ s. elim (Bool-cases (any (clashes c) s.db.doc_chunks)) [
    | inl taken ↦ rw taken refl
    | inr free ↦ rw free refl
  ];
  saved = λ s. elim (Bool-cases (any (clashes c) s.db.doc_chunks)) [
    | inl taken ↦ rw taken refl
    | inr free ↦ rw free refl
  ];
}

embed-IsSilent : (values : List String) (g : KnowledgeSettings) → IsSilent (embed_texts values g)
embed-IsSilent values g = aside-IsSilent _ (embed_texts-IsAside values g)

literal-IsSilent : (v : List ℕ) → IsSilent (vector_literal v)
literal-IsSilent v = aside-IsSilent _ (vector_literal-IsAside v)

store_chunk-IsSilent :
    (t j : ℕ) (language : String) (seq : ℕ) (c : Section) (v : List ℕ)
    → IsSilent (store_chunk t j language seq c v)
store_chunk-IsSilent t j language seq c v =
    search (silent_rules, literal-IsSilent, insert_chunk-IsSilent) depth 20

store_chunks-IsSilent :
    (t j : ℕ) (language : String) (seq : ℕ) (cs : List Section) (vs : List (List ℕ))
    → IsSilent (store_chunks t j language seq cs vs)
unfolding store_chunks
store_chunks-IsSilent t j language seq [] [] = search silent_rules
store_chunks-IsSilent t j language seq [] (v ∷ vs) = search silent_rules
store_chunks-IsSilent t j language seq (c ∷ cs) [] = search silent_rules
store_chunks-IsSilent t j language seq (c ∷ cs) (v ∷ vs) =
    IsSilent-bind _ _ (store_chunk-IsSilent t j language seq c v)
      (λ x. store_chunks-IsSilent t j language (suc seq) cs vs)

delete-IsSilent : (t k : ℕ) → IsSilent (modify (delete_chunks t k))
delete-IsSilent t k = IsSilent-modify (delete_chunks t k) (λ db. refl)

replace_chunks-IsSilent :
    (t k : ℕ) (language content : String) (heading : Option String) (g : KnowledgeSettings)
    → IsSilent (replace_chunks t k language content heading g)
unfolding replace_chunks
replace_chunks-IsSilent t k language content heading g =
    search (silent_rules, delete-IsSilent, embed-IsSilent, store_chunks-IsSilent) depth 20

module _ (old : Db) where
  -- nothing has been committed
  abbrev Uncommitted : Session → Type 0
  Uncommitted s = s.saved ≡ old

  silent_case :
      {A : Type 0} (x : Result A × Session)
      → Uncommitted x.1
      → Ends (λ a s. Uncommitted s) Uncommitted x
  silent_case (ok a, s) h = h
  silent_case (err e, s) h = h

  silent_Leads :
      {A : Type 0} (m : Exec A)
      → IsSilent m
      → Leads Uncommitted m (λ a s. Uncommitted s) Uncommitted
  silent_Leads m h = record { at = λ s k. silent_case (m s) (h.saved s ∙ k) }

  finish_Leads :
      (u : Upload) (x : Indexed)
      → Leads Uncommitted (finish_upload u x) (λ y s. Unit {0}) Uncommitted
  unfolding write_audit
  finish_Leads u x = record { at = λ s h. tt }

  -- an index that fails has committed nothing
  index_Leads :
      (u : Upload) (g : KnowledgeSettings)
      → Leads Uncommitted (index_upload u g) (λ y s. Unit {0}) Uncommitted
  index_Leads u g =
      Leads-bind (extract_document u.content u.validated g.document_max_pages) _
        (silent_Leads _
          (aside-IsSilent _ (extract_document-IsAside u.content u.validated g.document_max_pages)))
        (λ x.
          Leads-bind (replace_chunks u.tenant_id u.document_id u.language x.text none g) _
            (silent_Leads _
              (replace_chunks-IsSilent u.tenant_id u.document_id u.language x.text none g))
            (λ n.
              Leads-bind (embed_texts _ g) _ (silent_Leads _ (embed-IsSilent _ g))
                (λ b. finish_Leads u _)))

-- the row that records a failure
abbrev pub IsFailureRow : Upload → String → String → AuditRow → Type 0
IsFailureRow u code message r =
    (r.action ≡ "document.ingest.failed")
    × (r.outcome ≡ "failure")
    × (r.object_id ≡ some u.document_id)
    × (r.actor_user_id ≡ some u.actor_user_id)
    × (r.after_state
        ≡ some (
            ("ingestion_status", str "failed")
            ∷ ("error_code", str code)
            ∷ ("error_message", str message)
            ∷ []))

abbrev HasFailed : Upload → Db → ℕ → String → String → Session → Type 0
HasFailed u old k code message s =
    (k ≡ u.document_id)
    × (r : AuditRow) × (s.saved ≡ record old { audit_log = r ∷ old.audit_log })
    × IsFailureRow u code message r

abbrev logged : AuditRow → Db → Db
logged r db = record db { audit_log = r ∷ db.audit_log }

recorded :
    (u : Upload) (old : Db) (code message : String) (s : Session)
    → s.saved ≡ old
    → HasFailed u old u.document_id code message (fail_upload u code message s).1
unfolding record_ingestion_failure write_audit entry
recorded u old code message s h =
    let e = ingestion_failed_event u.tenant_id u.actor_user_id u.document_id code message in
    let r = entry s.world e s.serial (s.world.clock (s.reads + 1)) s.saved.audit_log in
    (refl, r, ap (logged r) h, (refl, refl, refl, refl, refl))

abbrev failed : Error → Result Indexed
failed e = err e

-- what is committed after an error, by the error, if `old` was committed before
abbrev pub Leaves : Upload → Db → Error → Session → Type 0
Leaves u old (uploaded_error k code message) s = HasFailed u old k code message s
Leaves u old e s = s.saved ≡ old

abbrev error_of : Error → Result Indexed → Error
error_of e (ok x) = e
error_of e (err d) = d

-- the error that was raised
raised :
    (u : Upload) (old : Db) (d e : Error) (s : Session)
    → failed d ≡ failed e
    → Leaves u old d s
    → Leaves u old e s
raised u old d e s same = subst (λ x. Leaves u old x s) (ap (error_of d) same)

settle_failed :
    (u : Upload) (old : Db) (d e : Error) (s : Session)
    → s.saved ≡ old
    → (settle u (err d) s).0 ≡ err e
    → Leaves u old e (settle u (err d) s).1
unfolding record_ingestion_failure write_audit
settle_failed u old (ingestion_error c m) e s h same =
    raised u old (uploaded_error u.document_id c m) e _ same (recorded u old c m s h)
settle_failed u old (uploaded_error j c m) e s h same =
    raised u old (uploaded_error u.document_id c m) e _ same (recorded u old c m s h)
settle_failed u old (lookup_error t) e s h same = raised u old (lookup_error t) e s same h
settle_failed u old (value_error t) e s h same = raised u old (value_error t) e s same h
settle_failed u old (permission_error t) e s h same = raised u old (permission_error t) e s same h
settle_failed u old (runtime_error t) e s h same = raised u old (runtime_error t) e s same h
settle_failed u old (delivery_error t) e s h same = raised u old (delivery_error t) e s same h
settle_failed u old integrity_error e s h same = raised u old integrity_error e s same h
settle_failed u old transport_error e s h same = raised u old transport_error e s same h
settle_failed u old (http_error n t) e s h same = raised u old (http_error n t) e s same h

settled :
    (u : Upload) (old : Db) (r : Result Indexed) (e : Error) (s : Session)
    → Ends (λ x s. Unit {0}) (Uncommitted old) (r, s)
    → (settle u r s).0 ≡ err e
    → Leaves u old e (settle u r s).1
settled u old (ok x) e s h same = cc
settled u old (err d) e s h same = settle_failed u old d e s h same

-- The processing of an upload's content, from the extraction on, ends with an error in one of two
-- ways. An UploadedDocumentError names the document, and all that has been committed since the
-- processing began is one row of the ledger, which records the code and the message: no chunk and
-- no document has changed. After any other error, such as the ValueError for a text without a
-- section, nothing at all has been committed, no row of the ledger either.
pub process_failure :
    (u : Upload) (g : KnowledgeSettings) (s : Session) (e : Error)
    → (process_uploaded_content u g s).0 ≡ err e
    → Leaves u s.saved e (process_uploaded_content u g s).1
unfolding process_uploaded_content
process_failure u g s e same =
    settled u s.saved (index_upload u g s).0 e (index_upload u g s).1
      ((index_Leads s.saved u g).at s refl) same
