-- ===== src/Knowledge/Indexing.antt =====
-- While its chunks are replaced, a document is not approved.
use Prim.Native.String.{String}
use sawtai.Prelude.{ℕ, suc, ◌≡◌, refl, Option, none, some, List, [], ◌∷◌, Bool-cases, inl, inr, any}
use sawtai.Schema.{DocChunk, Db}
use sawtai.Session.{Session, Error, Result, ok, err, modify, commit}
use sawtai.Session.Effects.{Keeps, Keeps-bind, keeps_free_rules}
use sawtai.Session.Halves.{
  Halves, aside, Keeps-modify_opened, Keeps-commit_as, Keeps-uuid4-Halves, Keeps-rollback-Halves,
}
use sawtai.Audit.{Event, write_audit}
use sawtai.Knowledge.Chunks.{Section}
use sawtai.Knowledge.Encoding.{KnowledgeSettings, embed_texts, vector_literal}
use sawtai.Knowledge.Rows.{clashes, delete_chunks, insert_chunk}
use sawtai.Knowledge.Documents.{store_chunk, store_chunks, replace_chunks}
use sawtai.Knowledge.Ingestion.{
  Upload, Indexed, index_upload, finish_upload, record_ingestion_failure, ingestion_failure,
  settle_failure, settle, process_uploaded_content,
}
use sawtai.Knowledge.Asides.{embed_texts-IsAside, vector_literal-IsAside, extract_document-IsAside}
use sawtai.Knowledge.Vetting.{IsGuarded, write_audit-IsGuarded}
use sawtai.Knowledge.Feeding.{IsGuarded-delete, IsGuarded-insert_chunk}

module _ {J : Db → Type 0} (k : ℕ) where
  insert_chunk-IsGuarded : (c : DocChunk) → Keeps (Halves (IsGuarded k) J) (insert_chunk c)
  unfolding insert_chunk
  insert_chunk-IsGuarded c = record {
    at = λ s h. elim (Bool-cases (any (clashes c) s.db.doc_chunks)) [
      | inl taken ↦ rw taken h
      | inr free ↦
          rw free (record { opened = IsGuarded-insert_chunk k s.db c h.opened; saved = h.saved })
    ];
  }

  embed-IsGuarded :
      (values : List String) (g : KnowledgeSettings)
      → Keeps (Halves (IsGuarded k) J) (embed_texts values g)
  embed-IsGuarded values g = aside _ (embed_texts-IsAside values g)

  literal-IsGuarded : (v : List ℕ) → Keeps (Halves (IsGuarded k) J) (vector_literal v)
  literal-IsGuarded v = aside _ (vector_literal-IsAside v)

  store_chunk-IsGuarded :
      (t j : ℕ) (language : String) (seq : ℕ) (c : Section) (v : List ℕ)
      → Keeps (Halves (IsGuarded k) J) (store_chunk t j language seq c v)
  store_chunk-IsGuarded t j language seq c v =
      search (keeps_free_rules, Keeps-uuid4-Halves, literal-IsGuarded, insert_chunk-IsGuarded) depth
        20

  store_chunks-IsGuarded :
      (t j : ℕ) (language : String) (seq : ℕ) (cs : List Section) (vs : List (List ℕ))
      → Keeps (Halves (IsGuarded k) J) (store_chunks t j language seq cs vs)
  unfolding store_chunks
  store_chunks-IsGuarded t j language seq [] [] = search keeps_free_rules
  store_chunks-IsGuarded t j language seq [] (v ∷ vs) = search keeps_free_rules
  store_chunks-IsGuarded t j language seq (c ∷ cs) [] = search keeps_free_rules
  store_chunks-IsGuarded t j language seq (c ∷ cs) (v ∷ vs) =
      Keeps-bind _ _ (store_chunk-IsGuarded t j language seq c v)
        (λ x. store_chunks-IsGuarded t j language (suc seq) cs vs)

  delete-IsGuarded : (t : ℕ) → Keeps (Halves (IsGuarded k) J) (modify (delete_chunks t k))
  delete-IsGuarded t = Keeps-modify_opened (delete_chunks t k) (IsGuarded-delete t k)

  pub replace_chunks-IsGuarded :
      (t : ℕ) (language content : String) (heading : Option String) (g : KnowledgeSettings)
      → Keeps (Halves (IsGuarded k) J) (replace_chunks t k language content heading g)
  unfolding replace_chunks
  replace_chunks-IsGuarded t language content heading g =
      search (keeps_free_rules, embed-IsGuarded, store_chunks-IsGuarded, delete-IsGuarded) depth 20

module _ (u : Upload) where
  abbrev InHand : Session → Type 0
  InHand = Halves (IsGuarded u.document_id) (IsGuarded u.document_id)

  keep_commit : Keeps InHand commit
  keep_commit = Keeps-commit_as (λ db h. h)

  audit_index : (e : Event) → e.object_id ≡ some u.document_id → Keeps InHand (write_audit e)
  audit_index e same = write_audit-IsGuarded u.document_id e same

  finish-InHand : (x : Indexed) → Keeps InHand (finish_upload u x)
  finish-InHand x = search (keeps_free_rules, audit_index _ refl, keep_commit) depth 20

  index-InHand : (g : KnowledgeSettings) → Keeps InHand (index_upload u g)
  index-InHand g =
      Keeps-bind _ _ (aside _ (extract_document-IsAside u.content u.validated g.document_max_pages))
        (λ x.
          Keeps-bind _ _
            (replace_chunks-IsGuarded u.document_id u.tenant_id u.language x.text none g)
            (λ n. Keeps-bind _ _ (embed-IsGuarded u.document_id _ g) (λ b. finish-InHand _)))

  failure-InHand :
      (code message : String)
      → Keeps InHand
          (record_ingestion_failure u.tenant_id u.actor_user_id u.document_id code message)
  unfolding record_ingestion_failure
  failure-InHand code message = search (keeps_free_rules, audit_index _ refl, keep_commit) depth 20

  settle_failure-InHand :
      (e : Error) (o : Option (String × String)) → Keeps InHand (settle_failure u e o)
  settle_failure-InHand e none = search keeps_free_rules
  settle_failure-InHand e (some (code, message)) =
      search (keeps_free_rules, Keeps-rollback-Halves, failure-InHand) depth 20

  settle-InHand : (r : Result Indexed) → Keeps InHand (settle u r)
  settle-InHand (ok x) = search keeps_free_rules
  settle-InHand (err e) = settle_failure-InHand e (ingestion_failure e)

  pub process-InHand : (g : KnowledgeSettings) → Keeps InHand (process_uploaded_content u g)
  unfolding process_uploaded_content
  process-InHand g = record {
    at = λ s h.
        (settle-InHand (index_upload u g s).0).at (index_upload u g s).1 ((index-InHand g).at s h);
  }
