-- ===== src/Knowledge/Sources.antt =====
-- Where the sections that answer a question come from.
use Prim.Native.String.{String}
use sawtai.Prelude.{
  ℕ, Holds, ◌*◌, ◌≤◌, ◌<◌, ◌≡◌, refl, subst, true, Option, none, some, List, [], ◌∷◌, map, length,
  All, Bool-cases, Option-cases, inl, inr, arith,
}
use sawtai.Prelude.Sorting.{All-sort_by}
use sawtai.Prelude.Slicing.{length-take, All-take}
use sawtai.Table.{get}
use sawtai.Schema.{Document, DocChunk, Db}
use sawtai.Session.{World, Session, Exec, Result, ok, err, ◌>>=◌, gets}
use sawtai.Session.Effects.{Keeps, keeps_free_rules}
use sawtai.Session.Post.{ok-injective}
use sawtai.Session.Halves.{Leads, Leads-bind, Leads-Keeps, Ends}
use sawtai.Knowledge.Encoding.{
  KnowledgeSettings, embed_texts, rerank_texts, vector_literal, is_full,
}
use sawtai.Knowledge.Life.{current_date}
use sawtai.Knowledge.Retrieval.{
  starts_by, ends_after, is_retrievable, Scored, add_scored, source_of, scored, by_hybrid,
  RetrievedChunk, retrieved_chunk, ranked, candidates, by_score, max, scored_text, limited_rows,
  rank_rows, retrieve_approved_chunks,
}

abbrev pub Anywhere : Session → Type 0
Anywhere s = Unit

started : (day : ℕ) (o : Option ℕ) → starts_by day o ≡ true → Holds (λ first. first ≤ day) o
started day none h = tt
started day (some first) h = ground (arith, h)

not_over : (day : ℕ) (o : Option ℕ) → ends_after day o ≡ true → Holds (λ over. day < over) o
not_over day none h = tt
not_over day (some over) h = ground (arith, h)

-- the four tests of the query
tests :
    (t day : ℕ) (d : Document)
    → is_retrievable t day d ≡ true
    → (d.tenant_id ≡ t)
      × (d.is_approved ≡ true)
      × (starts_by day d.effective_from ≡ true)
      × (ends_after day d.effective_to ≡ true)
unfolding is_retrievable
tests t day d h = ground (arith, h)

module _ (t day : ℕ) (db : Db) where
  -- the document with this id is there, of the tenant, approved and in force on the day
  abbrev pub IsSource : ℕ → Type 0
  IsSource k =
      (d : Document) × (get db.documents k ≡ some d)
      × (d.tenant_id ≡ t)
      × (d.is_approved ≡ true)
      × Holds (λ first. first ≤ day) d.effective_from
      × Holds (λ over. day < over) d.effective_to

  abbrev IsFound : Scored → Type 0
  IsFound r = IsSource r.chunk.document_id

  abbrev pub IsSourced : RetrievedChunk → Type 0
  IsSourced c = IsSource c.document_id

  source_of-found :
      (c : DocChunk) (d : Document) → source_of t day db c ≡ some d → IsSource c.document_id
  source_of-found c d found = elim (Option-cases (get db.documents c.document_id)) [
    | inl absent ↦ ground (arith, absent, found)
    | inr (e, there) ↦
        let (ours, approved, from, to) = tests t day e (ground (arith, there, found)) in
        (
          e,
          there,
          ours,
          approved,
          started day e.effective_from from,
          not_over day e.effective_to to,
        )
  ]

  scored-IsFound :
      (w : World) (query : String) (v : List ℕ) (cs : List DocChunk)
      → All IsFound (scored w t day db query v cs)
  unfolding scored
  scored-IsFound w query v [] = tt
  scored-IsFound w query v (c ∷ cs) = elim (Option-cases (source_of t day db c)) [
    | inl absent ↦ rw (absent, add_scored) (scored-IsFound w query v cs)
    | inr (d, found) ↦
        rw (found, add_scored) (source_of-found c d found, scored-IsFound w query v cs)
  ]

  limited-IsFound :
      (w : World) (query : String) (v : List ℕ) (limit : ℕ)
      → All IsFound (limited_rows w t day db query v limit)
  limited-IsFound w query v limit =
      All-take IsFound (max 20 (limit * 4)) _
        (All-sort_by IsFound by_hybrid _ (scored-IsFound w query v db.doc_chunks))

  map-IsSourced :
      (f : Scored → RetrievedChunk) (rs : List Scored)
      → ((r : Scored) → (f r).document_id ≡ r.chunk.document_id)
      → All IsFound rs
      → All IsSourced (map f rs)
  map-IsSourced f [] same h = tt
  map-IsSourced f (r ∷ rs) same h = (rw (same r) h.0, map-IsSourced f rs same h.1)

  ranked-IsSourced :
      (w : World) (query provider reranker : String) (rs : List Scored) (xs : List ℕ)
      → All IsFound rs
      → All IsSourced (ranked w query provider reranker rs xs)
  unfolding ranked retrieved_chunk
  ranked-IsSourced w query provider reranker [] xs h = tt
  ranked-IsSourced w query provider reranker (r ∷ rs) [] h = tt
  ranked-IsSourced w query provider reranker (r ∷ rs) (x ∷ xs) h =
      (h.0, ranked-IsSourced w query provider reranker rs xs h.1)

  candidates-IsSourced :
      (w : World) (query provider : String) (rs : List Scored) (o : Option (List ℕ × String))
      → All IsFound rs
      → All IsSourced (candidates w query provider rs o)
  unfolding retrieved_chunk
  candidates-IsSourced w query provider rs none h = map-IsSourced _ rs (λ r. refl) h
  candidates-IsSourced w query provider rs (some (xs, reranker)) h =
      ranked-IsSourced w query provider reranker rs xs h

  -- the state has this database, on this day
  pub record IsOn (s : Session) : Type 0 where
    pub same_db : s.db ≡ db
    pub same_day : current_date s ≡ day

  abbrev pub Good : ℕ → List RetrievedChunk → Type 0
  Good limit chunks = All IsSourced chunks × (length chunks ≤ limit)

  embed-IsOn : (values : List String) (g : KnowledgeSettings) → Keeps IsOn (embed_texts values g)
  unfolding embed_texts
  embed-IsOn values g = record {
    at = λ s h. elim (Bool-cases g.rag_encoder_is_remote) [
      | inl remote ↦ rw remote (record { same_db = h.same_db; same_day = h.same_day })
      | inr local ↦ rw local h
    ];
  }

  literal-IsOn : (v : List ℕ) → Keeps IsOn (vector_literal v)
  unfolding vector_literal
  literal-IsOn v = record {
    at = λ s h. elim (Bool-cases (is_full v)) [ inl full ↦ rw full h | inr short ↦ rw short h ];
  }

  rows-Leads :
      (w : World) (query : String) (v : List ℕ) (limit : ℕ)
      → Leads IsOn
          (gets (λ s. limited_rows w t (current_date s) s.db query v limit))
          (λ rows s. All IsFound rows)
          Anywhere
  rows-Leads w query v limit = record {
    at = λ s h. rw (h.same_db, h.same_day) (limited-IsFound w query v limit);
  }

  rerank-Ends :
      {A : Type 0} (query : String) (values : List String) (g : KnowledgeSettings) (s : Session)
      → A
      → Ends (λ o s. A) Anywhere (rerank_texts query values g s)
  unfolding rerank_texts
  rerank-Ends query values g s h = ground arith

  abbrev pub LeadsGood : ℕ → (Session → Type 0) → Exec (List RetrievedChunk) → Type 0
  LeadsGood limit P m = Leads P m (λ chunks s. Good limit chunks) Anywhere

  rank-Leads :
      (w : World) (query provider : String) (limit : ℕ) (g : KnowledgeSettings) (rows : List Scored)
      → LeadsGood limit (λ s. All IsFound rows) (rank_rows w query provider limit g rows)
  rank-Leads w query provider limit g rows =
      Leads-bind (rerank_texts query (map scored_text rows) g) _
        (record { at = λ s h. rerank-Ends query (map scored_text rows) g s h })
        (λ o. record {
          at = λ s h. (
            All-take IsSourced limit _
                (All-sort_by IsSourced by_score _ (candidates-IsSourced w query provider rows o h)),
            length-take limit _,
          );
        })

  through :
      {A : Type 0} (limit : ℕ) (m : Exec A) (f : A → Exec (List RetrievedChunk))
      → Keeps IsOn m
      → ((a : A) → LeadsGood limit IsOn (f a))
      → LeadsGood limit IsOn (m >>= f)
  through limit m f km kf = Leads-bind m f (Leads-Keeps m (λ s h. h) (λ s h. tt) km) kf

  through_rows :
      (limit : ℕ) (w : World) (query : String) (v : List ℕ)
      (f : List Scored → Exec (List RetrievedChunk))
      → ((rows : List Scored) → LeadsGood limit (λ s. All IsFound rows) (f rows))
      → LeadsGood limit IsOn
          (gets (λ s. limited_rows w t (current_date s) s.db query v limit) >>= f)
  through_rows limit w query v f kf = Leads-bind _ f (rows-Leads w query v limit) kf

  pub retrieve-Leads :
      (query : String) (limit : ℕ) (g : KnowledgeSettings)
      → LeadsGood limit IsOn (retrieve_approved_chunks t query limit g)
  unfolding retrieve_approved_chunks
  retrieve-Leads query limit g =
      search (through, keeps_free_rules, embed-IsOn, literal-IsOn, through_rows, rank-Leads) depth
        20

module _ {A : Type 0} (Q : A → Type 0) where
  pub ends_ok :
      (x : Result A × Session) (a : A) → Ends (λ b s. Q b) (λ s. Unit) x → x.0 ≡ ok a → Q a
  ends_ok (ok b, s) a h e = subst Q (ok-injective b a e) h
  ends_ok (err x, s) a h e = cc

-- Whatever the encoder and the reranker answer: every section that is retrieved belongs to a
-- document of the tenant that is approved and in force on the day, and there are at most as many
-- as asked for.
pub retrieve-IsSourced :
    (t : ℕ) (query : String) (limit : ℕ) (g : KnowledgeSettings) (s : Session)
    (chunks : List RetrievedChunk)
    → (retrieve_approved_chunks t query limit g s).0 ≡ ok chunks
    → All (IsSourced t (current_date s) s.db) chunks × (length chunks ≤ limit)
retrieve-IsSourced t query limit g s chunks done =
    ends_ok (Good t (current_date s) s.db limit) (retrieve_approved_chunks t query limit g s) chunks
      ((retrieve-Leads t (current_date s) s.db query limit g).at s
        (record { same_db = refl; same_day = refl }))
      done
