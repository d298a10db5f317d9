-- ===== src/Knowledge/Feeding.antt =====
-- Changes of chunks that leave the documents vetted.
use sawtai.Prelude.{
  ℕ, ◌≡◌, ◌≢◌, inl, inr, refl, sym, Bool, true, false, not, Option, none, some, List, [], ◌∷◌, map,
  length, Holds, arith, ◌==◌, ==_iff, Bool-cases,
}
use sawtai.Prelude.Sorting.{filter}
use sawtai.Table.{get}
use sawtai.Schema.{Document, DocChunk, Db}
use sawtai.Knowledge.Rows.{chunks_of, is_owned, delete_chunks}
use sawtai.Knowledge.Vetting.{IsVettedDocument, IsVetted, IsGuarded, IsVettedDocument-draft}

abbrev pub with_chunks : List DocChunk → Db → Db
with_chunks cs db = record db { doc_chunks = cs }

-- no document without chunks in `cs` that has some in `db`
abbrev pub IsFed : ℕ → Db → List DocChunk → Type 0
IsFed j db cs = length (chunks_of j db) ≢ 0 → length (chunks_of j (with_chunks cs db)) ≢ 0

IsVettedDocument-chunks :
    (db : Db) (cs : List DocChunk) (j : ℕ) (o : Option Document)
    → IsFed j db cs
    → Holds (IsVettedDocument db j) o
    → Holds (IsVettedDocument (with_chunks cs db) j) o
IsVettedDocument-chunks db cs j none fed h = tt
IsVettedDocument-chunks db cs j (some d) fed (inl draft) = inl draft
IsVettedDocument-chunks db cs j (some d) fed (inr (u, by, other, there)) =
    inr (u, by, other, fed there)

pub IsVetted-chunks :
    (db : Db) (cs : List DocChunk)
    → ((j : ℕ) → IsFed j db cs)
    → IsVetted db
    → IsVetted (with_chunks cs db)
IsVetted-chunks db cs fed h = record {
  at = λ j. IsVettedDocument-chunks db cs j (get db.documents j) (fed j) (h.at j);
}

pub IsGuarded-chunks :
    (k : ℕ) (db : Db) (cs : List DocChunk)
    → ((j : ℕ) → (k == j) ≡ false → IsFed j db cs)
    → IsGuarded k db
    → IsGuarded k (with_chunks cs db)
IsGuarded-chunks k db cs fed h = record {
  vetted = record {
    at = λ j. elim (Bool-cases (k == j)) [
      | inl same ↦
          IsVettedDocument-draft (with_chunks cs db) j (get db.documents j)
            (rw (sym ((==_iff k j).0 same)) h.guarded)
      | inr other ↦
          IsVettedDocument-chunks db cs j (get db.documents j) (fed j other) (h.vetted.at j)
    ];
  };
  guarded = h.guarded;
}

-- a deletion leaves the chunks of other documents
filter-kept :
    (p : DocChunk → Bool) (j : ℕ) (cs : List DocChunk)
    → ((c : DocChunk) → (c.document_id == j) ≡ true → p c ≡ true)
    → filter (λ (c : DocChunk). c.document_id == j) (filter p cs)
      ≡ filter (λ (c : DocChunk). c.document_id == j) cs
unfolding filter
filter-kept p j [] kept = refl
filter-kept p j (c ∷ cs) kept = elim (Bool-cases (c.document_id == j)) [
  | inl mine ↦ rw (kept c mine, mine, filter-kept p j cs kept) refl
  | inr other ↦ elim (Bool-cases (p c)) [
    | inl stays ↦ rw (stays, other) (filter-kept p j cs kept)
    | inr goes ↦ rw (goes, other) (filter-kept p j cs kept)
  ]
]

pub IsGuarded-delete : (t k : ℕ) (db : Db) → IsGuarded k db → IsGuarded k (delete_chunks t k db)
IsGuarded-delete t k db h =
    IsGuarded-chunks k db _
      (λ j other there.
        rw
          (filter-kept (λ c. not (is_owned t k c)) j db.doc_chunks
            (λ c mine. ground (arith, other, mine)))
          there)
      h

IsFed-cons : (j : ℕ) (db : Db) (c : DocChunk) → IsFed j db (c ∷ db.doc_chunks)
unfolding filter
IsFed-cons j db c there = elim (Bool-cases (c.document_id == j)) [
  | inl mine ↦ rw mine (omega arith)
  | inr other ↦ rw other there
]

pub IsGuarded-insert_chunk :
    (k : ℕ) (db : Db) (c : DocChunk)
    → IsGuarded k db
    → IsGuarded k (with_chunks (c ∷ db.doc_chunks) db)
IsGuarded-insert_chunk k db c h = IsGuarded-chunks k db _ (λ j other. IsFed-cons j db c) h

-- a change of chunks that leaves their documents
pub length-chunks_map :
    (f : DocChunk → DocChunk) (j : ℕ) (cs : List DocChunk)
    → ((c : DocChunk) → (f c).document_id ≡ c.document_id)
    → length (filter (λ (c : DocChunk). c.document_id == j) (map f cs))
      ≡ length (filter (λ (c : DocChunk). c.document_id == j) cs)
unfolding filter
length-chunks_map f j [] same = refl
length-chunks_map f j (c ∷ cs) same = elim (Bool-cases (c.document_id == j)) [
  | inl mine ↦ rw (same c, mine, length-chunks_map f j cs same) refl
  | inr other ↦ rw (same c, other) (length-chunks_map f j cs same)
]
