-- ===== src/Knowledge/Answers.antt =====
-- What a generated reply rests on, and what of it is stored.
use Prim.Native.String.{String, ◌++◌}
use text.Mathlib.Text.{◌==◌ as str_eq}
use sawtai.Text.{take, strip, unfold_lines}
use sawtai.Prelude.{ℕ, ◌≤◌, ◌≡◌, Bool, true, false, ◌⊎◌, some, List, [], ◌∷◌, is_some}
use sawtai.Table.{get}
use sawtai.Schema.{Db, Reply, draft}
use sawtai.Session.{World, Session}
use sawtai.Replies.Drafts.{is_blocked}
use sawtai.Knowledge.Encoding.{KnowledgeSettings}
use sawtai.Knowledge.Retrieval.{RetrievedChunk}
use sawtai.Knowledge.Generation.{Question, GeneratedReply, Decision, draft_row}
use sawtai.Knowledge.Sources.{IsSourced, IsOn}

-- the text has the first 380 characters of the section, stripped and on one line
abbrev pub IsQuoted : World → String → String → Type 0
IsQuoted w section body =
    (opening : String) × (closing : String) × (body
      ≡ opening ++ (take 380 (unfold_lines (strip w.is_space section)) ++ closing))

module _ (t day : ℕ) (db : Db) (gate : ℕ) where
  -- nothing is said, or one section is quoted that may be and whose score passes the gate
  abbrev pub IsFounded : World → Bool → String → List RetrievedChunk → Type 0
  IsFounded w abstained body citations =
      ((abstained ≡ true) × (body ≡ "") × (citations ≡ []))
      ⊎ ((abstained ≡ false)
          × (c : RetrievedChunk) × (citations ≡ c ∷ [])
          × (gate ≤ c.score)
          × IsSourced t day db c
          × IsQuoted w c.text body)

  abbrev IsSound : World → Question → Decision → Type 0
  IsSound w q d =
      IsFounded w (is_some d.reason) d.body d.citations
      × ((i at : ℕ) → is_blocked (draft_row q i d at) ≡ is_some d.reason)

-- the draft of a decision is stored under this id
abbrev HasDraft : Question → ℕ → ℕ → Decision → Session → Type 0
HasDraft q i k d s = (at : ℕ) × (get s.db.responses k ≡ some (draft_row q i d at))

-- the draft that a reply leaves: with its text, and kept from approval exactly if it abstains
abbrev pub IsStored : GeneratedReply → Session → Type 0
IsStored r s =
    (row : Reply) × (get s.db.responses r.response_id ≡ some row)
    × (row.status ≡ draft)
    × (row.body ≡ r.body)
    × (is_blocked row ≡ r.abstained)

module _ (w : World) (day : ℕ) (db : Db) (gate : ℕ) (q : Question) (g : KnowledgeSettings) where
  abbrev IsAnswered : GeneratedReply → Session → Type 0
  IsAnswered r s = IsFounded q.tenant_id day db gate w r.abstained r.body r.citations × IsStored r s

  abbrev On : Session → Type 0
  On = IsOn q.tenant_id day db
