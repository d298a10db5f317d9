-- ===== src/Knowledge/Generation.antt =====
-- rag/service.py: `GroundedTemplateProvider` and `generate_grounded_reply`.
use Prim.Native.String.{◌++◌}
use text.Mathlib.Text.{◌==◌ as str_eq}
use sawtai.Prelude.{
  ℕ, ◌+◌, ◌/◌, String, Bool, ◌&&◌, Option, none, some, List, [], ◌∷◌, any, length, is_some, ltb,
  ◌==◌, if◌then◌else◌,
}
use sawtai.Table.{get, put}
use sawtai.Text
use sawtai.Text.{strip, unfold_lines}
use sawtai.Schema.{Reply, draft, Citation, InferenceRun}
use sawtai.Session.{World, Exec, ok, err, integrity_error, ◌>>=◌, ◌>>◌, pure, gets, uuid4, sql_now}
use sawtai.Knowledge.Encoding.{KnowledgeSettings}
use sawtai.Knowledge.Retrieval.{RetrievedChunk, retrieve_approved_chunks, min, max}

-- the four INJECTION_PATTERNS
unfoldable pub has_prompt_injection : World → String → Bool
has_prompt_injection w value = any (λ n. w.engine.pattern_search n value) (0 ∷ 1 ∷ 2 ∷ 3 ∷ [])

-- `GroundedTemplateProvider.generate`
unfoldable pub generate : World → String → String → String
generate w language context =
    let excerpt = Text.take 380 (unfold_lines (strip w.is_space context)) in
    if str_eq language "en"
    then "Thank you for contacting us. According to the approved service information: “"
      ++ (excerpt
          ++ "” If you need help with a specific request, please provide its reference number.")
    else "\u{646}\u{634}\u{643}\u{631}\u{643}\u{645} \u{639}\u{644}\u{649} \u{62a}\u{648}\u{627}\u{635}\u{644}\u{643}\u{645} \u{645}\u{639}\u{646}\u{627}. \u{648}\u{641}\u{642}\u{627}ً \u{644}\u{645}\u{639}\u{644}\u{648}\u{645}\u{627}\u{62a} \u{627}\u{644}\u{62e}\u{62f}\u{645}\u{629} \u{627}\u{644}\u{645}\u{639}\u{62a}\u{645}\u{62f}\u{629}: «"
      ++ (excerpt
          ++ "». \u{625}\u{630}\u{627} \u{643}\u{646}\u{62a}\u{645} \u{628}\u{62d}\u{627}\u{62c}\u{629} \u{625}\u{644}\u{649} \u{645}\u{62a}\u{627}\u{628}\u{639}\u{629} \u{637}\u{644}\u{628} \u{645}\u{62d}\u{62f}\u{62f}، \u{64a}\u{631}\u{62c}\u{649} \u{62a}\u{632}\u{648}\u{64a}\u{62f}\u{646}\u{627} \u{628}\u{631}\u{642}\u{645} \u{627}\u{644}\u{645}\u{631}\u{62c}\u{639}.")

-- the message that is answered: its key and text
pub record Question : Type 0 where
  pub tenant_id : ℕ
  pub message_id : ℕ
  pub occurred_at : ℕ
  pub citizen_text : String
  pub language : String

pub record GeneratedReply : Type 0 where
  pub response_id : ℕ
  pub inference_run_id : ℕ
  pub body : String
  pub grounding_score : ℕ
  pub abstained : Bool
  pub abstain_reason : Option String
  pub policy_flags : List String
  pub citations : List RetrievedChunk

-- what is decided before anything is written
pub record Decision : Type 0 where
  pub flags : List String
  pub reason : Option String
  pub body : String
  pub citations : List RetrievedChunk
  pub grounding_score : ℕ

abbrev pub abstention : List String → String → Decision
abstention flags reason = record {
  flags = flags;
  reason = some reason;
  body = "";
  citations = [];
  grounding_score = 0;
}

-- the answer from one section, whose score has passed the gate
abbrev pub answer_from : World → String → RetrievedChunk → Decision
answer_from w language c = record {
  flags = [];
  reason = none;
  body = generate w language c.text;
  citations = c ∷ [];
  grounding_score = min 99000 (max 60000 (c.score + 55000));
}

abbrev pub decide_by_score : World → String → ℕ → List RetrievedChunk → Decision
decide_by_score w language gate [] = abstention [] "no_supporting_source"
decide_by_score w language gate (c ∷ cs) =
    if ltb c.score gate then abstention [] "no_supporting_source" else answer_from w language c

unfoldable pub decide : World → Question → ℕ → List RetrievedChunk → Decision
decide w q gate chunks =
    if has_prompt_injection w q.citizen_text
    then abstention ("prompt_injection" ∷ []) "prompt_injection_detected"
    else decide_by_score w q.language gate chunks

abbrev pub run_of : Question → ℕ → Decision → ℕ → InferenceRun
run_of q inference_run_id d at = record {
  inference_run_id = inference_run_id;
  tenant_id = q.tenant_id;
  task = "whatsapp_reply";
  model_name = "grounded-template";
  model_version = "v1";
  message_id = q.message_id;
  occurred_at = q.occurred_at;
  status = if is_some d.reason then "abstained" else "ok";
  error_code = d.reason;
  created_at = at;
}

-- INSERT INTO core.responses; the score in thousandths
abbrev pub draft_row : Question → ℕ → Decision → ℕ → Reply
draft_row q inference_run_id d at = record {
  tenant_id = q.tenant_id;
  case_id = none;
  body = d.body;
  status = draft;
  grounding_score = some (d.grounding_score / 100);
  policy_flags = ltb 0 (length d.flags);
  abstained = is_some d.reason;
  created_by = none;
  edited_by = none;
  edit_distance = none;
  submitted_at = none;
  approved_by = none;
  approved_at = none;
  published_at = none;
  published_ref = none;
  created_at = at;
  inference_run_id = some inference_run_id;
  abstain_reason = d.reason;
}

abbrev pub citation_of : ℕ → Decision → RetrievedChunk → Citation
citation_of response_id d c = record {
  response_id = response_id;
  seq = 1;
  claim_text = d.body;
  chunk_id = c.chunk_id;
  document_id = c.document_id;
  quoted_text = c.text;
  start_char = 0;
  end_char = Text.length c.text;
  entailment = d.grounding_score;
}

abbrev pub same_run : ℕ → InferenceRun → Bool
same_run inference_run_id r = r.inference_run_id == inference_run_id

-- INSERT INTO core.ai_inference_log, under its PRIMARY KEY
unfoldable pub insert_run : InferenceRun → Exec (Unit {0})
insert_run r s =
    if any (same_run r.inference_run_id) s.db.ai_inference_log
    then (err integrity_error, s)
    else (ok tt, record s { db = record s.db { ai_inference_log = r ∷ s.db.ai_inference_log } })

-- INSERT INTO core.responses, under its PRIMARY KEY
unfoldable pub insert_reply : ℕ → Reply → Exec (Unit {0})
insert_reply response_id r s =
    if is_some (get s.db.responses response_id)
    then (err integrity_error, s)
    else (ok tt, record s { db = record s.db { responses = put s.db.responses response_id r } })

abbrev pub same_citation : Citation → Citation → Bool
same_citation c d = d.response_id == c.response_id && d.seq == c.seq

-- INSERT INTO core.response_citations, under its PRIMARY KEY
unfoldable pub insert_citation : Citation → Exec (Unit {0})
insert_citation c s =
    if any (same_citation c) s.db.response_citations
    then (err integrity_error, s)
    else (ok tt, record s { db = record s.db { response_citations = c ∷ s.db.response_citations } })

-- `if citations:`
abbrev pub cite : ℕ → Decision → List RetrievedChunk → Exec (Unit {0})
cite response_id d [] = pure tt
cite response_id d (c ∷ cs) = insert_citation (citation_of response_id d c)

abbrev pub record_reply : Question → ℕ → ℕ → Decision → Exec (Unit {0})
record_reply q inference_run_id response_id d = do
  at ← sql_now
  insert_run (run_of q inference_run_id d at)
  insert_reply response_id (draft_row q inference_run_id d at)
  cite response_id d d.citations

abbrev pub reply_of : ℕ → ℕ → Decision → GeneratedReply
reply_of inference_run_id response_id d = record {
  response_id = response_id;
  inference_run_id = inference_run_id;
  body = d.body;
  grounding_score = d.grounding_score;
  abstained = is_some d.reason;
  abstain_reason = d.reason;
  policy_flags = d.flags;
  citations = d.citations;
}

-- the retrieval, the decision and the rows, under the ids that were drawn
abbrev pub answer : World → Question → ℕ → KnowledgeSettings → ℕ → ℕ → Exec GeneratedReply
answer w q retrieval_gate settings inference_run_id response_id = do
  chunks ← retrieve_approved_chunks q.tenant_id q.citizen_text 5 settings
  let d = decide w q retrieval_gate chunks
  record_reply q inference_run_id response_id d
  pure (reply_of inference_run_id response_id d)

-- under the ids of the run, the retrieval and the reply
abbrev pub draw_and_answer : World → Question → ℕ → KnowledgeSettings → Exec GeneratedReply
draw_and_answer w q retrieval_gate settings = do
  inference_run_id ← uuid4
  retrieval_run_id ← uuid4
  response_id ← uuid4
  answer w q retrieval_gate settings inference_run_id response_id

unfoldable pub generate_grounded_reply : Question → ℕ → KnowledgeSettings → Exec GeneratedReply
generate_grounded_reply q retrieval_gate settings = do
  w ← gets (λ s. s.world)
  draw_and_answer w q retrieval_gate settings
