-- ===== src/Replies/Linking.antt =====
-- The SELECT of `approve_and_deliver_reply`: a reply with its message and the citizen's number.
use sawtai.Prelude.{ℕ, String, Bool, ◌&&◌, Option, none, some, List, [], ◌∷◌, ◌==◌, if◌then◌else◌}
use sawtai.Schema.{Db, InferenceRun, Message, VaultEntry, Reply}
use sawtai.Session.{Session}
use sawtai.Ingest.Messages.{find_message, is_author}
use sawtai.Replies.Drafts.{find_reply}

-- what the SELECT of an approval joins a reply with
pub record Linked : Type 0 where
  -- of the message that the reply answers
  pub external_id : String
  -- `native_id_enc`, decrypted
  pub recipient : String

unfoldable pub find_run : ℕ → List InferenceRun → Option InferenceRun
find_run k [] = none
find_run k (i ∷ rest) =
    let later = find_run k rest in if i.inference_run_id == k then some i else later

-- the message of a run
abbrev pub is_input : InferenceRun → Message → Bool
is_input i m = m.message_id == i.message_id && m.occurred_at == i.occurred_at

unfoldable pub find_author : String → List VaultEntry → Option VaultEntry
find_author p [] = none
find_author p (v ∷ rest) = let later = find_author p rest in if is_author p v then some v else later

abbrev pub with_author : Message → Option VaultEntry → Option Linked
with_author m none = none
with_author m (some v) = some (record { external_id = m.external_id; recipient = v.native_id })

abbrev pub with_message : List VaultEntry → Option Message → Option Linked
with_message vault none = none
with_message vault (some m) = with_author m (find_author m.author_pseudonym vault)

abbrev pub with_run : List Message → List VaultEntry → Option InferenceRun → Option Linked
with_run messages vault none = none
with_run messages vault (some i) = with_message vault (find_message (is_input i) messages)

unfoldable pub link_of :
    List InferenceRun → List Message → List VaultEntry → Option ℕ → Option Linked
link_of runs messages vault none = none
link_of runs messages vault (some k) = with_run messages vault (find_run k runs)

abbrev pub find_link : Db → Reply → Option Linked
find_link db r = link_of db.ai_inference_log db.messages db.pii_vault r.inference_run_id

abbrev pub with_link : Reply → Option Linked → Option (Reply × Linked)
with_link r none = none
with_link r (some l) = some (r, l)

abbrev pub join_link : Db → Option Reply → Option (Reply × Linked)
join_link db none = none
join_link db (some r) = with_link r (find_link db r)

-- SELECT ... FROM core.responses JOIN core.ai_inference_log JOIN core.messages JOIN
-- restricted.pii_vault WHERE response_id = :response_id AND tenant_id = :tenant_id FOR UPDATE OF r
abbrev pub find_deliverable : ℕ → ℕ → Session → Option (Reply × Linked)
find_deliverable tenant_id response_id s = join_link s.db (find_reply tenant_id response_id s)
