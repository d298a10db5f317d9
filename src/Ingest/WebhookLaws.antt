-- ===== src/Ingest/WebhookLaws.antt =====
-- What a webhook commits, queues and answers (channels/routes.py).
use sawtai.Prelude.{map, ◌++◌, ◌+◌, ◌≡◌, String, true, not, ◌||◌, Option, some, List, length}
use text.Mathlib.Text.{◌==◌ as str_eq}
use sawtai.Schema.{Bytes, Db}
use sawtai.Session.{Session, Result, ok, err}
use sawtai.Session.Halves.{Ends}
use sawtai.Replies.Approval.{WhatsAppStatus}
use sawtai.Ingest.Messages.{PersistedMessage}
use sawtai.Ingest.Webhook.{
  Job, process_whatsapp_message_job, process_whatsapp_status_job, Answer, WhatsAppWebhook, Wire,
  WebhookSettings, verify_meta_signature, events, ingest_all, Accepted, is_checked,
}
use sawtai.Ingest.Uncommitted.{Uncommitted}

-- the job of a stored message, and the jobs that are due: messages first, in order
abbrev pub message_job : PersistedMessage → Job
message_job p = process_whatsapp_message_job p.message_id p.occurred_at

abbrev pub due : List PersistedMessage → List WhatsAppStatus → List Job
due ps es = map message_job ps ++ map process_whatsapp_status_job es

abbrev pub jobs_only : List (String × Job) → List Job
jobs_only js = map (λ (j : String × Job). j.1) js

-- the counts of the answer
pub record IsTally (hook : WhatsAppWebhook) (ps : List PersistedMessage) (r : Accepted)
    : Type 0 where
  pub stored : r.messages ≡ length ps
  pub all_messages : r.messages + r.unsupported_messages ≡ length (events hook).0
  pub all_statuses : r.delivery_updates ≡ length (events hook).1

-- Which of the jobs the queue took: all if the answer is returned, and those before the first that
-- failed if an error is raised.
abbrev pub IsQueued : (Accepted → Type 0) → List Job → List Job → Result Accepted → Type 0
IsQueued P js taken (ok r) = (taken ≡ js) × P r
IsQueued P js taken (err e) = (rest : List Job) × (taken ++ rest ≡ js)

abbrev Handed : (Accepted → Type 0) → List Job → Answer → Type 0
Handed P js a = IsQueued P js (jobs_only a.queued) a.response

-- the body is a webhook of WhatsApp, signed where a signature is looked at; `ps` are its messages
-- that were stored; the queue took the jobs that are due, and the answer counts everything
pub record IsAnswered (wire : Wire) (settings : WebhookSettings) (body : Bytes)
    (signature : Option String) (s : Session) (a : Answer) : Type 0 where
  pub hook : WhatsAppWebhook
  pub read : wire.model_validate body ≡ some hook
  pub whatsapp : str_eq hook.object "whatsapp_business_account" ≡ true
  pub signed :
      (not (is_checked settings signature)
        || verify_meta_signature wire body signature settings.whatsapp_app_secret)
      ≡ true
  pub ps : List PersistedMessage
  pub persisted : (ingest_all wire settings (events hook).0 s).0 ≡ ok ps
  pub handed :
      IsQueued
        (IsTally hook ps)
        (due ps (events hook).1)
        (map (λ (j : String × Job). j.1) a.queued)
        a.response

-- what follows the loop over the messages
abbrev Follows :
    Db → WhatsAppWebhook → Result (List PersistedMessage) → Result Answer × Session → Type 0
Follows x hook stored o =
    Ends
      (λ a s.
        ((ps : List PersistedMessage) × (stored ≡ ok ps)
          × Handed (IsTally hook ps) (due ps (events hook).1) a)
        × (s.saved ≡ s.db))
      (λ s. s.saved ≡ x) o
