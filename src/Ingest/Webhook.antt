-- ===== src/Ingest/Webhook.antt =====
-- channels/models.py, channels/security.py and the webhook of channels/routes.py: a signed body is
-- read, its messages are stored, and a job is queued for each of them and for each delivery status.
use Prim.Native.String.{String, ◌++◌}
use text.Mathlib.Text.{◌==◌ as str_eq}
use sawtai.Prelude.{
  ℕ, ◌-◌, Bool, not, ◌&&◌, ◌||◌, Option, none, some, List, [], ◌∷◌, ◌==◌, length, if◌then◌else◌,
}
use sawtai.Text.{length as text_length, is_empty, contains, before, after_first, strip}
use sawtai.Schema.{Bytes}
use sawtai.Session.{
  World, Error, Result, ok, err, Exec, http_error, ◌>>=◌, ◌>>◌, pure, require_row, raise_if, gets,
  now, commit,
}
use sawtai.Replies.Approval.{WhatsAppStatus}
use sawtai.Ingest.Messages.{InboundMessage, PersistedMessage, Channel, persist_inbound_message}

pub record WhatsAppMessage : Type 0 where
  pub message_id : String
  pub sender : String
  pub timestamp : String
  pub type : String
  -- the body of `text`
  pub text : Option String

pub record WhatsAppMetadata : Type 0 where
  pub phone_number_id : Option String

pub record WhatsAppValue : Type 0 where
  pub metadata : WhatsAppMetadata
  pub messages : List WhatsAppMessage
  pub statuses : List WhatsAppStatus

pub record WhatsAppEntry : Type 0 where
  -- the value of each change
  pub changes : List WhatsAppValue

pub record WhatsAppWebhook : Type 0 where
  pub object : String
  pub entry : List WhatsAppEntry

-- a job of the queue, which keeps one job of an id
pub data Job : Type 0 where
  -- message_id, occurred_at
  process_whatsapp_message_job : ℕ → ℕ → Job
  process_whatsapp_status_job : WhatsAppStatus → Job

-- HMAC-SHA256 of a body in hexadecimal, by its key; `int` and `fromtimestamp`, with none where they
-- raise; JSON and pydantic, with none where they refuse the body; and the job queue
pub record Wire : Type 0 where
  pub hmac_hex : String → Bytes → String
  pub from_timestamp : String → Option ℕ
  pub model_validate : Bytes → Option WhatsAppWebhook
  -- what `create_pool`, and `enqueue_job` for a job, raise: none where they return
  pub pool_error : Option Error
  pub enqueue_error : String × Job → Option Error

pub record WebhookSettings : Type 0 where
  pub whatsapp_signature_required : Bool
  pub whatsapp_app_secret : String
  pub channel : Channel

-- `a or ""`
abbrev pub or_blank : Option String → String
or_blank none = ""
or_blank (some a) = a

unfoldable pub verify_meta_signature : Wire → Bytes → Option String → String → Bool
verify_meta_signature wire body signature app_secret =
    let given = or_blank signature in
    let received = after_first 61 given in
    not (is_empty given || is_empty app_secret)
    && (not (
          not (contains "=" given)
          || (not (str_eq (before 61 given) "sha256") || not (text_length received == 64)))
        && str_eq received (wire.hmac_hex app_secret body))

-- `textual_content or ""`
abbrev pub textual_content : World → WhatsAppMessage → String
textual_content w m = if str_eq m.type "text" then strip w.is_space (or_blank m.text) else ""

abbrev pub occurred_at : Option ℕ → Exec ℕ
occurred_at (some at) = pure at
occurred_at none = now

module _ {A : Type 0} where
  abbrev pub extend : List A → List A → List A
  extend [] later = later
  extend (x ∷ xs) later = x ∷ extend xs later

abbrev pub with_metadata :
    WhatsAppMetadata → List WhatsAppMessage → List (WhatsAppMessage × WhatsAppMetadata)
with_metadata d [] = []
with_metadata d (m ∷ ms) = (m, d) ∷ with_metadata d ms

abbrev pub Events : Type 0
Events = List (WhatsAppMessage × WhatsAppMetadata) × List WhatsAppStatus

-- the events of some changes, before those of what follows
abbrev pub change_events : List WhatsAppValue → Events → Events
change_events [] later = later
change_events (v ∷ vs) later =
    let (messages, statuses) = change_events vs later in
    (extend (with_metadata v.metadata v.messages) messages, extend v.statuses statuses)

abbrev pub entry_events : List WhatsAppEntry → Events
entry_events [] = ([], [])
entry_events (e ∷ es) = change_events e.changes (entry_events es)

unfoldable pub events : WhatsAppWebhook → Events
events webhook = entry_events webhook.entry

abbrev pub inbound_of : WhatsAppMessage → WhatsAppMetadata → String → ℕ → InboundMessage
inbound_of m d content at = record {
  external_id = m.message_id;
  sender_native_id = m.sender;
  occurred_at = at;
  text = content;
  parent_external_id = none;
  phone_number_id = d.phone_number_id;
  message_type = m.type;
}

abbrev pub ingest_text :
    Wire
    → WebhookSettings
    → WhatsAppMessage
    → WhatsAppMetadata
    → String
    → Exec (Option PersistedMessage)
ingest_text wire settings m d content = do
  at ← occurred_at (wire.from_timestamp m.timestamp)
  p ← persist_inbound_message settings.channel (inbound_of m d content at)
  pure (some p)

unfoldable pub ingest_whatsapp_message :
    Wire → WebhookSettings → WhatsAppMessage → WhatsAppMetadata → Exec (Option PersistedMessage)
ingest_whatsapp_message wire settings m d = do
  content ← gets (λ s. textual_content s.world m)
  if is_empty content then pure none else ingest_text wire settings m d content

-- `if persisted is not None: persisted_messages.append(persisted)`
abbrev pub append_some : Option PersistedMessage → List PersistedMessage → List PersistedMessage
append_some none later = later
append_some (some p) later = p ∷ later

unfoldable pub ingest_all :
    Wire
    → WebhookSettings
    → List (WhatsAppMessage × WhatsAppMetadata)
    → Exec (List PersistedMessage)
ingest_all wire settings [] = pure []
ingest_all wire settings ((m, d) ∷ rest) = do
  p ← ingest_whatsapp_message wire settings m d
  later ← ingest_all wire settings rest
  pure (append_some p later)

-- `_job_id`
abbrev pub job_id : World → Job → String
job_id w (process_whatsapp_message_job message_id at) =
    "whatsapp:message:" ++ w.uuid_text message_id
job_id w (process_whatsapp_status_job e) =
    "whatsapp:status:" ++ (e.id ++ (":" ++ (e.status ++ (":" ++ e.timestamp))))

-- in the order in which they are queued
unfoldable pub jobs : World → List PersistedMessage → List WhatsAppStatus → List (String × Job)
jobs w [] [] = []
jobs w [] (e ∷ es) = let j = process_whatsapp_status_job e in (job_id w j, j) ∷ jobs w [] es
jobs w (p ∷ ps) es =
    let j = process_whatsapp_message_job p.message_id p.occurred_at in
    (job_id w j, j) ∷ jobs w ps es

-- the dictionary that is returned
pub record Accepted : Type 0 where
  pub messages : ℕ
  pub unsupported_messages : ℕ
  pub delivery_updates : ℕ

-- what happens after the commit: the jobs that the queue took, and what is returned or raised
pub record Answer : Type 0 where
  pub queued : List (String × Job)
  pub response : Result Accepted

-- one more job before those that follow, unless it is refused
abbrev pub take_job : Option Error → String × Job → Answer → Answer
take_job none j later = record later { queued = j ∷ later.queued }
take_job (some e) j later = record { queued = []; response = err e }

-- the loops over `redis.enqueue_job`, up to the first that raises
unfoldable pub enqueue_all : Wire → List (String × Job) → Accepted → Answer
enqueue_all wire [] r = record { queued = []; response = ok r }
enqueue_all wire (j ∷ js) r = take_job (wire.enqueue_error j) j (enqueue_all wire js r)

abbrev pub with_pool : Option Error → Answer → Answer
with_pool none answer = answer
with_pool (some e) answer = record { queued = []; response = err e }

abbrev pub answer : Wire → Events → List PersistedMessage → Exec Answer
answer wire (messages, statuses) persisted_messages = do
  commit
  w ← gets (λ s. s.world)
  pure (
      with_pool wire.pool_error (
        enqueue_all wire (jobs w persisted_messages statuses) (record {
          messages = length persisted_messages;
          unsupported_messages = length messages - length persisted_messages;
          delivery_updates = length statuses;
        })))

abbrev pub accept : Wire → WebhookSettings → WhatsAppWebhook → Exec Answer
accept wire settings webhook = do
  persisted_messages ← ingest_all wire settings (events webhook).0
  answer wire (events webhook) persisted_messages

-- whether the signature is looked at
abbrev pub is_checked : WebhookSettings → Option String → Bool
is_checked settings signature =
    settings.whatsapp_signature_required || not (is_empty (or_blank signature))

-- An error of the action itself is raised before the commit; what is raised after it is the response.
unfoldable pub receive_webhook : Wire → WebhookSettings → Bytes → Option String → Exec Answer
receive_webhook wire settings body signature = do
  raise_if
      (is_checked settings signature
        && not (verify_meta_signature wire body signature settings.whatsapp_app_secret))
      (http_error 401 "Invalid webhook signature")
  webhook ← require_row (wire.model_validate body) (http_error 400 "Invalid webhook payload")
  raise_if (not (str_eq webhook.object "whatsapp_business_account"))
      (http_error 400 "Unsupported webhook object")
  accept wire settings webhook
