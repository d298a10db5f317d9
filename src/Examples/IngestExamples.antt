-- ===== src/Examples/IngestExamples.antt =====
-- The theorems on inbound messages.
use Prim.Native.String.{String, ◌++◌}
use sawtai.Text.{contains, before, after_first, length as text_length, strip}
use sawtai.Prelude.{length, ℕ, Option, ◌≡◌, refl, true, false, some, none, [], ◌∷◌}
use sawtai.Schema.{Source, Message}
use sawtai.Session.{Session, Result, ok, err}
use sawtai.Ingest.Simhash.{simhash64}
use sawtai.Ingest.SimhashLaws.{IsInt64, simhash64-IsInt64}
use sawtai.Ingest.Messages.{
  InboundMessage, PersistedMessage, Channel, find_source, newest_message, is_external,
  insert_message, persisted, new_message, persist_inbound_message, find_message,
}
use sawtai.Ingest.MessageLaws.{from_other, persist_idem, same_text_lost}
use sawtai.Ingest.Webhook.{
  WhatsAppWebhook, Wire, WebhookSettings, Answer, enqueue_all, jobs, verify_meta_signature, events,
  ingest_all, ingest_whatsapp_message, receive_webhook,
}
use sawtai.Examples.Fixtures.{a_world, a_case, a_reply, db_with, session_with, a_session}

simhash64-IsInt64_example : IsInt64 (simhash64 a_world "water")
simhash64-IsInt64_example = simhash64-IsInt64 a_world "water"

abbrev whatsapp : Channel
whatsapp = record {
  tenant_code = "shj-demo";
  source_handle = "demo-whatsapp";
  tenant_pepper = "pepper";
}

abbrev a_message : InboundMessage
a_message = record {
  external_id = "wamid.1";
  sender_native_id = "971500000001";
  occurred_at = 900;
  text = "No water";
  parent_external_id = none;
  phone_number_id = none;
  message_type = "text";
}

abbrev a_source : Source
a_source = record {
  source_id = 50;
  tenant_id = 1;
  channel_id = 60;
  channel_code = "whatsapp";
  handle = "demo-whatsapp";
  is_enabled = true;
}

abbrev stored_message : Message
stored_message = new_message a_world whatsapp a_message a_source 100 900

abbrev first_answer : PersistedMessage
first_answer = persisted a_source stored_message false

stored_first : (persist_inbound_message whatsapp a_message a_session).0 ≡ ok first_answer
unfolding persist_inbound_message find_source newest_message find_message insert_message
stored_first = refl

persist_idem_example :
    persist_inbound_message whatsapp a_message
      (persist_inbound_message whatsapp a_message a_session).1
    ≡ (
      ok (record first_answer { duplicate = true }),
      (persist_inbound_message whatsapp a_message a_session).1,
    )
persist_idem_example = persist_idem whatsapp a_message a_session first_answer stored_first refl

-- the message is stored, and another citizen writes the same in the same second
abbrev busy_session : Session
busy_session =
    session_with a_world (record (db_with a_case a_reply) { messages = stored_message ∷ [] })

known : find_source whatsapp busy_session.db.tenants busy_session.db.sources ≡ some a_source
unfolding find_source
known = refl

unseen : newest_message (is_external a_source "wamid.2") busy_session.db.messages ≡ none
unfolding newest_message
unseen = refl

same_text_lost_example :
    persist_inbound_message whatsapp (from_other a_message "wamid.2" "971500000002") busy_session
    ≡ (ok (persisted a_source stored_message true), record busy_session { reads = 1; drawn = 1 })
same_text_lost_example =
    same_text_lost whatsapp a_message a_source 100 "wamid.2" "971500000002" [] busy_session known
      refl unseen refl

-- a body with one text, one picture and one status, signed
abbrev a_webhook : WhatsAppWebhook
a_webhook = record {
  object = "whatsapp_business_account";
  entry =
      record {
        changes =
            record {
              metadata = record { phone_number_id = some "111" };
              messages =
                  record {
                    message_id = "wamid.1";
                    sender = "971500000001";
                    timestamp = "900";
                    type = "text";
                    text = some "No water";
                  }
                  ∷ record {
                    message_id = "wamid.3";
                    sender = "971500000001";
                    timestamp = "901";
                    type = "image";
                    text = none;
                  }
                  ∷ [];
              statuses =
                  record { id = "wamid.0"; status = "read"; timestamp = "902"; error_count = 0 }
                  ∷ [];
            }
            ∷ [];
      }
      ∷ [];
}

-- 64 characters
abbrev a_digest : String
a_digest = "0123456789abcdef0123456789abcdef0123456789abcdef0123456789abcdef"

abbrev a_wire : Wire
a_wire = record {
  hmac_hex = λ key body. a_digest;
  from_timestamp = λ t. some 900;
  model_validate = λ body. some a_webhook;
  pool_error = none;
  enqueue_error = λ j. none;
}

abbrev webhook_settings : WebhookSettings
webhook_settings = record {
  whatsapp_signature_required = true;
  whatsapp_app_secret = "secret";
  channel = whatsapp;
}

abbrev a_signature : Option String
a_signature = some ("sha256=" ++ a_digest)

queued_count : Result Answer → ℕ
queued_count (ok a) = length a.queued
queued_count (err e) = 0

received :
    queued_count (receive_webhook a_wire webhook_settings (1 ∷ []) a_signature a_session).0 ≡ 2
unfolding receive_webhook verify_meta_signature events enqueue_all jobs ingest_all
    ingest_whatsapp_message persist_inbound_message find_source newest_message find_message
    insert_message queued_count contains before after_first text_length strip
received = refl
