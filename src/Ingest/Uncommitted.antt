-- ===== src/Ingest/Uncommitted.antt =====
-- Storing the messages of a webhook, before its commit (ingest/service.py, channels/service.py).
use sawtai.Prelude.{
  ℕ, suc, ◌≤◌, ◌≡◌, Option, none, some, List, [], ◌∷◌, length, any, arith, inl, inr, Bool-cases,
}
use sawtai.Schema.{Source, Message, Db}
use sawtai.Session.{Session, now, uuid4, sql_now, modify}
use sawtai.Session.Effects.{Keeps, keeps_free_rules}
use sawtai.Session.Halves.{Leads, Leads-bind, Leads-Keeps}
use sawtai.Ingest.Messages.{
  InboundMessage, PersistedMessage, Channel, insert_message, insert_or_find, persist_from,
  persist_inbound_message, same_key,
}
use sawtai.Ingest.Webhook.{
  WhatsAppMessage, WhatsAppMetadata, Wire, WebhookSettings, occurred_at, ingest_whatsapp_message,
  ingest_all, append_some,
}

-- nothing was committed since the database was `x`
pub record Uncommitted (x : Db) (s : Session) : Type 0 where
  pub kept : s.saved ≡ x

module _ (x : Db) where
  now-Uncommitted : Keeps (Uncommitted x) now
  now-Uncommitted = record { at = λ s h. record { kept = h.kept } }

  uuid4-Uncommitted : Keeps (Uncommitted x) uuid4
  uuid4-Uncommitted = record { at = λ s h. record { kept = h.kept } }

  sql_now-Uncommitted : Keeps (Uncommitted x) sql_now
  sql_now-Uncommitted = record { at = λ s h. h }

  modify-Uncommitted : (f : Db → Db) → Keeps (Uncommitted x) (modify f)
  modify-Uncommitted f = record { at = λ s h. record { kept = h.kept } }

  insert_message-Uncommitted : (m : Message) → Keeps (Uncommitted x) (insert_message m)
  unfolding insert_message
  insert_message-Uncommitted m = record {
    at = λ s h. elim (Bool-cases (any (same_key m) s.db.messages)) [
      | inl taken ↦ rw taken h
      | inr free ↦ rw free (record { kept = h.kept })
    ];
  }

  ruleset statement_rules = (
    keeps_free_rules, now-Uncommitted, uuid4-Uncommitted, sql_now-Uncommitted, modify-Uncommitted,
    insert_message-Uncommitted,
  )

  insert_or_find-Uncommitted :
      (i : InboundMessage) (src : Source) (m : Message) (o : Option Message)
      → Keeps (Uncommitted x) (insert_or_find i src m o)
  insert_or_find-Uncommitted i src m (some twin) = search statement_rules
  insert_or_find-Uncommitted i src m none = search statement_rules depth 20

  persist_from-Uncommitted :
      (ch : Channel) (i : InboundMessage) (src : Source) (o : Option Message)
      → Keeps (Uncommitted x) (persist_from ch i src o)
  persist_from-Uncommitted ch i src (some m) = search statement_rules
  persist_from-Uncommitted ch i src none =
      search (statement_rules, insert_or_find-Uncommitted) depth 20

  persist-Uncommitted :
      (ch : Channel) (i : InboundMessage) → Keeps (Uncommitted x) (persist_inbound_message ch i)
  unfolding persist_inbound_message
  persist-Uncommitted ch i = search (statement_rules, persist_from-Uncommitted) depth 20

  occurred_at-Uncommitted : (o : Option ℕ) → Keeps (Uncommitted x) (occurred_at o)
  occurred_at-Uncommitted (some at) = search statement_rules
  occurred_at-Uncommitted none = search statement_rules

  ingest-Uncommitted :
      (wire : Wire) (settings : WebhookSettings) (m : WhatsAppMessage) (d : WhatsAppMetadata)
      → Keeps (Uncommitted x) (ingest_whatsapp_message wire settings m d)
  unfolding ingest_whatsapp_message
  ingest-Uncommitted wire settings m d =
      search (statement_rules, occurred_at-Uncommitted, persist-Uncommitted) depth 20

  length-append_some :
      (p : Option PersistedMessage) (ps : List PersistedMessage) (n : ℕ)
      → length ps ≤ n
      → length (append_some p ps) ≤ suc n
  length-append_some none ps n h = omega (arith, h)
  length-append_some (some p) ps n h = omega (arith, h)

  pub ingest_all-Leads :
      (wire : Wire) (settings : WebhookSettings)
      (events : List (WhatsAppMessage × WhatsAppMetadata))
      → Leads
          (Uncommitted x)
          (ingest_all wire settings events)
          (λ ps s. Uncommitted x s × (length ps ≤ length events))
          (Uncommitted x)
  unfolding ingest_all
  ingest_all-Leads wire settings [] = record { at = λ s h. (h, omega arith) }
  ingest_all-Leads wire settings ((m, d) ∷ rest) =
      Leads-bind _ _ (Leads-Keeps _ (λ s h. h) (λ s h. h) (ingest-Uncommitted wire settings m d))
        (λ p.
          Leads-bind _ _ (ingest_all-Leads wire settings rest)
            (λ later. record { at = λ s h. (h.0, length-append_some p later (length rest) h.1) }))
