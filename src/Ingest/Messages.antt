-- ===== src/Ingest/Messages.antt =====
-- `persist_inbound_message`: a message is stored once, with its author in the vault.
use Prim.Native.String.{◌++◌}
use text.Mathlib.Text.{◌==◌ as str_eq}
use sawtai.Prelude.{
  ℕ, ◌+◌, String, Bool, true, false, ◌&&◌, Option, none, some, List, [], ◌∷◌, any, ltb, ◌==◌,
  if◌then◌else◌,
}
use sawtai.Schema.{Bytes, Tenant, Source, Message, VaultEntry, Db}
use sawtai.Session.{
  World, Exec, ok, err, integrity_error, runtime_error, ◌>>=◌, ◌>>◌, pure, require_row, gets, now,
  uuid4, sql_now, modify,
}
use sawtai.Knowledge.Rows.{bytes_eq}
use sawtai.Ingest.Redaction.{redact_pii, pseudonymize_author, identify_language}
use sawtai.Ingest.Simhash.{simhash64}

pub record InboundMessage : Type 0 where
  pub external_id : String
  pub sender_native_id : String
  pub occurred_at : ℕ
  pub text : String
  pub parent_external_id : Option String
  pub phone_number_id : Option String
  pub message_type : String

pub record PersistedMessage : Type 0 where
  pub message_id : ℕ
  pub tenant_id : ℕ
  pub source_id : ℕ
  pub channel_id : ℕ
  pub occurred_at : ℕ
  pub redacted_text : String
  pub duplicate : Bool

-- the arguments that come from the settings
pub record Channel : Type 0 where
  pub tenant_code : String
  pub source_handle : String
  pub tenant_pepper : String

abbrev pub is_coded : String → ℕ → Tenant → Bool
is_coded tenant_code tenant_id t = t.tenant_id == tenant_id && str_eq t.code tenant_code

abbrev pub is_whatsapp_source : Channel → List Tenant → Source → Bool
is_whatsapp_source ch tenants s =
    any (is_coded ch.tenant_code s.tenant_id) tenants
    && (str_eq s.handle ch.source_handle && (str_eq s.channel_code "whatsapp" && s.is_enabled))

unfoldable pub find_source : Channel → List Tenant → List Source → Option Source
find_source ch tenants [] = none
find_source ch tenants (s ∷ rest) =
    let later = find_source ch tenants rest in
    if is_whatsapp_source ch tenants s then some s else later

abbrev pub newer : Message → Option Message → Message
newer m none = m
newer m (some b) = if ltb m.occurred_at b.occurred_at then b else m

-- SELECT ... WHERE p ORDER BY occurred_at DESC LIMIT 1
unfoldable pub newest_message : (Message → Bool) → List Message → Option Message
newest_message p [] = none
newest_message p (m ∷ rest) =
    let best = newest_message p rest in if p m then some (newer m best) else best

-- tenant_id, source_id and external_id are the same
abbrev pub is_external : Source → String → Message → Bool
is_external src external_id m =
    m.tenant_id == src.tenant_id
    && (m.source_id == src.source_id && str_eq m.external_id external_id)

-- the columns of ux_messages_dedup are the same
abbrev pub is_same_content : ℕ → Bytes → ℕ → Message → Bool
is_same_content tenant_id content_hash occurred_at m =
    m.tenant_id == tenant_id
    && (bytes_eq m.content_hash content_hash && m.occurred_at == occurred_at)

unfoldable pub find_message : (Message → Bool) → List Message → Option Message
find_message p [] = none
find_message p (m ∷ rest) = let later = find_message p rest in if p m then some m else later

-- the answer for a message that is stored
abbrev pub persisted : Source → Message → Bool → PersistedMessage
persisted src m duplicate = record {
  message_id = m.message_id;
  tenant_id = src.tenant_id;
  source_id = src.source_id;
  channel_id = src.channel_id;
  occurred_at = m.occurred_at;
  redacted_text = m.raw_text;
  duplicate = duplicate;
}

-- a time more than five minutes ahead is replaced by the present
abbrev pub plausible : ℕ → ℕ → ℕ
plausible at occurred_at = if ltb (at + 300000000) occurred_at then at else occurred_at

abbrev pub new_message : World → Channel → InboundMessage → Source → ℕ → ℕ → Message
new_message w ch inbound src message_id occurred_at =
    let redacted = redact_pii w inbound.text in
    let normalized = w.engine.normalize_for_search redacted in
    let (language, code_switch_ratio) = identify_language redacted in
    record {
      message_id = message_id;
      tenant_id = src.tenant_id;
      source_id = src.source_id;
      channel_id = src.channel_id;
      external_id = inbound.external_id;
      parent_external_id = inbound.parent_external_id;
      occurred_at = occurred_at;
      author_pseudonym =
          pseudonymize_author w inbound.sender_native_id ch.tenant_code ch.tenant_pepper;
      raw_text = redacted;
      norm_text = normalized;
      lang_primary = language;
      code_switch_ratio = code_switch_ratio;
      content_hash = w.sha256 (w.engine.utf8 (w.uuid_text src.source_id ++ (":" ++ normalized)));
      simhash = simhash64 w normalized;
      message_type = inbound.message_type;
      phone_number_id = inbound.phone_number_id;
    }

abbrev pub same_key : Message → Message → Bool
same_key a b = b.message_id == a.message_id && b.occurred_at == a.occurred_at

abbrev pub store : Message → Db → Db
store m db = record db { messages = m ∷ db.messages }

-- INSERT INTO core.messages, under its PRIMARY KEY
unfoldable pub insert_message : Message → Exec (Unit {0})
insert_message m s =
    if any (same_key m) s.db.messages
    then (err integrity_error, s)
    else (ok tt, record s { db = store m s.db })

abbrev pub is_author : String → VaultEntry → Bool
is_author author_pseudonym v = str_eq v.author_pseudonym author_pseudonym

-- INSERT INTO restricted.pii_vault ... ON CONFLICT (author_pseudonym) DO NOTHING
abbrev pub insert_author : VaultEntry → Db → Db
insert_author v db =
    if any (is_author v.author_pseudonym) db.pii_vault
    then db
    else record db { pii_vault = v ∷ db.pii_vault }

abbrev pub vault_entry : InboundMessage → Source → Message → ℕ → VaultEntry
vault_entry inbound src m at = record {
  author_pseudonym = m.author_pseudonym;
  tenant_id = src.tenant_id;
  native_id = inbound.sender_native_id;
  first_seen_at = at;
}

-- ON CONFLICT (tenant_id, content_hash, occurred_at) DO NOTHING, and what follows from it
abbrev pub insert_or_find :
    InboundMessage → Source → Message → Option Message → Exec PersistedMessage
insert_or_find inbound src m (some twin) = pure (persisted src twin true)
insert_or_find inbound src m none = do
  insert_message m
  at ← sql_now
  modify (insert_author (vault_entry inbound src m at))
  pure (persisted src m false)

abbrev pub persist_new : Channel → InboundMessage → Source → Exec PersistedMessage
persist_new ch inbound src = do
  w ← gets (λ s. s.world)
  at ← now
  message_id ← uuid4
  let m = new_message w ch inbound src message_id (plausible at inbound.occurred_at)
  twin ←
      gets (λ s.
        find_message (is_same_content src.tenant_id m.content_hash m.occurred_at) s.db.messages)
  insert_or_find inbound src m twin

abbrev pub persist_from : Channel → InboundMessage → Source → Option Message → Exec PersistedMessage
persist_from ch inbound src (some m) = pure (persisted src m true)
persist_from ch inbound src none = persist_new ch inbound src

unfoldable pub persist_inbound_message : Channel → InboundMessage → Exec PersistedMessage
persist_inbound_message ch inbound = do
  found ← gets (λ s. find_source ch s.db.tenants s.db.sources)
  src ←
      require_row found
        (runtime_error "The configured WhatsApp source does not exist or is disabled")
  existing ← gets (λ s. newest_message (is_external src inbound.external_id) s.db.messages)
  persist_from ch inbound src existing
