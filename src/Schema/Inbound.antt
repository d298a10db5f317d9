-- ===== src/Schema/Inbound.antt =====
-- core.sources with the code of their channel, core.messages and restricted.pii_vault.
use sawtai.Prelude.{ℕ, String, Bool, Option, List}
use sawtai.Prelude.Int.{ℤ}

pub record Source : Type 0 where
  pub source_id : ℕ
  pub tenant_id : ℕ
  pub channel_id : ℕ
  pub channel_code : String
  pub handle : String
  pub is_enabled : Bool

pub record Message : Type 0 where
  pub message_id : ℕ
  pub tenant_id : ℕ
  pub source_id : ℕ
  pub channel_id : ℕ
  pub external_id : String
  pub parent_external_id : Option String
  pub occurred_at : ℕ
  pub author_pseudonym : String
  pub raw_text : String
  pub norm_text : String
  pub lang_primary : String
  -- the quotient, as its two numbers
  pub code_switch_ratio : ℕ × ℕ
  pub content_hash : List ℕ
  pub simhash : ℤ
  pub message_type : String
  pub phone_number_id : Option String

-- `native_id_enc`, decrypted
pub record VaultEntry : Type 0 where
  pub author_pseudonym : String
  pub tenant_id : ℕ
  pub native_id : String
  pub first_seen_at : ℕ
