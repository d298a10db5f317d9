-- ===== src/Examples/Fixtures.antt =====
-- A small database and the world around it.
use sawtai.Prelude.{ℕ, ◌+◌, ◌||◌, ◌≡◌, true, false, none, some, [], ◌∷◌, arith, Holds, ◌==◌}
use sawtai.Table.{empty, get, put, get-put, get-empty}
use sawtai.Prelude.Int.{pos}
use sawtai.Schema.{Message, new, medium, Case, pending_approval, Reply, User, Db, Bytes, Canonical}
use sawtai.Session.{Engine, accepted, World, Session}
use sawtai.Audit.Chain.{HasLedger}

abbrev pub zeros : Bytes
zeros =
    0 ∷ 0 ∷ 0 ∷ 0 ∷ 0 ∷ 0 ∷ 0 ∷ 0 ∷ 0 ∷ 0 ∷ 0 ∷ 0 ∷ 0 ∷ 0 ∷ 0 ∷ 0 ∷ 0 ∷ 0 ∷ 0 ∷ 0 ∷ 0 ∷ 0 ∷ 0 ∷ 0
    ∷ 0 ∷ 0 ∷ 0 ∷ 0 ∷ 0 ∷ 0 ∷ 0 ∷ 0 ∷ []

abbrev pub an_engine : Engine
an_engine = record {
  normalize_for_search = λ t. t;
  utf8 = λ t. [];
  hex = λ b. "00";
  day = λ t. t;
  iso_date = λ d. "2026-01-01";
  decimal = λ n. "1";
  pattern_search = λ n t. false;
  between_matches = λ n t. (t, []);
  hmac_hex = λ key t. t;
  blake64 = λ t. 5;
  clean_name = λ t. t;
  suffix = λ t. ".txt";
  decode_utf8 = λ b. some "The water office opens at eight.";
  zip_members = λ b. none;
  docx = λ b. none;
  pdf = λ b. none;
  ocr = λ b n. none;
  put_object = λ n key b. true;
  get_object = λ n key. some (1 ∷ []);
  encoder = λ n ts. none;
  reranker = λ n q ts. none;
  hash_embedding = λ t. [];
  similarity = λ a b. 100000;
  closeness = λ a b. 100000;
  is_zero_vector = λ v. false;
  logistic = λ x. x;
}

-- a world whose dictionaries are written by `dumps`
abbrev pub world_with : (Canonical → Bytes) → World
world_with dumps = record {
  sha256 = λ b. zeros;
  dumps = dumps;
  clock = λ n. n + 1000;
  uuid4 = λ n. n + 100;
  year = λ t. 2026;
  lower = λ t. t;
  is_space = λ c. c == 32 || c == 10;
  collate_le = λ a b. true;
  ilike = λ a b. true;
  ilike_reference = λ y h t. true;
  uuid5 = λ kind target recipient. target + recipient;
  reference_text = λ y h. "SHJ-2026-000000";
  iso_text = λ t. "2026-01-01T00:00:00+00:00";
  uuid_text = λ u. "00000000";
  engine = an_engine;
  graph_api = λ n to body ref. accepted "wamid.1";
}

abbrev pub a_world : World
a_world = world_with (λ c. c.tenant_id ∷ c.occurred_at ∷ [])

abbrev pub a_case : Case
a_case = record {
  tenant_id = 1;
  reference = record { year = 2026; hex_prefix = 0 };
  title_ar = "water";
  title_en = "water";
  node_id = none;
  org_unit_id = none;
  assigned_to = none;
  status = new;
  severity = medium;
  sla_due_at = some 5000;
  first_response_at = none;
  resolved_at = none;
  created_at = 10;
  updated_at = 10;
}

-- written by user 3, waiting for another one
abbrev pub a_reply : Reply
a_reply = record {
  tenant_id = 1;
  case_id = some 7;
  body = "We have received it.";
  status = pending_approval;
  grounding_score = some 900;
  policy_flags = false;
  abstained = false;
  created_by = some 3;
  edited_by = some 3;
  edit_distance = none;
  submitted_at = some 20;
  approved_by = none;
  approved_at = none;
  published_at = none;
  published_ref = none;
  created_at = 10;
  inference_run_id = some 70;
  abstain_reason = none;
}

abbrev pub an_officer : User
an_officer = record {
  tenant_id = 1;
  email = "officer@example.ae";
  display_name_ar = none;
  display_name_en = some "Officer";
  org_unit_id = none;
  password_hash = some "hash";
  is_active = true;
  mfa_enrolled = false;
  roles = "comms_officer" ∷ [];
  permissions = "cases:*" ∷ [];
  last_login_at = none;
}

-- the message that the reply answers
abbrev pub an_inbound : Message
an_inbound = record {
  message_id = 45;
  tenant_id = 1;
  source_id = 50;
  channel_id = 60;
  external_id = "wamid.0";
  parent_external_id = none;
  occurred_at = 8;
  author_pseudonym = "p";
  raw_text = "Hello";
  norm_text = "hello";
  lang_primary = "en";
  code_switch_ratio = (0, 5);
  content_hash = 9 ∷ [];
  simhash = pos 0;
  message_type = "text";
  phone_number_id = none;
}

-- the case 7, the user 3, and the reply 5 to the message 45
abbrev pub db_with : Case → Reply → Db
db_with c r = record {
  audit_log = [];
  cases = put empty 7 c;
  taxonomy_nodes = empty;
  complaints = [];
  users = put empty 3 an_officer;
  tenants = record { tenant_id = 1; code = "shj-demo" } ∷ [];
  responses = put empty 5 r;
  documents = empty;
  doc_chunks = [];
  response_citations = [];
  ai_inference_log =
      record {
        inference_run_id = 70;
        tenant_id = 1;
        task = "whatsapp_reply";
        model_name = "grounded-template";
        model_version = "v1";
        message_id = 45;
        occurred_at = 8;
        status = "ok";
        error_code = none;
        created_at = 10;
      }
      ∷ [];
  sources =
      record {
        source_id = 50;
        tenant_id = 1;
        channel_id = 60;
        channel_code = "whatsapp";
        handle = "demo-whatsapp";
        is_enabled = true;
      }
      ∷ [];
  messages = an_inbound ∷ [];
  pii_vault =
      record {
        author_pseudonym = "p";
        tenant_id = 1;
        native_id = "971500000009";
        first_seen_at = 8;
      }
      ∷ [];
}

abbrev pub session_with : World → Db → Session
session_with w db = record {
  world = w;
  db = db;
  saved = db;
  reads = 0;
  drawn = 0;
  started = 0;
  serial = 0;
  outbox = [];
  calls = 0;
}

abbrev pub a_session : Session
a_session = session_with a_world (db_with a_case a_reply)

-- a table with one row
pub one_row :
    {V : Type 0} (P : V → Type 0) (k : ℕ) (v : V) (j : ℕ)
    → P v
    → Holds P (get (put (empty {V = V}) k v) j)
one_row {V} P k v j h = ground (arith, get-put (empty {V = V}) k j v, get-empty {V = V} j, h)

pub case_there : (c : Case) (r : Reply) → get (db_with c r).cases 7 ≡ some c
case_there c r = get-put empty 7 7 c

pub reply_there : (c : Case) (r : Reply) → get (db_with c r).responses 5 ≡ some r
reply_there c r = get-put empty 5 5 r

pub user_there : (c : Case) (r : Reply) → get (db_with c r).users 3 ≡ some an_officer
user_there c r = get-put empty 3 3 an_officer

pub fresh-HasLedger : HasLedger a_session
fresh-HasLedger = record {
  monotone = record { step = λ n. omega arith };
  opened = record { ordered = tt; recent = tt; chained = tt };
  saved = record { ordered = tt; recent = tt; chained = tt };
}
