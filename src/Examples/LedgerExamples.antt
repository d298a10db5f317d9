-- ===== src/Examples/LedgerExamples.antt =====
-- The theorems on the ledger.
use sawtai.Prelude.{◌≡◌, ◌⊎◌, refl, Option, none, some, List, [], ◌∷◌, map}
use sawtai.Schema.{AuditRow, Json, str}
use sawtai.Session.{World}
use sawtai.Audit.Chain.{canonical_of, Chained, HasLedger}
use sawtai.Audit.Tampering.{restate, states_not_covered, Collision, chain_binds}
use sawtai.Cases.Operations.{escalate, serve}
use sawtai.Cases.Ledger.{serve-HasLedger}
use sawtai.Replies.Delivery.{Settings, simulate}
use sawtai.Replies.Operations.{approve, serve as serve_replies}
use sawtai.Replies.Account.{reply-HasLedger}
use sawtai.Examples.Dictionaries.{dumps, dumps_inj}
use sawtai.Examples.Fixtures.{world_with, zeros, a_session, fresh-HasLedger}

serve-HasLedger_example :
    HasLedger (serve (escalate 1 3 7 "leak" ∷ escalate 1 3 8 "none" ∷ []) a_session)
serve-HasLedger_example =
    serve-HasLedger (escalate 1 3 7 "leak" ∷ escalate 1 3 8 "none" ∷ []) a_session fresh-HasLedger

abbrev settings : Settings
settings = record {
  whatsapp_delivery_mode = simulate;
  whatsapp_access_token = "";
  whatsapp_phone_number_id = "";
  whatsapp_tenant_id = 1;
}

reply-HasLedger_example : HasLedger (serve_replies settings (approve 1 5 4 none ∷ []) a_session)
reply-HasLedger_example =
    reply-HasLedger settings (approve 1 5 4 none ∷ []) a_session fresh-HasLedger

-- one row, and the same with another state after the action
abbrev logged : World → AuditRow
logged w = record {
  audit_id = 0;
  tenant_id = 1;
  occurred_at = 900;
  actor_user_id = some 3;
  actor_type = "user";
  action = "case.note";
  object_type = "case";
  object_id = some 7;
  outcome = "success";
  before_state = none;
  after_state = some (("note", str "seen") ∷ []);
  prev_hash = none;
  row_hash = zeros;
}

abbrev forge : AuditRow → Option Json × Option Json
forge r = (none, some (("note", str "never seen") ∷ []))

abbrev log : List AuditRow
log = logged (world_with dumps) ∷ []

log-Chained : Chained (world_with dumps) log
log-Chained = (refl, refl, tt)

states_not_covered_example : Chained (world_with dumps) (map (restate forge) log)
states_not_covered_example = states_not_covered (world_with dumps) forge log log-Chained

chain_binds_example :
    (map canonical_of log ≡ map canonical_of (map (restate forge) log))
    ⊎ Collision (world_with dumps)
chain_binds_example =
    chain_binds (world_with dumps) (λ b. refl) dumps_inj 1 log (map (restate forge) log) (refl, tt)
      (refl, tt) log-Chained states_not_covered_example refl refl
