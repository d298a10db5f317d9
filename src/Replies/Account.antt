-- ===== src/Replies/Account.antt =====
-- Replies and the ledger: what edits and submissions leave in it, and that it stays a hash chain.
use sawtai.Prelude.{ℕ, String, refl, Option, none, some, List, [], ◌∷◌}
use sawtai.Schema.{Reply, ReplyStatus}
use sawtai.Session.{Session, Result, ok, err, modify, request}
use sawtai.Session.Effects.{Keeps, Keeps-if}
use sawtai.Audit.Chain.{HasLedger, modify-HasLedger, request-HasLedger, ledger_rules}
use sawtai.Replies.Delivery.{
  Settings, DeliveryMode, simulate, live, DeliveryReceipt, post, send_by, send_text,
}
use sawtai.Replies.Drafts.{update_responses, update_whatsapp_reply, submit_whatsapp_reply}
use sawtai.Replies.Linking.{Linked}
use sawtai.Replies.Approval.{
  is_delivery_error, conclude, deliver, approve_and_deliver_reply, WhatsAppStatus, log_status,
  record_whatsapp_status,
}
use sawtai.Replies.Operations.{ReplyOp, edit, submit, approve, status_update, run, serve}

update-HasLedger : (t k : ℕ) (f : Reply → Reply) → Keeps HasLedger (modify (update_responses t k f))
update-HasLedger t k f = modify-HasLedger (update_responses t k f) (λ db. refl)

ruleset rules = (ledger_rules, update-HasLedger)

post-HasLedger : (k : ℕ) (to body ref : String) → Keeps HasLedger (post k to body ref)
post-HasLedger k to body ref = record {
  at = λ s h. record { monotone = h.monotone; opened = h.opened; saved = h.saved };
}

send_by-HasLedger :
    (mode : DeliveryMode) (g : Settings) (k : ℕ) (to body ref : String)
    → Keeps HasLedger (send_by mode g k to body ref)
send_by-HasLedger simulate g k to body ref = record {
  at = λ s h. record { monotone = h.monotone; opened = h.opened; saved = h.saved };
}
send_by-HasLedger live g k to body ref = search (rules, post-HasLedger)

conclude-HasLedger :
    (t u k : ℕ) (comment : Option String) (status : ReplyStatus) (r : Result DeliveryReceipt)
    → Keeps HasLedger (conclude t u k comment status r)
conclude-HasLedger t u k comment status (ok receipt) = search rules depth 20
conclude-HasLedger t u k comment status (err e) =
    Keeps-if (is_delivery_error e) _ _ (search rules) (search rules)

deliver-HasLedger :
    (g : Settings) (t u k : ℕ) (comment : Option String) (l : Linked) (r : Reply)
    → Keeps HasLedger (deliver g t u k comment l r)
unfolding send_text
deliver-HasLedger g t u k comment l r = record {
  at = λ s h.
      (conclude-HasLedger t u k comment r.status _).at _
        ((send_by-HasLedger g.whatsapp_delivery_mode g k l.recipient r.body l.external_id).at s h);
}

log_status-HasLedger :
    (t : ℕ) (e : WhatsAppStatus) (o : Option ℕ) → Keeps HasLedger (log_status t e o)
log_status-HasLedger t e none = search rules
log_status-HasLedger t e (some k) = search rules

run-HasLedger : (g : Settings) (op : ReplyOp) → Keeps HasLedger (run g op)
unfolding run update_whatsapp_reply submit_whatsapp_reply approve_and_deliver_reply
    record_whatsapp_status
run-HasLedger g (edit t k u body) = search rules depth 25
run-HasLedger g (submit t k u) = search rules depth 25
run-HasLedger g (approve t k u comment) = search (rules, deliver-HasLedger) depth 25
run-HasLedger g (status_update e) = search (rules, log_status-HasLedger) depth 25

-- On a monotone clock, whatever requests on replies come and whether they return, raise or fail in
-- the network, the committed ledger stays a hash chain for every tenant.
pub reply-HasLedger :
    (g : Settings) (ops : List ReplyOp) (s : Session) → HasLedger s → HasLedger (serve g ops s)
unfolding serve
reply-HasLedger g [] s h = h
reply-HasLedger g (op ∷ ops) s h =
    reply-HasLedger g ops (request (run g op) s).1
      ((request-HasLedger (run g op) (run-HasLedger g op)).at s h)
