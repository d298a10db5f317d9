-- ===== src/Replies/Operations.antt =====
-- The operations on replies that change state, as one type of requests, and sequences of them.
use sawtai.Prelude.{ℕ, String, Option, List, [], ◌∷◌}
use sawtai.Session.{Session, Exec, ok, ◌>>◌, request}
use sawtai.Replies.Delivery.{Settings}
use sawtai.Replies.Drafts.{update_whatsapp_reply, submit_whatsapp_reply}
use sawtai.Replies.Approval.{approve_and_deliver_reply, WhatsAppStatus, record_whatsapp_status}

pub data ReplyOp : Type 0 where
  edit : (tenant response_id editor : ℕ) → String → ReplyOp
  submit : (tenant response_id submitter : ℕ) → ReplyOp
  approve : (tenant response_id approver : ℕ) → Option String → ReplyOp
  status_update : WhatsAppStatus → ReplyOp

unfoldable pub run : Settings → ReplyOp → Exec (Unit {0})
run settings (edit t k u body) = do update_whatsapp_reply t k u body; λ s. (ok tt, s)
run settings (submit t k u) = submit_whatsapp_reply t k u
run settings (approve t k u comment) = do
  approve_and_deliver_reply t k u settings comment
  λ s. (ok tt, s)
run settings (status_update e) = record_whatsapp_status e settings

unfoldable pub serve : Settings → List ReplyOp → Session → Session
serve settings [] s = s
serve settings (op ∷ ops) s = serve settings ops (request (run settings op) s).1
