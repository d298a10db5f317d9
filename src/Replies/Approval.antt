-- ===== src/Replies/Approval.antt =====
-- `approve_and_deliver_reply` and `record_whatsapp_status`.
use Prim.Native.String.{◌++◌}
use text.Mathlib.Text.{starts_with, ◌==◌ as str_eq}
use sawtai.Prelude.{
  ℕ, String, Bool, true, false, not, ◌&&◌, ◌||◌, Option, none, some, List, [], ◌∷◌, coalesce, ◌==◌,
  if◌then◌else◌,
}
use sawtai.Table.{rows}
use sawtai.Text.{is_empty}
use sawtai.Schema.{ReplyStatus, pending_approval, published, Reply, str, num, flag, Scalar, null}
use sawtai.Session.{
  Error, Result, ok, err, Exec, lookup_error, value_error, delivery_error, ◌>>=◌, ◌>>◌, pure, raise,
  require_row, raise_if, gets, sql_now, modify, commit,
}
use sawtai.Audit.{Event, event, write_audit}
use sawtai.Replies.Delivery.{Settings, DeliveryReceipt, send_text}
use sawtai.Replies.Linking.{Linked, find_deliverable}
use sawtai.Replies.Drafts.{status_name, of_tenant, update_responses, is_blocked}

abbrev pub is_pending : ReplyStatus → Bool
is_pending pending_approval = true
is_pending s = false

abbrev pub is_published : ReplyStatus → Bool
is_published published = true
is_published s = false

abbrev pub is_user : ℕ → Option ℕ → Bool
is_user u none = false
is_user u (some v) = u == v

-- approver_user_id in {created_by, edited_by}
abbrev pub is_maker : ℕ → Reply → Bool
is_maker u r = is_user u r.created_by || is_user u r.edited_by

abbrev pub or_empty : Option String → String
or_empty none = ""
or_empty (some t) = t

-- status == "published" and published_ref
abbrev pub is_done : Reply → Bool
is_done r = is_published r.status && not (is_empty (or_empty r.published_ref))

-- SET of `approve_and_deliver_reply`
abbrev pub published_row : ℕ → ℕ → String → Reply → Reply
published_row approver at external_id r = record r {
  status = published;
  approved_by = some approver;
  approved_at = some (coalesce r.approved_at at);
  published_at = some at;
  published_ref = some external_id;
}

pub record ApprovedDelivery : Type 0 where
  pub published_ref : String
  pub simulated : Bool

abbrev pub publish_event : ℕ → ℕ → ℕ → Event
publish_event tenant_id approver response_id =
    event tenant_id approver "response.publish" "response" response_id

abbrev pub comment_scalar : Option String → Scalar
comment_scalar none = null
comment_scalar (some t) = str t

abbrev pub failure_event : ℕ → ℕ → ℕ → Event
failure_event tenant_id approver response_id =
    record (publish_event tenant_id approver response_id) {
      outcome = "error";
      after_state = some (("channel", str "whatsapp") ∷ []);
    }

abbrev pub publication : ℕ → ℕ → ℕ → Option String → ReplyStatus → DeliveryReceipt → Event
publication tenant_id approver response_id comment status receipt =
    record (publish_event tenant_id approver response_id) {
      before_state = some (("status", str (status_name status)) ∷ []);
      after_state = some (
          ("status", str "published")
          ∷ ("channel", str "whatsapp")
          ∷ ("simulated", flag receipt.simulated)
          ∷ ("comment", comment_scalar comment)
          ∷ []);
    }

-- after the message was accepted
abbrev pub publish :
    ℕ → ℕ → ℕ → Option String → ReplyStatus → DeliveryReceipt → Exec ApprovedDelivery
publish tenant_id approver response_id comment status receipt = do
  at ← sql_now
  modify (update_responses tenant_id response_id (published_row approver at receipt.external_id))
  write_audit (publication tenant_id approver response_id comment status receipt)
  commit
  pure (record { published_ref = receipt.external_id; simulated = receipt.simulated })

abbrev pub is_delivery_error : Error → Bool
is_delivery_error (delivery_error why) = true
is_delivery_error e = false

-- `except WhatsAppDeliveryError`: no other exception is caught
abbrev pub conclude :
    ℕ → ℕ → ℕ → Option String → ReplyStatus → Result DeliveryReceipt → Exec ApprovedDelivery
conclude tenant_id approver response_id comment status (ok receipt) =
    publish tenant_id approver response_id comment status receipt
conclude tenant_id approver response_id comment status (err e) =
    if is_delivery_error e
    then write_audit (failure_event tenant_id approver response_id) >> (commit >> raise e)
    else raise e

abbrev pub deliver : Settings → ℕ → ℕ → ℕ → Option String → Linked → Reply → Exec ApprovedDelivery
deliver settings tenant_id approver response_id comment link row s =
    let (r, s') = send_text settings response_id link.recipient row.body link.external_id s in
    conclude tenant_id approver response_id comment row.status r s'

-- the guards between the early return and the delivery
abbrev pub check_and_deliver :
    Settings → ℕ → ℕ → ℕ → Option String → Linked → Reply → Exec ApprovedDelivery
check_and_deliver settings tenant_id approver response_id comment link row = do
  raise_if (not (is_pending row.status))
      (value_error ("Reply cannot be delivered from status " ++ status_name row.status))
  raise_if (is_maker approver row)
      (value_error "Maker-checker violation: the draft author cannot approve it")
  raise_if (is_blocked row) (value_error "Reply did not pass grounding and policy checks")
  deliver settings tenant_id approver response_id comment link row

abbrev pub known_delivery : Reply → ApprovedDelivery
known_delivery row = record {
  published_ref = or_empty row.published_ref;
  simulated = starts_with (or_empty row.published_ref) "simulated:";
}

unfoldable pub approve_and_deliver_reply :
    ℕ → ℕ → ℕ → Settings → Option String → Exec ApprovedDelivery
approve_and_deliver_reply tenant_id response_id approver settings comment = do
  found ← gets (find_deliverable tenant_id response_id)
  row ← require_row found (lookup_error "Reply not found")
  if is_done row.0
      then pure (known_delivery row.0)
      else check_and_deliver settings tenant_id approver response_id comment row.1 row.0

-- channels/models.py
pub record WhatsAppStatus : Type 0 where
  pub id : String
  pub status : String
  pub timestamp : String
  pub error_count : ℕ

-- published_ref = :ref, which a NULL is not
abbrev pub has_ref : String → Option String → Bool
has_ref ref none = false
has_ref ref (some t) = str_eq t ref

-- SELECT ... WHERE tenant AND published_ref = :published_ref LIMIT 1
unfoldable pub find_published : ℕ → String → List (ℕ × Reply) → Option ℕ
find_published tenant_id ref [] = none
find_published tenant_id ref ((k, r) ∷ rest) =
    let found = find_published tenant_id ref rest in
    if of_tenant tenant_id r && has_ref ref r.published_ref then some k else found

abbrev pub log_status : ℕ → WhatsAppStatus → Option ℕ → Exec (Unit {0})
log_status tenant_id e none = pure tt
log_status tenant_id e (some response_id) =
    write_audit (record {
      tenant_id = tenant_id;
      actor_user_id = none;
      actor_type = "worker";
      action = "whatsapp.delivery." ++ e.status;
      object_type = "response";
      object_id = some response_id;
      outcome = if str_eq e.status "failed" then "error" else "success";
      before_state = none;
      after_state = some (("error_count", num e.error_count) ∷ []);
    })
    >> commit

unfoldable pub record_whatsapp_status : WhatsAppStatus → Settings → Exec (Unit {0})
record_whatsapp_status e settings = do
  found ← gets (λ s. find_published settings.whatsapp_tenant_id e.id (rows s.db.responses))
  log_status settings.whatsapp_tenant_id e found
