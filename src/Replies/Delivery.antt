-- ===== src/Replies/Delivery.antt =====
-- channels/whatsapp.py: `WhatsAppClient.send_text`, and the settings that it reads.
use Prim.Native.String.{◌++◌}
use sawtai.Prelude.{List, ℕ, ◌+◌, String, Bool, true, false, ◌||◌, ◌∷◌}
use sawtai.Text.{is_empty}
use sawtai.Session.{
  GraphReply, accepted, refused, without_id, garbled, timed_out, unreachable, World, Delivery,
  value_error, Session, Result, ok, err, Exec, delivery_error, transport_error, ◌>>◌, raise_if,
}

pub data DeliveryMode : Type 0 where
  simulate live : DeliveryMode

pub record Settings : Type 0 where
  pub whatsapp_delivery_mode : DeliveryMode
  pub whatsapp_access_token : String
  pub whatsapp_phone_number_id : String
  -- the tenant whose code is `whatsapp_tenant_code`
  pub whatsapp_tenant_id : ℕ

pub record DeliveryReceipt : Type 0 where
  pub external_id : String
  pub simulated : Bool

-- the receipt, or what is raised
abbrev pub receipt_of : World → GraphReply → Result DeliveryReceipt
receipt_of w (accepted external_id) = ok (record { external_id = external_id; simulated = false })
receipt_of w (refused code) =
    err (delivery_error ("Meta delivery failed with status " ++ w.engine.decimal code))
receipt_of w without_id = err (delivery_error "Meta delivery response did not contain a message id")
receipt_of w (garbled why) = err (value_error why)
receipt_of w timed_out = err transport_error
receipt_of w unreachable = err transport_error

-- a message that has left or may have, with its reference if it has one
abbrev pub departure : ℕ → String → String → Bool → String → Delivery
departure response_id recipient body confirmed external_id = record {
  response_id = response_id;
  recipient = recipient;
  body = body;
  confirmed = confirmed;
  external_id = external_id;
}

-- Without a reference nothing is known, unless the request did not leave.
abbrev pub departures : ℕ → String → String → GraphReply → List Delivery → List Delivery
departures response_id recipient body (accepted external_id) out =
    departure response_id recipient body true external_id ∷ out
departures response_id recipient body unreachable out = out
departures response_id recipient body r out = departure response_id recipient body false "" ∷ out

abbrev pub delivered : ℕ → String → String → GraphReply → Session → Session
delivered response_id recipient body r s = record s {
  calls = s.calls + 1;
  outbox = departures response_id recipient body r s.outbox;
}

-- `client.post` and what follows it
abbrev pub post : ℕ → String → String → String → Exec DeliveryReceipt
post response_id recipient body reply_to s =
    let answer = s.world.graph_api s.calls recipient body reply_to in
    (receipt_of s.world answer, delivered response_id recipient body answer s)

-- f"simulated:{uuid4()}"
abbrev pub simulated_id : Session → String
simulated_id s = "simulated:" ++ s.world.uuid_text (s.world.uuid4 s.drawn)

-- no message leaves; the receipt counts as one
abbrev pub simulated_send : ℕ → String → String → Exec DeliveryReceipt
simulated_send response_id recipient body s =
    let external_id = simulated_id s in
    (
      ok (record { external_id = external_id; simulated = true }),
      record s {
        drawn = s.drawn + 1;
        outbox = departure response_id recipient body true external_id ∷ s.outbox;
      },
    )

abbrev pub live_send : Settings → ℕ → String → String → String → Exec DeliveryReceipt
live_send settings response_id recipient body reply_to = do
  raise_if (is_empty settings.whatsapp_access_token || is_empty settings.whatsapp_phone_number_id)
      (delivery_error "Live WhatsApp delivery is not configured")
  post response_id recipient body reply_to

abbrev pub send_by : DeliveryMode → Settings → ℕ → String → String → String → Exec DeliveryReceipt
send_by simulate settings response_id recipient body reply_to =
    simulated_send response_id recipient body
send_by live settings response_id recipient body reply_to =
    live_send settings response_id recipient body reply_to

-- `response_id` only labels the record of deliveries
unfoldable pub send_text : Settings → ℕ → String → String → String → Exec DeliveryReceipt
send_text settings = send_by settings.whatsapp_delivery_mode settings
