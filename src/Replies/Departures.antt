-- ===== src/Replies/Departures.antt =====
-- Which messages were confirmed, which may have left besides, and what sending one more adds.
use sawtai.Prelude.{
  ℕ, ◌+◌, ◌≤◌, String, ◌≡◌, refl, sym, Bool, ◌&&◌, ==_iff, true, false, inl, inr, Bool-cases,
  Option, none, some, List, [], ◌∷◌, arith, ◌==◌, if◌then◌else◌,
}
use sawtai.Table.{get}
use sawtai.Schema.{Reply}
use sawtai.Session.{
  GraphReply, accepted, refused, without_id, garbled, timed_out, unreachable, Error, World,
  Delivery, Session, Result, ok, err,
}
use sawtai.Replies.Delivery.{
  Settings, DeliveryMode, simulate, live, DeliveryReceipt, receipt_of, departure, departures,
  simulated_id, send_by, send_text,
}
use sawtai.Replies.Sending.{is_unset}
use sawtai.Replies.Approval.{is_pending, is_published}

-- how many messages with the reply `k` were confirmed
abbrev pub confirmed : ℕ → List Delivery → ℕ
confirmed k [] = 0
confirmed k (d ∷ rest) = (if d.confirmed && d.response_id == k then 1 else 0) + confirmed k rest

-- before each message with the reply `k`, none with it was confirmed
abbrev pub IsFirst : ℕ → List Delivery → Type 0
IsFirst k [] = Unit
IsFirst k (d ∷ rest) = (d.response_id == k ≡ true → confirmed k rest ≡ 0) × IsFirst k rest

-- 1 for a published reply
abbrev pub released : Option Reply → ℕ
released none = 0
released (some r) = if is_published r.status then 1 else 0

-- What was confirmed is published, and was confirmed once; no message has left, nor may have left,
-- after the one that was confirmed. The open transaction is the committed one.
pub record AtMostOnce (s : Session) : Type 0 where
  pub rows : (k : ℕ) → confirmed k s.outbox ≤ released (get s.db.responses k)
  pub first : (k : ℕ) → IsFirst k s.outbox
  pub settled : s.db ≡ s.saved

-- how many messages a call confirms
abbrev pub receipts : ℕ → ℕ → Result DeliveryReceipt → ℕ
receipts k j (ok receipt) = if k == j then 1 else 0
receipts k j (err e) = 0

-- how sending a reply ends that was not confirmed: with a receipt and one message confirmed, or
-- with an error and none
pub record Departed (k : ℕ) (out : List Delivery) (result : Result DeliveryReceipt)
    (after : List Delivery) : Type 0 where
  pub counted : (j : ℕ) → confirmed j after ≡ receipts k j result + confirmed j out
  pub first : confirmed k out ≡ 0 → (j : ℕ) → IsFirst j out → IsFirst j after

-- one message more, confirmed or not
one_more :
    (k : ℕ) (to body : String) (sure : Bool) (ref : String) (out : List Delivery)
    → confirmed k out ≡ 0
    → (j : ℕ) → IsFirst j out
    → IsFirst j (departure k to body sure ref ∷ out)
one_more k to body sure ref out none_yet j h = (λ same. rw (sym ((==_iff k j).0 same)) none_yet, h)

unsure :
    (k : ℕ) (to body : String) (e : Error) (out : List Delivery)
    → Departed k out (err e) (departure k to body false "" ∷ out)
unsure k to body e out = record { counted = λ j. refl; first = one_more k to body false "" out }

post-Departed :
    (w : World) (k : ℕ) (to body : String) (answer : GraphReply) (out : List Delivery)
    → Departed k out (receipt_of w answer) (departures k to body answer out)
post-Departed w k to body (accepted x) out = record {
  counted = λ j. refl;
  first = one_more k to body true x out;
}
post-Departed w k to body (refused c) out = unsure k to body _ out
post-Departed w k to body without_id out = unsure k to body _ out
post-Departed w k to body (garbled why) out = unsure k to body _ out
post-Departed w k to body timed_out out = unsure k to body _ out
post-Departed w k to body unreachable out = record {
  counted = λ j. omega arith;
  first = λ n j h. h;
}

send_by-Departed :
    (mode : DeliveryMode) (g : Settings) (k : ℕ) (to body ref : String) (s : Session)
    → Departed k s.outbox
        (send_by mode g k to body ref s).0
        (send_by mode g k to body ref s).1.outbox
send_by-Departed simulate g k to body ref s = record {
  counted = λ j. refl;
  first = one_more k to body true (simulated_id s) s.outbox;
}
send_by-Departed live g k to body ref s = elim (Bool-cases (is_unset g)) [
  | inl unset ↦ rw unset (record { counted = λ j. omega arith; first = λ n j h. h })
  | inr ready ↦
      rw ready (post-Departed s.world k to body (s.world.graph_api s.calls to body ref) s.outbox)
]

pub send_text-Departed :
    (g : Settings) (k : ℕ) (to body ref : String) (s : Session)
    → Departed k s.outbox (send_text g k to body ref s).0 (send_text g k to body ref s).1.outbox
unfolding send_text
send_text-Departed g = send_by-Departed g.whatsapp_delivery_mode g

-- a reply that waits for approval has not left
pending-released : (r : Reply) → is_pending r.status ≡ true → released (some r) ≡ 0
pending-released r h = ground arith
