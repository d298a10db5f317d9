-- ===== src/Replies/Sending.antt =====
-- Sending a message changes nothing in the database.
use sawtai.Prelude.{ℕ, String, ◌≡◌, refl, Bool, ◌||◌, inl, inr, Bool-cases}
use sawtai.Text.{is_empty}
use sawtai.Session.{Session}
use sawtai.Replies.Delivery.{Settings, DeliveryMode, simulate, live, send_by, send_text}

-- neither the open transaction nor what is committed has changed
pub record IsOutside (s s' : Session) : Type 0 where
  pub db : s'.db ≡ s.db
  pub saved : s'.saved ≡ s.saved

-- the access token and the number of the sender are set
abbrev pub is_unset : Settings → Bool
is_unset g = is_empty g.whatsapp_access_token || is_empty g.whatsapp_phone_number_id

send_by-IsOutside :
    (mode : DeliveryMode) (g : Settings) (k : ℕ) (to body ref : String) (s : Session)
    → IsOutside s (send_by mode g k to body ref s).1
send_by-IsOutside simulate g k to body ref s = record { db = refl; saved = refl }
send_by-IsOutside live g k to body ref s = elim (Bool-cases (is_unset g)) [
  | inl unset ↦ rw unset (record { db = refl; saved = refl })
  | inr ready ↦ rw ready (record { db = refl; saved = refl })
]

pub send_text-IsOutside :
    (g : Settings) (k : ℕ) (to body ref : String) (s : Session)
    → IsOutside s (send_text g k to body ref s).1
unfolding send_text
send_text-IsOutside g = send_by-IsOutside g.whatsapp_delivery_mode g
