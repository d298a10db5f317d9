-- ===== src/Cases/IntakeLaws.antt =====
-- A complaint becomes one case, however often the worker sees it.
use sawtai.Prelude.{ℕ, String, ◌≡◌, some, inl, inr, Option-cases, arith}
use sawtai.Schema.{Complaint}
use sawtai.Session.{Session, ok, ◌>>◌, pure}
use sawtai.Session.Post.{Ensures, Ensures-bind, Ensures-ok}
use sawtai.Audit.{Event, write_audit}
use sawtai.Cases.Intake.{
  find_complaint, insert_complaint, existing_or_open, open_case, create_case_from_message,
}

-- the complaint of the message is on record, with the case that was returned
abbrev IsOnRecord : ℕ → ℕ → ℕ → ℕ → Session → Type 0
IsOnRecord t m at k s = find_complaint t m at s.db.complaints ≡ some k

tail-IsOnRecord :
    (t m at k : ℕ) (c : Complaint) (e : Event)
    → c.tenant_id ≡ t
    → c.message_id ≡ m
    → c.occurred_at ≡ at
    → c.case_id ≡ some k
    → Ensures (IsOnRecord t m at) (insert_complaint c >> (write_audit e >> pure k))
unfolding insert_complaint write_audit find_complaint
tail-IsOnRecord t m at k c e et em ea ek = record { at = λ s. ground arith }

open_case-IsOnRecord :
    (t m at : ℕ) (raw_text : String) → Ensures (IsOnRecord t m at) (open_case t m at raw_text)
unfolding open_case
open_case-IsOnRecord t m at raw_text = search (Ensures-bind, tail-IsOnRecord) depth 20

create_case_from_message-IsOnRecord :
    (t m at : ℕ) (raw_text : String)
    → Ensures (IsOnRecord t m at) (create_case_from_message t m at raw_text)
unfolding create_case_from_message
create_case_from_message-IsOnRecord t m at raw_text = record {
  at = λ s. elim (Option-cases (find_complaint t m at s.db.complaints)) [
    | inl fresh ↦ rw (fresh, existing_or_open) ((open_case-IsOnRecord t m at raw_text).at s)
    | inr (k, known) ↦ rw (known, existing_or_open) known
  ];
}

again :
    (t m at : ℕ) (raw_text : String) (s : Session) (k : ℕ)
    → IsOnRecord t m at k s
    → create_case_from_message t m at raw_text s ≡ (ok k, s)
unfolding create_case_from_message
again t m at raw_text s k known = rw (known, existing_or_open)

-- The worker may see a message again (ARQ retries a job): a call after one that returned a case
-- returns the same case and changes nothing, even if the text has become another one.
pub intake_idem :
    (t m at : ℕ) (first second : String) (s : Session) (k : ℕ)
    → (create_case_from_message t m at first s).0 ≡ ok k
    → let s' = (create_case_from_message t m at first s).1 in
      create_case_from_message t m at second s' ≡ (ok k, s')
intake_idem t m at first second s k h =
    again t m at second _ k (Ensures-ok (create_case_from_message-IsOnRecord t m at first) s k h)
