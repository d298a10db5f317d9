-- ===== src/Replies/MakerChecker.antt =====
-- Nobody lets out a reply of their own.
use sawtai.Prelude.{
  ℕ, String, ◌≡◌, false, inl, inr, Bool-cases, Option-cases, Option, none, some, List, [], ◌∷◌,
}
use sawtai.Schema.{Reply}
use sawtai.Session.{Session, Result, ok, err, Error, ◌>>◌, raise, commit, require_row, request}
use sawtai.Session.Effects.{Both, Keeps, Keeps-bind, Keeps-request}
use sawtai.Audit.{Event, write_audit}
use sawtai.Replies.Delivery.{Settings, DeliveryReceipt, send_text}
use sawtai.Replies.Sending.{send_text-IsOutside}
use sawtai.Replies.Drafts.{find_reply, is_blocked}
use sawtai.Replies.Linking.{Linked, find_link}
use sawtai.Replies.Approval.{
  is_pending, is_maker, is_done, failure_event, is_delivery_error, conclude, deliver,
  approve_and_deliver_reply, WhatsAppStatus, log_status, record_whatsapp_status,
}
use sawtai.Replies.Operations.{ReplyOp, edit, submit, approve, status_update, run, serve}
use sawtai.Replies.Review.{
  HasReviewed, review_rules, finish-HasReviewed, found-HasReviewed, published_row-IsReviewed,
  update-HasReviewed, submit-HasReviewed,
}

fail-HasReviewed :
    {A : Type 0} (e : Event) (x : Error)
    → Keeps (Both HasReviewed) (write_audit e >> (commit >> raise {A = A} x))
fail-HasReviewed e x = search review_rules

conclude-HasReviewed :
    (t u k : ℕ) (comment : Option String) (r : Reply) (result : Result DeliveryReceipt)
    (s : Session)
    → find_reply t k s ≡ some r
    → is_maker u r ≡ false
    → is_blocked r ≡ false
    → Both HasReviewed s
    → Both HasReviewed (conclude t u k comment r.status result s).1
conclude-HasReviewed t u k comment r (ok receipt) s found maker passed h =
    (finish-HasReviewed _ _).at _ (record {
      opened =
          found-HasReviewed t k _ r s.db found
            (published_row-IsReviewed u s.started receipt.external_id r maker passed) h.opened;
      saved = h.saved;
    })
conclude-HasReviewed t u k comment r (err e) s found maker passed h =
    elim (Bool-cases (is_delivery_error e)) [
      | inl caught ↦ rw caught ((fail-HasReviewed (failure_event t u k) e).at s h)
      | inr passed_on ↦ rw passed_on h
    ]

deliver-HasReviewed :
    (g : Settings) (t u k : ℕ) (comment : Option String) (l : Linked) (r : Reply) (s : Session)
    → find_reply t k s ≡ some r
    → is_maker u r ≡ false
    → is_blocked r ≡ false
    → Both HasReviewed s
    → Both HasReviewed (deliver g t u k comment l r s).1
deliver-HasReviewed g t u k comment l r s found other passed h =
    let (result, s') = send_text g k l.recipient r.body l.external_id s in
    let same = send_text-IsOutside g k l.recipient r.body l.external_id s in
    conclude-HasReviewed t u k comment r result s' (rw same.db found) other passed
      (record { opened = rw same.db h.opened; saved = rw same.saved h.saved })

approve-HasReviewed :
    (t k u : ℕ) (g : Settings) (comment : Option String)
    → Keeps (Both HasReviewed) (approve_and_deliver_reply t k u g comment)
unfolding approve_and_deliver_reply
approve-HasReviewed t k u g comment = record {
  at = λ s h. elim (Option-cases (find_reply t k s)) [
    | inl absent ↦ rw (absent, require_row) h
    | inr (r, found) ↦ elim (Option-cases (find_link s.db r)) [
      | inl unlinked ↦ rw (found, unlinked, require_row) h
      | inr (l, linked) ↦ elim (Bool-cases (is_done r)) [
        | inl done ↦ rw (found, linked, require_row, done) h
        | inr fresh ↦ elim (Bool-cases (is_pending r.status)) [
          | inr stays ↦ rw (found, linked, require_row, fresh, stays) h
          | inl pending ↦ elim (Bool-cases (is_maker u r)) [
            | inl maker ↦ rw (found, linked, require_row, fresh, pending, maker) h
            | inr other ↦ elim (Bool-cases (is_blocked r)) [
              | inl blocked ↦ rw (found, linked, require_row, fresh, pending, other, blocked) h
              | inr passed ↦
                  rw (found, linked, require_row, fresh, pending, other, passed)
                    (deliver-HasReviewed g t u k comment l r s found other passed h)
            ]
          ]
        ]
      ]
    ]
  ];
}

log_status-HasReviewed :
    (t : ℕ) (e : WhatsAppStatus) (o : Option ℕ) → Keeps (Both HasReviewed) (log_status t e o)
log_status-HasReviewed t e none = search review_rules
log_status-HasReviewed t e (some k) = search review_rules

run-HasReviewed : (g : Settings) (op : ReplyOp) → Keeps (Both HasReviewed) (run g op)
unfolding run record_whatsapp_status
run-HasReviewed g (edit t k u body) =
    Keeps-bind _ _ (update-HasReviewed t k u body) (λ x. record { at = λ s h. h })
run-HasReviewed g (submit t k u) = submit-HasReviewed t k u
run-HasReviewed g (approve t k u comment) =
    Keeps-bind _ _ (approve-HasReviewed t k u g comment) (λ x. record { at = λ s h. h })
run-HasReviewed g (status_update e) = search (review_rules, log_status-HasReviewed)

-- Maker and checker. From reviewed replies, after any edits, submissions, approvals and status
-- updates, whether they return or raise: a reply that waits for approval has its authors and the
-- time of its submission on record and passed the checks; a published one passed them too, was
-- approved by a user who is neither of its recorded authors, and has a time of publication.
pub serve-HasReviewed :
    (g : Settings) (ops : List ReplyOp) (s : Session)
    → Both HasReviewed s
    → Both HasReviewed (serve g ops s)
unfolding serve
serve-HasReviewed g [] s h = h
serve-HasReviewed g (op ∷ ops) s h =
    serve-HasReviewed g ops (request (run g op) s).1
      ((Keeps-request (run g op) (run-HasReviewed g op)).at s h)
