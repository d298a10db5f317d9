-- ===== src/Replies/Once.antt =====
-- How often a reply leaves the system, over sequences of requests.
use sawtai.Prelude.{
  ℕ, ◌≤◌, String, ◌≡◌, refl, true, false, inl, inr, Bool-cases, Option-cases, Option, none, some,
  List, [], ◌∷◌, arith, ltb,
}
use sawtai.Text.{length, strip}
use sawtai.Table.{get, update, rows, get-update}
use sawtai.Schema.{Reply}
use sawtai.Session.{
  Delivery, Session, Result, ok, err, Exec, require_row, request, close_session, continue, ◌>>=◌,
}
use sawtai.Audit.{write_audit}
use sawtai.Replies.Delivery.{Settings, DeliveryReceipt, send_text}
use sawtai.Replies.Sending.{send_text-IsOutside}
use sawtai.Replies.Drafts.{
  is_editable, is_draft, of_tenant, find_reply, is_blocked, update_whatsapp_reply,
  submit_whatsapp_reply,
}
use sawtai.Replies.Linking.{Linked, find_link}
use sawtai.Replies.Approval.{
  is_pending, is_published, is_maker, is_done, is_delivery_error, published_row, conclude, deliver,
  approve_and_deliver_reply, find_published, WhatsAppStatus, log_status, record_whatsapp_status,
}
use sawtai.Replies.Operations.{ReplyOp, edit, submit, approve, status_update, run, serve}
use sawtai.Replies.Departures.{
  AtMostOnce, Departed, released, send_text-Departed, confirmed, IsFirst,
}

conclude-AtMostOnce :
    (t u k : ℕ) (comment : Option String) (r : Reply) (out : List Delivery)
    (result : Result DeliveryReceipt) (s : Session)
    → find_reply t k s ≡ some r
    → is_pending r.status ≡ true
    → s.db ≡ s.saved
    → Departed k out result s.outbox
    → ((j : ℕ) → IsFirst j s.outbox)
    → ((j : ℕ) → confirmed j out ≤ released (get s.db.responses j))
    → AtMostOnce (request (conclude t u k comment r.status result) s).1
unfolding write_audit
conclude-AtMostOnce t u k comment r out (ok receipt) s found pending settled gone first h = record {
  rows = λ j. ground (
    arith,
    found,
    gone.counted j,
    h j,
    h k,
    gone.counted k,
    get-update s.db.responses k j (of_tenant t) (published_row u s.started receipt.external_id),
  );
  first = first;
  settled = refl;
}
conclude-AtMostOnce t u k comment r out (err e) s found pending settled gone first h =
    elim (Bool-cases (is_delivery_error e)) [
      | inl caught ↦
          rw caught (record {
            rows = λ j. omega (arith, gone.counted j, h j);
            first = first;
            settled = refl;
          })
      | inr passed_on ↦ rw passed_on (record {
        rows = λ j. rw (← settled) (omega (arith, gone.counted j, h j));
        first = first;
        settled = refl;
      })
    ]

-- a reply that waits was not confirmed
waiting :
    (t k : ℕ) (r : Reply) (s : Session)
    → find_reply t k s ≡ some r
    → is_pending r.status ≡ true
    → AtMostOnce s
    → confirmed k s.outbox ≡ 0
waiting t k r s found pending h = ground (arith, found, pending, h.rows k)

deliver-AtMostOnce :
    (g : Settings) (t u k : ℕ) (comment : Option String) (l : Linked) (r : Reply) (s : Session)
    → find_reply t k s ≡ some r
    → is_pending r.status ≡ true
    → AtMostOnce s
    → AtMostOnce (request (deliver g t u k comment l r) s).1
deliver-AtMostOnce g t u k comment l r s found pending h =
    let (result, s') = send_text g k l.recipient r.body l.external_id s in
    let same = send_text-IsOutside g k l.recipient r.body l.external_id s in
    let gone = send_text-Departed g k l.recipient r.body l.external_id s in
    conclude-AtMostOnce t u k comment r s.outbox result s' (rw same.db found) pending
      (rw (same.db, same.saved) h.settled) gone
      (λ j. gone.first (waiting t k r s found pending h) j (h.first j)) (λ j. rw same.db (h.rows j))

-- a request that raised before it did anything
unchanged : (s : Session) → AtMostOnce s → AtMostOnce (close_session s)
unchanged s h = record { rows = λ j. rw (← h.settled) (h.rows j); first = h.first; settled = refl }

drop_continue :
    {A : Type 0} (r : Result A) (s : Session) → (continue r (λ _. λ u. (ok (tt {0}), u)) s).1 ≡ s
drop_continue (ok a) s = refl
drop_continue (err e) s = refl

-- to drop the value that is returned
drop_value :
    {A : Type 0} (m : Exec A) (s : Session)
    → AtMostOnce (request m s).1
    → AtMostOnce (request (m >>= λ _. λ u. (ok (tt {0}), u)) s).1
drop_value m s h = rw (drop_continue (m s).0 (m s).1) h

approve-AtMostOnce :
    (g : Settings) (t k u : ℕ) (comment : Option String) (s : Session)
    → AtMostOnce s
    → AtMostOnce (request (run g (approve t k u comment)) s).1
unfolding run approve_and_deliver_reply
approve-AtMostOnce g t k u comment s h = elim (Option-cases (find_reply t k s)) [
  | inl absent ↦ rw (absent, require_row) (unchanged s h)
  | inr (r, found) ↦ elim (Option-cases (find_link s.db r)) [
    | inl unlinked ↦ rw (found, unlinked, require_row) (unchanged s h)
    | inr (l, linked) ↦ elim (Bool-cases (is_done r)) [
      | inl done ↦ rw (found, linked, require_row, done) (unchanged s h)
      | inr fresh ↦ elim (Bool-cases (is_pending r.status)) [
        | inr stays ↦ rw (found, linked, require_row, fresh, stays) (unchanged s h)
        | inl pending ↦ elim (Bool-cases (is_maker u r)) [
          | inl maker ↦ rw (found, linked, require_row, fresh, pending, maker) (unchanged s h)
          | inr other ↦ elim (Bool-cases (is_blocked r)) [
            | inl blocked ↦
                rw (found, linked, require_row, fresh, pending, other, blocked) (unchanged s h)
            | inr passed ↦
                rw (found, linked, require_row, fresh, pending, other, passed)
                  (drop_value (deliver g t u k comment l r) s
                    (deliver-AtMostOnce g t u k comment l r s found pending h))
          ]
        ]
      ]
    ]
  ]
]

-- the row that is changed is no published one, and does not become one
touch-AtMostOnce :
    (t k : ℕ) (f : Reply → Reply) (r : Reply) (s s' : Session)
    → find_reply t k s ≡ some r
    → is_published r.status ≡ false
    → s'.db ≡ s'.saved
    → s'.db.responses ≡ update s.db.responses k (of_tenant t) f
    → s'.outbox ≡ s.outbox
    → AtMostOnce s
    → AtMostOnce s'
touch-AtMostOnce t k f r s s' found unpublished settled e out h = record {
  rows = λ j.
      rw (e, out)
        (ground (
          arith,
          found,
          unpublished,
          h.rows j,
          h.rows k,
          get-update s.db.responses k j (of_tenant t) f,
        ));
  first = λ j. rw out (h.first j);
  settled = settled;
}

update-AtMostOnce :
    (g : Settings) (t k u : ℕ) (body : String) (s : Session)
    → AtMostOnce s
    → AtMostOnce (request (run g (edit t k u body)) s).1
unfolding run update_whatsapp_reply write_audit
update-AtMostOnce g t k u body s h = elim (Option-cases (find_reply t k s)) [
  | inl absent ↦ rw (absent, require_row) (unchanged s h)
  | inr (r, found) ↦ elim (Bool-cases (is_editable r.status)) [
    | inr stays ↦ rw (found, require_row, stays) (unchanged s h)
    | inl editable ↦
        rw (found, require_row, editable)
          (touch-AtMostOnce t k _ r s _ found (ground arith) refl refl refl h)
  ]
]

submit-AtMostOnce :
    (g : Settings) (t k u : ℕ) (s : Session)
    → AtMostOnce s
    → AtMostOnce (request (run g (submit t k u)) s).1
unfolding run submit_whatsapp_reply write_audit
submit-AtMostOnce g t k u s h = elim (Option-cases (find_reply t k s)) [
  | inl absent ↦ rw (absent, require_row) (unchanged s h)
  | inr (r, found) ↦ elim (Bool-cases (is_draft r.status)) [
    | inr stays ↦ rw (found, require_row, stays) (unchanged s h)
    | inl drafted ↦ elim (Bool-cases (ltb (length (strip s.world.is_space r.body)) 10)) [
      | inl short ↦ rw (found, require_row, drafted, short) (unchanged s h)
      | inr long ↦ elim (Bool-cases (is_blocked r)) [
        | inl blocked ↦ rw (found, require_row, drafted, long, blocked) (unchanged s h)
        | inr passed ↦
            rw (found, require_row, drafted, long, passed)
              (touch-AtMostOnce t k _ r s _ found (ground arith) refl refl refl h)
      ]
    ]
  ]
]

log_status-AtMostOnce :
    (t : ℕ) (e : WhatsAppStatus) (o : Option ℕ) (s : Session)
    → AtMostOnce s
    → AtMostOnce (request (log_status t e o) s).1
unfolding write_audit
log_status-AtMostOnce t e none s h = unchanged s h
log_status-AtMostOnce t e (some k) s h = record { rows = h.rows; first = h.first; settled = refl }

run-AtMostOnce :
    (g : Settings) (op : ReplyOp) (s : Session) → AtMostOnce s → AtMostOnce (request (run g op) s).1
unfolding run record_whatsapp_status
run-AtMostOnce g (edit t k u body) s h = update-AtMostOnce g t k u body s h
run-AtMostOnce g (submit t k u) s h = submit-AtMostOnce g t k u s h
run-AtMostOnce g (approve t k u comment) s h = approve-AtMostOnce g t k u comment s h
run-AtMostOnce g (status_update e) s h =
    log_status-AtMostOnce g.whatsapp_tenant_id e
      (find_published g.whatsapp_tenant_id e.id (rows s.db.responses)) s h

-- Suppose that nothing waits to be committed, that each reply was confirmed by the channel at most
-- once, and only if it is published, and that no message with it left, nor may have left, after
-- that. Then this is so after any edits, submissions, approvals, repeated approvals and status
-- updates. A message may have left if its POST ended with neither a reference nor a failure to
-- reach the channel: of such messages the theorem says only that none follows a confirmed one.
pub serve-AtMostOnce :
    (g : Settings) (ops : List ReplyOp) (s : Session) → AtMostOnce s → AtMostOnce (serve g ops s)
unfolding serve
serve-AtMostOnce g [] s h = h
serve-AtMostOnce g (op ∷ ops) s h =
    serve-AtMostOnce g ops (request (run g op) s).1 (run-AtMostOnce g op s h)
