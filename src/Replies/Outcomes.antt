-- ===== src/Replies/Outcomes.antt =====
-- When a reply is let out, and what an approval leaves behind on each path.
use sawtai.Prelude.{
  ℕ, String, ◌≡◌, refl, ap, true, false, inl, inr, Bool-cases, Option-cases, Option, some, ◌∷◌,
  arith, is_some, where_row, coalesce, ◌==◌,
}
use sawtai.Table.{get, update, get-update}
use sawtai.Text.{is_empty}
use sawtai.Schema.{published, Reply, AuditRow}
use sawtai.Session.{Session, Result, ok, err, delivery_error, require_row}
use sawtai.Audit.{entry, write_audit}
use sawtai.Session.Post.{IfOk, Ensures, Ensures-ok}
use sawtai.Replies.Delivery.{Settings, DeliveryReceipt, send_text}
use sawtai.Replies.Sending.{IsOutside, send_text-IsOutside}
use sawtai.Replies.Drafts.{
  is_editable, of_tenant, find_reply, is_blocked, edited_row, update_whatsapp_reply,
}
use sawtai.Replies.Linking.{Linked, find_link}
use sawtai.Replies.Approval.{
  is_pending, is_published, is_delivery_error, is_maker, is_user, is_done, or_empty,
  ApprovedDelivery, publication, published_row, known_delivery, conclude, failure_event, deliver,
  approve_and_deliver_reply,
}

-- `approve_and_deliver_reply` reaches the call of `send_text`
abbrev pub IsApprovable : ℕ → Reply → Type 0
IsApprovable u r =
    (is_done r ≡ false)
    × (is_pending r.status ≡ true)
    × (is_maker u r ≡ false)
    × (is_blocked r ≡ false)

approve-eq-deliver :
    (t k u : ℕ) (g : Settings) (comment : Option String) (s : Session) (r : Reply) (l : Linked)
    → find_reply t k s ≡ some r
    → find_link s.db r ≡ some l
    → IsApprovable u r
    → approve_and_deliver_reply t k u g comment s ≡ deliver g t u k comment l r s
unfolding approve_and_deliver_reply
approve-eq-deliver t k u g comment s r l found linked (fresh, pending, other, passed) =
    rw (found, linked, require_row, fresh, pending, other, passed) refl

-- the call of `send_text` that is made for a reply
abbrev pub send_reply : Settings → ℕ → Linked → Reply → Session → Result DeliveryReceipt × Session
send_reply g k l r = send_text g k l.recipient r.body l.external_id

-- For a reply whose run, message and author are on record, and that the approver may let out: if the channel refuses the message, the approval
-- raises the channel's error; all replies are
-- committed as they were; and one ledger row is committed, which is an error of the approver.
pub approve_failure :
    (t k u : ℕ) (g : Settings) (comment : Option String) (s : Session) (r : Reply) (l : Linked)
    (why : String)
    → find_reply t k s ≡ some r
    → find_link s.db r ≡ some l
    → IsApprovable u r
    → (send_reply g k l r s).0 ≡ err (delivery_error why)
    → let (result, s') = approve_and_deliver_reply t k u g comment s in
      (result ≡ err (delivery_error why))
      × (s'.saved.responses ≡ s.db.responses)
      × ((row : AuditRow) × (s'.saved.audit_log ≡ row ∷ s.db.audit_log)
          × (row.outcome ≡ "error")
          × (row.actor_user_id ≡ some u))
unfolding write_audit entry
approve_failure t k u g comment s r l why found linked may refused =
    rw (approve-eq-deliver t k u g comment s r l found linked may, refused)
      (
        refl,
        ap (λ db. db.responses) same.db,
        (row, ap (λ db. row ∷ db.audit_log) same.db, refl, refl),
      )
  where
    same : IsOutside s (send_reply g k l r s).1
    same = send_text-IsOutside g k l.recipient r.body l.external_id s

    row : AuditRow
    row =
        let s' = (send_reply g k l r s).1 in
        entry s'.world (failure_event t u k) s'.serial (s'.world.clock s'.reads) s'.db.audit_log

published_found :
    (t k : ℕ) (r : Reply) (s : Session) (f : Reply → Reply)
    → find_reply t k s ≡ some r
    → (f r).tenant_id ≡ r.tenant_id
    → where_row (of_tenant t) (get (update s.db.responses k (of_tenant t) f) k) ≡ some (f r)
published_found t k r s f found same =
    ground (arith, found, same, get-update s.db.responses k k (of_tenant t) f)

-- what an approval makes of a waiting reply: the new columns, and what stays
pub record IsPublishedBy (u at : ℕ) (ref : String) (r after : Reply) : Type 0 where
  pub status : after.status ≡ published
  pub approver : after.approved_by ≡ some u
  pub approval : after.approved_at ≡ some (coalesce r.approved_at at)
  pub publication : after.published_at ≡ some at
  pub reference : after.published_ref ≡ some ref
  pub text : after.body ≡ r.body
  pub makers : (after.created_by ≡ r.created_by) × (after.edited_by ≡ r.edited_by)

-- the row of the ledger for a success
pub record IsSuccessRow (t u k : ℕ) (row : AuditRow) : Type 0 where
  pub tenant : row.tenant_id ≡ t
  pub actor : row.actor_user_id ≡ some u
  pub action : row.action ≡ "response.publish"
  pub object : row.object_id ≡ some k
  pub outcome : row.outcome ≡ "success"

-- For a reply whose run, message and author are on record, and that the approver may let out: if the channel accepts the message, the call returns
-- the reference of the receipt; the reply is committed as published now under this reference, with
-- the approver as its approved_by, the time of an earlier approval or else now as its
-- approved_at, and with its text and makers as they were; and one ledger row is committed, a
-- success of the approver on this reply.
pub approve_success :
    (t k u : ℕ) (g : Settings) (comment : Option String) (s : Session) (r : Reply) (l : Linked)
    (receipt : DeliveryReceipt)
    → find_reply t k s ≡ some r
    → find_link s.db r ≡ some l
    → IsApprovable u r
    → (send_reply g k l r s).0 ≡ ok receipt
    → let (result, s') = approve_and_deliver_reply t k u g comment s in
      (result ≡ ok (record { published_ref = receipt.external_id; simulated = receipt.simulated }))
      × (s'.db ≡ s'.saved)
      × ((after : Reply) × (find_reply t k s' ≡ some after)
          × IsPublishedBy u (send_reply g k l r s).1.started receipt.external_id r after)
      × ((row : AuditRow) × (s'.saved.audit_log ≡ row ∷ s.db.audit_log) × IsSuccessRow t u k row)
unfolding write_audit entry
approve_success t k u g comment s r l receipt found linked may accepted =
    rw (approve-eq-deliver t k u g comment s r l found linked may, accepted)
      (
        refl,
        refl,
        (
          after,
          rw same.db (
              published_found t k r s
                (published_row u (send_reply g k l r s).1.started receipt.external_id) found refl),
          record {
            status = refl;
            approver = refl;
            approval = refl;
            publication = refl;
            reference = refl;
            text = refl;
            makers = (refl, refl);
          },
        ),
        (
          row,
          ap (λ db. row ∷ db.audit_log) same.db,
          record { tenant = refl; actor = refl; action = refl; object = refl; outcome = refl },
        ),
      )
  where
    same : IsOutside s (send_reply g k l r s).1
    same = send_text-IsOutside g k l.recipient r.body l.external_id s

    after : Reply
    after = published_row u (send_reply g k l r s).1.started receipt.external_id r

    row : AuditRow
    row =
        let s' = (send_reply g k l r s).1 in
        entry s'.world (publication t u k comment r.status receipt) s'.serial
          (s'.world.clock s'.reads) s'.db.audit_log

-- the reply was published under `ref`
abbrev Released : ℕ → ℕ → String → Session → Type 0
Released t k ref s =
    (r : Reply) × (l : Linked) × (find_reply t k s ≡ some r)
    × (find_link s.db r ≡ some l)
    × (is_published r.status ≡ true)
    × (or_empty r.published_ref ≡ ref)

conclude-Released :
    (t u k : ℕ) (comment : Option String) (r : Reply) (l : Linked) (result : Result DeliveryReceipt)
    (s : Session)
    → find_reply t k s ≡ some r
    → find_link s.db r ≡ some l
    → IfOk (λ d s'. Released t k d.published_ref s') (conclude t u k comment r.status result s)
unfolding write_audit
conclude-Released t u k comment r l (ok receipt) s found linked = (
  _,
  l,
  published_found t k r s (published_row u s.started receipt.external_id) found refl,
  linked,
  refl,
  refl,
)
conclude-Released t u k comment r l (err e) s found linked =
    elim (Bool-cases (is_delivery_error e)) [
      | inl caught ↦ rw caught tt
      | inr passed_on ↦ rw passed_on tt
    ]

approve-Released :
    (t k u : ℕ) (g : Settings) (comment : Option String)
    → Ensures (λ d s'. Released t k d.published_ref s') (approve_and_deliver_reply t k u g comment)
unfolding approve_and_deliver_reply
approve-Released t k u g comment = record {
  at = λ s. elim (Option-cases (find_reply t k s)) [
    | inl absent ↦ rw (absent, require_row) tt
    | inr (r, found) ↦ elim (Option-cases (find_link s.db r)) [
      | inl unlinked ↦ rw (found, unlinked, require_row) tt
      | inr (l, linked) ↦ elim (Bool-cases (is_done r)) [
        | inl done ↦
            rw (found, linked, require_row, done) (r, l, found, linked, ground (arith, done), refl)
        | inr fresh ↦ elim (Bool-cases (is_pending r.status)) [
          | inr stays ↦ rw (found, linked, require_row, fresh, stays) tt
          | inl pending ↦ elim (Bool-cases (is_maker u r)) [
            | inl maker ↦ rw (found, linked, require_row, fresh, pending, maker) tt
            | inr other ↦ elim (Bool-cases (is_blocked r)) [
              | inl blocked ↦ rw (found, linked, require_row, fresh, pending, other, blocked) tt
              | inr passed ↦
                  rw (found, linked, require_row, fresh, pending, other, passed)
                    (conclude-Released t u k comment r l (send_reply g k l r s).0
                      (send_reply g k l r s).1
                      (rw (send_text-IsOutside g k l.recipient r.body l.external_id s).db found)
                      (rw (send_text-IsOutside g k l.recipient r.body l.external_id s).db linked))
            ]
          ]
        ]
      ]
    ]
  ];
}

again :
    (t k v : ℕ) (g : Settings) (comment : Option String) (ref : String) (s : Session)
    → Released t k ref s
    → is_empty ref ≡ false
    → (d : ApprovedDelivery) × (approve_and_deliver_reply t k v g comment s ≡ (ok d, s))
      × (d.published_ref ≡ ref)
unfolding approve_and_deliver_reply
again t k v g comment ref s (r, l, found, linked, out, e) full =
    (known_delivery r, rw (found, linked, require_row, done) refl, e)
  where
    done : is_done r ≡ true
    done = rw (out, e, full) refl

-- Approving again. After an approval that returned a reference which is not empty,
-- a further approval by anyone of
-- the tenant, under any settings, returns the same reference, sends nothing and changes nothing.
pub approve_idem :
    (t k u v : ℕ) (g h : Settings) (first second : Option String) (s : Session)
    (d : ApprovedDelivery)
    → (approve_and_deliver_reply t k u g first s).0 ≡ ok d
    → is_empty d.published_ref ≡ false
    → let s' = (approve_and_deliver_reply t k u g first s).1 in
      (d' : ApprovedDelivery) × (approve_and_deliver_reply t k v h second s' ≡ (ok d', s'))
      × (d'.published_ref ≡ d.published_ref)
approve_idem t k u v g h first second s d e full =
    again t k v h second d.published_ref _ (Ensures-ok (approve-Released t k u g first) s d e) full

-- Who counts as a maker. A user who edited an editable reply last, and did not create it, counts as
-- one of its makers; once another user edits it they do not, and the guard lets them approve a text
-- that is partly theirs.
pub update_forgets_editor :
    (t k c b : ℕ) (body : String) (s : Session) (r : Reply)
    → find_reply t k s ≡ some r
    → is_editable r.status ≡ true
    → r.edited_by ≡ some b
    → is_user b r.created_by ≡ false
    → b == c ≡ false
    → is_some r.created_by ≡ true
    → let s' = (update_whatsapp_reply t k c body s).1 in
      (r' : Reply) × (find_reply t k s' ≡ some r') × (is_maker b r ≡ true) × (is_maker b r' ≡ false)
unfolding update_whatsapp_reply write_audit
update_forgets_editor t k c b body s r found editable edited other differs written =
    rw (found, require_row, editable)
      (
        _,
        published_found t k r s (edited_row c _ _) found refl,
        ground (arith, edited),
        ground (arith, other, differs, written),
      )
