-- ===== src/Examples/ReplyExamples.antt =====
-- The theorems on replies and on notifications.
use sawtai.Prelude.{String, ◌+◌, ◌≤◌, ◌≡◌, ◌↔◌, refl, true, false, none, some, List, [], ◌∷◌, arith}
use sawtai.Schema.{Reply, AuditRow, uuid}
use sawtai.Session.{Session, ok, err, delivery_error}
use sawtai.Session.Effects.{Both}
use sawtai.Replies.Distance.{edit_distance}
use sawtai.Replies.Metric.{edit_distance_zero_iff, edit_distance_triangle}
use sawtai.Replies.Delivery.{Settings, simulate, live, send_text}
use sawtai.Replies.Drafts.{find_reply, update_whatsapp_reply}
use sawtai.Ingest.Messages.{find_message}
use sawtai.Replies.Linking.{Linked, find_link, link_of, find_run, find_author}
use sawtai.Replies.Approval.{ApprovedDelivery, approve_and_deliver_reply, is_maker}
use sawtai.Replies.Operations.{ReplyOp, edit, approve, serve}
use sawtai.Replies.Review.{IsReviewed, HasReviewed}
use sawtai.Replies.MakerChecker.{serve-HasReviewed}
use sawtai.Replies.Once.{serve-AtMostOnce}
use sawtai.Replies.Departures.{AtMostOnce}
use sawtai.Replies.Outcomes.{
  IsPublishedBy, IsSuccessRow, approve_failure, approve_success, approve_idem,
  update_forgets_editor,
}
use sawtai.Audit.{write_audit}
use sawtai.Notifications.Reading.{has_recipient, mark_notification_read}
use sawtai.Notifications.Laws.{mark_read_idem}
use sawtai.Examples.Fixtures.{
  a_world, a_case, a_reply, db_with, session_with, a_session, one_row, reply_there,
}

abbrev simulated : Settings
simulated = record {
  whatsapp_delivery_mode = simulate;
  whatsapp_access_token = "";
  whatsapp_phone_number_id = "";
  whatsapp_tenant_id = 1;
}

-- live delivery that nobody configured
abbrev unset : Settings
unset = record simulated { whatsapp_delivery_mode = live }

-- the author tries, another user approves twice, and the author edits what is out
abbrev a_day : List ReplyOp
a_day = approve 1 5 3 none ∷ approve 1 5 4 none ∷ approve 1 5 4 none ∷ edit 1 5 3 "Other text." ∷ []

a_reply-IsReviewed : IsReviewed a_reply
a_reply-IsReviewed = ground arith

serve-HasReviewed_example : Both HasReviewed (serve simulated a_day a_session)
serve-HasReviewed_example = serve-HasReviewed simulated a_day a_session (record {
  opened = record { rows = λ k. one_row IsReviewed 5 a_reply k a_reply-IsReviewed };
  saved = record { rows = λ k. one_row IsReviewed 5 a_reply k a_reply-IsReviewed };
})

serve-AtMostOnce_example : AtMostOnce (serve simulated a_day a_session)
serve-AtMostOnce_example =
    serve-AtMostOnce simulated a_day a_session
      (record { rows = λ k. omega arith; first = λ k. tt; settled = refl })

reply_found : find_reply 1 5 a_session ≡ some a_reply
reply_found = rw (reply_there a_case a_reply) refl

-- of the citizen whom the reply answers
abbrev a_link : Linked
a_link = record { external_id = "wamid.0"; recipient = "971500000009" }

linked : find_link a_session.db a_reply ≡ some a_link
unfolding link_of find_run find_message find_author
linked = refl

approve_failure_example :
    ((approve_and_deliver_reply 1 5 4 unset none a_session).0
      ≡ err (delivery_error "Live WhatsApp delivery is not configured"))
    × ((approve_and_deliver_reply 1 5 4 unset none a_session).1.saved.responses
        ≡ a_session.db.responses)
    × ((row : AuditRow) × ((approve_and_deliver_reply 1 5 4 unset none a_session).1.saved.audit_log
          ≡ row ∷ [])
        × (row.outcome ≡ "error")
        × (row.actor_user_id ≡ some 4))
unfolding send_text
approve_failure_example =
    approve_failure 1 5 4 unset none a_session a_reply a_link
      "Live WhatsApp delivery is not configured" reply_found linked (refl, refl, refl, refl) refl

abbrev first_ref : ApprovedDelivery
first_ref = record { published_ref = "simulated:00000000"; simulated = true }

approve_success_example :
    ((approve_and_deliver_reply 1 5 4 simulated none a_session).0 ≡ ok first_ref)
    × ((approve_and_deliver_reply 1 5 4 simulated none a_session).1.db
        ≡ (approve_and_deliver_reply 1 5 4 simulated none a_session).1.saved)
    × ((after : Reply) × (find_reply 1 5
            (approve_and_deliver_reply 1 5 4 simulated none a_session).1
          ≡ some after)
        × IsPublishedBy 4 0 "simulated:00000000" a_reply after)
    × ((row : AuditRow) × ((approve_and_deliver_reply 1 5 4 simulated none
            a_session).1.saved.audit_log
          ≡ row ∷ a_session.db.audit_log)
        × IsSuccessRow 1 4 5 row)
unfolding send_text
approve_success_example =
    approve_success 1 5 4 simulated none a_session a_reply a_link
      (record { external_id = "simulated:00000000"; simulated = true }) reply_found linked
      (refl, refl, refl, refl) refl

approve_idem_example :
    (d' : ApprovedDelivery) × (approve_and_deliver_reply 1 5 8 unset none
        (approve_and_deliver_reply 1 5 4 simulated none a_session).1
      ≡ (ok d', (approve_and_deliver_reply 1 5 4 simulated none a_session).1))
    × (d'.published_ref ≡ "simulated:00000000")
approve_idem_example =
    approve_idem 1 5 4 8 simulated unset none none a_session first_ref approve_success_example.0
      refl

-- written by 3, edited by 4
abbrev edited : Reply
edited = record a_reply { edited_by = some 4 }

abbrev edited_session : Session
edited_session = session_with a_world (db_with a_case edited)

edited_found : find_reply 1 5 edited_session ≡ some edited
edited_found = rw (reply_there a_case edited) refl

update_forgets_editor_example :
    (r' : Reply) × (find_reply 1 5 (update_whatsapp_reply 1 5 9 "Another text." edited_session).1
      ≡ some r')
    × (is_maker 4 edited ≡ true)
    × (is_maker 4 r' ≡ false)
update_forgets_editor_example =
    update_forgets_editor 1 5 9 4 "Another text." edited_session edited edited_found refl refl refl
      refl refl

edit_distance_zero_iff_example :
    (edit_distance "salam" "salaam" ≡ 0) ↔ ◌≡◌ {A = String} "salam" "salaam"
edit_distance_zero_iff_example = edit_distance_zero_iff "salam" "salaam"

edit_distance_triangle_example :
    edit_distance "abc" "xyz" ≤ edit_distance "abc" "abz" + edit_distance "abz" "xyz"
edit_distance_triangle_example = edit_distance_triangle "abc" "abz" "xyz"

abbrev a_notice : AuditRow
a_notice = record {
  audit_id = 0;
  tenant_id = 1;
  occurred_at = 900;
  actor_user_id = none;
  actor_type = "system";
  action = "notification.trigger";
  object_type = "notification";
  object_id = some 12;
  outcome = "success";
  before_state = none;
  after_state = some (("recipient_user_id", uuid 3) ∷ []);
  prev_hash = none;
  row_hash = [];
}

-- the ledger has a notice for the user 3, with the id 12
abbrev noticed_session : Session
noticed_session =
    session_with a_world (record (db_with a_case a_reply) { audit_log = a_notice ∷ [] })

mark_read_idem_example :
    mark_notification_read 1 3 12 (mark_notification_read 1 3 12 noticed_session).1
    ≡ (ok tt, (mark_notification_read 1 3 12 noticed_session).1)
unfolding mark_notification_read write_audit has_recipient
mark_read_idem_example = mark_read_idem 1 3 12 noticed_session refl
