-- ===== src/Replies/Drafts.antt =====
-- `update_whatsapp_reply` and `submit_whatsapp_reply`, and the statements on core.responses.
use Prim.Native.String.{◌++◌}
use sawtai.Prelude.{
  ℕ, String, Bool, true, false, not, ◌||◌, Option, none, some, [], ◌∷◌, coalesce, where_row, ltb,
  ◌==◌,
}
use sawtai.Table.{get, update}
use sawtai.Text.{length, strip}
use sawtai.Schema.{
  ReplyStatus, draft, pending_approval, approved, rejected, published, withdrawn, Reply, Db, str,
}
use sawtai.Session.{
  Session, Exec, lookup_error, value_error, ◌>>=◌, ◌>>◌, pure, require_row, raise_if, gets, sql_now,
  modify, commit,
}
use sawtai.Audit.{event, write_audit}
use sawtai.Replies.Distance.{edit_distance}

abbrev pub status_name : ReplyStatus → String
status_name draft = "draft"
status_name pending_approval = "pending_approval"
status_name approved = "approved"
status_name rejected = "rejected"
status_name published = "published"
status_name withdrawn = "withdrawn"

abbrev pub is_editable : ReplyStatus → Bool
is_editable draft = true
is_editable pending_approval = true
is_editable s = false

abbrev pub is_draft : ReplyStatus → Bool
is_draft draft = true
is_draft s = false

abbrev pub of_tenant : ℕ → Reply → Bool
of_tenant tenant_id r = r.tenant_id == tenant_id

-- SELECT ... WHERE response_id = :response_id AND tenant_id = :tenant_id FOR UPDATE
abbrev pub find_reply : ℕ → ℕ → Session → Option Reply
find_reply tenant_id response_id s =
    where_row (of_tenant tenant_id) (get s.db.responses response_id)

-- UPDATE core.responses SET f WHERE response_id = :response_id AND tenant_id = :tenant_id
abbrev pub update_responses : ℕ → ℕ → (Reply → Reply) → Db → Db
update_responses tenant_id response_id f db = record db {
  responses = update db.responses response_id (of_tenant tenant_id) f;
}

-- float(grounding_score or 0.0) < 0.6, or a flag, or the generator abstained
abbrev pub is_blocked : Reply → Bool
is_blocked r = r.abstained || (r.policy_flags || ltb (coalesce r.grounding_score 0) 600)

-- SET of `update_whatsapp_reply`
abbrev pub edited_row : ℕ → String → ℕ → Reply → Reply
edited_row editor body distance r = record r {
  body = body;
  status = draft;
  edited_by = some editor;
  created_by = some (coalesce r.created_by editor);
  edit_distance = some distance;
  submitted_at = none;
}

-- SET of `submit_whatsapp_reply`
abbrev pub submitted_row : ℕ → ℕ → Reply → Reply
submitted_row submitter at r = record r {
  status = pending_approval;
  submitted_at = some at;
  created_by = some (coalesce r.created_by submitter);
  edited_by = some (coalesce r.edited_by submitter);
}

pub record UpdatedReply : Type 0 where
  pub body : String
  pub edit_distance : ℕ

unfoldable pub update_whatsapp_reply : ℕ → ℕ → ℕ → String → Exec UpdatedReply
update_whatsapp_reply tenant_id response_id editor_user_id body = do
  w ← gets (λ s. s.world)
  let normalized = strip w.is_space body
  found ← gets (find_reply tenant_id response_id)
  row ← require_row found (lookup_error "Reply not found")
  raise_if (not (is_editable row.status))
      (value_error ("Reply cannot be edited from status " ++ status_name row.status))
  let distance = edit_distance row.body normalized
  modify (update_responses tenant_id response_id (edited_row editor_user_id normalized distance))
  let e = event tenant_id editor_user_id "response.edit" "response" response_id
  write_audit (record e {
    before_state = some (("status", str (status_name row.status)) ∷ ("body", str row.body) ∷ []);
    after_state = some (("status", str "draft") ∷ ("body", str normalized) ∷ []);
  })
  commit
  pure (record { body = normalized; edit_distance = distance })

unfoldable pub submit_whatsapp_reply : ℕ → ℕ → ℕ → Exec (Unit {0})
submit_whatsapp_reply tenant_id response_id submitter_user_id = do
  w ← gets (λ s. s.world)
  found ← gets (find_reply tenant_id response_id)
  row ← require_row found (lookup_error "Reply not found")
  raise_if (not (is_draft row.status))
      (value_error ("Reply cannot be submitted from status " ++ status_name row.status))
  raise_if (ltb (length (strip w.is_space row.body)) 10)
      (value_error "Reply is too short to submit")
  raise_if (is_blocked row) (value_error "Reply did not pass grounding and policy checks")
  at ← sql_now
  modify (update_responses tenant_id response_id (submitted_row submitter_user_id at))
  let e = event tenant_id submitter_user_id "response.submit" "response" response_id
  write_audit (record e {
    before_state = some (("status", str "draft") ∷ []);
    after_state = some (("status", str "pending_approval") ∷ []);
  })
  commit
