-- ===== src/Replies/Review.antt =====
-- Maker and checker: what the columns of a reply say about who wrote it and who let it out.
use sawtai.Prelude.{
  ℕ, String, ◌≡◌, ◌≢◌, true, false, inl, inr, Bool-cases, Option-cases, Option, none, some, arith,
  is_some, where_row, Holds, ltb,
}
use sawtai.Text.{length, strip}
use sawtai.Table.{get, get-update}
use sawtai.Schema.{Reply, Db}
use sawtai.Session.{◌>>◌, pure, commit, require_row}
use sawtai.Session.Effects.{Both, Keeps, Keeps-bind, Keeps-request, Keeps-modify, keeps_rules}
use sawtai.Audit.Keeps.{Keeps-write_audit}
use sawtai.Audit.{Event, write_audit}
use sawtai.Replies.Drafts.{
  is_editable, is_draft, of_tenant, find_reply, update_responses, is_blocked, edited_row,
  submitted_row, update_whatsapp_reply, submit_whatsapp_reply,
}
use sawtai.Replies.Approval.{is_pending, is_published, is_maker, published_row}

-- the reply has an author, who was recorded
abbrev pub IsSigned : Reply → Type 0
IsSigned r = (is_some r.created_by ≡ true) × (is_some r.edited_by ≡ true)

-- somebody else than the recorded authors approved it
abbrev pub IsChecked : Option ℕ → Reply → Type 0
IsChecked none r = ⊥
IsChecked (some u) r = (r.created_by ≢ some u) × (r.edited_by ≢ some u)

not_maker : (u : ℕ) (r : Reply) → is_maker u r ≡ false → IsChecked (some u) r
not_maker u r h = (λ e. absurd (ground (arith, h, e)), λ e. absurd (ground (arith, h, e)))

-- A reply that waits for approval has authors and the time of its submission, and passed the
-- checks of grounding and policy; one that was published passed them too, and a user other than
-- its authors approved it, at a time on record.
pub record IsReviewed (r : Reply) : Type 0 where
  pub signed : is_pending r.status ≡ true → IsSigned r × (is_some r.submitted_at ≡ true)
  pub passed_pending : is_pending r.status ≡ true → is_blocked r ≡ false
  pub checked : is_published r.status ≡ true → IsChecked r.approved_by r
  pub passed : is_published r.status ≡ true → is_blocked r ≡ false
  pub dated : is_published r.status ≡ true → is_some r.published_at ≡ true

pub record HasReviewed (db : Db) : Type 0 where
  pub rows : (k : ℕ) → Holds IsReviewed (get db.responses k)

pub HasReviewed-write_audit : (e : Event) → Keeps (Both HasReviewed) (write_audit e)
HasReviewed-write_audit = Keeps-write_audit (λ db log h. record { rows = h.rows })

pub ruleset review_rules = (keeps_rules, HasReviewed-write_audit)

-- a row that was found, and a change that is right for it
pub found-HasReviewed :
    (t k : ℕ) (f : Reply → Reply) (r : Reply) (db : Db)
    → where_row (of_tenant t) (get db.responses k) ≡ some r
    → IsReviewed (f r)
    → HasReviewed db
    → HasReviewed (update_responses t k f db)
found-HasReviewed t k f r db found good h = record {
  rows = λ j. ground (arith, found, get-update db.responses k j (of_tenant t) f, h.rows j);
}

edited_row-IsReviewed :
    (u : ℕ) (body : String) (d : ℕ) (r : Reply) → IsReviewed (edited_row u body d r)
edited_row-IsReviewed u body d r = ground arith

submitted_row-IsReviewed :
    (u at : ℕ) (r : Reply) → is_blocked r ≡ false → IsReviewed (submitted_row u at r)
submitted_row-IsReviewed u at r h = ground (arith, h)

pub published_row-IsReviewed :
    (u at : ℕ) (ref : String) (r : Reply)
    → is_maker u r ≡ false
    → is_blocked r ≡ false
    → IsReviewed (published_row u at ref r)
published_row-IsReviewed u at ref r maker h =
    ground (arith, h, (not_maker u r maker).0, (not_maker u r maker).1)

pub finish-HasReviewed :
    {A : Type 0} (e : Event) (a : A)
    → Keeps (Both HasReviewed) (write_audit e >> (commit >> pure a))
finish-HasReviewed e a = search review_rules

pub update-HasReviewed :
    (t k u : ℕ) (body : String) → Keeps (Both HasReviewed) (update_whatsapp_reply t k u body)
unfolding update_whatsapp_reply
update-HasReviewed t k u body = record {
  at = λ s h. elim (Option-cases (find_reply t k s)) [
    | inl absent ↦ rw (absent, require_row) h
    | inr (r, found) ↦ elim (Bool-cases (is_editable r.status)) [
      | inr stays ↦ rw (found, require_row, stays) h
      | inl editable ↦
          rw (found, require_row, editable)
            ((finish-HasReviewed _ _).at _ (record {
              opened =
                  found-HasReviewed t k _ r s.db found (edited_row-IsReviewed u _ _ r) h.opened;
              saved = h.saved;
            }))
    ]
  ];
}

pub done-HasReviewed : (e : Event) → Keeps (Both HasReviewed) (write_audit e >> commit)
done-HasReviewed e = search review_rules

pub submit-HasReviewed : (t k u : ℕ) → Keeps (Both HasReviewed) (submit_whatsapp_reply t k u)
unfolding submit_whatsapp_reply
submit-HasReviewed t k u = record {
  at = λ s h. elim (Option-cases (find_reply t k s)) [
    | inl absent ↦ rw (absent, require_row) h
    | inr (r, found) ↦ elim (Bool-cases (is_draft r.status)) [
      | inr stays ↦ rw (found, require_row, stays) h
      | inl drafted ↦ elim (Bool-cases (ltb (length (strip s.world.is_space r.body)) 10)) [
        | inl short ↦ rw (found, require_row, drafted, short) h
        | inr long ↦ elim (Bool-cases (is_blocked r)) [
          | inl blocked ↦ rw (found, require_row, drafted, long, blocked) h
          | inr passed ↦
              rw (found, require_row, drafted, long, passed)
                ((done-HasReviewed _).at _ (record {
                  opened =
                      found-HasReviewed t k _ r s.db found
                        (submitted_row-IsReviewed u s.started r passed) h.opened;
                  saved = h.saved;
                }))
        ]
      ]
    ]
  ];
}
