-- ===== src/Cases/Soundness.antt =====
-- What the columns of a case say about each other, and the operations that cannot disturb it.
use sawtai.Prelude.{
  ℕ, String, ◌≡◌, refl, Bool, true, inl, inr, Bool-cases, ◌||◌, Option, none, some, arith, is_some,
  Holds,
}
use sawtai.Table.{get, get-put, get-update, changed}
use sawtai.Schema.{Severity, Case, Complaint, Reference, Db}
use sawtai.Session.{modify}
use sawtai.Session.Effects.{
  Both, Keeps, Keeps-bind, Keeps-commit, Keeps-request, Keeps-modify, keeps_rules,
}
use sawtai.Audit.Keeps.{Keeps-write_audit}
use sawtai.Audit.{Event, write_audit}
use sawtai.Cases.Status.{needs_assignee}
use sawtai.Cases.Rows.{update_cases, insert_case}
use sawtai.Cases.Create.{route, due_at, new_case, create_case}
use sawtai.Cases.Edit.{update_case, add_case_note, escalate_case}
use sawtai.Cases.Workflow.{is_finished, is_responded}
use sawtai.Cases.Intake.{insert_complaint, open_case}

-- a case is resolved or closed exactly if it has a time of resolution; from its first assignment
-- on it has an assignee; and once responded it has a time of first response
pub record IsSound (c : Case) : Type 0 where
  pub finished_resolved : is_finished c.status ≡ is_some c.resolved_at
  pub held : needs_assignee c.status || is_finished c.status ≡ true → is_some c.assigned_to ≡ true
  pub answered : is_responded c.status ≡ true → is_some c.first_response_at ≡ true

pub record HasSoundCases (db : Db) : Type 0 where
  pub rows : (k : ℕ) → Holds IsSound (get db.cases k)

pub HasSoundCases-write_audit : (e : Event) → Keeps (Both HasSoundCases) (write_audit e)
HasSoundCases-write_audit = Keeps-write_audit (λ db log h. record { rows = h.rows })

pub route-HasSoundCases : (t : ℕ) (place : Option ℕ) → Keeps (Both HasSoundCases) (route t place)
unfolding route
route-HasSoundCases t none = search keeps_rules
route-HasSoundCases t (some k) = record { at = λ s h. ground arith }

pub due_at-HasSoundCases : (h : Option ℕ) → Keeps (Both HasSoundCases) (due_at h)
unfolding due_at
due_at-HasSoundCases none = search keeps_rules
due_at-HasSoundCases (some h) = search keeps_rules

pub insert_case-HasSoundCases :
    (k : ℕ) (c : Case) → IsSound c → Keeps (Both HasSoundCases) (insert_case k c)
unfolding insert_case
insert_case-HasSoundCases k c sound = record {
  at = λ s h. record {
    opened = record { rows = λ j. ground (arith, get-put s.db.cases k j c, h.opened.rows j) };
    saved = record { rows = λ j. ground (arith, h.saved.rows j) };
  };
}

pub new_case-IsSound :
    (t : ℕ) (r : Reference) (ar en : String) (place unit : Option ℕ) (v : Severity) (due : Option ℕ)
    (at : ℕ)
    → IsSound (new_case t r ar en place unit v due at)
new_case-IsSound t r ar en place unit v due at = ground arith

pub ruleset sound_rules = (
  keeps_rules, HasSoundCases-write_audit, route-HasSoundCases, due_at-HasSoundCases,
  insert_case-HasSoundCases, new_case-IsSound,
)

pub create_case-HasSoundCases :
    (t a : ℕ) (ar en : String) (place : Option ℕ) (v : Severity)
    → Keeps (Both HasSoundCases) (create_case t a ar en place v)
unfolding create_case
create_case-HasSoundCases t a ar en place v = search sound_rules depth 20

update-HasSoundCases :
    (k : ℕ) (p : Case → Bool) (f : Case → Case)
    → ((c : Case) → IsSound c → IsSound (f c))
    → Keeps (Both HasSoundCases) (modify (update_cases k p f))
update-HasSoundCases k p f kf = Keeps-modify (update_cases k p f) λ db h. record {
  rows = λ j.
      ground
        (arith, get-update db.cases k j p f, h.rows j, changed-sound (get db.cases j) (h.rows j));
}
  where
    changed-sound : (o : Option Case) → Holds IsSound o → Holds IsSound (changed p f o)
    changed-sound none h = tt
    changed-sound (some c) h = elim (Bool-cases (p c)) [ inl e ↦ rw e (kf c h) | inr e ↦ rw e h ]

-- the columns that `IsSound` reads
abbrev SameColumns : Case → Case → Type 0
SameColumns c d =
    (c.status ≡ d.status)
    × (c.assigned_to ≡ d.assigned_to)
    × (c.first_response_at ≡ d.first_response_at)
    × (c.resolved_at ≡ d.resolved_at)

retouch-HasSoundCases :
    (k : ℕ) (p : Case → Bool) (f : Case → Case)
    → ((c : Case) → SameColumns c (f c))
    → Keeps (Both HasSoundCases) (modify (update_cases k p f))
retouch-HasSoundCases k p f same = update-HasSoundCases k p f (λ c h. ground (arith, same c))

same_columns : (c : Case) → SameColumns c c
same_columns c = (refl, refl, refl, refl)

pub update_case-HasSoundCases :
    (t a k : ℕ) (ar en : Option String) (v : Option Severity)
    → Keeps (Both HasSoundCases) (update_case t a k ar en v)
unfolding update_case
update_case-HasSoundCases t a k ar en v =
    search (sound_rules, retouch-HasSoundCases, same_columns) depth 20

pub add_case_note-HasSoundCases :
    (t a k : ℕ) (remark : String) → Keeps (Both HasSoundCases) (add_case_note t a k remark)
unfolding add_case_note
add_case_note-HasSoundCases t a k remark =
    search (sound_rules, retouch-HasSoundCases, same_columns) depth 20

pub escalate_case-HasSoundCases :
    (t a k : ℕ) (reason : String) → Keeps (Both HasSoundCases) (escalate_case t a k reason)
unfolding escalate_case
escalate_case-HasSoundCases t a k reason =
    search (sound_rules, retouch-HasSoundCases, same_columns) depth 20

insert_complaint-HasSoundCases : (c : Complaint) → Keeps (Both HasSoundCases) (insert_complaint c)
unfolding insert_complaint
insert_complaint-HasSoundCases c = Keeps-modify _ (λ db h. record { rows = h.rows })

pub open_case-HasSoundCases :
    (t m at : ℕ) (raw_text : String) → Keeps (Both HasSoundCases) (open_case t m at raw_text)
unfolding open_case
open_case-HasSoundCases t m at raw_text =
    search (sound_rules, insert_complaint-HasSoundCases) depth 25
