-- ===== src/Notifications/Rules.antt =====
-- Who is notified of what: the rules of `_evaluate_tenant` as functions of the rows and the time.
use Prim.Native.String.{◌++◌}
use text.Mathlib.Text.{◌==◌ as str_eq}
use sawtai.Prelude.{
  ℕ, ◌+◌, String, Bool, true, false, not, ◌&&◌, Option, none, some, List, [], ◌∷◌, map, any, leb,
  ◌==◌, if◌then◌else◌,
}
use mathlib.Core.List
use sawtai.Prelude.Sorting.{filter}
use sawtai.Text
use sawtai.Schema.{CaseStatus, new, triaged, awaiting_response, Case, Reply, User, Reference}
use sawtai.Session.{World}
use sawtai.Cases.Status.{is_open, is_critical}
use sawtai.Cases.Sla.{hours}
use sawtai.Replies.Approval.{is_pending, is_maker}

pub record Notice : Type 0 where
  pub recipient_id : ℕ
  pub kind : String
  pub level : String
  pub title_ar : String
  pub title_en : String
  pub body_ar : String
  pub body_en : String
  pub target_type : String
  pub target_id : ℕ
  pub target_page : String
  pub reference : Option String

-- an active user of the tenant with one of the roles
abbrev pub has_role : List String → User → Bool
has_role wanted u = any (λ r. any (λ q. str_eq q r) wanted) u.roles

abbrev pub users_with : ℕ → List String → List (ℕ × User) → List ℕ
users_with tenant_id wanted all =
    map (λ (k, u). k)
      (filter (λ (k, u). u.tenant_id == tenant_id && (u.is_active && has_role wanted u)) all)

abbrev pub text_of : World → Reference → String
text_of w r = w.reference_text r.year r.hex_prefix

abbrev pub about_case :
    World → ℕ → Case → String → String → String → String → String → String → ℕ → Notice
about_case w case_id c kind level title_ar title_en body_ar body_en recipient = record {
  recipient_id = recipient;
  kind = kind;
  level = level;
  title_ar = title_ar;
  title_en = title_en;
  body_ar = body_ar;
  body_en = body_en;
  target_type = "case";
  target_id = case_id;
  target_page = "cases";
  reference = some (text_of w c.reference);
}

abbrev pub is_waiting_for_owner : CaseStatus → Bool
is_waiting_for_owner new = true
is_waiting_for_owner triaged = true
is_waiting_for_owner s = false

abbrev pub is_awaiting_response : CaseStatus → Bool
is_awaiting_response awaiting_response = true
is_awaiting_response s = false

-- the assignee, or all managers
abbrev pub owners : List ℕ → Option ℕ → List ℕ
owners managers none = managers
owners managers (some u) = u ∷ []

abbrev pub owner_notices : World → List ℕ → ℕ → Case → Option ℕ → List Notice
owner_notices w managers case_id c (some u) =
    about_case w case_id c "case_assigned" "info"
      "\u{62d}\u{627}\u{644}\u{629} \u{645}\u{633}\u{646}\u{62f}\u{629} \u{625}\u{644}\u{64a}\u{643}"
      "Case assigned to you" c.title_ar c.title_en u
    ∷ []
owner_notices w managers case_id c none =
    if is_waiting_for_owner c.status
    then map
        (about_case w case_id c "case_unassigned" "action"
          "\u{62d}\u{627}\u{644}\u{629} \u{62c}\u{62f}\u{64a}\u{62f}\u{629} \u{62a}\u{62d}\u{62a}\u{627}\u{62c} \u{645}\u{633}\u{624}\u{648}\u{644}\u{627}ً"
          "New case needs an owner"
          (text_of w c.reference
            ++ " \u{628}\u{627}\u{646}\u{62a}\u{638}\u{627}\u{631} \u{627}\u{644}\u{625}\u{633}\u{646}\u{627}\u{62f}")
          (text_of w c.reference ++ " is waiting for assignment"))
        managers
    else []

abbrev pub breached : World → ℕ → Case → ℕ → Notice
breached w case_id c =
    about_case w case_id c "sla_breached" "critical"
      "\u{62a}\u{62c}\u{627}\u{648}\u{632} \u{627}\u{62a}\u{641}\u{627}\u{642}\u{64a}\u{629} \u{645}\u{633}\u{62a}\u{648}\u{649} \u{627}\u{644}\u{62e}\u{62f}\u{645}\u{629}"
      "SLA breached"
      ("\u{62a}\u{62c}\u{627}\u{648}\u{632}\u{62a} \u{627}\u{644}\u{62d}\u{627}\u{644}\u{629} "
        ++ (text_of w c.reference
            ++ " \u{627}\u{644}\u{645}\u{648}\u{639}\u{62f} \u{627}\u{644}\u{645}\u{62d}\u{62f}\u{62f}"))
      ("Case " ++ (text_of w c.reference ++ " passed its SLA deadline"))

abbrev pub due_soon : World → ℕ → Case → ℕ → Notice
due_soon w case_id c =
    about_case w case_id c "sla_due_soon" "warning"
      "\u{645}\u{648}\u{639}\u{62f} SLA \u{64a}\u{642}\u{62a}\u{631}\u{628}"
      "SLA deadline approaching"
      ("\u{623}\u{642}\u{644} \u{645}\u{646} \u{623}\u{631}\u{628}\u{639} \u{633}\u{627}\u{639}\u{627}\u{62a} \u{645}\u{62a}\u{628}\u{642}\u{64a}\u{629} \u{644}\u{644}\u{62d}\u{627}\u{644}\u{629} "
        ++ text_of w c.reference)
      ("Less than four hours remain for " ++ text_of w c.reference)

abbrev pub deadline_notices : World → ℕ → List ℕ → ℕ → Case → Option ℕ → List Notice
deadline_notices w at managers case_id c none = []
deadline_notices w at managers case_id c (some due) =
    let recipients = owners managers c.assigned_to in
    if leb due at
    then map (breached w case_id c) recipients
    else if leb due (at + hours 4)
    then map (due_soon w case_id c) recipients
    else []

-- a set: the leads, and the assignee unless among them
abbrev pub critical_recipients : List ℕ → Option ℕ → List ℕ
critical_recipients leads none = leads
critical_recipients leads (some u) = if any (λ v. v == u) leads then leads else u ∷ leads

abbrev pub critical_notices : World → List ℕ → ℕ → Case → List Notice
critical_notices w leads case_id c =
    if is_critical c.severity
    then map
        (about_case w case_id c "case_critical" "critical"
          "\u{62d}\u{627}\u{644}\u{629} \u{62d}\u{631}\u{62c}\u{629} \u{62a}\u{62a}\u{637}\u{644}\u{628} \u{627}\u{644}\u{627}\u{646}\u{62a}\u{628}\u{627}\u{647}"
          "Critical case requires attention" c.title_ar c.title_en)
        (critical_recipients leads c.assigned_to)
    else []

abbrev pub waiting_notices : World → ℕ → List ℕ → ℕ → Case → List Notice
waiting_notices w at managers case_id c =
    if is_awaiting_response c.status && leb (c.updated_at + hours 2) at
    then map
        (about_case w case_id c "customer_waiting" "warning"
          "\u{627}\u{644}\u{645}\u{62a}\u{639}\u{627}\u{645}\u{644} \u{64a}\u{646}\u{62a}\u{638}\u{631} \u{627}\u{644}\u{631}\u{62f}"
          "Citizen is waiting"
          ("\u{627}\u{644}\u{62d}\u{627}\u{644}\u{629} "
            ++ (text_of w c.reference
                ++ " \u{62f}\u{648}\u{646} \u{62a}\u{62d}\u{62f}\u{64a}\u{62b} \u{645}\u{646}\u{630} \u{623}\u{643}\u{62b}\u{631} \u{645}\u{646} \u{633}\u{627}\u{639}\u{62a}\u{64a}\u{646}"))
          ("Case " ++ (text_of w c.reference ++ " has had no update for over two hours")))
        (owners managers c.assigned_to)
    else []

-- the body of the loop over cases
unfoldable pub case_notices : World → ℕ → List ℕ → List ℕ → ℕ × Case → List Notice
case_notices w at managers leads (case_id, c) =
    mathlib.Core.List.◌++◌ (owner_notices w managers case_id c c.assigned_to) (
      mathlib.Core.List.◌++◌ (deadline_notices w at managers case_id c c.sla_due_at) (
        mathlib.Core.List.◌++◌ (critical_notices w leads case_id c)
          (waiting_notices w at managers case_id c)))

abbrev pub approval_notice : ℕ → Reply → ℕ → Notice
approval_notice response_id r recipient = record {
  recipient_id = recipient;
  kind = "draft_approval";
  level = "action";
  title_ar =
      "\u{645}\u{633}\u{648}\u{62f}\u{629} \u{62a}\u{646}\u{62a}\u{638}\u{631} \u{627}\u{639}\u{62a}\u{645}\u{627}\u{62f}\u{643}";
  title_en = "Draft awaiting your approval";
  body_ar = sawtai.Text.take 180 r.body;
  body_en = "A citizen reply is ready for independent approval";
  target_type = "response";
  target_id = response_id;
  target_page = "whatsapp";
  reference = none;
}

-- the body of the loop over replies: the makers of a reply are passed over
unfoldable pub reply_notices : List ℕ → ℕ × Reply → List Notice
reply_notices approvers (response_id, r) =
    map (approval_notice response_id r) (filter (λ u. not (is_maker u r)) approvers)

-- the rows of the two SELECTs
abbrev pub is_open_of : ℕ → ℕ × Case → Bool
is_open_of tenant_id (k, c) = c.tenant_id == tenant_id && is_open c.status

abbrev pub is_pending_of : ℕ → ℕ × Reply → Bool
is_pending_of tenant_id (k, r) = r.tenant_id == tenant_id && is_pending r.status
