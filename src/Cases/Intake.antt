-- ===== src/Cases/Intake.antt =====
-- `create_case_from_message`: a complaint that came by WhatsApp becomes a case, once.
use text.Mathlib.Text.{starts_with}
use sawtai.Prelude.{
  ℕ, String, Bool, false, not, ◌&&◌, ◌||◌, Option, none, some, List, [], ◌∷◌, any, ◌==◌,
  if◌then◌else◌,
}
use sawtai.Table.{rows}
use sawtai.Text
use sawtai.Text.{strip}
use sawtai.Schema.{
  TaxonomyNode, Complaint, Severity, medium, high, Reference, uuid, str, case_reference,
}
use sawtai.Session.{World, Exec, ◌>>=◌, ◌>>◌, pure, gets, now, uuid4, sql_now, modify}
use sawtai.Audit.{Event, write_audit}
use sawtai.Cases.Status.{severity_name}
use sawtai.Cases.Rows.{reference_of, insert_case}
use sawtai.Cases.Create.{due_at, new_case}

-- SELECT case_id ... WHERE tenant_id = ... AND message_id = ... AND occurred_at = ... LIMIT 1, which
-- names no order: the row that was inserted last; a NULL counts as no row
unfoldable pub find_complaint : ℕ → ℕ → ℕ → List Complaint → Option ℕ
find_complaint tenant_id message_id occurred_at [] = none
find_complaint tenant_id message_id occurred_at (c ∷ rest) =
    if c.tenant_id == tenant_id && (c.message_id == message_id && c.occurred_at == occurred_at)
    then c.case_id
    else find_complaint tenant_id message_id occurred_at rest

-- `any(word in lowered for word in words)`
abbrev pub mentions : List String → String → Bool
mentions words lowered = any (λ word. Text.contains word lowered) words

abbrev pub waste_words : List String
waste_words =
    "\u{646}\u{641}\u{627}\u{64a}\u{627}\u{62a}" ∷ "\u{62d}\u{627}\u{648}\u{64a}\u{627}\u{62a}"
    ∷ "waste" ∷ "garbage" ∷ []

abbrev pub roads_words : List String
roads_words =
    "\u{637}\u{631}\u{64a}\u{642}" ∷ "\u{62d}\u{641}\u{631}\u{629}"
    ∷ "\u{625}\u{646}\u{627}\u{631}\u{629}" ∷ "road" ∷ "pothole" ∷ []

abbrev pub parks_words : List String
parks_words =
    "\u{62d}\u{62f}\u{64a}\u{642}\u{629}" ∷ "\u{623}\u{644}\u{639}\u{627}\u{628}" ∷ "park"
    ∷ "playground" ∷ []

abbrev pub permits_words : List String
permits_words =
    "\u{62a}\u{635}\u{631}\u{64a}\u{62d}" ∷ "\u{645}\u{639}\u{627}\u{645}\u{644}\u{629}" ∷ "permit"
    ∷ "application" ∷ []

abbrev pub urgent_words : List String
urgent_words =
    "\u{639}\u{627}\u{62c}\u{644}" ∷ "\u{62e}\u{637}\u{631}" ∷ "\u{62d}\u{627}\u{62f}\u{62b}"
    ∷ "urgent" ∷ "danger" ∷ "emergency" ∷ []

unfoldable pub category_of : String → Option String
category_of lowered =
    if mentions waste_words lowered
    then some "waste"
    else if mentions roads_words lowered
    then some "roads"
    else if mentions parks_words lowered
    then some "parks"
    else if mentions permits_words lowered
    then some "permits"
    else none

unfoldable pub severity_of : String → Severity
severity_of lowered = if mentions urgent_words lowered then high else medium

-- category IS NOT NULL AND code LIKE category || '%'; the categories hold no wildcard
abbrev pub fits : Option String → TaxonomyNode → Bool
fits none n = false
fits (some category) n = starts_with n.code category

-- ORDER BY CASE WHEN fits THEN 0 ELSE 1 END, code: `a` may come before `b`
abbrev pub comes_first : World → Option String → TaxonomyNode → TaxonomyNode → Bool
comes_first w category a b =
    if fits category a
    then not (fits category b) || w.collate_le a.code b.code
    else not (fits category b) && w.collate_le a.code b.code

abbrev pub better :
    World → Option String → ℕ × TaxonomyNode → Option (ℕ × TaxonomyNode) → ℕ × TaxonomyNode
better w category a none = a
better w category a (some b) = if comes_first w category a.1 b.1 then a else b

-- the first active node of the tenant in that order
unfoldable pub best_node :
    World → Option String → ℕ → List (ℕ × TaxonomyNode) → Option (ℕ × TaxonomyNode)
best_node w category tenant_id [] = none
best_node w category tenant_id (a ∷ rest) =
    let best = best_node w category tenant_id rest in
    if a.1.tenant_id == tenant_id && a.1.is_active then some (better w category a best) else best

-- what the case takes from its node
pub record Routing : Type 0 where
  pub node_id : Option ℕ
  pub org_unit_id : Option ℕ
  pub sla_hours : Option ℕ
  pub title_en : String

abbrev pub routing_from : Option (ℕ × TaxonomyNode) → Routing
routing_from none = record {
  node_id = none;
  org_unit_id = none;
  sla_hours = none;
  title_en = "WhatsApp service request";
}
routing_from (some (node_id, n)) = record {
  node_id = some node_id;
  org_unit_id = n.owner_org_unit_id;
  sla_hours = n.sla_hours;
  title_en = n.label_en;
}

abbrev pub intake_event : ℕ → ℕ → ℕ → Reference → Severity → Event
intake_event tenant_id message_id case_id reference severity = record {
  tenant_id = tenant_id;
  actor_user_id = none;
  actor_type = "worker";
  action = "case.create_from_message";
  object_type = "case";
  object_id = some case_id;
  outcome = "success";
  before_state = none;
  after_state = some (
      ("reference", case_reference reference.year reference.hex_prefix)
      ∷ ("message_id", uuid message_id)
      ∷ ("severity", str (severity_name severity))
      ∷ []);
}

unfoldable pub insert_complaint : Complaint → Exec (Unit {0})
insert_complaint c = modify (λ db. record db { complaints = c ∷ db.complaints })

-- the part after the early return
unfoldable pub open_case : ℕ → ℕ → ℕ → String → Exec ℕ
open_case tenant_id message_id occurred_at raw_text = do
  w ← gets (λ s. s.world)
  let lowered = w.lower raw_text
  nodes ← gets (λ s. rows s.db.taxonomy_nodes)
  let routing = routing_from (best_node w (category_of lowered) tenant_id nodes)
  let severity = severity_of lowered
  case_id ← uuid4
  dated ← now
  let reference = reference_of (w.year dated) case_id
  sla_due_at ← due_at routing.sla_hours
  let title_ar = Text.take 180 (strip w.is_space raw_text)
  created_at ← sql_now
  insert_case case_id (
      new_case tenant_id reference title_ar routing.title_en routing.node_id routing.org_unit_id
        severity sla_due_at created_at)
  insert_complaint (record {
    tenant_id = tenant_id;
    message_id = message_id;
    occurred_at = occurred_at;
    node_id = routing.node_id;
    severity = severity;
    issue_summary_ar = title_ar;
    issue_summary_en = routing.title_en;
    case_id = some case_id;
  })
  write_audit (intake_event tenant_id message_id case_id reference severity)
  pure case_id

abbrev pub existing_or_open : ℕ → ℕ → ℕ → String → Option ℕ → Exec ℕ
existing_or_open tenant_id message_id occurred_at raw_text (some case_id) = pure case_id
existing_or_open tenant_id message_id occurred_at raw_text none =
    open_case tenant_id message_id occurred_at raw_text

-- The caller commits.
unfoldable pub create_case_from_message : ℕ → ℕ → ℕ → String → Exec ℕ
create_case_from_message tenant_id message_id occurred_at raw_text = do
  existing ← gets (λ s. find_complaint tenant_id message_id occurred_at s.db.complaints)
  existing_or_open tenant_id message_id occurred_at raw_text existing
