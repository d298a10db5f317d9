-- ===== src/Cases/Create.antt =====
-- `create_case`: routing by the taxonomy, the SLA deadline, and the new row.
use sawtai.Prelude.{
  ℕ, ◌+◌, String, ◌&&◌, Option, none, some, [], ◌∷◌, where_row, ◌==◌, if◌then◌else◌,
}
use sawtai.Table.{get}
use sawtai.Text.{strip}
use sawtai.Schema.{TaxonomyNode, Severity, Case, new, Reference, str, case_reference}
use sawtai.Session.{
  Session, Exec, value_error, ◌>>=◌, ◌>>◌, pure, raise, gets, now, uuid4, sql_now, commit,
}
use sawtai.Audit.{Event, event, write_audit}
use sawtai.Cases.Sla.{hours}
use sawtai.Cases.Status.{severity_name}
use sawtai.Cases.Rows.{reference_of, insert_case}

-- the owner and the SLA hours of an active node of the tenant
abbrev pub find_node : ℕ → ℕ → Session → Option TaxonomyNode
find_node tenant_id node_id s =
    where_row (λ (n : TaxonomyNode). n.tenant_id == tenant_id && n.is_active)
      (get s.db.taxonomy_nodes node_id)

abbrev pub routing_of : Option TaxonomyNode → Exec (Option ℕ × Option ℕ)
routing_of none = raise (value_error "Taxonomy node is unavailable")
routing_of (some n) = pure (n.owner_org_unit_id, n.sla_hours)

unfoldable pub route : ℕ → Option ℕ → Exec (Option ℕ × Option ℕ)
route tenant_id none = pure (none, none)
route tenant_id (some node_id) = do routing_of (← gets (find_node tenant_id node_id))

-- `datetime.now(UTC) + timedelta(hours=sla_hours) if sla_hours else None`
unfoldable pub due_at : Option ℕ → Exec (Option ℕ)
due_at none = pure none
due_at (some h) = if h == 0 then pure none else do t ← now; pure (some (t + hours h))

-- the columns that a new case starts with
abbrev pub new_case :
    ℕ → Reference → String → String → Option ℕ → Option ℕ → Severity → Option ℕ → ℕ → Case
new_case tenant_id reference title_ar title_en node_id org_unit_id severity sla_due_at created_at =
    record {
      tenant_id = tenant_id;
      reference = reference;
      title_ar = title_ar;
      title_en = title_en;
      node_id = node_id;
      org_unit_id = org_unit_id;
      assigned_to = none;
      status = new;
      severity = severity;
      sla_due_at = sla_due_at;
      first_response_at = none;
      resolved_at = none;
      created_at = created_at;
      updated_at = created_at;
    }

abbrev pub created_event : ℕ → ℕ → ℕ → Reference → Severity → Event
created_event tenant_id actor_user_id case_id reference severity =
    let e = event tenant_id actor_user_id "case.create" "case" case_id in
    record e {
      after_state = some (
          ("reference", case_reference reference.year reference.hex_prefix)
          ∷ ("status", str "new")
          ∷ ("severity", str (severity_name severity))
          ∷ []);
    }

unfoldable pub create_case : ℕ → ℕ → String → String → Option ℕ → Severity → Exec ℕ
create_case tenant_id actor_user_id title_ar title_en node_id severity = do
  routing ← route tenant_id node_id
  case_id ← uuid4
  w ← gets (λ s. s.world)
  dated ← now
  sla_due_at ← due_at routing.1
  created_at ← sql_now
  let reference = reference_of (w.year dated) case_id
  insert_case case_id (
      new_case tenant_id reference (strip w.is_space title_ar) (strip w.is_space title_en) node_id
        routing.0 severity sla_due_at created_at)
  write_audit (created_event tenant_id actor_user_id case_id reference severity)
  commit
  pure case_id
