-- ===== src/Compliance/Breach.antt =====
-- Breach incidents: routes/breach.ts. The draft of the notification, which a language model or a
-- template gives, is a parameter of the handler.
pub mod Lifecycle
use tinai_infra.Prelude.{
  ℕ, ◌+◌, ◌-◌, String, Bool, true, false, Option, none, some, List, [], ◌∷◌, ◌++◌, ◌==◌, ltb,
  or_else, find, update_where, Reply, send, Check, pass, require, require_row, commit, ◌>>=◌, ◌>>◌,
}
use tinai_infra.Compliance.{
  BreachStatus, detected, notified, closed, BreachIncident, Db, AuditEventInput, write_audit_event,
}

-- `BreachIncidentComputed`; the hours that remain are given in milliseconds, before they are rounded
-- to a tenth.
pub record BreachComputed : Type 0 where
  pub row : BreachIncident
  pub ms_remaining : ℕ
  pub deadline_passed : Bool

-- `72` hours
abbrev pub deadline_ms : ℕ
deadline_ms = 259_200_000

-- `computeBreachFields`: `Math.max` with 0 is the subtraction that stops there.
unfoldable pub compute_breach_fields : ℕ → BreachIncident → BreachComputed
compute_breach_fields now r = record {
  row = r;
  ms_remaining = r.detected_at + deadline_ms - now;
  deadline_passed = ltb (r.detected_at + deadline_ms) now;
}

pub record CreateBreachBody : Type 0 where
  pub description : Option ℕ
  pub affected_categories : List ℕ
  pub affected_records : ℕ
  pub region : Option String

abbrev pub breach_event : String → ℕ → BreachIncident → AuditEventInput
breach_event action tenant r = record {
  tenant_id = some (or_else r.tenant_id tenant);
  actor = none;
  action = action;
  resource = "breach_incidents";
  resource_id = some r.id;
  ip_address = none;
  region = some r.region;
}

abbrev pub incident : (now tenant id : ℕ) → String → CreateBreachBody → BreachIncident
incident now tenant id draft b = record {
  id = id;
  tenant_id = some tenant;
  region = or_else b.region "IN";
  detected_at = now;
  description = b.description;
  affected_categories = b.affected_categories;
  affected_records = b.affected_records;
  status = detected;
  notification_draft = draft;
  regulator_notified_at = none;
  principals_notified_at = none;
  resolved_at = none;
}

-- POST /compliance/breach
unfoldable pub create_breach :
    (ok : Bool) (now tenant id : ℕ) → String → CreateBreachBody → Db → Reply BreachComputed × Db
create_breach ok now tenant id draft b db =
    let r = incident now tenant id draft b in
    (
      send 201 (compute_breach_fields now r),
      write_audit_event ok (breach_event "breach_detected" tenant r)
          (record db { breach_incidents = db.breach_incidents ++ r ∷ [] }),
    )

abbrev pub is_breach : ℕ → BreachIncident → Bool
is_breach id r = r.id == id

abbrev pub owned_by : ℕ → Option ℕ → Bool
owned_by tenant none = false
owned_by tenant (some t) = t == tenant

abbrev pub own_breach : (tenant id : ℕ) → Db → Check BreachIncident
own_breach tenant id db = do
  r ← require_row (find (is_breach id) db.breach_incidents) 404 "breach incident not found"
  require (owned_by tenant r.tenant_id) 403 "Forbidden"
  pass r

abbrev pub notified_at : ℕ → BreachIncident → BreachIncident
notified_at now r = record r { regulator_notified_at = some now; status = notified }

abbrev pub resolved : ℕ → BreachIncident → BreachIncident
resolved now r = record r { resolved_at = some now; status = closed }

-- The update that the two handlers make of an incident, and the event that they write.
abbrev pub update_breach :
    (ok : Bool) (now tenant id : ℕ)
    → String
    → (BreachIncident → BreachIncident)
    → BreachIncident
    → Db
    → Reply BreachComputed × Db
update_breach ok now tenant id action f r db = (
  send 200 (compute_breach_fields now (f r)),
  write_audit_event ok (breach_event action tenant (f r))
      (record db { breach_incidents = update_where (is_breach id) f db.breach_incidents }),
)

-- POST /compliance/breach/:id/notify-regulator
unfoldable pub notify_regulator : (ok : Bool) (now tenant id : ℕ) → Db → Reply BreachComputed × Db
notify_regulator ok now tenant id db =
    commit (own_breach tenant id db)
      (update_breach ok now tenant id "breach_regulator_notified" (notified_at now)) db

-- POST /compliance/breach/:id/resolve
unfoldable pub resolve_breach : (ok : Bool) (now tenant id : ℕ) → Db → Reply BreachComputed × Db
resolve_breach ok now tenant id db =
    commit (own_breach tenant id db)
      (update_breach ok now tenant id "breach_resolved" (resolved now)) db
