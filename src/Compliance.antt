-- ===== src/Compliance.antt =====
-- Compliance records of platform/services/tinai-api: routes/erasure.ts, routes/consent.ts and
-- routes/breach.ts, with utils/audit.ts. Here are the tables and the audit log.
-- Times are milliseconds; ids, emails, addresses and purposes are numbers. The `metadata` of an
-- audit event, which only repeats columns of the row, is left out.
pub mod Erasure
pub mod Consent
pub mod Breach
pub mod Requests
mod Tests
use tinai_infra.Prelude.{
  ℕ, String, Bool, true, false, Option, none, some, List, [], ◌∷◌, ◌++◌, or_else, if◌then◌else◌,
  ◌≡◌, refl,
}

pub data ErasureStatus : Type 0 where
  pending completed : ErasureStatus

-- A row of `erasure_requests`.
pub record ErasureRequest : Type 0 where
  pub id : ℕ
  pub tenant_id : ℕ
  pub requester_email : ℕ
  pub data_categories : List ℕ
  pub full_erasure : Bool
  pub status : ErasureStatus
  pub requested_at : ℕ
  pub completed_at : Option ℕ
  pub sla_deadline : ℕ

-- A row of `consent_records`.
pub record ConsentRow : Type 0 where
  pub id : ℕ
  pub tenant_id : ℕ
  pub purpose : ℕ
  pub legal_basis : ℕ
  pub granted : Bool
  pub ip_address : Option ℕ
  pub user_agent : Option ℕ
  pub notice_version : String
  pub region : String
  pub granted_at : ℕ
  pub withdrawn_at : Option ℕ

pub data BreachStatus : Type 0 where
  detected notified closed : BreachStatus

-- A row of `breach_incidents`; the draft is the text that `generateNotificationDraft` returned.
pub record BreachIncident : Type 0 where
  pub id : ℕ
  pub tenant_id : Option ℕ
  pub region : String
  pub detected_at : ℕ
  pub description : Option ℕ
  pub affected_categories : List ℕ
  pub affected_records : ℕ
  pub status : BreachStatus
  pub notification_draft : String
  pub regulator_notified_at : Option ℕ
  pub principals_notified_at : Option ℕ
  pub resolved_at : Option ℕ

-- `AuditEventInput`
pub record AuditEventInput : Type 0 where
  pub tenant_id : Option ℕ
  pub actor : Option String
  pub action : String
  pub resource : String
  pub resource_id : Option ℕ
  pub ip_address : Option ℕ
  pub region : Option String

-- A row of `audit_events`; none is the tenant 'tinai-admin'.
pub record AuditEvent : Type 0 where
  pub tenant_id : Option ℕ
  pub actor : String
  pub action : String
  pub resource : String
  pub resource_id : Option ℕ
  pub ip_address : Option ℕ
  pub region : String

pub record Db : Type 0 where
  pub erasure_requests : List ErasureRequest
  pub consent_records : List ConsentRow
  pub breach_incidents : List BreachIncident
  pub audit_events : List AuditEvent

abbrev pub event_row : AuditEventInput → AuditEvent
event_row e = record {
  tenant_id = e.tenant_id;
  actor = or_else e.actor "system";
  action = e.action;
  resource = e.resource;
  resource_id = e.resource_id;
  ip_address = e.ip_address;
  region = or_else e.region "IN";
}

-- `writeAuditEvent`, where `ok` says whether the insert succeeds; a failure is only logged.
unfoldable pub write_audit_event : (ok : Bool) → AuditEventInput → Db → Db
write_audit_event ok e db =
    if ok then record db { audit_events = db.audit_events ++ event_row e ∷ [] } else db

-- The log is the one table that an audit event changes.
pub write_audit_event-tables :
    (ok : Bool) (e : AuditEventInput) (db : Db)
    → let db' = write_audit_event ok e db in
      (db'.erasure_requests ≡ db.erasure_requests)
      × (db'.consent_records ≡ db.consent_records)
      × (db'.breach_incidents ≡ db.breach_incidents)
unfolding write_audit_event
write_audit_event-tables true e db = (refl, refl, refl)
write_audit_event-tables false e db = (refl, refl, refl)
