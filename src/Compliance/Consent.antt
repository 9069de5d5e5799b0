-- ===== src/Compliance/Consent.antt =====
-- Consent records: routes/consent.ts.
pub mod Lifecycle
use tinai_infra.Prelude.{
  ℕ, String, Bool, true, false, not, ◌&&◌, Option, none, some, List, [], ◌∷◌, ◌++◌, ◌==◌, or_else,
  is_some, find, update_where, Reply, send, Check, require, require_row, commit, ◌>>=◌, ◌>>◌,
}
use tinai_infra.Compliance.{ConsentRow, Db, AuditEventInput, write_audit_event}

-- The body, without the `tenant_id` that the code ignores.
pub record ConsentBody : Type 0 where
  pub purpose : ℕ
  pub legal_basis : ℕ
  pub granted : Bool
  pub ip_address : Option ℕ
  pub user_agent : Option ℕ
  pub notice_version : Option String
  pub region : Option String

abbrev pub recorded : (now tenant id : ℕ) → ConsentBody → ConsentRow
recorded now tenant id b = record {
  id = id;
  tenant_id = tenant;
  purpose = b.purpose;
  legal_basis = b.legal_basis;
  granted = b.granted;
  ip_address = b.ip_address;
  user_agent = b.user_agent;
  notice_version = or_else b.notice_version "1.0";
  region = or_else b.region "IN";
  granted_at = now;
  withdrawn_at = none;
}

-- The event has the address only when the consent is recorded.
abbrev pub consent_event : String → Option ℕ → ConsentRow → AuditEventInput
consent_event action ip c = record {
  tenant_id = some c.tenant_id;
  actor = none;
  action = action;
  resource = "consent_records";
  resource_id = some c.id;
  ip_address = ip;
  region = some c.region;
}

-- POST /compliance/consent
unfoldable pub create_consent :
    (ok : Bool) (now tenant id : ℕ) → ConsentBody → Db → Reply ConsentRow × Db
create_consent ok now tenant id b db =
    let c = recorded now tenant id b in
    (
      send 201 c,
      write_audit_event ok (consent_event "consent_record" b.ip_address c)
          (record db { consent_records = db.consent_records ++ c ∷ [] }),
    )

abbrev pub is_consent : ℕ → ConsentRow → Bool
is_consent id c = c.id == id

-- `id = $1 AND withdrawn_at IS NULL`
abbrev pub is_standing : ℕ → ConsentRow → Bool
is_standing id c = c.id == id && not (is_some c.withdrawn_at)

abbrev pub withdrawn : ℕ → ConsentRow → ConsentRow
withdrawn now c = record c { withdrawn_at = some now; granted = false }

abbrev pub not_standing : String
not_standing = "consent record not found or already withdrawn"

abbrev pub withdrawable : (tenant id : ℕ) → Db → Check ConsentRow
withdrawable tenant id db = do
  c ← require_row (find (is_consent id) db.consent_records) 404 not_standing
  require (c.tenant_id == tenant) 403 "Forbidden"
  require_row (find (is_standing id) db.consent_records) 404 not_standing

-- POST /compliance/consent/:id/withdraw
unfoldable pub withdraw_consent : (ok : Bool) (now tenant id : ℕ) → Db → Reply ConsentRow × Db
withdraw_consent ok now tenant id db =
    commit (withdrawable tenant id db)
      (λ c db. (
        send 200 (withdrawn now c),
        write_audit_event ok (consent_event "consent_withdraw" none (withdrawn now c)) (record db {
          consent_records = update_where (is_standing id) (withdrawn now) db.consent_records;
        }),
      ))
      db
