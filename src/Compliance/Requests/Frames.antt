-- ===== src/Compliance/Requests/Frames.antt =====
-- The tables that the handlers do not write.
use tinai_infra.Prelude.{ℕ, String, Bool, ◌≡◌, refl, commit-keeps}
use tinai_infra.Compliance.{Db, write_audit_event-tables}
use tinai_infra.Compliance.Erasure.{CreateErasureBody, create_erasure, complete_erasure}
use tinai_infra.Compliance.Consent.{ConsentBody, create_consent, withdraw_consent}
use tinai_infra.Compliance.Breach.{
  CreateBreachBody, create_breach, notify_regulator, resolve_breach,
}

abbrev pub SameButErasures : Db → Db → Type 0
SameButErasures db s =
    (s.consent_records ≡ db.consent_records) × (s.breach_incidents ≡ db.breach_incidents)

abbrev pub SameButConsents : Db → Db → Type 0
SameButConsents db s =
    (s.erasure_requests ≡ db.erasure_requests) × (s.breach_incidents ≡ db.breach_incidents)

abbrev pub SameButBreaches : Db → Db → Type 0
SameButBreaches db s =
    (s.erasure_requests ≡ db.erasure_requests) × (s.consent_records ≡ db.consent_records)

pub create_erasure-SameButErasures :
    (ok : Bool) (now tenant id : ℕ) (b : CreateErasureBody) (db : Db)
    → SameButErasures db (create_erasure ok now tenant id b db).1
unfolding create_erasure
create_erasure-SameButErasures ok now tenant id b db =
    ((write_audit_event-tables ok _ _).1, (write_audit_event-tables ok _ _).2)

pub complete_erasure-SameButErasures :
    (ok : Bool) (now tenant id : ℕ) (db : Db)
    → SameButErasures db (complete_erasure ok now tenant id db).1
unfolding complete_erasure
complete_erasure-SameButErasures ok now tenant id db =
    commit-keeps (SameButErasures db) _ _ db (refl, refl)
      (λ _ _. ((write_audit_event-tables ok _ _).1, (write_audit_event-tables ok _ _).2))

pub create_consent-SameButConsents :
    (ok : Bool) (now tenant id : ℕ) (b : ConsentBody) (db : Db)
    → SameButConsents db (create_consent ok now tenant id b db).1
unfolding create_consent
create_consent-SameButConsents ok now tenant id b db =
    ((write_audit_event-tables ok _ _).0, (write_audit_event-tables ok _ _).2)

pub withdraw_consent-SameButConsents :
    (ok : Bool) (now tenant id : ℕ) (db : Db)
    → SameButConsents db (withdraw_consent ok now tenant id db).1
unfolding withdraw_consent
withdraw_consent-SameButConsents ok now tenant id db =
    commit-keeps (SameButConsents db) _ _ db (refl, refl)
      (λ _ _. ((write_audit_event-tables ok _ _).0, (write_audit_event-tables ok _ _).2))

pub create_breach-SameButBreaches :
    (ok : Bool) (now tenant id : ℕ) (d : String) (b : CreateBreachBody) (db : Db)
    → SameButBreaches db (create_breach ok now tenant id d b db).1
unfolding create_breach
create_breach-SameButBreaches ok now tenant id d b db =
    ((write_audit_event-tables ok _ _).0, (write_audit_event-tables ok _ _).1)

pub notify_regulator-SameButBreaches :
    (ok : Bool) (now tenant id : ℕ) (db : Db)
    → SameButBreaches db (notify_regulator ok now tenant id db).1
unfolding notify_regulator
notify_regulator-SameButBreaches ok now tenant id db =
    commit-keeps (SameButBreaches db) _ _ db (refl, refl)
      (λ _ _. ((write_audit_event-tables ok _ _).0, (write_audit_event-tables ok _ _).1))

pub resolve_breach-SameButBreaches :
    (ok : Bool) (now tenant id : ℕ) (db : Db)
    → SameButBreaches db (resolve_breach ok now tenant id db).1
unfolding resolve_breach
resolve_breach-SameButBreaches ok now tenant id db =
    commit-keeps (SameButBreaches db) _ _ db (refl, refl)
      (λ _ _. ((write_audit_event-tables ok _ _).0, (write_audit_event-tables ok _ _).1))
