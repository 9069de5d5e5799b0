-- ===== src/Compliance/Requests/Audit.antt =====
-- The audit log beside the requests.
use tinai_infra.Prelude.{
  ℕ, String, ◌≡◌, ◌⊎◌, refl, inl, inr, true, false, some, [], ◌∷◌, ◌++◌, Reply, send, fail, Check,
  pass, reject, commit,
}
use tinai_infra.Compliance.{Db, AuditEvent, write_audit_event}
use tinai_infra.Compliance.Erasure.{create_erasure, complete_erasure, completable}
use tinai_infra.Compliance.Consent.{create_consent, withdraw_consent, withdrawable}
use tinai_infra.Compliance.Breach.{
  create_breach, notify_regulator, resolve_breach, own_breach, compute_breach_fields,
}
use tinai_infra.Compliance.Requests.{
  Request, request_erasure, complete, record_consent, withdraw, report_breach, notify, resolve,
  Body, erasure, consent, breach, wrap, handle,
}

-- The id of the row that a body shows.
abbrev pub body_id : Body → ℕ
body_id (erasure r) = r.id
body_id (consent c) = c.id
body_id (breach b) = b.row.id

abbrev pub Refused : Db → Reply Body × Db → Type 0
Refused db (reply, db') = (n : ℕ) × (e : String) × (reply ≡ fail n e) × (db' ≡ db)

-- One event is logged, with the id of the row that is answered.
abbrev pub Logged : Db → Reply Body × Db → Type 0
Logged db (reply, db') =
    (n : ℕ) × (b : Body) × (e : AuditEvent) × (reply ≡ send n b)
    × (e.resource_id ≡ some (body_id b))
    × (db'.audit_events ≡ db.audit_events ++ e ∷ [])

commit-Logged {ℓ κ} :
    {A : Type ℓ} {B : Type κ} (c : Check A) (f : B → Body) (body : A → Db → Reply B × Db) (db : Db)
    → ((a : A) → Logged db (wrap f (body a db)))
    → Refused db (wrap f (commit c body db)) ⊎ Logged db (wrap f (commit c body db))
unfolding commit
commit-Logged (pass a) f body db h = inr (h a)
commit-Logged (reject n e) f body db h = inl (n, e, refl, refl)

-- Where the log can be written, a request is refused and changes nothing, or it is answered and logs
-- one event, after those before, with the id of the row that it answers.
pub handle-Logged :
    (now tenant id : ℕ) (q : Request) (db : Db)
    → Refused db (handle true now tenant id q db) ⊎ Logged db (handle true now tenant id q db)
unfolding handle create_erasure complete_erasure create_consent withdraw_consent create_breach
    notify_regulator resolve_breach compute_breach_fields write_audit_event
handle-Logged now tenant id (request_erasure b) db = inr (_, _, _, refl, refl, refl)
handle-Logged now tenant id (complete i) db =
    commit-Logged (completable tenant i db) erasure _ db (λ r. (_, _, _, refl, refl, refl))
handle-Logged now tenant id (record_consent b) db = inr (_, _, _, refl, refl, refl)
handle-Logged now tenant id (withdraw i) db =
    commit-Logged (withdrawable tenant i db) consent _ db (λ r. (_, _, _, refl, refl, refl))
handle-Logged now tenant id (report_breach d b) db = inr (_, _, _, refl, refl, refl)
handle-Logged now tenant id (notify i) db =
    commit-Logged (own_breach tenant i db) breach _ db (λ r. (_, _, _, refl, refl, refl))
handle-Logged now tenant id (resolve i) db =
    commit-Logged (own_breach tenant i db) breach _ db (λ r. (_, _, _, refl, refl, refl))

-- The same answer, and the same tables but the log.
abbrev pub SameButLog : Reply Body × Db → Reply Body × Db → Type 0
SameButLog (reply, db) (reply', db') =
    (reply ≡ reply')
    × (db.erasure_requests ≡ db'.erasure_requests)
    × (db.consent_records ≡ db'.consent_records)
    × (db.breach_incidents ≡ db'.breach_incidents)

commit-SameButLog {ℓ κ} :
    {A : Type ℓ} {B : Type κ} (c : Check A) (f : B → Body) (body body' : A → Db → Reply B × Db)
    (db : Db)
    → ((a : A) → SameButLog (wrap f (body a db)) (wrap f (body' a db)))
    → SameButLog (wrap f (commit c body db)) (wrap f (commit c body' db))
unfolding commit
commit-SameButLog (pass a) f body body' db h = h a
commit-SameButLog (reject n e) f body body' db h = (refl, refl, refl, refl)

-- A failure of the audit log shows in nothing but the log: the request has the answer and the effect
-- on the tables that it has where the log can be written.
pub handle-SameButLog :
    (now tenant id : ℕ) (q : Request) (db : Db)
    → SameButLog (handle false now tenant id q db) (handle true now tenant id q db)
unfolding handle create_erasure complete_erasure create_consent withdraw_consent create_breach
    notify_regulator resolve_breach write_audit_event
handle-SameButLog now tenant id (request_erasure b) db = (refl, refl, refl, refl)
handle-SameButLog now tenant id (complete i) db =
    commit-SameButLog (completable tenant i db) erasure _ _ db (λ _. (refl, refl, refl, refl))
handle-SameButLog now tenant id (record_consent b) db = (refl, refl, refl, refl)
handle-SameButLog now tenant id (withdraw i) db =
    commit-SameButLog (withdrawable tenant i db) consent _ _ db (λ _. (refl, refl, refl, refl))
handle-SameButLog now tenant id (report_breach d b) db = (refl, refl, refl, refl)
handle-SameButLog now tenant id (notify i) db =
    commit-SameButLog (own_breach tenant i db) breach _ _ db (λ _. (refl, refl, refl, refl))
handle-SameButLog now tenant id (resolve i) db =
    commit-SameButLog (own_breach tenant i db) breach _ _ db (λ _. (refl, refl, refl, refl))
