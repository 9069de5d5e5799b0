-- ===== src/Compliance/Requests/Isolation.antt =====
-- What no request changes.
use tinai_infra.Prelude.{
  ℕ, ◌≡◌, ◌≢◌, ◌⊎◌, refl, ◌∙◌, ap, Bool, true, false, some, find, is_some, Reply, send, fail,
}
use tinai_infra.Compliance.{completed, ErasureRequest, ConsentRow, BreachIncident, Db}
use tinai_infra.Compliance.Erasure.{is_erasure}
use tinai_infra.Compliance.Erasure.Lifecycle.{create_erasure-find, complete_erasure-find}
use tinai_infra.Compliance.Consent.{is_consent}
use tinai_infra.Compliance.Consent.Lifecycle.{create_consent-find, withdraw_consent-find}
use tinai_infra.Compliance.Breach.{is_breach, owned_by}
use tinai_infra.Compliance.Breach.Lifecycle.{
  create_breach-find, notify_regulator-find, resolve_breach-find,
}
use tinai_infra.Compliance.Requests.Frames.{
  create_erasure-SameButErasures, complete_erasure-SameButErasures, create_consent-SameButConsents,
  withdraw_consent-SameButConsents, create_breach-SameButBreaches, notify_regulator-SameButBreaches,
  resolve_breach-SameButBreaches,
}
use tinai_infra.Compliance.Requests.{
  Request, request_erasure, complete, record_consent, withdraw, report_breach, notify, resolve,
  Body, wrap, handle,
}

wrap-store {ℓ} : {A : Type ℓ} (f : A → Body) (p : Reply A × Db) → (wrap f p).1 ≡ p.1
wrap-store f (send n a, db) = refl
wrap-store f (fail n e, db) = refl

-- A completed erasure request is changed by no request, and no erasure request is changed by another
-- tenant's.
pub handle-erasure_kept :
    (ok : Bool) (now tenant id : ℕ) (q : Request) (db : Db) (i : ℕ) (r : ErasureRequest)
    → find (is_erasure i) db.erasure_requests ≡ some r
    → (r.tenant_id ≢ tenant) ⊎ (r.status ≡ completed)
    → find (is_erasure i) (handle ok now tenant id q db).1.erasure_requests ≡ some r
unfolding handle
handle-erasure_kept ok now tenant id (request_erasure b) db i r e h =
    ap (λ s. find (is_erasure i) s.erasure_requests) (wrap-store _ _)
    ∙ create_erasure-find ok now tenant id i b db r e
handle-erasure_kept ok now tenant id (complete j) db i r e h =
    ap (λ s. find (is_erasure i) s.erasure_requests) (wrap-store _ _)
    ∙ complete_erasure-find ok now tenant j i db r e h
handle-erasure_kept ok now tenant id (record_consent b) db i r e h =
    ap (λ s. find (is_erasure i) s.erasure_requests) (wrap-store _ _)
    ∙ ap (find (is_erasure i)) (create_consent-SameButConsents ok now tenant id b db).0
    ∙ e
handle-erasure_kept ok now tenant id (withdraw j) db i r e h =
    ap (λ s. find (is_erasure i) s.erasure_requests) (wrap-store _ _)
    ∙ ap (find (is_erasure i)) (withdraw_consent-SameButConsents ok now tenant j db).0
    ∙ e
handle-erasure_kept ok now tenant id (report_breach d b) db i r e h =
    ap (λ s. find (is_erasure i) s.erasure_requests) (wrap-store _ _)
    ∙ ap (find (is_erasure i)) (create_breach-SameButBreaches ok now tenant id d b db).0
    ∙ e
handle-erasure_kept ok now tenant id (notify j) db i r e h =
    ap (λ s. find (is_erasure i) s.erasure_requests) (wrap-store _ _)
    ∙ ap (find (is_erasure i)) (notify_regulator-SameButBreaches ok now tenant j db).0
    ∙ e
handle-erasure_kept ok now tenant id (resolve j) db i r e h =
    ap (λ s. find (is_erasure i) s.erasure_requests) (wrap-store _ _)
    ∙ ap (find (is_erasure i)) (resolve_breach-SameButBreaches ok now tenant j db).0
    ∙ e

-- A consent record that is another tenant's or withdrawn is not changed by any request: consent that
-- is withdrawn is never granted again in its record.
pub handle-consent_kept :
    (ok : Bool) (now tenant id : ℕ) (q : Request) (db : Db) (i : ℕ) (r : ConsentRow)
    → find (is_consent i) db.consent_records ≡ some r
    → (r.tenant_id ≢ tenant) ⊎ (is_some r.withdrawn_at ≡ true)
    → find (is_consent i) (handle ok now tenant id q db).1.consent_records ≡ some r
unfolding handle
handle-consent_kept ok now tenant id (request_erasure b) db i r e h =
    ap (λ s. find (is_consent i) s.consent_records) (wrap-store _ _)
    ∙ ap (find (is_consent i)) (create_erasure-SameButErasures ok now tenant id b db).0
    ∙ e
handle-consent_kept ok now tenant id (complete j) db i r e h =
    ap (λ s. find (is_consent i) s.consent_records) (wrap-store _ _)
    ∙ ap (find (is_consent i)) (complete_erasure-SameButErasures ok now tenant j db).0
    ∙ e
handle-consent_kept ok now tenant id (record_consent b) db i r e h =
    ap (λ s. find (is_consent i) s.consent_records) (wrap-store _ _)
    ∙ create_consent-find ok now tenant id i b db r e
handle-consent_kept ok now tenant id (withdraw j) db i r e h =
    ap (λ s. find (is_consent i) s.consent_records) (wrap-store _ _)
    ∙ withdraw_consent-find ok now tenant j i db r e h
handle-consent_kept ok now tenant id (report_breach d b) db i r e h =
    ap (λ s. find (is_consent i) s.consent_records) (wrap-store _ _)
    ∙ ap (find (is_consent i)) (create_breach-SameButBreaches ok now tenant id d b db).1
    ∙ e
handle-consent_kept ok now tenant id (notify j) db i r e h =
    ap (λ s. find (is_consent i) s.consent_records) (wrap-store _ _)
    ∙ ap (find (is_consent i)) (notify_regulator-SameButBreaches ok now tenant j db).1
    ∙ e
handle-consent_kept ok now tenant id (resolve j) db i r e h =
    ap (λ s. find (is_consent i) s.consent_records) (wrap-store _ _)
    ∙ ap (find (is_consent i)) (resolve_breach-SameButBreaches ok now tenant j db).1
    ∙ e

-- A breach incident of another tenant is not changed by any request.
pub handle-breach_kept :
    (ok : Bool) (now tenant id : ℕ) (q : Request) (db : Db) (i : ℕ) (r : BreachIncident)
    → find (is_breach i) db.breach_incidents ≡ some r
    → owned_by tenant r.tenant_id ≡ false
    → find (is_breach i) (handle ok now tenant id q db).1.breach_incidents ≡ some r
unfolding handle
handle-breach_kept ok now tenant id (request_erasure b) db i r e h =
    ap (λ s. find (is_breach i) s.breach_incidents) (wrap-store _ _)
    ∙ ap (find (is_breach i)) (create_erasure-SameButErasures ok now tenant id b db).1
    ∙ e
handle-breach_kept ok now tenant id (complete j) db i r e h =
    ap (λ s. find (is_breach i) s.breach_incidents) (wrap-store _ _)
    ∙ ap (find (is_breach i)) (complete_erasure-SameButErasures ok now tenant j db).1
    ∙ e
handle-breach_kept ok now tenant id (record_consent b) db i r e h =
    ap (λ s. find (is_breach i) s.breach_incidents) (wrap-store _ _)
    ∙ ap (find (is_breach i)) (create_consent-SameButConsents ok now tenant id b db).1
    ∙ e
handle-breach_kept ok now tenant id (withdraw j) db i r e h =
    ap (λ s. find (is_breach i) s.breach_incidents) (wrap-store _ _)
    ∙ ap (find (is_breach i)) (withdraw_consent-SameButConsents ok now tenant j db).1
    ∙ e
handle-breach_kept ok now tenant id (report_breach d b) db i r e h =
    ap (λ s. find (is_breach i) s.breach_incidents) (wrap-store _ _)
    ∙ create_breach-find ok now tenant id i d b db r e
handle-breach_kept ok now tenant id (notify j) db i r e h =
    ap (λ s. find (is_breach i) s.breach_incidents) (wrap-store _ _)
    ∙ notify_regulator-find ok now tenant j i db r e h
handle-breach_kept ok now tenant id (resolve j) db i r e h =
    ap (λ s. find (is_breach i) s.breach_incidents) (wrap-store _ _)
    ∙ resolve_breach-find ok now tenant j i db r e h
