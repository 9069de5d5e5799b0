-- ===== src/Compliance/Breach/Lifecycle.antt =====
-- What the updates of a breach incident leave.
use tinai_infra.Prelude.{
  ℕ, String, ◌≡◌, refl, ◌∙◌, ap, inl, inr, Bool, true, false, some, arith, find, commit, pass,
  if◌then◌else◌, Option-cases, find-holds, find-update_where, commit-keeps, find-append_hit,
}
use tinai_infra.Compliance.{notified, BreachIncident, Db, write_audit_event-tables}
use tinai_infra.Compliance.Breach.{
  is_breach, owned_by, own_breach, notified_at, resolved, update_breach, notify_regulator,
  resolve_breach, create_breach, CreateBreachBody,
}

own_breach_row :
    (tenant id : ℕ) (db : Db) (u : BreachIncident)
    → own_breach tenant id db ≡ pass u
    → (find (is_breach id) db.breach_incidents ≡ some u) × (owned_by tenant u.tenant_id ≡ true)
own_breach_row tenant id db u h = elim (Option-cases (find (is_breach id) db.breach_incidents)) [
  | inl miss ↦ ground arith
  | inr (r, e) ↦ ground arith
]

update_breach-find :
    (ok : Bool) (now tenant id i : ℕ) (action : String) (f : BreachIncident → BreachIncident)
    (db : Db) (r : BreachIncident)
    → ((a : BreachIncident) → is_breach i (f a) ≡ is_breach i a)
    → find (is_breach i) db.breach_incidents ≡ some r
    → find (is_breach i) (update_breach ok now tenant id action f r db).1.breach_incidents
      ≡ some (if is_breach id r then f r else r)
update_breach-find ok now tenant id i action f db r keep e =
    ap (find (is_breach i)) (write_audit_event-tables ok _ _).2
    ∙ find-update_where (is_breach i) (is_breach id) f db.breach_incidents keep r e

-- No update reaches an incident of another tenant.
update_breach-apart :
    (ok : Bool) (now tenant id i : ℕ) (action : String) (f : BreachIncident → BreachIncident)
    (db : Db) (r : BreachIncident)
    → ((a : BreachIncident) → is_breach i (f a) ≡ is_breach i a)
    → find (is_breach i) db.breach_incidents ≡ some r
    → owned_by tenant r.tenant_id ≡ false
    → let db' = (commit (own_breach tenant id db) (update_breach ok now tenant id action f) db).1 in
      find (is_breach i) db'.breach_incidents ≡ some r
update_breach-apart ok now tenant id i action f db r keep e foreign =
    commit-keeps (λ s. find (is_breach i) s.breach_incidents ≡ some r) _ _ db e
      (λ u passed.
        let (found, mine) = own_breach_row tenant id db u passed in
        let its_id = find-holds (is_breach i) db.breach_incidents r e in
        let spared : is_breach id r ≡ false = ground arith in
        ap (find (is_breach i)) (write_audit_event-tables ok _ _).2
        ∙ find-update_where (is_breach i) (is_breach id) f db.breach_incidents keep r e
        ∙ rw spared refl)

pub notify_regulator-find :
    (ok : Bool) (now tenant id i : ℕ) (db : Db) (r : BreachIncident)
    → find (is_breach i) db.breach_incidents ≡ some r
    → owned_by tenant r.tenant_id ≡ false
    → find (is_breach i) (notify_regulator ok now tenant id db).1.breach_incidents ≡ some r
unfolding notify_regulator
notify_regulator-find ok now tenant id i db r e foreign =
    update_breach-apart ok now tenant id i _ (notified_at now) db r (λ a. refl) e foreign

pub resolve_breach-find :
    (ok : Bool) (now tenant id i : ℕ) (db : Db) (r : BreachIncident)
    → find (is_breach i) db.breach_incidents ≡ some r
    → owned_by tenant r.tenant_id ≡ false
    → find (is_breach i) (resolve_breach ok now tenant id db).1.breach_incidents ≡ some r
unfolding resolve_breach
resolve_breach-find ok now tenant id i db r e foreign =
    update_breach-apart ok now tenant id i _ (resolved now) db r (λ a. refl) e foreign

pub create_breach-find :
    (ok : Bool) (now tenant id i : ℕ) (draft : String) (b : CreateBreachBody) (db : Db)
    (r : BreachIncident)
    → find (is_breach i) db.breach_incidents ≡ some r
    → find (is_breach i) (create_breach ok now tenant id draft b db).1.breach_incidents ≡ some r
unfolding create_breach
create_breach-find ok now tenant id i draft b db r e =
    ap (find (is_breach i)) (write_audit_event-tables ok _ _).2
    ∙ find-append_hit (is_breach i) db.breach_incidents _ r e

own_breach_found :
    (tenant id : ℕ) (db : Db) (r : BreachIncident)
    → find (is_breach id) db.breach_incidents ≡ some r
    → owned_by tenant r.tenant_id ≡ true
    → own_breach tenant id db ≡ pass r
own_breach_found tenant id db r e mine = ground arith

-- A notice to the regulator reopens a resolved incident: after a resolution, the incident is closed,
-- and after a notice that follows, it is notified again, with the time of the resolution kept.
pub notify_after_resolve :
    (ok ok' : Bool) (now later tenant id : ℕ) (db : Db) (r : BreachIncident)
    → find (is_breach id) db.breach_incidents ≡ some r
    → owned_by tenant r.tenant_id ≡ true
    → let db' = (resolve_breach ok now tenant id db).1 in
      (find (is_breach id) db'.breach_incidents ≡ some (resolved now r))
      × (find (is_breach id) (notify_regulator ok' later tenant id db').1.breach_incidents
          ≡ some (record r {
            resolved_at = some now;
            regulator_notified_at = some later;
            status = notified;
          }))
unfolding resolve_breach notify_regulator commit
notify_after_resolve ok ok' now later tenant id db r e mine =
    let its_id = find-holds (is_breach id) db.breach_incidents r e in
    let passed = own_breach_found tenant id db r e mine in
    let db' = (resolve_breach ok now tenant id db).1 in
    let once : find (is_breach id) db'.breach_incidents ≡ some (resolved now r) = rw passed (
      update_breach-find ok now tenant id id "breach_resolved" (resolved now) db r (λ a. refl) e
      ∙ rw its_id refl) in
    (
      once,
      rw (own_breach_found tenant id db' (resolved now r) once mine) (
          update_breach-find ok' later tenant id id "breach_regulator_notified" (notified_at later)
            db' (resolved now r) (λ a. refl) once
          ∙ rw its_id refl),
    )
