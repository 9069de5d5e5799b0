-- ===== src/Compliance/Erasure/Lifecycle.antt =====
-- What becomes of an erasure request once it is completed, or when another tenant asks.
use tinai_infra.Prelude.{
  ℕ, ◌≡◌, ◌≢◌, ◌⊎◌, refl, ◌∙◌, ap, inl, inr, Bool, false, none, some, arith, find, update_where,
  send, fail, commit, pass, ==_refl, if◌then◌else◌, Option-cases, find-holds, find-update_where,
  find-update_where_gone, commit-keeps, commit-sent, find-append_hit,
}
use tinai_infra.Compliance.{completed, ErasureRequest, Db, write_audit_event-tables}
use tinai_infra.Compliance.Erasure.{
  is_erasure, is_unfinished, done_at, not_open, completable, complete_erasure, create_erasure,
  CreateErasureBody,
}

-- What a passed check has found.
completable_row :
    (tenant id : ℕ) (db : Db) (u : ErasureRequest)
    → completable tenant id db ≡ pass u
    → (r : ErasureRequest) × (find (is_erasure id) db.erasure_requests ≡ some r)
      × (r.tenant_id ≡ tenant)
      × (find (is_unfinished id) db.erasure_requests ≡ some u)
completable_row tenant id db u h = elim (Option-cases (find (is_erasure id) db.erasure_requests)) [
  | inl miss ↦ ground arith
  | inr (r, e) ↦ (r, e, ground arith, ground arith)
]

-- Completing some request leaves a row as it is that is another tenant's or completed.
pub complete_erasure-find :
    (ok : Bool) (now tenant id i : ℕ) (db : Db) (r : ErasureRequest)
    → find (is_erasure i) db.erasure_requests ≡ some r
    → (r.tenant_id ≢ tenant) ⊎ (r.status ≡ completed)
    → find (is_erasure i) (complete_erasure ok now tenant id db).1.erasure_requests ≡ some r
unfolding complete_erasure
complete_erasure-find ok now tenant id i db r e settled =
    commit-keeps (λ s. find (is_erasure i) s.erasure_requests ≡ some r) _ _ db e
      (λ u passed.
        let (r0, e0, mine, _) = completable_row tenant id db u passed in
        let its_id = find-holds (is_erasure i) db.erasure_requests r e in
        let spared : is_unfinished id r ≡ false = ground arith in
        ap (find (is_erasure i)) (write_audit_event-tables ok _ _).0
        ∙ find-update_where (is_erasure i) (is_unfinished id) (done_at now) db.erasure_requests
            (λ a. refl) r e
        ∙ rw spared refl)

pub create_erasure-find :
    (ok : Bool) (now tenant id i : ℕ) (b : CreateErasureBody) (db : Db) (r : ErasureRequest)
    → find (is_erasure i) db.erasure_requests ≡ some r
    → find (is_erasure i) (create_erasure ok now tenant id b db).1.erasure_requests ≡ some r
unfolding create_erasure
create_erasure-find ok now tenant id i b db r e =
    ap (find (is_erasure i)) (write_audit_event-tables ok _ _).0
    ∙ find-append_hit (is_erasure i) db.erasure_requests _ r e

-- The caller's own request that is not open.
spent_request :
    (ok : Bool) (now tenant id : ℕ) (db : Db) (r : ErasureRequest)
    → find (is_erasure id) db.erasure_requests ≡ some r
    → r.tenant_id ≡ tenant
    → find (is_unfinished id) db.erasure_requests ≡ none
    → complete_erasure ok now tenant id db ≡ (fail 404 not_open, db)
unfolding complete_erasure commit
spent_request ok now tenant id db r found mine gone =
    rw (found, mine) (ground (arith, ==_refl tenant))

-- What a completion finds and leaves.
completed_rows :
    (ok : Bool) (now tenant id : ℕ) (db : Db) (u : ErasureRequest)
    → (complete_erasure ok now tenant id db).0 ≡ send 200 u
    → (r : ErasureRequest) × (v : ErasureRequest) × (find (is_erasure id) db.erasure_requests
        ≡ some r)
      × (r.tenant_id ≡ tenant)
      × (u ≡ done_at now v)
      × ((complete_erasure ok now tenant id db).1.erasure_requests
          ≡ update_where (is_unfinished id) (done_at now) db.erasure_requests)
unfolding complete_erasure
completed_rows ok now tenant id db u h =
    let (v, passed, same) = commit-sent (completable tenant id db) _ db 200 u h in
    let (r, found, mine, _) = completable_row tenant id db v passed in
    let sent : (complete_erasure ok now tenant id db).0 ≡ send 200 (done_at now v) =
      ap (λ p. p.0) same in
    (
      r,
      v,
      found,
      mine,
      ground arith,
      ap (λ p. p.1.erasure_requests) same ∙ (write_audit_event-tables ok _ _).0,
    )

-- An erasure request is completed once: a completion that is answered with 200 answers the request
-- with the time of that completion, and another attempt on it is answered with 404 and changes nothing.
pub complete_erasure_once :
    (ok ok' : Bool) (now later tenant id : ℕ) (db : Db) (u : ErasureRequest)
    → (complete_erasure ok now tenant id db).0 ≡ send 200 u
    → let db' = (complete_erasure ok now tenant id db).1 in
      (u.completed_at ≡ some now)
      × (complete_erasure ok' later tenant id db' ≡ (fail 404 not_open, db'))
complete_erasure_once ok ok' now later tenant id db u h =
    let (r, v, found, mine, is, rows) = completed_rows ok now tenant id db u h in
    (
      rw is refl,
      spent_request ok' later tenant id _ (if is_unfinished id r then done_at now r else r)
          (ap (find (is_erasure id)) rows
            ∙ find-update_where (is_erasure id) (is_unfinished id) (done_at now) db.erasure_requests
                (λ a. refl) r found)
          (ground arith)
          (ap (find (is_unfinished id)) rows
            ∙ find-update_where_gone (is_unfinished id) (is_unfinished id) (done_at now)
                db.erasure_requests (λ a e. e) (λ a. ground arith)),
    )
