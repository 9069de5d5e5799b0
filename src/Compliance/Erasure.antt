-- ===== src/Compliance/Erasure.antt =====
-- Erasure requests: routes/erasure.ts.
pub mod Lifecycle
use tinai_infra.Prelude.{
  ℕ, ◌+◌, String, Bool, true, false, ◌&&◌, Option, none, some, List, [], ◌∷◌, ◌++◌, ◌==◌, find,
  update_where, Reply, send, Check, pass, require, require_row, commit, ◌>>=◌, ◌>>◌,
}
use tinai_infra.Compliance.{
  ErasureStatus, pending, completed, ErasureRequest, Db, AuditEventInput, write_audit_event,
}

abbrev pub sla_ms : ℕ
sla_ms = 2_592_000_000

-- The body, without the `tenant_id` that the code ignores and with the defaults filled in.
pub record CreateErasureBody : Type 0 where
  pub requester_email : ℕ
  pub data_categories : List ℕ
  pub full_erasure : Bool

abbrev pub requested : (now tenant id : ℕ) → CreateErasureBody → ErasureRequest
requested now tenant id b = record {
  id = id;
  tenant_id = tenant;
  requester_email = b.requester_email;
  data_categories = b.data_categories;
  full_erasure = b.full_erasure;
  status = pending;
  requested_at = now;
  completed_at = none;
  sla_deadline = now + sla_ms;
}

abbrev pub erasure_event : String → ErasureRequest → AuditEventInput
erasure_event action r = record {
  tenant_id = some r.tenant_id;
  actor = none;
  action = action;
  resource = "erasure_requests";
  resource_id = some r.id;
  ip_address = none;
  region = none;
}

-- POST /compliance/erasure
unfoldable pub create_erasure :
    (ok : Bool) (now tenant id : ℕ) → CreateErasureBody → Db → Reply ErasureRequest × Db
create_erasure ok now tenant id b db =
    let r = requested now tenant id b in
    (
      send 201 r,
      write_audit_event ok (erasure_event "erasure_request_created" r)
          (record db { erasure_requests = db.erasure_requests ++ r ∷ [] }),
    )

abbrev pub is_erasure : ℕ → ErasureRequest → Bool
is_erasure id r = r.id == id

abbrev pub is_incomplete : ErasureStatus → Bool
is_incomplete completed = false
is_incomplete _ = true

-- `id = $1 AND status != 'completed'`
abbrev pub is_unfinished : ℕ → ErasureRequest → Bool
is_unfinished id r = r.id == id && is_incomplete r.status

abbrev pub done_at : ℕ → ErasureRequest → ErasureRequest
done_at now r = record r { completed_at = some now; status = completed }

abbrev pub not_open : String
not_open = "erasure request not found or already completed"

-- GET /compliance/erasure/:id
unfoldable pub get_erasure : (tenant id : ℕ) → Db → Check ErasureRequest
get_erasure tenant id db = do
  r ← require_row (find (is_erasure id) db.erasure_requests) 404 "erasure request not found"
  require (r.tenant_id == tenant) 403 "Forbidden"
  pass r

abbrev pub completable : (tenant id : ℕ) → Db → Check ErasureRequest
completable tenant id db = do
  r ← require_row (find (is_erasure id) db.erasure_requests) 404 not_open
  require (r.tenant_id == tenant) 403 "Forbidden"
  require_row (find (is_unfinished id) db.erasure_requests) 404 not_open

-- POST /compliance/erasure/:id/complete
unfoldable pub complete_erasure : (ok : Bool) (now tenant id : ℕ) → Db → Reply ErasureRequest × Db
complete_erasure ok now tenant id db =
    commit (completable tenant id db)
      (λ r db. (
        send 200 (done_at now r),
        write_audit_event ok (erasure_event "erasure_completed" (done_at now r)) (record db {
          erasure_requests = update_where (is_unfinished id) (done_at now) db.erasure_requests;
        }),
      ))
      db
