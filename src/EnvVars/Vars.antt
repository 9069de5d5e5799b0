-- ===== src/EnvVars/Vars.antt =====
-- The routes of the variables of a workload.
pub mod Bulk
use tinai_infra.Prelude.{
  ℕ, Bool, true, false, not, ◌&&◌, ◌||◌, Option, none, some, List, [], ◌∷◌, ◌++◌, map,
  if◌then◌else◌, ◌==◌, leb, or_else, is_some, length, find, select, update_where, delete_where,
  Reply, send, fail, Check, pass, reject, require, require_row, commit, ◌>>=◌, ◌>>◌,
}
use tinai_infra.EnvVars.{
  Owner, EnvVar, Secret, Db, Caller, Shown, masked, plain, View, Answer, listed, one, upserted,
  empty, BulkVar, view, secret_view, order_by, own_workload, own_project, upsert,
}

abbrev pub is_var : (id key : ℕ) → EnvVar → Bool
is_var id key r = r.workload_id == id && r.key == key

abbrev pub var_row : Caller → (now id key value : ℕ) → Bool → EnvVar
var_row c now id key value is_secret = record {
  workload_id = id;
  tenant_id = c.tenant_id;
  key = key;
  value = value;
  is_secret = is_secret;
  created_at = now;
  updated_at = now;
}

-- GET /workloads/:id/env
unfoldable pub list_env : Caller → (id : ℕ) → (reveal : Bool) → Db → Reply Answer × Db
list_env c id reveal db =
    commit (own_workload c id db)
      (λ _ (db : Db). (
        send 200 (
            listed (
              map (view (reveal && c.is_admin)) (
                order_by (λ (r : EnvVar). r.key)
                  (select (λ (r : EnvVar). r.workload_id == id) db.vars)))),
        db,
      ))
      db

abbrev pub creatable : Caller → (id key : ℕ) → Db → Check (Unit {0})
creatable c id key db = do
  own_workload c id db
  require (not (is_some (find (is_var id key) db.vars))) 409
      "env var already exists on this workload"

-- POST /workloads/:id/env
unfoldable pub create_env :
    Caller → (now id key value : ℕ) → (is_secret : Option Bool) → Db → Reply Answer × Db
create_env c now id key value is_secret db =
    commit (creatable c id key db)
      (λ _ (db : Db). (
        send 201 (one (view false (var_row c now id key value (or_else is_secret false)))),
        record db { vars = db.vars ++ var_row c now id key value (or_else is_secret false) ∷ [] },
      ))
      db

-- The SET clause; `is_secret` is set where the body has it.
abbrev pub set_value : (now value : ℕ) → Option Bool → EnvVar → EnvVar
set_value now value is_secret r = record r {
  value = value;
  is_secret = or_else is_secret r.is_secret;
  updated_at = now;
}

abbrev pub updatable : Caller → (id key : ℕ) → Db → Check EnvVar
updatable c id key db = do
  own_workload c id db
  require_row (find (is_var id key) db.vars) 404 "env var not found"

-- PUT /workloads/:id/env/:key
unfoldable pub update_env :
    Caller → (now id key value : ℕ) → (is_secret : Option Bool) → Db → Reply Answer × Db
update_env c now id key value is_secret db =
    commit (updatable c id key db)
      (λ (r : EnvVar) (db : Db). (
        send 200 (one (view false (set_value now value is_secret r))),
        record db { vars = update_where (is_var id key) (set_value now value is_secret) db.vars },
      ))
      db

-- DELETE /workloads/:id/env/:key
unfoldable pub delete_env : Caller → (id key : ℕ) → Db → Reply Answer × Db
delete_env c id key db =
    commit (updatable c id key db)
      (λ _ (db : Db). (send 204 empty, record db { vars = delete_where (is_var id key) db.vars }))
      db

abbrev pub upsert_var : Caller → (now id : ℕ) → BulkVar → List EnvVar → List EnvVar
upsert_var c now id v =
    upsert (is_var id v.key) (set_value now v.value (some (or_else v.is_secret false)))
      (var_row c now id v.key v.value (or_else v.is_secret false))

abbrev pub upsert_all : Caller → (now id : ℕ) → List BulkVar → List EnvVar → List EnvVar
upsert_all c now id [] rows = rows
upsert_all c now id (v ∷ vs) rows = upsert_all c now id vs (upsert_var c now id v rows)

abbrev pub has_key : ℕ → List BulkVar → Bool
has_key key vs = is_some (find (λ (v : BulkVar). v.key == key) vs)

abbrev pub repeats : List BulkVar → Bool
repeats [] = false
repeats (v ∷ vs) = has_key v.key vs || repeats vs

abbrev pub bulk_check : Caller → (id : ℕ) → List BulkVar → Db → Check (Unit {0})
bulk_check c id vs db = do
  own_workload c id db
  require (not (repeats vs)) 500 "ON CONFLICT DO UPDATE command cannot affect row a second time"

-- POST /workloads/:id/env/bulk
unfoldable pub bulk_env : Caller → (now id : ℕ) → List BulkVar → Db → Reply Answer × Db
bulk_env c now id [] db =
    commit (own_workload c id db) (λ _ (db : Db). (send 200 (upserted 0), db)) db
bulk_env c now id (v ∷ vs) db =
    commit (bulk_check c id (v ∷ vs) db)
      (λ _ (db : Db). (
        send 200 (upserted (length (v ∷ vs))),
        record db { vars = upsert_all c now id (v ∷ vs) db.vars },
      ))
      db
