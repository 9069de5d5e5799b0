-- ===== src/EnvVars/Secrets.antt =====
-- The routes of the secrets of a project.
use tinai_infra.Prelude.{
  ℕ, Bool, false, ◌&&◌, Option, none, some, map, ◌==◌, find, select, delete_where, Reply, send,
  Check, require_row, commit, ◌>>◌,
}
use tinai_infra.EnvVars.{
  Secret, Db, Caller, Answer, listed, one, empty, secret_view, order_by, own_project, upsert,
}

abbrev pub is_secret_of : (id key : ℕ) → Secret → Bool
is_secret_of id key r = r.project_id == id && r.key == key

-- GET /projects/:id/secrets
unfoldable pub list_secrets : Caller → (id : ℕ) → (reveal : Bool) → Db → Reply Answer × Db
list_secrets c id reveal db =
    commit (own_project c id db)
      (λ _ (db : Db). (
        send 200 (
            listed (
              map (secret_view (reveal && c.is_admin)) (
                order_by (λ (r : Secret). r.key)
                  (select (λ (r : Secret). r.project_id == id) db.secrets)))),
        db,
      ))
      db

abbrev pub secret_row : Caller → (now id key value : ℕ) → Secret
secret_row c now id key value = record {
  project_id = id;
  tenant_id = c.tenant_id;
  key = key;
  value = value;
  created_at = now;
  updated_at = now;
}

abbrev pub set_secret : (now value : ℕ) → Secret → Secret
set_secret now value r = record r { value = value; updated_at = now }

-- The row that RETURNING gives.
abbrev pub returned : Option Secret → (now value : ℕ) → Secret → Secret
returned none now value new = new
returned (some r) now value new = set_secret now value r

-- POST /projects/:id/secrets
unfoldable pub put_secret : Caller → (now id key value : ℕ) → Db → Reply Answer × Db
put_secret c now id key value db =
    commit (own_project c id db)
      (λ _ (db : Db). (
        send 201 (
            one (
              secret_view false (
                returned (find (is_secret_of id key) db.secrets) now value
                  (secret_row c now id key value)))),
        record db {
          secrets =
              upsert (is_secret_of id key) (set_secret now value) (secret_row c now id key value)
                db.secrets;
        },
      ))
      db

abbrev pub deletable : Caller → (id key : ℕ) → Db → Check Secret
deletable c id key db = do
  own_project c id db
  require_row (find (is_secret_of id key) db.secrets) 404 "secret not found"

-- DELETE /projects/:id/secrets/:key
unfoldable pub delete_secret : Caller → (id key : ℕ) → Db → Reply Answer × Db
delete_secret c id key db =
    commit (deletable c id key db)
      (λ _ (db : Db).
        (send 204 empty, record db { secrets = delete_where (is_secret_of id key) db.secrets }))
      db
