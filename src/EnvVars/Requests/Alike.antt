-- ===== src/EnvVars/Requests/Alike.antt =====
-- Each route on tables whose secrets are blanked.
use mathlib.Core.Option
use tinai_infra.Prelude.{
  ℕ, ◌≡◌, refl, ◌∙◌, ap, sym, subst, Bool, false, not, ◌&&◌, Option, none, some, List, [], ◌∷◌,
  ◌++◌, map, ◌==◌, or_else, length, find, select, update_where, delete_where, Reply, send, require,
  commit, ◌>>=◌,
}
use tinai_infra.EnvVars.{
  EnvVar, Secret, Db, Caller, Answer, listed, one, upserted, empty, BulkVar, view, secret_view,
  order_by, own_workload, own_project, upsert,
}
use tinai_infra.EnvVars.Vars.{
  is_var, var_row, list_env, creatable, create_env, set_value, updatable, update_env, delete_env,
  upsert_var, upsert_all, bulk_check, bulk_env,
}
use tinai_infra.EnvVars.Secrets.{
  is_secret_of, secret_row, list_secrets, set_secret, returned, put_secret, deletable,
  delete_secret,
}
use tinai_infra.EnvVars.Requests.Tables.{
  map-order_by, map-select, map-delete_where, found-map, map-find, map-update_where, map-append,
  map-upsert, map-twice, map-blind,
}
use tinai_infra.EnvVars.Requests.Blank.{
  blank_var, blank_secret, blank, Alike, blank_var_twice, view_blind, blank_twice, commit-Alike,
  commit-Alike_row, updatable-blank, deletable-blank, alike_vars, alike_secrets,
}

pub list_env-Alike :
    (c : Caller) (id : ℕ) (reveal : Bool) (db : Db)
    → (reveal && c.is_admin) ≡ false
    → Alike (list_env c id reveal db) (list_env c id reveal (blank db))
unfolding list_env
list_env-Alike c id reveal db e =
    let rows = select (λ (r : EnvVar). r.workload_id == id) db.vars in
    let same =
      ap (order_by (λ (r : EnvVar). r.key))
        (map-select blank_var (λ (r : EnvVar). r.workload_id == id) (λ a. refl) db.vars)
      ∙ map-order_by blank_var (λ (r : EnvVar). r.key) (λ a. refl) rows in
    commit-Alike (own_workload c id db)
      (λ _ (db : Db). (
        send 200 (
            listed (
              map (view (reveal && c.is_admin)) (
                order_by (λ (r : EnvVar). r.key)
                  (select (λ (r : EnvVar). r.workload_id == id) db.vars)))),
        db,
      ))
      db
      (λ _. (
        rw e (
            sym (
              ap (λ t. send 200 (listed t))
                (ap (map (view false)) same
                  ∙ map-blind blank_var (view false) (order_by (λ (r : EnvVar). r.key) rows)
                      (λ r. view_blind r.is_secret r refl)))),
        blank_twice db,
      ))

pub list_secrets-Alike :
    (c : Caller) (id : ℕ) (reveal : Bool) (db : Db)
    → (reveal && c.is_admin) ≡ false
    → Alike (list_secrets c id reveal db) (list_secrets c id reveal (blank db))
unfolding list_secrets
list_secrets-Alike c id reveal db e =
    let rows = select (λ (r : Secret). r.project_id == id) db.secrets in
    let same =
      ap (order_by (λ (r : Secret). r.key))
        (map-select blank_secret (λ (r : Secret). r.project_id == id) (λ a. refl) db.secrets)
      ∙ map-order_by blank_secret (λ (r : Secret). r.key) (λ a. refl) rows in
    commit-Alike (own_project c id db)
      (λ _ (db : Db). (
        send 200 (
            listed (
              map (secret_view (reveal && c.is_admin)) (
                order_by (λ (r : Secret). r.key)
                  (select (λ (r : Secret). r.project_id == id) db.secrets)))),
        db,
      ))
      db
      (λ _. (
        rw e (
            sym (
              ap (λ t. send 200 (listed t))
                (ap (map (secret_view false)) same
                  ∙ map-blind blank_secret (secret_view false)
                      (order_by (λ (r : Secret). r.key) rows) (λ r. refl)))),
        blank_twice db,
      ))

set_value_blind :
    (now value : ℕ) (o : Option Bool) (r : EnvVar)
    → blank_var (set_value now value o (blank_var r)) ≡ blank_var (set_value now value o r)
set_value_blind now value o r = refl

pub create_env-Alike :
    (c : Caller) (now id key value : ℕ) (o : Option Bool) (db : Db)
    → Alike (create_env c now id key value o db) (create_env c now id key value o (blank db))
unfolding create_env
create_env-Alike c now id key value o db =
    let body : Unit {0} → Db → Reply Answer × Db = λ _ db. (
      send 201 (one (view false (var_row c now id key value (or_else o false)))),
      record db { vars = db.vars ++ var_row c now id key value (or_else o false) ∷ [] },
    ) in
    let same : creatable c id key (blank db) ≡ creatable c id key db =
      ap
        (λ b. own_workload c id db >>= λ _.
          require (not b) 409 "env var already exists on this workload")
        (found-map blank_var (is_var id key) (λ a. refl) db.vars) in
    subst (λ k. Alike (commit (creatable c id key db) body db) (commit k body (blank db)))
      (sym same)
      (commit-Alike (creatable c id key db) body db (λ _. (
        refl,
        alike_vars db _ _ (
            map-append blank_var (is_var id key) (λ a. refl) (λ r. r) blank_var_twice
              blank_var_twice db.vars (var_row c now id key value (or_else o false) ∷ [])),
      )))

pub update_env-Alike :
    (c : Caller) (now id key value : ℕ) (o : Option Bool) (db : Db)
    → Alike (update_env c now id key value o db) (update_env c now id key value o (blank db))
unfolding update_env
update_env-Alike c now id key value o db =
    commit-Alike_row blank_var (updatable c id key db) (updatable c id key (blank db))
      (λ (r : EnvVar) (db : Db). (
        send 200 (one (view false (set_value now value o r))),
        record db { vars = update_where (is_var id key) (set_value now value o) db.vars },
      ))
      db (updatable-blank c id key db)
      (λ r. (
        refl,
        alike_vars db _ _ (
            map-update_where blank_var (is_var id key) (λ a. refl) (set_value now value o)
              blank_var_twice (λ r. refl) db.vars),
      ))

pub delete_env-Alike :
    (c : Caller) (id key : ℕ) (db : Db)
    → Alike (delete_env c id key db) (delete_env c id key (blank db))
unfolding delete_env
delete_env-Alike c id key db =
    commit-Alike_row blank_var (updatable c id key db) (updatable c id key (blank db))
      (λ _ (db : Db). (send 204 empty, record db { vars = delete_where (is_var id key) db.vars }))
      db (updatable-blank c id key db)
      (λ r. (
        refl,
        alike_vars db _ _ (
            ap (map blank_var) (map-delete_where blank_var (is_var id key) (λ a. refl) db.vars)
            ∙ map-twice blank_var (delete_where (is_var id key) db.vars) blank_var_twice),
      ))

upsert_var_blind :
    (c : Caller) (now id : ℕ) (v : BulkVar) (rows : List EnvVar)
    → map blank_var (upsert_var c now id v (map blank_var rows))
      ≡ map blank_var (upsert_var c now id v rows)
upsert_var_blind c now id v rows =
    map-upsert blank_var (is_var id v.key) (λ a. refl)
      (set_value now v.value (some (or_else v.is_secret false))) blank_var_twice (λ r. refl)
      (var_row c now id v.key v.value (or_else v.is_secret false)) rows

upsert_all_blind :
    (c : Caller) (now id : ℕ) (vs : List BulkVar) (rows : List EnvVar)
    → map blank_var (upsert_all c now id vs (map blank_var rows))
      ≡ map blank_var (upsert_all c now id vs rows)
upsert_all_blind c now id [] rows = map-twice blank_var rows blank_var_twice
upsert_all_blind c now id (v ∷ vs) rows =
    sym (upsert_all_blind c now id vs (upsert_var c now id v (map blank_var rows)))
    ∙ ap (λ t. map blank_var (upsert_all c now id vs t)) (upsert_var_blind c now id v rows)
    ∙ upsert_all_blind c now id vs (upsert_var c now id v rows)

pub bulk_env-Alike :
    (c : Caller) (now id : ℕ) (vs : List BulkVar) (db : Db)
    → Alike (bulk_env c now id vs db) (bulk_env c now id vs (blank db))
unfolding bulk_env
bulk_env-Alike c now id [] db =
    commit-Alike (own_workload c id db) (λ _ (db : Db). (send 200 (upserted 0), db)) db
      (λ _. (refl, blank_twice db))
bulk_env-Alike c now id (v ∷ vs) db =
    commit-Alike (bulk_check c id (v ∷ vs) db)
      (λ _ (db : Db). (
        send 200 (upserted (length (v ∷ vs))),
        record db { vars = upsert_all c now id (v ∷ vs) db.vars },
      ))
      db (λ _. (refl, alike_vars db _ _ (upsert_all_blind c now id (v ∷ vs) db.vars)))

returned_blind :
    (o : Option Secret) (now value : ℕ) (new : Secret)
    → secret_view false (returned o now value new)
      ≡ secret_view false (returned (Option.map blank_secret o) now value new)
returned_blind none now value new = refl
returned_blind (some r) now value new = refl

pub put_secret-Alike :
    (c : Caller) (now id key value : ℕ) (db : Db)
    → Alike (put_secret c now id key value db) (put_secret c now id key value (blank db))
unfolding put_secret
put_secret-Alike c now id key value db =
    let new = secret_row c now id key value in
    commit-Alike (own_project c id db)
      (λ _ (db : Db). (
        send 201 (
            one
              (secret_view false (returned (find (is_secret_of id key) db.secrets) now value new))),
        record db { secrets = upsert (is_secret_of id key) (set_secret now value) new db.secrets },
      ))
      db
      (λ _. (
        ap (λ v. send 201 (one v))
            (returned_blind (find (is_secret_of id key) db.secrets) now value new
              ∙ ap (λ o. secret_view false (returned o now value new))
                  (sym (map-find blank_secret (is_secret_of id key) (λ a. refl) db.secrets))),
        alike_secrets db _ _ (
            map-upsert blank_secret (is_secret_of id key) (λ a. refl) (set_secret now value)
              (λ r. refl) (λ r. refl) new db.secrets),
      ))

pub delete_secret-Alike :
    (c : Caller) (id key : ℕ) (db : Db)
    → Alike (delete_secret c id key db) (delete_secret c id key (blank db))
unfolding delete_secret
delete_secret-Alike c id key db =
    commit-Alike_row blank_secret (deletable c id key db) (deletable c id key (blank db))
      (λ _ (db : Db).
        (send 204 empty, record db { secrets = delete_where (is_secret_of id key) db.secrets }))
      db (deletable-blank c id key db)
      (λ r. (
        refl,
        alike_secrets db _ _ (
            ap (map blank_secret)
              (map-delete_where blank_secret (is_secret_of id key) (λ a. refl) db.secrets)
            ∙ map-twice blank_secret (delete_where (is_secret_of id key) db.secrets) (λ r. refl)),
      ))
