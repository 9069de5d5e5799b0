-- ===== src/EnvVars/Requests/Owned.antt =====
-- What a tenant's requests do to the variables and secrets of others.
use tinai_infra.Prelude.{
  ℕ, String, ◌≡◌, ◌≢◌, refl, ◌∙◌, subst, Bool, true, false, Option, none, some, List, [], ◌∷◌, ◌++◌,
  arith, ◌==◌, is_some, or_else, find, select, update_where, delete_where, Check, pass, reject,
  require, require_row, commit-keeps, ◌>>=◌, Bool-cases, inl, inr,
}
use tinai_infra.EnvVars.{
  Owner, EnvVar, Secret, Db, Caller, BulkVar, is_owner, own_workload, own_project, upsert,
}
use tinai_infra.EnvVars.Vars.{
  is_var, var_row, list_env, creatable, create_env, set_value, updatable, update_env, delete_env,
  upsert_var, upsert_all, bulk_check, bulk_env,
}
use tinai_infra.EnvVars.Secrets.{
  is_secret_of, secret_row, list_secrets, set_secret, put_secret, deletable, delete_secret,
}
use tinai_infra.EnvVars.Requests.{
  Request, get_vars, post_var, put_var, delete_var, post_bulk, get_secrets, post_secret,
  remove_secret, handle, run,
}

-- A selection that the writes pass by.
module _ {ℓ} {A : Type ℓ} (p q : A → Bool) (f : A → A) (apart : (a : A) → q a ≡ true → p a ≡ false)
    (stays : (a : A) → p (f a) ≡ p a) where
  select-update_apart : (xs : List A) → select p (update_where q f xs) ≡ select p xs
  select-update_apart [] = refl
  select-update_apart (a ∷ xs) = ground (arith, apart a, stays a, select-update_apart xs)

  select-delete_apart : (xs : List A) → select p (delete_where q xs) ≡ select p xs
  select-delete_apart [] = refl
  select-delete_apart (a ∷ xs) = ground (arith, apart a, select-delete_apart xs)

  select-append_apart : (a : A) (xs : List A) → p a ≡ false → select p (xs ++ a ∷ []) ≡ select p xs
  select-append_apart a [] out = ground arith
  select-append_apart a (x ∷ xs) out = ground (arith, select-append_apart a xs out)

  select-upsert_apart :
      (a : A) (xs : List A) → p a ≡ false → select p (upsert q f a xs) ≡ select p xs
  select-upsert_apart a xs out = elim (Bool-cases (is_some (find q xs))) [
    | inl e ↦ rw e (select-update_apart xs)
    | inr e ↦ rw e (select-append_apart a xs out)
  ]

first_passes {ℓ κ} :
    {A : Type ℓ} {B : Type κ} (m : Check A) (f : A → Check B) (b : B)
    → (m >>= f) ≡ pass b
    → (a : A) × (m ≡ pass a)
first_passes (pass a) f b e = (a, refl)
first_passes (reject n t) f b e = ground arith

abbrev pub of_workload : ℕ → EnvVar → Bool
of_workload id r = r.workload_id == id

abbrev pub of_project : ℕ → Secret → Bool
of_project id r = r.project_id == id

-- The owners, and the rows of one workload and of one project, are what they were.
abbrev pub IsKept : (workload project : ℕ) → (s t : Db) → Type 0
IsKept workload project s t =
    (t.workloads ≡ s.workloads)
    × (t.projects ≡ s.projects)
    × (select (of_workload workload) t.vars ≡ select (of_workload workload) s.vars)
    × (select (of_project project) t.secrets ≡ select (of_project project) s.secrets)

-- The workload and the project are another tenant's.
abbrev pub IsForeign : Caller → (workload project : ℕ) → Db → Type 0
IsForeign c workload project s =
    ((w : Owner) → find (is_owner workload) s.workloads ≡ some w → w.tenant_id ≢ c.tenant_id)
    × ((p : Owner) → find (is_owner project) s.projects ≡ some p → p.tenant_id ≢ c.tenant_id)

owner_passes :
    (o : Option Owner) (tenant : ℕ) (m : String)
    → (require_row o 404 m >>= λ (w : Owner). require (w.tenant_id == tenant) 403 "Forbidden")
      ≡ pass tt
    → (w : Owner) × (o ≡ some w) × (w.tenant_id ≡ tenant)
owner_passes (some w) tenant m e = (w, refl, ground arith)
owner_passes none tenant m e = ground arith

-- The owner checks pass for no foreign id.
own_apart :
    (rows : List Owner) (id other tenant : ℕ) (m : String)
    → ((w : Owner) → find (is_owner other) rows ≡ some w → w.tenant_id ≢ tenant)
    → (require_row (find (is_owner id) rows) 404 m >>= λ (w : Owner).
        require (w.tenant_id == tenant) 403 "Forbidden")
      ≡ pass tt
    → id ≢ other
own_apart rows id other tenant m foreign e same =
    let (w, found, mine) = owner_passes (find (is_owner id) rows) tenant m e in
    foreign w (subst (λ i. find (is_owner i) rows ≡ some w) same found) mine

==_apart : (a b : ℕ) → a ≢ b → (a == b) ≡ false
==_apart a b ne = ground arith

-- Writes to the variables of one workload, seen from another.
module _ (c : Caller) (id other : ℕ) (ne : id ≢ other) where
  var_apart : (key : ℕ) (r : EnvVar) → is_var id key r ≡ true → of_workload other r ≡ false
  var_apart key r e = ground arith

  upsert_all_apart :
      (now : ℕ) (vs : List BulkVar) (rows : List EnvVar)
      → select (of_workload other) (upsert_all c now id vs rows) ≡ select (of_workload other) rows
  upsert_all_apart now [] rows = refl
  upsert_all_apart now (v ∷ vs) rows =
      upsert_all_apart now vs (upsert_var c now id v rows)
      ∙ select-upsert_apart (of_workload other) (is_var id v.key)
          (set_value now v.value (some (or_else v.is_secret false))) (var_apart v.key) (λ r. refl)
          (var_row c now id v.key v.value (or_else v.is_secret false)) rows (ground arith)

  secret_apart : (key : ℕ) (r : Secret) → is_secret_of id key r ≡ true → of_project other r ≡ false
  secret_apart key r e = ground arith

-- Each route keeps the rows of a foreign workload and a foreign project.
module _ (c : Caller) (workload project : ℕ) (s : Db)
    (foreign : IsForeign c workload project s) where
  workload_apart : (id : ℕ) → own_workload c id s ≡ pass tt → id ≢ workload
  workload_apart id e =
      own_apart s.workloads id workload c.tenant_id "workload not found" foreign.0 e

  project_apart : (id : ℕ) → own_project c id s ≡ pass tt → id ≢ project
  project_apart id e = own_apart s.projects id project c.tenant_id "project not found" foreign.1 e

  list_env-IsKept : (id : ℕ) (reveal : Bool) → IsKept workload project s (list_env c id reveal s).1
  unfolding list_env
  list_env-IsKept id reveal =
      commit-keeps (IsKept workload project s) (own_workload c id s) _ s (refl, refl, refl, refl)
        (λ _ _. (refl, refl, refl, refl))

  create_env-IsKept :
      (now id key value : ℕ) (o : Option Bool)
      → IsKept workload project s (create_env c now id key value o s).1
  unfolding create_env
  create_env-IsKept now id key value o =
      commit-keeps (IsKept workload project s) (creatable c id key s) _ s (refl, refl, refl, refl)
        (λ a e.
          let (b, own) = first_passes (own_workload c id s) _ a e in
          (
            refl,
            refl,
            select-append_apart (of_workload workload) (is_var id key) (λ r. r)
                (var_apart c id workload (workload_apart id own) key) (λ r. refl)
                (var_row c now id key value (or_else o false)) s.vars
                (==_apart id workload (workload_apart id own)),
            refl,
          ))

  update_env-IsKept :
      (now id key value : ℕ) (o : Option Bool)
      → IsKept workload project s (update_env c now id key value o s).1
  unfolding update_env
  update_env-IsKept now id key value o =
      commit-keeps (IsKept workload project s) (updatable c id key s) _ s (refl, refl, refl, refl)
        (λ a e.
          let (b, own) = first_passes (own_workload c id s) _ a e in
          (
            refl,
            refl,
            select-update_apart (of_workload workload) (is_var id key) (set_value now value o)
                (var_apart c id workload (workload_apart id own) key) (λ r. refl) s.vars,
            refl,
          ))

  delete_env-IsKept : (id key : ℕ) → IsKept workload project s (delete_env c id key s).1
  unfolding delete_env
  delete_env-IsKept id key =
      commit-keeps (IsKept workload project s) (updatable c id key s) _ s (refl, refl, refl, refl)
        (λ a e.
          let (b, own) = first_passes (own_workload c id s) _ a e in
          (
            refl,
            refl,
            select-delete_apart (of_workload workload) (is_var id key) (λ r. r)
                (var_apart c id workload (workload_apart id own) key) (λ r. refl) s.vars,
            refl,
          ))

  bulk_env-IsKept :
      (now id : ℕ) (vs : List BulkVar) → IsKept workload project s (bulk_env c now id vs s).1
  unfolding bulk_env
  bulk_env-IsKept now id [] =
      commit-keeps (IsKept workload project s) (own_workload c id s) _ s (refl, refl, refl, refl)
        (λ _ _. (refl, refl, refl, refl))
  bulk_env-IsKept now id (v ∷ vs) =
      commit-keeps (IsKept workload project s) (bulk_check c id (v ∷ vs) s) _ s
        (refl, refl, refl, refl)
        (λ a e.
          let (b, own) = first_passes (own_workload c id s) _ a e in
          (
            refl,
            refl,
            upsert_all_apart c id workload (workload_apart id own) now (v ∷ vs) s.vars,
            refl,
          ))

  list_secrets-IsKept :
      (id : ℕ) (reveal : Bool) → IsKept workload project s (list_secrets c id reveal s).1
  unfolding list_secrets
  list_secrets-IsKept id reveal =
      commit-keeps (IsKept workload project s) (own_project c id s) _ s (refl, refl, refl, refl)
        (λ _ _. (refl, refl, refl, refl))

  put_secret-IsKept :
      (now id key value : ℕ) → IsKept workload project s (put_secret c now id key value s).1
  unfolding put_secret
  put_secret-IsKept now id key value =
      commit-keeps (IsKept workload project s) (own_project c id s) _ s (refl, refl, refl, refl)
        (λ a own. (
          refl,
          refl,
          refl,
          select-upsert_apart (of_project project) (is_secret_of id key) (set_secret now value)
              (secret_apart c id project (project_apart id own) key) (λ r. refl)
              (secret_row c now id key value) s.secrets
              (==_apart id project (project_apart id own)),
        ))

  delete_secret-IsKept : (id key : ℕ) → IsKept workload project s (delete_secret c id key s).1
  unfolding delete_secret
  delete_secret-IsKept id key =
      commit-keeps (IsKept workload project s) (deletable c id key s) _ s (refl, refl, refl, refl)
        (λ a e.
          let (b, own) = first_passes (own_project c id s) _ a e in
          (
            refl,
            refl,
            refl,
            select-delete_apart (of_project project) (is_secret_of id key) (λ r. r)
                (secret_apart c id project (project_apart id own) key) (λ r. refl) s.secrets,
          ))

  handle-IsKept : (now : ℕ) (r : Request) → IsKept workload project s (handle c now r s).1
  unfolding handle
  handle-IsKept now (get_vars id reveal) = list_env-IsKept id reveal
  handle-IsKept now (post_var id key value o) = create_env-IsKept now id key value o
  handle-IsKept now (put_var id key value o) = update_env-IsKept now id key value o
  handle-IsKept now (delete_var id key) = delete_env-IsKept id key
  handle-IsKept now (post_bulk id vs) = bulk_env-IsKept now id vs
  handle-IsKept now (get_secrets id reveal) = list_secrets-IsKept id reveal
  handle-IsKept now (post_secret id key value) = put_secret-IsKept now id key value
  handle-IsKept now (remove_secret id key) = delete_secret-IsKept id key

-- The workload and the project are foreign to every caller of a run.
abbrev pub AllForeign : (workload project : ℕ) → Db → List (Caller × ℕ × Request) → Type 0
AllForeign workload project s [] = Unit
AllForeign workload project s ((c, now, r) ∷ rs) =
    IsForeign c workload project s × AllForeign workload project s rs

AllForeign-kept :
    (workload project : ℕ) (s t : Db) (rs : List (Caller × ℕ × Request))
    → t.workloads ≡ s.workloads
    → t.projects ≡ s.projects
    → AllForeign workload project s rs
    → AllForeign workload project t rs
AllForeign-kept workload project s t [] ws ps h = h
AllForeign-kept workload project s t ((c, now, r) ∷ rs) ws ps (f, h) =
    ((rw ws f.0, rw ps f.1), AllForeign-kept workload project s t rs ws ps h)

-- Whatever requests other tenants make, the variables of a workload and the secrets of a project stay
-- what they were.
pub run-IsKept :
    (rs : List (Caller × ℕ × Request)) (workload project : ℕ) (s : Db)
    → AllForeign workload project s rs
    → IsKept workload project s (run rs s)
unfolding run
run-IsKept [] workload project s h = (refl, refl, refl, refl)
run-IsKept ((c, now, r) ∷ rs) workload project s (f, h) =
    let t = (handle c now r s).1 in
    let (ws, ps, vs, ss) = handle-IsKept c workload project s f now r in
    let (ws', ps', vs', ss') =
      run-IsKept rs workload project t (AllForeign-kept workload project s t rs ws ps h) in
    (ws' ∙ ws, ps' ∙ ps, vs' ∙ vs, ss' ∙ ss)
