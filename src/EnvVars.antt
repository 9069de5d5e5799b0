-- ===== src/EnvVars.antt =====
-- Environment variables of workloads and secrets of projects: routes/envVars.ts of
-- platform/services/tinai-api. Keys and values are numbers, in the order of the keys in the database.
-- A row is known by its workload or project and its key, as the UNIQUE constraints have it; its
-- generated `id` is left out. The bodies have passed their schemas.
pub mod Vars
pub mod Secrets
pub mod Requests
mod Tests
use tinai_infra.Prelude.{
  ℕ, Bool, true, false, not, ◌&&◌, ◌||◌, Option, none, some, List, [], ◌∷◌, ◌++◌, map,
  if◌then◌else◌, ◌==◌, leb, or_else, is_some, length, find, select, update_where, delete_where,
  Reply, send, fail, Check, pass, reject, require, require_row, commit, ◌>>=◌, ◌>>◌,
}

-- The columns of `workloads` and of `projects` that these routes read.
pub record Owner : Type 0 where
  pub id : ℕ
  pub tenant_id : ℕ

pub record EnvVar : Type 0 where
  pub workload_id : ℕ
  pub tenant_id : ℕ
  pub key : ℕ
  pub value : ℕ
  pub is_secret : Bool
  pub created_at : ℕ
  pub updated_at : ℕ

pub record Secret : Type 0 where
  pub project_id : ℕ
  pub tenant_id : ℕ
  pub key : ℕ
  pub value : ℕ
  pub created_at : ℕ
  pub updated_at : ℕ

pub record Db : Type 0 where
  pub workloads : List Owner
  pub projects : List Owner
  pub vars : List EnvVar
  pub secrets : List Secret

-- What the token says of the caller.
pub record Caller : Type 0 where
  pub tenant_id : ℕ
  pub is_admin : Bool

-- A value in a reply: `'***'` or the value itself.
pub data Shown : Type 0 where
  masked : Shown
  plain : ℕ → Shown

abbrev pub shown : (is_masked : Bool) → ℕ → Shown
shown true value = masked
shown false value = plain value

pub record View : Type 0 where
  pub parent_id : ℕ
  pub key : ℕ
  pub value : Shown
  pub is_secret : Bool
  pub created_at : ℕ
  pub updated_at : ℕ

pub data Answer : Type 0 where
  listed : List View → Answer
  one : View → Answer
  upserted : ℕ → Answer
  empty : Answer

pub record BulkVar : Type 0 where
  pub key : ℕ
  pub value : ℕ
  pub is_secret : Option Bool

-- `value: row.is_secret && !reveal ? masked() : row.value`
abbrev pub view : (reveal : Bool) → EnvVar → View
view reveal r = record {
  parent_id = r.workload_id;
  key = r.key;
  value = shown (r.is_secret && not reveal) r.value;
  is_secret = r.is_secret;
  created_at = r.created_at;
  updated_at = r.updated_at;
}

-- `value: reveal ? row.value : masked()`
abbrev pub secret_view : (reveal : Bool) → Secret → View
secret_view reveal r = record {
  parent_id = r.project_id;
  key = r.key;
  value = shown (not reveal) r.value;
  is_secret = true;
  created_at = r.created_at;
  updated_at = r.updated_at;
}

-- `ORDER BY key ASC`
module _ {ℓ} {A : Type ℓ} (key_of : A → ℕ) where
  abbrev pub insert_by : A → List A → List A
  insert_by a [] = a ∷ []
  insert_by a (b ∷ bs) = if leb (key_of a) (key_of b) then a ∷ b ∷ bs else b ∷ insert_by a bs

  abbrev pub order_by : List A → List A
  order_by [] = []
  order_by (a ∷ xs) = insert_by a (order_by xs)

abbrev pub is_owner : ℕ → Owner → Bool
is_owner id o = o.id == id

abbrev pub own_workload : Caller → ℕ → Db → Check (Unit {0})
own_workload c id db = do
  w ← require_row (find (is_owner id) db.workloads) 404 "workload not found"
  require (w.tenant_id == c.tenant_id) 403 "Forbidden"

abbrev pub own_project : Caller → ℕ → Db → Check (Unit {0})
own_project c id db = do
  p ← require_row (find (is_owner id) db.projects) 404 "project not found"
  require (p.tenant_id == c.tenant_id) 403 "Forbidden"

-- `INSERT … ON CONFLICT DO UPDATE`, for one row; PostgreSQL refuses a statement that would affect a
-- row twice.
abbrev pub upsert {ℓ} : {A : Type ℓ} → (A → Bool) → (A → A) → A → List A → List A
upsert p f a xs = if is_some (find p xs) then update_where p f xs else xs ++ a ∷ []
