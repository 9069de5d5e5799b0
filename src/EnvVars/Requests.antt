-- ===== src/EnvVars/Requests.antt =====
-- The requests as one machine over the tables.
pub mod Tables
pub mod Blank
pub mod Alike
pub mod Masking
pub mod Owned
use tinai_infra.Prelude.{
  ℕ, Bool, true, false, not, ◌&&◌, ◌||◌, Option, none, some, List, [], ◌∷◌, ◌++◌, map,
  if◌then◌else◌, ◌==◌, leb, or_else, is_some, length, find, select, update_where, delete_where,
  Reply, send, fail, Check, pass, reject, require, require_row, commit, ◌>>=◌, ◌>>◌,
}
use tinai_infra.EnvVars.{
  Owner, EnvVar, Secret, Db, Caller, Shown, masked, plain, View, Answer, listed, one, upserted,
  empty, BulkVar, view, secret_view, order_by, own_workload, own_project, upsert,
}
use tinai_infra.EnvVars.Vars.{list_env, create_env, update_env, delete_env, bulk_env}
use tinai_infra.EnvVars.Secrets.{list_secrets, put_secret, delete_secret}

-- A request of a caller at a time, and the route that takes it.
pub data Request : Type 0 where
  get_vars : (id : ℕ) → (reveal : Bool) → Request
  post_var : (id key value : ℕ) → Option Bool → Request
  put_var : (id key value : ℕ) → Option Bool → Request
  delete_var : (id key : ℕ) → Request
  post_bulk : (id : ℕ) → List BulkVar → Request
  get_secrets : (id : ℕ) → (reveal : Bool) → Request
  post_secret : (id key value : ℕ) → Request
  remove_secret : (id key : ℕ) → Request

unfoldable pub handle : Caller → (now : ℕ) → Request → Db → Reply Answer × Db
handle c now (get_vars id reveal) db = list_env c id reveal db
handle c now (post_var id key value is_secret) db = create_env c now id key value is_secret db
handle c now (put_var id key value is_secret) db = update_env c now id key value is_secret db
handle c now (delete_var id key) db = delete_env c id key db
handle c now (post_bulk id vs) db = bulk_env c now id vs db
handle c now (get_secrets id reveal) db = list_secrets c id reveal db
handle c now (post_secret id key value) db = put_secret c now id key value db
handle c now (remove_secret id key) db = delete_secret c id key db

-- The replies to a run of requests, each with its caller and its time.
unfoldable pub replies : List (Caller × ℕ × Request) → Db → List (Reply Answer)
replies [] db = []
replies ((c, now, r) ∷ rs) db = let (reply, db') = handle c now r db in reply ∷ replies rs db'

unfoldable pub run : List (Caller × ℕ × Request) → Db → Db
run [] db = db
run ((c, now, r) ∷ rs) db = run rs (handle c now r db).1
