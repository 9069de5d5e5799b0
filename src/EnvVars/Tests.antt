-- ===== src/EnvVars/Tests.antt =====
-- Variables and secrets on concrete tables. Workload 1 and project 2 are tenant 5's.
use tinai_infra.Prelude.{
  ℕ, ◌≡◌, refl, Bool, true, false, none, some, List, [], ◌∷◌, arith, send, commit, status, length,
}
use tinai_infra.EnvVars.{EnvVar, Db, Caller, upserted, BulkVar}
use tinai_infra.EnvVars.Vars.{create_env, bulk_env}
use tinai_infra.EnvVars.Vars.Bulk.{stored, given, given_or, bulk_env_values}
use tinai_infra.EnvVars.Requests.{
  Request, get_vars, put_var, post_bulk, get_secrets, remove_secret, replies, run,
}
use tinai_infra.EnvVars.Requests.Masking.{replies_hide}
use tinai_infra.EnvVars.Requests.Owned.{IsKept, IsForeign, run-IsKept}

abbrev user : Caller
user = record { tenant_id = 5; is_admin = false }

abbrev stranger : Caller
stranger = record { tenant_id = 6; is_admin = true }

abbrev var : (key value : ℕ) → Bool → EnvVar
var key value is_secret = record {
  workload_id = 1;
  tenant_id = 5;
  key = key;
  value = value;
  is_secret = is_secret;
  created_at = 0;
  updated_at = 0;
}

abbrev tables : (password : ℕ) → Db
tables password = record {
  workloads = record { id = 1; tenant_id = 5 } ∷ [];
  projects = record { id = 2; tenant_id = 5 } ∷ [];
  vars = var 10 password true ∷ var 9 4 false ∷ [];
  secrets =
      record {
        project_id = 2;
        tenant_id = 5;
        key = 1;
        value = password;
        created_at = 0;
        updated_at = 0;
      }
      ∷ [];
}

abbrev bulk : List BulkVar
bulk =
    record { key = 10; value = 3; is_secret = none }
    ∷ record { key = 12; value = 8; is_secret = some true }
    ∷ []

abbrev requests : List (Caller × ℕ × Request)
requests =
    (user, 1, get_vars 1 true)
    ∷ (user, 2, put_var 1 10 77 none)
    ∷ (user, 3, get_secrets 2 true)
    ∷ (stranger, 4, get_vars 1 false)
    ∷ (user, 5, post_bulk 1 bulk)
    ∷ []

abbrev intrusions : List (Caller × ℕ × Request)
intrusions =
    (stranger, 1, put_var 1 10 0 (some false))
    ∷ (stranger, 2, remove_secret 2 1)
    ∷ (stranger, 3, get_vars 1 true)
    ∷ []

-- A key twice in one body.
repeated_key :
    status
      (bulk_env user 1 1
        (record { key = 3; value = 1; is_secret = none }
          ∷ record { key = 3; value = 2; is_secret = none }
          ∷ [])
        (tables 0)).0
    ≡ 500
unfolding bulk_env commit
repeated_key = refl

existing_key : status (create_env user 1 1 10 5 none (tables 0)).0 ≡ 409
unfolding create_env commit
existing_key = refl

replies_hide_example : replies requests (tables 111) ≡ replies requests (tables 222)
replies_hide_example =
    replies_hide requests (tables 111) (tables 222) (refl, (refl, (refl, (refl, (refl, tt))))) refl

tables-IsForeign : IsForeign stranger 1 2 (tables 111)
tables-IsForeign = (λ w e h. ground arith, λ p e h. ground arith)

run-IsKept_example : IsKept 1 2 (tables 111) (run intrusions (tables 111))
run-IsKept_example =
    run-IsKept intrusions 1 2 (tables 111)
      (tables-IsForeign, (tables-IsForeign, (tables-IsForeign, tt)))

bulk_env_values_example :
    ((bulk_env user 1 1 bulk (tables 111)).0 ≡ send 200 (upserted (length bulk)))
    × ((key : ℕ)
        → stored 1 key (bulk_env user 1 1 bulk (tables 111)).1.vars
          ≡ given_or (given key bulk) (stored 1 key (tables 111).vars))
bulk_env_values_example = bulk_env_values user 1 1 bulk (tables 111) refl refl
