-- ===== src/Workloads/Rows.antt =====
-- The tables and the bodies of routes/workloads.ts, and what its routes make of rows.
use tinai_infra.Prelude.{
  ℕ, String, Bool, true, false, ◌&&◌, Option, none, some, List, [], ◌∷◌, map, if◌then◌else◌, ◌==◌,
  or_else, is_some, find, Check, pass, require, require_row, ◌>>=◌, ◌>>◌,
}
use tinai_infra.Plans
use tinai_infra.Plans.{free}
use tinai_infra.Plans.Gate.{Cache}
use tinai_infra.Workloads.{
  WorkloadType, function, job, Status, pending, running, failed, Env, Workload, Spec,
  deployment_spec, Outcome, ok,
}
use tinai_infra.Workloads.Manifests.{Target}

pub record Project : Type 0 where
  pub id : ℕ
  pub tenant_id : ℕ

-- The tables, the gate's cache and the cluster. The workloads that the plan tables have are these.
pub record World (K : Type 0) : Type 0 where
  pub workloads : List Workload
  pub projects : List Project
  pub plan_tables : Plans.Db
  pub cache : Cache
  pub cluster : K

abbrev pub is_function : WorkloadType → Bool
is_function function = true
is_function _ = false

abbrev pub summary : Workload → Plans.Workload
summary w = record { tenant_id = w.tenant_id; is_function = is_function w.type }

abbrev pub plan_db : {K : Type 0} → World K → Plans.Db
plan_db s = record s.plan_tables { workloads = map summary s.workloads }

-- `MAX_REPLICAS_BY_PLAN[plan_id] ?? 2`, where the plans are `free`, `pro` and `enterprise`.
abbrev pub max_replicas_of : (pro enterprise plan_id : ℕ) → ℕ
max_replicas_of pro enterprise plan_id =
    if plan_id == free
    then 2
    else if plan_id == pro
    then 10
    else if plan_id == enterprise
    then 50
    else 2

-- The body of POST /workloads, with the defaults filled in.
pub record WorkloadBody : Type 0 where
  pub name : ℕ
  pub type : WorkloadType
  pub source_git_url : Option ℕ
  pub source_ref : ℕ
  pub image : Option ℕ
  pub port : Option ℕ
  pub env : Env
  pub replicas : ℕ
  pub memory_limit : ℕ
  pub cpu_limit : ℕ
  pub schedule : Option String
  pub project_id : Option ℕ
  pub environment : ℕ

pub record UpdateBody : Type 0 where
  pub image : Option ℕ
  pub replicas : Option ℕ
  pub env : Option Env
  pub memory_limit : Option ℕ
  pub cpu_limit : Option ℕ

abbrev pub by_id : ℕ → Workload → Bool
by_id id w = w.id == id

abbrev pub is_project_of : (id tenant : ℕ) → Project → Bool
is_project_of id tenant p = p.id == id && p.tenant_id == tenant

abbrev pub has_project : (tenant : ℕ) → Option ℕ → List Project → Bool
has_project tenant none ps = true
has_project tenant (some id) ps = is_some (find (is_project_of id tenant) ps)

abbrev pub needs_schedule : WorkloadType → Option String → Bool
needs_schedule job none = true
needs_schedule _ _ = false

abbrev pub inserted : (tenant id : ℕ) → WorkloadBody → Workload
inserted tenant id b = record {
  id = id;
  tenant_id = tenant;
  name = b.name;
  type = b.type;
  status = pending;
  source_git_url = b.source_git_url;
  source_ref = b.source_ref;
  image = b.image;
  port = b.port;
  env = b.env;
  replicas = b.replicas;
  memory_limit = b.memory_limit;
  cpu_limit = b.cpu_limit;
  domain = b.name;
  project_id = b.project_id;
  environment = b.environment;
  last_deployed_at = none;
}

-- What `deployToK8s` is given for a row; a row has no schedule.
abbrev pub target :
    Workload → (image : ℕ) → (schedule : Option String) → (max_replicas : ℕ) → Target
target w image schedule max_replicas = record {
  name = w.name;
  tenant_id = w.tenant_id;
  type = w.type;
  image = image;
  port = or_else w.port 8080;
  env = w.env;
  replicas = w.replicas;
  memory_limit = w.memory_limit;
  cpu_limit = w.cpu_limit;
  domain = w.domain;
  schedule = schedule;
  max_replicas = some max_replicas;
}

-- A text where the code tests that it is there and not empty.
abbrev pub filled : Option ℕ → Option ℕ
filled none = none
filled (some text) = if text == 0 then none else some text

abbrev pub deployed : (now : ℕ) → Status → Workload → Workload
deployed now status w = record w { status = status; last_deployed_at = some now }

-- `{ ...env, ...updates }`
abbrev pub put_env : (key value : ℕ) → Env → Env
put_env key value [] = (key, value) ∷ []
put_env key value (e ∷ env) = if e.0 == key then (key, value) ∷ env else e ∷ put_env key value env

abbrev pub merge_env : Env → Env → Env
merge_env env [] = env
merge_env env (u ∷ updates) = merge_env (put_env u.0 u.1 env) updates

abbrev pub new_env : Env → Option Env → Env
new_env env none = env
new_env env (some updates) = merge_env env updates

-- `updates.image ?? workload.image`
abbrev pub either : Option ℕ → Option ℕ → Option ℕ
either none b = b
either (some a) b = some a

abbrev pub merged : UpdateBody → Workload → Workload
merged u w = record w {
  image = either u.image w.image;
  replicas = or_else u.replicas w.replicas;
  env = new_env w.env u.env;
  memory_limit = or_else u.memory_limit w.memory_limit;
  cpu_limit = or_else u.cpu_limit w.cpu_limit;
}

-- The columns that the UPDATE sets.
abbrev pub set_columns : Workload → Workload → Workload
set_columns m w = record w {
  image = m.image;
  replicas = m.replicas;
  env = m.env;
  memory_limit = m.memory_limit;
  cpu_limit = m.cpu_limit;
}

-- The existing Deployment with the merged row's values, and with a new start.
abbrev pub rolled_spec : (now image : ℕ) → Workload → Spec → Spec
rolled_spec now image w (deployment_spec r port c t) =
    deployment_spec w.replicas port
      (record {
        image = image;
        env = w.env;
        memory_limit = w.memory_limit;
        cpu_limit = w.cpu_limit;
      })
      (some now)
rolled_spec now image w s = s

abbrev pub restarted_spec : (now : ℕ) → Spec → Spec
restarted_spec now (deployment_spec r port c t) = deployment_spec r port c (some now)
restarted_spec now s = s

abbrev pub restart_status : Outcome → Status
restart_status ok = running
restart_status _ = failed

abbrev pub own : {K : Type 0} → (tenant id : ℕ) → World K → Check Workload
own tenant id s = do
  w ← require_row (find (by_id id) s.workloads) 404 "workload not found"
  require (w.tenant_id == tenant) 403 "Forbidden"
  pass w
