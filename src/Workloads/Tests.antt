-- ===== src/Workloads/Tests.antt =====
-- Workloads on a cluster that is a table of objects. Tenant 5 has a service `7` and a job `8`.
use tinai_infra.Prelude.{
  ℕ, ◌≡◌, ◌≢◌, refl, Bool, true, false, ◌&&◌, Option, none, some, [], ◌∷◌, arith, if◌then◌else◌,
  ◌==◌, ==_refl, is_some, send, fail, find, commit,
}
use tinai_infra.Workloads.{
  cron_spec, service, job, running, Workload, Kind, deployment, k8s_service, ingress, scaled_object,
  knative_service, cron_job, Manifest, Outcome, ok, conflict, not_found, Api, Writes, Deletes, Laws,
  is_at, same_kind,
}
use tinai_infra.Plans.{resolve}
use tinai_infra.Plans.Gate.{gate, get_plan_limits, get_cache}
use tinai_infra.Workloads.Manifests.{Target}
use tinai_infra.Workloads.Deploy.{deploy, deploy_service}
use tinai_infra.Workloads.Deploy.Written.{deploy-apart}
use tinai_infra.Workloads.Rows.{World, WorkloadBody, UpdateBody, by_id, target, deployed, either}
use tinai_infra.Workloads.Routes.{create, update, remove, redeploy}
use tinai_infra.Workloads.Routes.Owned.{foreign_forbidden}
use tinai_infra.Workloads.Routes.Removals.{remove-apart}
use tinai_infra.Workloads.Routes.Limits.{IsWithin, create-IsWithin}
use tinai_infra.Workloads.Routes.Updates.{value_of, updated_value, update_reads}
use tinai_infra.Workloads.Routes.Schedules.{redeploy_hourly}

-- The cluster of the tests.
abbrev Objects : Type 0
Objects = Kind → ℕ → Option Manifest

abbrev put : Manifest → Objects → Objects
put m k kind name = if is_at kind name m then some m else k kind name

abbrev drop : Kind → ℕ → Objects → Objects
drop kind name k kind' name' = if same_kind kind kind' && name == name' then none else k kind' name'

abbrev create_if : Bool → Manifest → Objects → Outcome × Objects
create_if true m k = (conflict, k)
create_if false m k = (ok, put m k)

abbrev replace_if : Bool → Manifest → Objects → Outcome × Objects
replace_if true m k = (ok, put m k)
replace_if false m k = (not_found, k)

abbrev delete_if : Bool → Kind → ℕ → Objects → Outcome × Objects
delete_if true kind name k = (ok, drop kind name k)
delete_if false kind name k = (not_found, k)

abbrev holds : Kind → ℕ → Objects → Bool
holds kind name k = is_some (k kind name)

abbrev objects : Api Objects
objects = record {
  create = λ m k. create_if (holds m.kind m.name k) m k;
  replace = λ m k. replace_if (holds m.kind m.name k) m k;
  delete = λ kind name k. delete_if (holds kind name k) kind name k;
  read = λ kind name k. k kind name;
}

same_kind_refl : (kind : Kind) → same_kind kind kind ≡ true
same_kind_refl deployment = refl
same_kind_refl k8s_service = refl
same_kind_refl ingress = refl
same_kind_refl scaled_object = refl
same_kind_refl knative_service = refl
same_kind_refl cron_job = refl

same_self : (kind : Kind) (name : ℕ) → (same_kind kind kind && name == name) ≡ true
same_self kind name = rw (same_kind_refl kind, ==_refl name) refl

put-Writes : (m : Manifest) (k : Objects) → Writes (λ kind name k. k kind name) m k (ok, put m k)
put-Writes m k = record {
  stored = λ e. rw (same_self m.kind m.name) refl;
  unchanged = λ ne. absurd (ne refl);
  others = λ kind name apart. rw apart refl;
}

kept-Writes :
    (o : Outcome) (m : Manifest) (k : Objects)
    → o ≢ ok
    → Writes (λ kind name k. k kind name) m k (o, k)
kept-Writes o m k ne = record {
  stored = λ e. absurd (ne e);
  unchanged = λ _. refl;
  others = λ kind name apart. refl;
}

create_if-Writes :
    (b : Bool) (m : Manifest) (k : Objects)
    → Writes (λ kind name k. k kind name) m k (create_if b m k)
create_if-Writes true m k = kept-Writes conflict m k (λ e. ground arith)
create_if-Writes false m k = put-Writes m k

replace_if-Writes :
    (b : Bool) (m : Manifest) (k : Objects)
    → Writes (λ kind name k. k kind name) m k (replace_if b m k)
replace_if-Writes true m k = put-Writes m k
replace_if-Writes false m k = kept-Writes not_found m k (λ e. ground arith)

delete_if-Deletes :
    (b : Bool) (kind : Kind) (name : ℕ) (k : Objects)
    → holds kind name k ≡ b
    → Deletes (λ kind name k. k kind name) kind name k (delete_if b kind name k)
delete_if-Deletes true kind name k e = record { others = λ kind' name' apart. rw apart refl }
delete_if-Deletes false kind name k e = record { others = λ kind' name' apart. refl }

objects-Laws : Laws objects
objects-Laws = record {
  creates = λ m k. create_if-Writes (holds m.kind m.name k) m k;
  replaces = λ m k. replace_if-Writes (holds m.kind m.name k) m k;
  deletes = λ kind name k. delete_if-Deletes (holds kind name k) kind name k refl;
}

-- Rows: the service `7` and the job `8` of tenant 5.
abbrev site : Workload
site = record {
  id = 1;
  tenant_id = 5;
  name = 7;
  type = service;
  status = running;
  source_git_url = none;
  source_ref = 0;
  image = some 70;
  port = none;
  env = (1, 10) ∷ (2, 20) ∷ [];
  replicas = 1;
  memory_limit = 256;
  cpu_limit = 250;
  domain = 7;
  project_id = none;
  environment = 0;
  last_deployed_at = none;
}

abbrev nightly : Workload
nightly = record site { id = 2; name = 8; type = job; image = some 80 }

abbrev site_target : Target
site_target = target site 70 none 2

-- Both deployed, the job every day.
abbrev busy : Objects
busy =
    (deploy objects (target nightly 80 (some "0 0 * * *") 2)
      (deploy objects site_target (λ _ _. none)).1).1

abbrev world : World Objects
world = record {
  workloads = site ∷ nightly ∷ [];
  projects = [];
  plan_tables = record {
    plans = [];
    tenant_plans = [];
    orders = [];
    workloads = [];
    databases = [];
    domains = [];
  };
  cache = λ _. none;
  cluster = busy;
}

-- Tenant 6 asks for a service under the name of tenant 5's.
abbrev body : WorkloadBody
body = record {
  name = 7;
  type = service;
  source_git_url = none;
  source_ref = 0;
  image = some 66;
  port = none;
  env = [];
  replicas = 1;
  memory_limit = 256;
  cpu_limit = 250;
  schedule = none;
  project_id = none;
  environment = 0;
}

abbrev map_tenant : Option Manifest → Option ℕ
map_tenant none = none
map_tenant (some m) = some m.tenant_id

abbrev change : UpdateBody
change = record {
  image = none;
  replicas = some 2;
  env = some ((2, 21) ∷ (3, 30) ∷ (2, 22) ∷ []);
  memory_limit = none;
  cpu_limit = none;
}

deploy-apart_example : (deploy objects site_target busy).1 cron_job 8 ≡ busy cron_job 8
deploy-apart_example =
    deploy-apart objects objects-Laws site_target cron_job 8 busy (λ e. ground arith)

foreign_forbidden_test :
    (update objects 1 2 100 6 1 change world ≡ (fail 403 "Forbidden", world))
    × (remove objects 1 2 6 1 world ≡ (fail 403 "Forbidden", world))
    × (redeploy objects 1 2 100 101 6 1 world ≡ (fail 403 "Forbidden", world))
foreign_forbidden_test =
    foreign_forbidden objects 1 2 100 101 6 1 change world site refl (λ e. ground arith)

remove-apart_example :
    ((kind : Kind) (name : ℕ)
      → name ≢ 7
      → (remove objects 1 2 5 1 world).1.cluster kind name ≡ busy kind name)
    × ((remove objects 1 2 5 1 world).0 ≡ send 204 tt
        → (site.tenant_id ≡ 5) × (find (by_id 1) (remove objects 1 2 5 1 world).1.workloads ≡ none))
remove-apart_example = remove-apart objects objects-Laws 1 2 5 1 world site refl

world-IsWithin : IsWithin 5 3 world
unfolding resolve
world-IsWithin = ((λ now. refl, λ e h. ground arith), omega arith)

create-IsWithin_example : IsWithin 5 3 (create objects 1 2 100 101 5 3 body world).1
create-IsWithin_example = create-IsWithin objects 1 2 100 101 5 3 3 body world world-IsWithin

update_reads_example :
    (w : Workload) × ((update objects 1 2 100 5 1 change world).0 ≡ send 200 w)
    × (find (by_id 1) (update objects 1 2 100 5 1 change world).1.workloads ≡ some w)
    × (w.tenant_id ≡ 5)
    × ((key : ℕ)
        → value_of key w.env ≡ either (updated_value key change.env) (value_of key site.env))
update_reads_example = update_reads objects 1 2 100 5 1 change world site refl refl

redeploy_hourly_example :
    (redeploy objects 1 2 100 101 5 2 world).1.cluster cron_job 8
    ≡ some (record {
      kind = cron_job;
      name = 8;
      tenant_id = 5;
      spec = cron_spec "0 * * * *" (record {
        image = 80;
        env = (1, 10) ∷ (2, 20) ∷ [];
        memory_limit = 256;
        cpu_limit = 250;
      });
    })
unfolding redeploy deploy get_plan_limits resolve commit deploy_service
redeploy_hourly_example =
    redeploy_hourly objects objects-Laws 1 2 100 101 5 2 80 world nightly
      (deployed 100 running nightly) refl refl refl refl refl (λ e. ground arith) refl refl

-- The Deployment of tenant 5's service, before and after tenant 6 creates one of that name.
taken_over :
    (map_tenant (busy deployment 7) ≡ some 5)
    × (map_tenant ((create objects 1 2 100 101 6 3 body world).1.cluster deployment 7) ≡ some 6)
unfolding create deploy deploy_service commit gate get_plan_limits resolve get_cache
taken_over = (refl, refl)
