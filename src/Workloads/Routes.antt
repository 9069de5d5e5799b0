-- ===== src/Workloads/Routes.antt =====
-- The routes of routes/workloads.ts that change a workload, behind the plan gate of
-- middleware/planGate.ts.
pub mod Owned
pub mod Effects
pub mod Limits
pub mod Updates
pub mod Schedules
pub mod Removals
use tinai_infra.Prelude.{
  ℕ, String, Bool, true, false, not, ◌&&◌, ◌||◌, Option, none, some, List, [], ◌∷◌, ◌++◌, map,
  if◌then◌else◌, ◌==◌, or_else, is_some, find, update_where, delete_where, Reply, send, fail, Check,
  pass, reject, require, require_row, commit, ◌>>=◌, ◌>>◌,
}
use tinai_infra.Plans
use tinai_infra.Plans.{free}
use tinai_infra.Plans.Gate.{
  Cache, max_workloads, Verdict, admitted, unauthorized, exceeded, gate, get_plan_limits,
}
use tinai_infra.Workloads.{
  WorkloadType, service, function, job, static, Status, pending, building, running, failed, Env,
  Workload, Kind, deployment, Container, Spec, deployment_spec, Manifest, Outcome, ok, Api,
}
use tinai_infra.Workloads.Manifests.{Target}
use tinai_infra.Workloads.Deploy.{deploy, delete_resources}
use tinai_infra.Workloads.Rows.{
  UpdateBody, WorkloadBody, World, by_id, deployed, either, filled, has_project, inserted,
  max_replicas_of, merged, needs_schedule, own, plan_db, restart_status, restarted_spec,
  rolled_spec, set_columns, target,
}

module _ {K : Type 0} (api : Api K) (pro enterprise : ℕ) where
  -- The replica cap of a tenant's plan, and the cache after it is asked for.
  abbrev pub cap : (now stored tenant : ℕ) → World K → ℕ × World K
  cap now stored tenant s =
      let (plan, cache) = get_plan_limits now stored tenant (plan_db s) s.cache in
      (max_replicas_of pro enterprise plan.0, record s { cache = cache })

  -- The build, which a trigger only starts, or the deployment of a row.
  abbrev pub launch :
      Option ℕ
      → Option ℕ
      → Workload
      → (schedule : Option String) → (max_replicas : ℕ) → K
      → Status × K
  launch (some source) none w schedule cap k = (building, k)
  launch source (some image) w schedule cap k = deploy api (target w image schedule cap) k
  launch none none w schedule cap k = (pending, k)

  abbrev pub creatable : (tenant : ℕ) → WorkloadBody → World K → Check (Unit {0})
  creatable tenant b s = do
    require (is_some (filled b.source_git_url) || is_some (filled b.image)) 400
        "provide either source_git_url or image"
    require (not (needs_schedule b.type b.schedule)) 400
        "type=job requires a schedule field (cron expression)"
    require (has_project tenant b.project_id s.projects) 404 "project not found"

  -- The writes of POST /workloads.
  pub insert_and_launch :
      (now stored tenant id : ℕ) → WorkloadBody → World K → Reply Workload × World K
  insert_and_launch now stored tenant id b s =
      let (max_replicas, s') = cap now stored tenant s in
      let w = inserted tenant id b in
      let (status, k) =
        launch (filled b.source_git_url) (filled b.image) w b.schedule max_replicas s'.cluster in
      (
        send 201 (deployed now status w),
        record s' {
          workloads = update_where (by_id id) (deployed now status) (s'.workloads ++ w ∷ []);
          cluster = k;
        },
      )

  abbrev pub by_verdict :
      Verdict → (World K → Reply Workload × World K) → World K → Reply Workload × World K
  by_verdict admitted go s = go s
  by_verdict unauthorized go s = (fail 401 "unauthorized", s)
  by_verdict (exceeded n plan limit) go s = (fail 402 "plan_limit_exceeded", s)

  -- POST /workloads, with `requirePlan('workloads')` before it.
  unfoldable pub create :
      (now stored tenant id : ℕ) → WorkloadBody → World K → Reply Workload × World K
  unfolding insert_and_launch
  create now stored tenant id b s =
      let (verdict, cache) = gate max_workloads now stored (some tenant) (plan_db s) s.cache in
      by_verdict verdict
        (λ s. commit (creatable tenant b s) (λ _. insert_and_launch now stored tenant id b) s)
        (record s { cache = cache })

  -- The best-effort update of the Deployment; a failure is only logged.
  abbrev pub roll_out : (now : ℕ) → Workload → Option Manifest → K → K
  roll_out now w none k = k
  roll_out now w (some m) k = elim (filled w.image) [
    | none ↦ k
    | some image ↦ (api.replace (record m { spec = rolled_spec now image w m.spec }) k).1
  ]

  abbrev pub apply_update : (now : ℕ) → WorkloadType → Workload → K → K
  apply_update now service w k = roll_out now w (api.read deployment w.name k) k
  apply_update now static w k = roll_out now w (api.read deployment w.name k) k
  apply_update now _ w k = k

  -- PUT /workloads/:id
  unfoldable pub update : (now tenant id : ℕ) → UpdateBody → World K → Reply Workload × World K
  update now tenant id u s =
      commit (own tenant id s)
        (λ (w : Workload) (s : World K). (
          send 200 (merged u w),
          record s {
            workloads = update_where (by_id id) (set_columns (merged u w)) s.workloads;
            cluster = apply_update now w.type (merged u w) s.cluster;
          },
        ))
        s

  abbrev pub after_teardown : (id : ℕ) → Bool × K → World K → Reply (Unit {0}) × World K
  after_teardown id (true, k) s =
      (send 204 tt, record s { workloads = delete_where (by_id id) s.workloads; cluster = k })
  after_teardown id (false, k) s = (fail 500 "Internal Server Error", record s { cluster = k })

  -- DELETE /workloads/:id
  unfoldable pub remove : (tenant id : ℕ) → World K → Reply (Unit {0}) × World K
  remove tenant id s =
      commit (own tenant id s)
        (λ (w : Workload) (s : World K).
          after_teardown id (delete_resources api w.type w.name s.cluster) s)
        s

  -- The rollout restart of a Deployment.
  abbrev pub restart : (now : ℕ) → Option Manifest → K → Status × K
  restart now none k = (failed, k)
  restart now (some m) k =
      let (outcome, k') = api.replace (record m { spec = restarted_spec now m.spec }) k in
      (restart_status outcome, k')

  abbrev pub redeploy_image :
      WorkloadType → (now stored image : ℕ) → Workload → World K → Status × World K
  redeploy_image service now stored image w s =
      let (status, k) = restart now (api.read deployment w.name s.cluster) s.cluster in
      (status, record s { cluster = k })
  redeploy_image static now stored image w s =
      let (status, k) = restart now (api.read deployment w.name s.cluster) s.cluster in
      (status, record s { cluster = k })
  redeploy_image _ now stored image w s =
      let (max_replicas, s') = cap now stored w.tenant_id s in
      let (status, k) = deploy api (target w image none max_replicas) s'.cluster in
      (status, record s' { cluster = k })

  abbrev pub relaunch :
      Option ℕ → Option ℕ → (now stored : ℕ) → Workload → World K → Status × World K
  relaunch (some source) none now stored w s = (building, s)
  relaunch source (some image) now stored w s = redeploy_image w.type now stored image w s
  relaunch none none now stored w s = (w.status, s)

  -- POST /workloads/:id/deploy
  unfoldable pub redeploy : (now stored tenant id : ℕ) → World K → Reply Workload × World K
  redeploy now stored tenant id s =
      commit (own tenant id s)
        (λ (w : Workload) (s : World K).
          let (status, s') = relaunch (filled w.source_git_url) (filled w.image) now stored w s in
          (
            send 200 (deployed now status w),
            record s' { workloads = update_where (by_id id) (deployed now status) s'.workloads },
          ))
        s
