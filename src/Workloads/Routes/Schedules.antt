-- ===== src/Workloads/Routes/Schedules.antt =====
-- The schedule of a job over POST /workloads/:id/deploy.
use tinai_infra.Prelude.{
  ℕ, ◌≡◌, ◌≢◌, ◌∙◌, ap, sym, subst, none, some, arith, find, update_where, send, Reply, commit,
}
use tinai_infra.Workloads.{cron_spec, job, cron_job, running, Workload, Api, Laws, Status}
use tinai_infra.Workloads.Manifests.{build_cron_job}
use tinai_infra.Workloads.Deploy.{deploy}
use tinai_infra.Workloads.Deploy.Written.{IsDeployed, deploy-IsDeployed}
use tinai_infra.Workloads.Rows.{World, by_id, target, deployed, filled}
use tinai_infra.Workloads.Routes.{redeploy, relaunch, cap, redeploy_image}
use tinai_infra.Workloads.Routes.Updates.{own-found}

module _ {K : Type 0} (api : Api K) (laws : Laws api) (pro enterprise : ℕ) where
  redeployed_job :
      (now stored i : ℕ) (w : Workload) (s : World K)
      → w.type ≡ job
      → (redeploy_image api pro enterprise job now stored i w s).0 ≡ running
      → api.read cron_job w.name (redeploy_image api pro enterprise job now stored i w s).1.cluster
        ≡ some (build_cron_job (target w i none 0))
  redeployed_job now stored i w s is_job up =
      let (max, s') = cap api pro enterprise now stored w.tenant_id s in
      subst
        (λ t.
          IsDeployed api laws t (target w i none max)
            (deploy api (target w i none max) s'.cluster).1)
        is_job (deploy-IsDeployed api laws (target w i none max) s'.cluster up)

  relaunch_job :
      (now stored i : ℕ) (w : Workload) (s : World K)
      → w.source_git_url ≡ none
      → w.image ≡ some i
      → i ≢ 0
      → w.type ≡ job
      → relaunch api pro enterprise (filled w.source_git_url) (filled w.image) now stored w s
        ≡ redeploy_image api pro enterprise job now stored i w s
  relaunch_job now stored i w s no_source has_image image_there is_job =
      let text : filled (some i) ≡ some i = ground arith in
      ap (λ v. relaunch api pro enterprise (filled v) (filled w.image) now stored w s) no_source
      ∙ ap (λ v. relaunch api pro enterprise none v now stored w s) (ap filled has_image ∙ text)
      ∙ ap (λ t. redeploy_image api pro enterprise t now stored i w s) is_job

  -- A job without a repository that is redeployed from its image by its tenant, and answered as
  -- running, has a CronJob of that image at minute 0 of every hour, whatever schedule it was created
  -- with.
  pub redeploy_hourly :
      (now stored tenant id i : ℕ) (s : World K) (w w' : Workload)
      → find (by_id id) s.workloads ≡ some w
      → w.tenant_id ≡ tenant
      → w.type ≡ job
      → w.source_git_url ≡ none
      → w.image ≡ some i
      → i ≢ 0
      → (redeploy api pro enterprise now stored tenant id s).0 ≡ send 200 w'
      → w'.status ≡ running
      → api.read cron_job w.name (redeploy api pro enterprise now stored tenant id s).1.cluster
        ≡ some (record {
          kind = cron_job;
          name = w.name;
          tenant_id = tenant;
          spec = cron_spec "0 * * * *" (record {
            image = i;
            env = w.env;
            memory_limit = w.memory_limit;
            cpu_limit = w.cpu_limit;
          });
        })
  unfolding redeploy commit
  redeploy_hourly now stored tenant id i s w w' e mine is_job no_source has_image image_there sent
        up =
      let r = redeploy_image api pro enterprise job now stored i w s in
      let body : Status × World K → Reply Workload × World K = λ r. (
        send 200 (deployed now r.0 w),
        record r.1 { workloads = update_where (by_id id) (deployed now r.0) r.1.workloads },
      ) in
      let all : redeploy api pro enterprise now stored tenant id s ≡ body r =
        rw (own-found api pro enterprise tenant id s w e mine)
          (ap body (relaunch_job now stored i w s no_source has_image image_there is_job)) in
      let answered : send 200 (deployed now r.0 w) ≡ send 200 w' = ap (λ p. p.0) (sym all) ∙ sent in
      let same : deployed now r.0 w ≡ w' = ground arith in
      ap (λ (p : Reply Workload × World K). api.read cron_job w.name p.1.cluster) all
      ∙ redeployed_job now stored i w s is_job (ap (λ (w : Workload). w.status) same ∙ up)
      ∙ ap (λ t. some (record (build_cron_job (target w i none 0)) { tenant_id = t })) mine
