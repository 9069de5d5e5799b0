-- ===== src/Workloads/Deploy.antt =====
-- `deployToK8s` and `deleteK8sResources`. Each step ends with whether it went on (true) or threw, and
-- the cluster that it left.
pub mod Steps
pub mod Written
pub mod Removed
use tinai_infra.Prelude.{ℕ, Bool, true, false, Option, none, some, if◌then◌else◌, is_some}
use tinai_infra.Workloads.{
  WorkloadType, service, function, job, static, Status, running, failed, Kind, deployment,
  k8s_service, ingress, scaled_object, knative_service, cron_job, Manifest, Outcome, ok, conflict,
  not_found, fails, Api,
}
use tinai_infra.Workloads.Manifests.{
  Target, build_deployment, build_service, build_ingress, build_scaled_object,
  build_knative_service, build_cron_job,
}

-- `nginx:stable-alpine`
abbrev pub nginx_image : ℕ
nginx_image = 1

module _ {K : Type 0} where
  -- A call that must not fail.
  abbrev pub must : Outcome × K → Bool × K
  must (ok, k) = (true, k)
  must (_, k) = (false, k)

  abbrev pub and_then : Bool × K → (K → Bool × K) → Bool × K
  and_then (true, k) f = f k
  and_then (false, k) f = (false, k)

  -- The `catch` of `deployToK8s`.
  abbrev pub status_of : Bool × K → Status × K
  status_of (true, k) = (running, k)
  status_of (false, k) = (failed, k)

  -- `.catch(ignore)`
  abbrev pub ignore_missing : Outcome × K → Bool × K
  ignore_missing (ok, k) = (true, k)
  ignore_missing (not_found, k) = (true, k)
  ignore_missing (_, k) = (false, k)

  abbrev pub ignore_all : Outcome × K → Bool × K
  ignore_all (_, k) = (true, k)

module _ {K : Type 0} (api : Api K) where
  -- Create, and replace where the object is there already.
  abbrev pub or_replace : Manifest → Outcome × K → Bool × K
  or_replace m (ok, k) = (true, k)
  or_replace m (conflict, k) = must (api.replace m k)
  or_replace m (_, k) = (false, k)

  abbrev pub upsert : Manifest → K → Bool × K
  upsert m k = or_replace m (api.create m k)

  -- The Service is read before it is replaced, for its `resourceVersion`.
  abbrev pub or_replace_read : Manifest → Outcome × K → Bool × K
  or_replace_read m (ok, k) = (true, k)
  or_replace_read m (conflict, k) =
      if is_some (api.read m.kind m.name k) then must (api.replace m k) else (false, k)
  or_replace_read m (_, k) = (false, k)

  abbrev pub upsert_service : Manifest → K → Bool × K
  upsert_service m k = or_replace_read m (api.create m k)

  -- `applyScaledObject`: failures are swallowed, but for those of the replacement.
  abbrev pub or_replace_scaler : Manifest → Outcome × K → Bool × K
  or_replace_scaler m (conflict, k) = must (api.replace m k)
  or_replace_scaler m (_, k) = (true, k)

  abbrev pub apply_scaled_object : Manifest → K → Bool × K
  apply_scaled_object m k = or_replace_scaler m (api.create m k)

  -- The objects of a service or a static site.
  unfoldable pub deploy_service : Target → (image : ℕ) → K → Bool × K
  deploy_service w image k = and_then (upsert (build_deployment w image) k) (λ k.
      and_then (upsert_service (build_service w) k)
        (λ k. and_then (upsert (build_ingress w) k) (apply_scaled_object (build_scaled_object w))))

  abbrev pub deploy_type : WorkloadType → Target → K → Bool × K
  deploy_type service w k = deploy_service w w.image k
  deploy_type static w k = deploy_service w nginx_image k
  deploy_type function w k = upsert (build_knative_service w) k
  deploy_type job w k = upsert (build_cron_job w) k

  -- `deployToK8s`
  unfoldable pub deploy : Target → K → Status × K
  deploy w k = status_of (deploy_type w.type w k)

  -- `deleteScaledObject`
  abbrev pub delete_scaled_object : ℕ → K → Bool × K
  delete_scaled_object name k = ignore_all (api.delete scaled_object name k)

  abbrev pub delete_ignoring : Kind → ℕ → K → Bool × K
  delete_ignoring kind name k = ignore_missing (api.delete kind name k)

  abbrev pub delete_service : ℕ → K → Bool × K
  delete_service name k = and_then (delete_ignoring deployment name k) (λ k.
      and_then (delete_ignoring k8s_service name k)
        (λ k. and_then (delete_ignoring ingress name k) (delete_scaled_object name)))

  -- `deleteK8sResources`: false where it throws.
  unfoldable pub delete_resources : WorkloadType → ℕ → K → Bool × K
  delete_resources service name k = delete_service name k
  delete_resources static name k = delete_service name k
  delete_resources function name k = delete_ignoring knative_service name k
  delete_resources job name k = delete_ignoring cron_job name k
