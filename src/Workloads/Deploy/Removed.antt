-- ===== src/Workloads/Deploy/Removed.antt =====
-- What a deletion of objects leaves alone.
use tinai_infra.Prelude.{ℕ, ◌≡◌, ◌≢◌, refl, ◌∙◌, ap, Bool, true, false, ◌&&◌, arith, ◌==◌}
use tinai_infra.Workloads.{
  WorkloadType, service, function, job, static, Kind, deployment, k8s_service, ingress,
  scaled_object, knative_service, cron_job, Outcome, ok, conflict, not_found, fails, Api, Laws,
  same_kind,
}
use tinai_infra.Workloads.Deploy.{
  and_then, ignore_missing, delete_scaled_object, delete_ignoring, delete_service, delete_resources,
}
use tinai_infra.Workloads.Deploy.Steps.{Away, and_then-Away}

apart : (b : Bool) (name other : ℕ) → other ≢ name → (b && name == other) ≡ false
apart true name other ne = ground arith
apart false name other ne = refl

module _ {K : Type 0} (api : Api K) (laws : Laws api) where
  ignore_missing-store : (r : Outcome × K) → (ignore_missing r).1 ≡ r.1
  ignore_missing-store (ok, k) = refl
  ignore_missing-store (not_found, k) = refl
  ignore_missing-store (conflict, k) = refl
  ignore_missing-store (fails, k) = refl

  delete_ignoring-Away :
      (kind kind' : Kind) (name other : ℕ)
      → other ≢ name
      → Away api kind' other (delete_ignoring api kind name)
  delete_ignoring-Away kind kind' name other ne k =
      ap (api.read kind' other) (ignore_missing-store (api.delete kind name k))
      ∙ (laws.deletes kind name k).others kind' other (apart (same_kind kind kind') name other ne)

  delete_service-Away :
      (kind' : Kind) (name other : ℕ)
      → other ≢ name
      → Away api kind' other (delete_service api name)
  delete_service-Away kind' name other ne =
      let scaler : Away api kind' other (delete_scaled_object api name) = λ k.
        (laws.deletes scaled_object name k).others kind' other
          (apart (same_kind scaled_object kind') name other ne) in
      and_then-Away api kind' other (delete_ignoring api deployment name)
        (λ k.
          and_then (delete_ignoring api k8s_service name k)
            (λ k. and_then (delete_ignoring api ingress name k) (delete_scaled_object api name)))
        (delete_ignoring-Away deployment kind' name other ne)
        (and_then-Away api kind' other (delete_ignoring api k8s_service name)
          (λ k. and_then (delete_ignoring api ingress name k) (delete_scaled_object api name))
          (delete_ignoring-Away k8s_service kind' name other ne)
          (and_then-Away api kind' other (delete_ignoring api ingress name)
            (delete_scaled_object api name) (delete_ignoring-Away ingress kind' name other ne)
            scaler))

  -- A deletion touches no object of another name, whether it ends well or not.
  pub delete_resources-Away :
      (t : WorkloadType) (kind' : Kind) (name other : ℕ)
      → other ≢ name
      → Away api kind' other (delete_resources api t name)
  unfolding delete_resources
  delete_resources-Away service kind' name other ne = delete_service-Away kind' name other ne
  delete_resources-Away static kind' name other ne = delete_service-Away kind' name other ne
  delete_resources-Away function kind' name other ne =
      delete_ignoring-Away knative_service kind' name other ne
  delete_resources-Away job kind' name other ne = delete_ignoring-Away cron_job kind' name other ne
