-- ===== src/Workloads/Deploy/Written.antt =====
-- What a deployment leaves in the cluster.
use tinai_infra.Prelude.{
  ℕ, ◌≡◌, ◌≢◌, refl, ◌∙◌, sym, ap, subst, Bool, true, false, some, arith, if◌then◌else◌, is_some,
}
use tinai_infra.Workloads.{
  WorkloadType, service, function, job, static, running, Kind, deployment, k8s_service, ingress,
  knative_service, cron_job, Manifest, Outcome, ok, conflict, not_found, fails, Api, Laws, Writes,
  is_at,
}
use tinai_infra.Workloads.Manifests.{
  Target, build_deployment, build_service, build_ingress, build_scaled_object,
  build_knative_service, build_cron_job,
}
use tinai_infra.Workloads.Deploy.{
  must, and_then, or_replace, upsert, or_replace_read, upsert_service, or_replace_scaler,
  apply_scaled_object, deploy_service, deploy_type, deploy, status_of, nginx_image,
}
use tinai_infra.Workloads.Deploy.Steps.{and_then-true, Away, and_then-Away}

module _ {K : Type 0} (api : Api K) (laws : Laws api) where
  -- Nothing but the object of the manifest is touched.
  abbrev pub IsLocal : Manifest → K → K → Type 0
  IsLocal m k k' =
      (kind : Kind) (name : ℕ)
      → is_at kind name m ≡ false
      → api.read kind name k' ≡ api.read kind name k

  -- A step that goes on has stored the manifest, and a step that does not has touched nothing else.
  abbrev pub Puts : Manifest → K → Bool × K → Type 0
  Puts m k p = (p.0 ≡ true → api.read m.kind m.name p.1 ≡ some m) × IsLocal m k p.1

  must-Puts : (m : Manifest) (k : K) (r : Outcome × K) → Writes api.read m k r → Puts m k (must r)
  must-Puts m k (ok, k') w = (λ _. w.stored refl, w.others)
  must-Puts m k (conflict, k') w = (λ e. ground arith, w.others)
  must-Puts m k (not_found, k') w = (λ e. ground arith, w.others)
  must-Puts m k (fails, k') w = (λ e. ground arith, w.others)

  replaced : (m : Manifest) (k k' : K) → IsLocal m k k' → Puts m k (must (api.replace m k'))
  replaced m k k' l =
      let (stored, others) = must-Puts m k' (api.replace m k') (laws.replaces m k') in
      (stored, λ kind name apart. others kind name apart ∙ l kind name apart)

  or_replace-Puts :
      (m : Manifest) (k : K) (r : Outcome × K)
      → Writes api.read m k r
      → Puts m k (or_replace api m r)
  or_replace-Puts m k (ok, k') w = (λ _. w.stored refl, w.others)
  or_replace-Puts m k (conflict, k') w = replaced m k k' w.others
  or_replace-Puts m k (not_found, k') w = (λ e. ground arith, w.others)
  or_replace-Puts m k (fails, k') w = (λ e. ground arith, w.others)

  Puts-if :
      (b : Bool) (m : Manifest) (k : K) (p q : Bool × K)
      → Puts m k p
      → Puts m k q
      → Puts m k (if b then p else q)
  Puts-if true m k p q h i = h
  Puts-if false m k p q h i = i

  or_replace_read-Puts :
      (m : Manifest) (k : K) (r : Outcome × K)
      → Writes api.read m k r
      → Puts m k (or_replace_read api m r)
  or_replace_read-Puts m k (ok, k') w = (λ _. w.stored refl, w.others)
  or_replace_read-Puts m k (conflict, k') w =
      Puts-if (is_some (api.read m.kind m.name k')) m k _ _ (replaced m k k' w.others)
        (λ e. ground arith, w.others)
  or_replace_read-Puts m k (not_found, k') w = (λ e. ground arith, w.others)
  or_replace_read-Puts m k (fails, k') w = (λ e. ground arith, w.others)

  pub upsert-Puts : (m : Manifest) (k : K) → Puts m k (upsert api m k)
  upsert-Puts m k = or_replace-Puts m k (api.create m k) (laws.creates m k)

  upsert_service-Puts : (m : Manifest) (k : K) → Puts m k (upsert_service api m k)
  upsert_service-Puts m k = or_replace_read-Puts m k (api.create m k) (laws.creates m k)

  or_replace_scaler-IsLocal :
      (m : Manifest) (k : K) (r : Outcome × K)
      → Writes api.read m k r
      → IsLocal m k (or_replace_scaler api m r).1
  or_replace_scaler-IsLocal m k (ok, k') w = w.others
  or_replace_scaler-IsLocal m k (conflict, k') w = (replaced m k k' w.others).1
  or_replace_scaler-IsLocal m k (not_found, k') w = w.others
  or_replace_scaler-IsLocal m k (fails, k') w = w.others

  apply_scaled_object-IsLocal : (m : Manifest) (k : K) → IsLocal m k (apply_scaled_object api m k).1
  apply_scaled_object-IsLocal m k =
      or_replace_scaler-IsLocal m k (api.create m k) (laws.creates m k)

  -- The three objects that carry a service.
  abbrev pub IsServed : Target → (image : ℕ) → K → Type 0
  IsServed w image k =
      (api.read deployment w.name k ≡ some (build_deployment w image))
      × (api.read k8s_service w.name k ≡ some (build_service w))
      × (api.read ingress w.name k ≡ some (build_ingress w))

  deploy_service-IsServed :
      (w : Target) (image : ℕ) (k : K)
      → (deploy_service api w image k).0 ≡ true
      → IsServed w image (deploy_service api w image k).1
  unfolding deploy_service
  deploy_service-IsServed w image k e =
      let d = upsert-Puts (build_deployment w image) k in
      let k1 = (upsert api (build_deployment w image) k).1 in
      let s = upsert_service-Puts (build_service w) k1 in
      let k2 = (upsert_service api (build_service w) k1).1 in
      let i = upsert-Puts (build_ingress w) k2 in
      let k3 = (upsert api (build_ingress w) k2).1 in
      let o = apply_scaled_object-IsLocal (build_scaled_object w) k3 in
      let (e1, same1, rest1) = and_then-true _ _ e in
      let (e2, same2, rest2) = and_then-true _ _ rest1 in
      let (e3, same3, rest3) = and_then-true _ _ rest2 in
      let end : (deploy_service api w image k).1
          ≡ (apply_scaled_object api (build_scaled_object w) k3).1 =
        ap (λ p. p.1) (same1 ∙ same2 ∙ same3) in
      (
        ap (api.read deployment w.name) end
            ∙ o deployment w.name refl
            ∙ i.1 deployment w.name refl
            ∙ s.1 deployment w.name refl
            ∙ d.0 e1,
        ap (api.read k8s_service w.name) end
            ∙ o k8s_service w.name refl
            ∙ i.1 k8s_service w.name refl
            ∙ s.0 e2,
        ap (api.read ingress w.name) end ∙ o ingress w.name refl ∙ i.0 e3,
      )

  -- What a running workload of a type stands on.
  abbrev pub IsDeployed : WorkloadType → Target → K → Type 0
  IsDeployed service w k = IsServed w w.image k
  IsDeployed static w k = IsServed w nginx_image k
  IsDeployed function w k = api.read knative_service w.name k ≡ some (build_knative_service w)
  IsDeployed job w k = api.read cron_job w.name k ≡ some (build_cron_job w)

  status_running :
      (p : Bool × K) → (status_of p).0 ≡ running → (p.0 ≡ true) × ((status_of p).1 ≡ p.1)
  status_running (true, k) e = (refl, refl)
  status_running (false, k) e = ground arith

  deploy_type-IsDeployed :
      (t : WorkloadType) (w : Target) (k : K)
      → (deploy_type api t w k).0 ≡ true
      → IsDeployed t w (deploy_type api t w k).1
  deploy_type-IsDeployed service w k e = deploy_service-IsServed w w.image k e
  deploy_type-IsDeployed static w k e = deploy_service-IsServed w nginx_image k e
  deploy_type-IsDeployed function w k e = (upsert-Puts (build_knative_service w) k).0 e
  deploy_type-IsDeployed job w k e = (upsert-Puts (build_cron_job w) k).0 e

  -- A workload is reported as running only if the cluster has its objects as they were built: the
  -- Deployment, the Service and the Ingress of a service or a static site, the Knative Service of a
  -- function, or the CronJob of a job, whoever owned objects of that name before.
  pub deploy-IsDeployed :
      (w : Target) (k : K) → (deploy api w k).0 ≡ running → IsDeployed w.type w (deploy api w k).1
  unfolding deploy
  deploy-IsDeployed w k e =
      let (went, same) = status_running (deploy_type api w.type w k) e in
      subst (IsDeployed w.type w) (sym same) (deploy_type-IsDeployed w.type w k went)

  name_apart : (kind : Kind) (name : ℕ) (m : Manifest) → name ≢ m.name → is_at kind name m ≡ false
  name_apart kind name m ne = ground arith

  Puts-Away :
      (m : Manifest) (f : K → Bool × K) (kind : Kind) (name : ℕ)
      → name ≢ m.name
      → ((k : K) → IsLocal m k (f k).1)
      → Away api kind name f
  Puts-Away m f kind name ne h k = h k kind name (name_apart kind name m ne)

  deploy_service-apart :
      (w : Target) (image : ℕ) (kind : Kind) (name : ℕ)
      → name ≢ w.name
      → Away api kind name (deploy_service api w image)
  unfolding deploy_service
  deploy_service-apart w image kind name ne =
      let d = upsert api (build_deployment w image) in
      let s = upsert_service api (build_service w) in
      let i = upsert api (build_ingress w) in
      let o = apply_scaled_object api (build_scaled_object w) in
      and_then-Away api kind name d (λ k. and_then (s k) (λ k. and_then (i k) o))
        (Puts-Away (build_deployment w image) d kind name ne
          (λ k. (upsert-Puts (build_deployment w image) k).1))
        (and_then-Away api kind name s (λ k. and_then (i k) o)
          (Puts-Away (build_service w) s kind name ne
            (λ k. (upsert_service-Puts (build_service w) k).1))
          (and_then-Away api kind name i o
            (Puts-Away (build_ingress w) i kind name ne (λ k. (upsert-Puts (build_ingress w) k).1))
            (Puts-Away (build_scaled_object w) o kind name ne
              (apply_scaled_object-IsLocal (build_scaled_object w)))))

  deploy_type-apart :
      (t : WorkloadType) (w : Target) (kind : Kind) (name : ℕ) (k : K)
      → name ≢ w.name
      → api.read kind name (deploy_type api t w k).1 ≡ api.read kind name k
  deploy_type-apart service w kind name k ne = deploy_service-apart w w.image kind name ne k
  deploy_type-apart static w kind name k ne = deploy_service-apart w nginx_image kind name ne k
  deploy_type-apart function w kind name k ne =
      (upsert-Puts (build_knative_service w) k).1 kind name
        (name_apart kind name (build_knative_service w) ne)
  deploy_type-apart job w kind name k ne =
      (upsert-Puts (build_cron_job w) k).1 kind name (name_apart kind name (build_cron_job w) ne)

  status_of-store : (p : Bool × K) → (status_of p).1 ≡ p.1
  status_of-store (true, k) = refl
  status_of-store (false, k) = refl

  -- A deployment touches no object of another name, whether it ends well or not.
  pub deploy-apart :
      (w : Target) (kind : Kind) (name : ℕ) (k : K)
      → name ≢ w.name
      → api.read kind name (deploy api w k).1 ≡ api.read kind name k
  unfolding deploy
  deploy-apart w kind name k ne =
      ap (api.read kind name) (status_of-store (deploy_type api w.type w k))
      ∙ deploy_type-apart w.type w kind name k ne
