-- ===== src/Workloads/Routes/Owned.antt =====
-- What a tenant's requests do to the workloads of others.
use tinai_infra.Prelude.{ℕ, ◌≡◌, ◌≢◌, refl, some, arith, find, fail, reject, commit}
use tinai_infra.Workloads.{Workload, Api}
use tinai_infra.Workloads.Rows.{World, UpdateBody, by_id, own}
use tinai_infra.Workloads.Routes.{update, remove, redeploy}

module _ {K : Type 0} (api : Api K) (pro enterprise : ℕ) where
  own_foreign :
      (tenant id : ℕ) (s : World K) (w : Workload)
      → find (by_id id) s.workloads ≡ some w
      → w.tenant_id ≢ tenant
      → own tenant id s ≡ reject 403 "Forbidden"
  own_foreign tenant id s w e ne = ground arith

  -- An update, a deletion or a redeployment of another tenant's workload is forbidden, and changes
  -- neither a table nor the cluster.
  pub foreign_forbidden :
      (now stored tenant id : ℕ) (u : UpdateBody) (s : World K) (w : Workload)
      → find (by_id id) s.workloads ≡ some w
      → w.tenant_id ≢ tenant
      → (update api pro enterprise now tenant id u s ≡ (fail 403 "Forbidden", s))
        × (remove api pro enterprise tenant id s ≡ (fail 403 "Forbidden", s))
        × (redeploy api pro enterprise now stored tenant id s ≡ (fail 403 "Forbidden", s))
  unfolding update remove redeploy commit
  foreign_forbidden now stored tenant id u s w e ne =
      let refused = own_foreign tenant id s w e ne in
      (rw refused refl, rw refused refl, rw refused refl)
