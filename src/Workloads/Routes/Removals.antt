-- ===== src/Workloads/Routes/Removals.antt =====
-- What DELETE /workloads/:id takes away.
use tinai_infra.Prelude.{
  ℕ, ◌≡◌, ◌≢◌, refl, ◌∙◌, ap, sym, Bool, true, false, none, some, arith, find, Reply, send, pass,
  commit-keeps, commit-sent, find-delete_where_gone,
}
use tinai_infra.Workloads.{Workload, Kind, Api, Laws}
use tinai_infra.Workloads.Deploy.{delete_resources}
use tinai_infra.Workloads.Deploy.Removed.{delete_resources-Away}
use tinai_infra.Workloads.Rows.{World, by_id, own}
use tinai_infra.Workloads.Routes.{remove, after_teardown}

module _ {K : Type 0} (api : Api K) (laws : Laws api) (pro enterprise : ℕ) where
  own_row :
      (tenant id : ℕ) (s : World K) (w v : Workload)
      → find (by_id id) s.workloads ≡ some w
      → own tenant id s ≡ pass v
      → (v ≡ w) × (w.tenant_id ≡ tenant)
  own_row tenant id s w v found e = ground arith

  after_teardown-cluster :
      (id : ℕ) (p : Bool × K) (s : World K)
      → (after_teardown api pro enterprise id p s).1.cluster ≡ p.1
  after_teardown-cluster id (true, k) s = refl
  after_teardown-cluster id (false, k) s = refl

  after_teardown_sent :
      (id : ℕ) (p : Bool × K) (s : World K)
      → (after_teardown api pro enterprise id p s).0 ≡ send 204 tt
      → find (by_id id) (after_teardown api pro enterprise id p s).1.workloads ≡ none
  after_teardown_sent id (true, k) s e =
      find-delete_where_gone (by_id id) (by_id id) s.workloads (λ a e. e)
  after_teardown_sent id (false, k) s e = ground arith

  -- A request to delete a workload touches no object of another name, however it ends. Where it is
  -- answered with 204, the workload was the caller's, and its row is gone.
  pub remove-apart :
      (tenant id : ℕ) (s : World K) (w : Workload)
      → find (by_id id) s.workloads ≡ some w
      → ((kind : Kind) (name : ℕ)
          → name ≢ w.name
          → api.read kind name (remove api pro enterprise tenant id s).1.cluster
            ≡ api.read kind name s.cluster)
        × ((remove api pro enterprise tenant id s).0 ≡ send 204 tt
            → (w.tenant_id ≡ tenant)
              × (find (by_id id) (remove api pro enterprise tenant id s).1.workloads ≡ none))
  unfolding remove
  remove-apart tenant id s w found =
      let body : Workload → World K → Reply (Unit {0}) × World K = λ v s.
        after_teardown api pro enterprise id (delete_resources api v.type v.name s.cluster) s in
      (
        λ kind name ne.
            commit-keeps (λ t. api.read kind name t.cluster ≡ api.read kind name s.cluster)
              (own tenant id s) body s refl
              (λ v passes.
                let p = delete_resources api v.type v.name s.cluster in
                let same : v.name ≡ w.name =
                  ap (λ (w : Workload). w.name) (own_row tenant id s w v found passes).0 in
                ap (api.read kind name) (after_teardown-cluster id p s)
                ∙ delete_resources-Away api laws v.type kind v.name name (λ e. ne (e ∙ same))
                    s.cluster),
        λ e.
            let (v, passes, same) = commit-sent (own tenant id s) body s 204 tt e in
            let p = delete_resources api v.type v.name s.cluster in
            (
              (own_row tenant id s w v found passes).1,
              ap (λ (r : Reply (Unit {0}) × World K). find (by_id id) r.1.workloads) same
                  ∙ after_teardown_sent id p s
                      (ap (λ (r : Reply (Unit {0}) × World K). r.0) (sym same) ∙ e),
            ),
      )
