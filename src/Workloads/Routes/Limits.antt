-- ===== src/Workloads/Routes/Limits.antt =====
-- The workload limit of a tenant's plan over the routes.
use tinai_infra.Prelude.{
  ℕ, suc, ◌≤◌, ◌<◌, ◌≡◌, refl, ◌∙◌, ap, sym, subst, Bool, some, List, [], ◌∷◌, ◌++◌, map, arith,
  length, select, ◌==◌, update_where, Reply, commit, commit-keeps, Bool-cases, inl, inr,
}
use tinai_infra.Plans.{resolve}
use tinai_infra.Plans
use tinai_infra.Plans.Gate.{
  max_workloads, count, Verdict, admitted, unauthorized, exceeded, gate, get_plan_limits,
}
use tinai_infra.Plans.Gate.Quota.{
  IsLimited, length-select_append, get_plan_limits_limited, gate_limited, gate_cache_limited,
}
use tinai_infra.Workloads.{Workload, Api, Status}
use tinai_infra.Workloads.Rows.{
  filled, World, WorkloadBody, plan_db, summary, by_id, inserted, deployed, max_replicas_of,
}
use tinai_infra.Workloads.Routes.{create, by_verdict, insert_and_launch, creatable, launch}

-- The tenant's limit is a number, the same in the tables and in the cache, and its rows keep to it.
abbrev pub IsWithin : {K : Type 0} → (tenant limit : ℕ) → World K → Type 0
IsWithin tenant limit s =
    IsLimited tenant limit (plan_db s, s.cache) × (count max_workloads tenant (plan_db s) ≤ limit)

map-summary-deployed :
    (p : Workload → Bool) (now : ℕ) (status : Status) (ws : List Workload)
    → map summary (update_where p (deployed now status) ws) ≡ map summary ws
map-summary-deployed p now status [] = refl
map-summary-deployed p now status (w ∷ ws) = elim (Bool-cases (p w)) [
  | inl e ↦ rw e (ap (λ t. summary w ∷ t) (map-summary-deployed p now status ws))
  | inr e ↦ rw e (ap (λ t. summary w ∷ t) (map-summary-deployed p now status ws))
]

map-append_one :
    (ws : List Workload) (w : Workload)
    → map summary (ws ++ w ∷ []) ≡ map summary ws ++ summary w ∷ []
map-append_one [] w = refl
map-append_one (v ∷ ws) w = ap (λ t. summary v ∷ t) (map-append_one ws w)

-- The summaries after an insertion and the update of its status.
count_inserted :
    (p : Workload → Bool) (q : Plans.Workload → Bool) (now : ℕ) (status : Status)
    (ws : List Workload) (w : Workload)
    → length (select q (map summary (update_where p (deployed now status) (ws ++ w ∷ []))))
      ≤ suc (length (select q (map summary ws)))
count_inserted p q now status ws w =
    subst (λ t. length (select q t) ≤ suc (length (select q (map summary ws))))
      (sym (map-summary-deployed p now status (ws ++ w ∷ []) ∙ map-append_one ws w))
      (length-select_append q (map summary ws) (summary w))

module _ {K : Type 0} (api : Api K) (pro enterprise : ℕ) where
  insert_keeps :
      (now stored tenant id limit : ℕ) (b : WorkloadBody) (s : World K)
      → IsLimited tenant limit (plan_db s, s.cache)
      → count max_workloads tenant (plan_db s) < limit
      → IsWithin tenant limit (insert_and_launch api pro enterprise now stored tenant id b s).1
  unfolding insert_and_launch resolve
  insert_keeps now stored tenant id limit b s h room =
      let (p, c) = get_plan_limits now stored tenant (plan_db s) s.cache in
      let (status, k) =
        launch api pro enterprise (filled b.source_git_url) (filled b.image) (inserted tenant id b)
          b.schedule (max_replicas_of pro enterprise p.0) s.cluster in
      (
        (λ now. h.0 now, (get_plan_limits_limited now stored tenant limit (plan_db s) s.cache h).1),
        omega (
          arith,
          room,
          count_inserted (by_id id) (λ w. w.tenant_id == tenant) now status s.workloads
              (inserted tenant id b),
        ),
      )

  by_verdict_keeps {ℓ} :
      (P : World K → Type ℓ) (v : Verdict) (go : World K → Reply Workload × World K) (s : World K)
      → P s
      → (v ≡ admitted → P (go s).1)
      → P (by_verdict api pro enterprise v go s).1
  by_verdict_keeps P admitted go s k h = h refl
  by_verdict_keeps P unauthorized go s k h = k
  by_verdict_keeps P (exceeded n plan limit) go s k h = k

  -- A request to create a workload keeps its tenant within a workload limit that is a number and the
  -- same in the tables and in the cache, whatever the request is answered.
  pub create-IsWithin :
      (now stored tenant id limit : ℕ) (b : WorkloadBody) (s : World K)
      → IsWithin tenant limit s
      → IsWithin tenant limit (create api pro enterprise now stored tenant id b s).1
  unfolding create
  create-IsWithin now stored tenant id limit b s h =
      let (v, cache) = gate max_workloads now stored (some tenant) (plan_db s) s.cache in
      let s1 = record s { cache = cache } in
      let limited : IsLimited tenant limit (plan_db s, cache) =
        (h.0.0, gate_cache_limited now stored tenant limit (plan_db s) s.cache h.0) in
      by_verdict_keeps (IsWithin tenant limit) v
        (λ s.
          commit (creatable api pro enterprise tenant b s)
            (λ _. insert_and_launch api pro enterprise now stored tenant id b) s)
        s1 (limited, h.1)
        (λ admits.
          commit-keeps (IsWithin tenant limit) (creatable api pro enterprise tenant b s1)
            (λ _. insert_and_launch api pro enterprise now stored tenant id b) s1 (limited, h.1)
            (λ _ _.
              insert_keeps now stored tenant id limit b s1 limited
                (gate_limited now stored tenant limit (plan_db s) s.cache h.0 admits)))
