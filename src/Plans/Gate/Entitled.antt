-- ===== src/Plans/Gate/Entitled.antt =====
-- The limit that a tenant is entitled to and the rows that it has, as the tables say.
use tinai_infra.Prelude.{
  ℕ, ◌+◌, ◌≡◌, ◌<◌, refl, Bool, true, false, ◌&&◌, Option, none, some, List, [], ◌∷◌, arith,
  if◌then◌else◌, ◌==◌, ltb, find, length, select, ◌↔◌,
}
use tinai_infra.Plans.{
  Limit, unlimited, at_most, Limits, Plan, TenantPlan, Workload, Db, has_plan, plan_by_id, free,
  limits_of, free_limits, resolve,
}
use tinai_infra.Plans.Gate.{
  LimitKey, max_workloads, max_databases, max_functions, max_custom_domains, limit_at, count,
  is_exceeded,
}

-- A row without an end, or with one that lies ahead.
abbrev in_force : (now : ℕ) → Option ℕ → Bool
in_force now none = true
in_force now (some end) = ltb now end

abbrev tenant_row : (now tenant : ℕ) → List TenantPlan → Option TenantPlan
tenant_row now tenant [] = none
tenant_row now tenant (t ∷ ts) =
    if t.tenant_id == tenant
    then if in_force now t.expires_at then some t else tenant_row now tenant ts
    else tenant_row now tenant ts

abbrev plan_row : (id : ℕ) → List Plan → Option Plan
plan_row id [] = none
plan_row id (p ∷ ps) = if p.id == id then some p else plan_row id ps

abbrev column : LimitKey → Limits → Option Limit
column max_workloads l = l.max_workloads
column max_databases l = l.max_databases
column max_functions l = l.max_functions
column max_custom_domains l = l.max_custom_domains

-- What the plan gives, where the tenant has nothing of its own.
abbrev own_or : (of_plan : Option Limit) → Option Limit → Option Limit
own_or of_plan none = of_plan
own_or of_plan (some l) = some l

abbrev own_limit : LimitKey → Option Limits → Option Limit
own_limit key none = none
own_limit key (some own) = column key own

-- The free plan, if it has no row.
abbrev free_limit : LimitKey → Limit
free_limit max_workloads = at_most 3
free_limit max_databases = at_most 1
free_limit max_functions = at_most 5
free_limit max_custom_domains = at_most 0

abbrev free_of : LimitKey → Option Plan → Option Limit
free_of key none = some (free_limit key)
free_of key (some p) = column key p.limits

abbrev limit_of_row : LimitKey → List Plan → Option TenantPlan → Option Limit
limit_of_row key ps none = free_of key (plan_row 0 ps)
limit_of_row key ps (some t) = elim (plan_row t.plan_id ps) [
  | none ↦ free_of key (plan_row 0 ps)
  | some p ↦ own_or (column key p.limits) (own_limit key t.override_limits)
]

-- The limit of the tenant's plan at a time, or of the free plan; none where it has no such limit.
abbrev pub entitled : LimitKey → (now tenant : ℕ) → Db → Option Limit
entitled key now tenant db = limit_of_row key db.plans (tenant_row now tenant db.tenant_plans)

abbrev one_if : Bool → ℕ
one_if true = 1
one_if false = 0

abbrev owned : (tenant : ℕ) → List ℕ → ℕ
owned tenant [] = 0
owned tenant (o ∷ os) = one_if (o == tenant) + owned tenant os

abbrev workloads_of : (tenant : ℕ) → List Workload → ℕ
workloads_of tenant [] = 0
workloads_of tenant (w ∷ ws) = one_if (w.tenant_id == tenant) + workloads_of tenant ws

abbrev functions_of : (tenant : ℕ) → List Workload → ℕ
functions_of tenant [] = 0
functions_of tenant (w ∷ ws) =
    (if w.is_function then one_if (w.tenant_id == tenant) else 0) + functions_of tenant ws

-- How many rows of the kind the tenant has.
abbrev pub held : LimitKey → (tenant : ℕ) → Db → ℕ
held max_workloads tenant db = workloads_of tenant db.workloads
held max_databases tenant db = owned tenant db.databases
held max_functions tenant db = functions_of tenant db.workloads
held max_custom_domains tenant db = owned tenant db.domains

-- One more row is within the limit.
abbrev pub HasRoom : Option Limit → (rows : ℕ) → Type 0
HasRoom (some (at_most n)) rows = rows < n
HasRoom (some unlimited) rows = Unit
HasRoom none rows = Unit

tenant_row_lem :
    (now tenant : ℕ) (ts : List TenantPlan)
    → find (has_plan now tenant) ts ≡ tenant_row now tenant ts
tenant_row_lem now tenant [] = refl
tenant_row_lem now tenant (t ∷ ts) = ground (arith, tenant_row_lem now tenant ts)

plan_row_lem : (id : ℕ) (ps : List Plan) → find (plan_by_id id) ps ≡ plan_row id ps
plan_row_lem id [] = refl
plan_row_lem id (p ∷ ps) = ground (arith, plan_row_lem id ps)

limit_at-column : (key : LimitKey) (l : Limits) → limit_at key l ≡ column key l
limit_at-column max_workloads l = refl
limit_at-column max_databases l = refl
limit_at-column max_functions l = refl
limit_at-column max_custom_domains l = refl

free_limit_lem : (key : LimitKey) → limit_at key free_limits ≡ some (free_limit key)
free_limit_lem max_workloads = refl
free_limit_lem max_databases = refl
free_limit_lem max_functions = refl
free_limit_lem max_custom_domains = refl

limit_at-limits_of :
    (key : LimitKey) (p : Plan) (t : TenantPlan)
    → limit_at key (limits_of p t) ≡ own_or (column key p.limits) (own_limit key t.override_limits)
limit_at-limits_of max_workloads p t = ground arith
limit_at-limits_of max_databases p t = ground arith
limit_at-limits_of max_functions p t = ground arith
limit_at-limits_of max_custom_domains p t = ground arith

pub resolve-entitled :
    (key : LimitKey) (now tenant : ℕ) (db : Db)
    → limit_at key (resolve now tenant db).1 ≡ entitled key now tenant db
unfolding resolve
resolve-entitled key now tenant db = ground (
  arith,
  tenant_row_lem now tenant db.tenant_plans,
  plan_row_lem free db.plans,
  λ (t : TenantPlan). plan_row_lem t.plan_id db.plans,
  limit_at-column key,
  free_limit_lem key,
  limit_at-limits_of key,
)

owned_lem : (tenant : ℕ) (os : List ℕ) → length (select (λ o. o == tenant) os) ≡ owned tenant os
owned_lem tenant [] = refl
owned_lem tenant (o ∷ os) = ground (arith, owned_lem tenant os)

workloads_of_lem :
    (tenant : ℕ) (ws : List Workload)
    → length (select (λ (w : Workload). w.tenant_id == tenant) ws) ≡ workloads_of tenant ws
workloads_of_lem tenant [] = refl
workloads_of_lem tenant (w ∷ ws) = ground (arith, workloads_of_lem tenant ws)

functions_of_lem :
    (tenant : ℕ) (ws : List Workload)
    → length (select (λ (w : Workload). w.tenant_id == tenant && w.is_function) ws)
      ≡ functions_of tenant ws
functions_of_lem tenant [] = refl
functions_of_lem tenant (w ∷ ws) = ground (arith, functions_of_lem tenant ws)

pub count-held : (key : LimitKey) (tenant : ℕ) (db : Db) → count key tenant db ≡ held key tenant db
count-held max_workloads tenant db = workloads_of_lem tenant db.workloads
count-held max_databases tenant db = owned_lem tenant db.databases
count-held max_functions tenant db = functions_of_lem tenant db.workloads
count-held max_custom_domains tenant db = owned_lem tenant db.domains

pub is_exceeded-HasRoom :
    (rows : ℕ) (l : Option Limit) → (is_exceeded rows l ≡ false) ↔ HasRoom l rows
is_exceeded-HasRoom rows none = (λ e. tt, λ h. refl)
is_exceeded-HasRoom rows (some unlimited) = (λ e. tt, λ h. refl)
is_exceeded-HasRoom rows (some (at_most n)) = (λ e. ground arith, λ h. ground arith)
