-- ===== src/Plans.antt =====
-- Plans and their limits: platform/services/tinai-api/src/middleware/planGate.ts, routes/plans.ts
-- and the plan side of routes/razorpay.ts. Times are milliseconds, ids are numbers.
pub mod Gate
pub mod Payments
mod Tests
use tinai_infra.Prelude.{
  ℕ, ◌*◌, ◌<◌, String, Bool, true, false, ◌&&◌, ◌||◌, not, Option, none, some, List, [], ◌∷◌, ◌++◌,
  find, select, update_where, length, if◌then◌else◌, ◌==◌, ltb, leb, or_else, is_some, ◌+◌,
}

-- A limit: -1 is written `unlimited`, and no other negative number is a limit.
pub data Limit : Type 0 where
  unlimited : Limit
  at_most : ℕ → Limit

-- `PlanLimits`, read from a JSON column: a key may be missing.
pub record Limits : Type 0 where
  pub max_workloads : Option Limit
  pub max_databases : Option Limit
  pub max_functions : Option Limit
  pub max_custom_domains : Option Limit
  pub storage_gb : Option Limit
  pub api_calls_month : Option Limit

abbrev pub over : Option Limit → Option Limit → Option Limit
over base none = base
over base (some l) = some l

-- `{ ...base, ...overrides }`
abbrev pub merge : Limits → Limits → Limits
merge a b = record {
  max_workloads = over a.max_workloads b.max_workloads;
  max_databases = over a.max_databases b.max_databases;
  max_functions = over a.max_functions b.max_functions;
  max_custom_domains = over a.max_custom_domains b.max_custom_domains;
  storage_gb = over a.storage_gb b.storage_gb;
  api_calls_month = over a.api_calls_month b.api_calls_month;
}

-- What the code falls back on when the `free` plan has no row.
abbrev pub free_limits : Limits
free_limits = record {
  max_workloads = some (at_most 3);
  max_databases = some (at_most 1);
  max_functions = some (at_most 5);
  max_custom_domains = some (at_most 0);
  storage_gb = some (at_most 1);
  api_calls_month = some (at_most 10_000);
}

-- The id of the plan `'free'`.
abbrev pub free : ℕ
free = 0

pub record Plan : Type 0 where
  pub id : ℕ
  pub price_inr : ℕ
  pub price_monthly_paise : Option ℕ
  pub price_yearly_paise : Option ℕ
  pub limits : Limits

pub record TenantPlan : Type 0 where
  pub tenant_id : ℕ
  pub plan_id : ℕ
  pub started_at : ℕ
  pub expires_at : Option ℕ
  pub override_limits : Option Limits

pub data OrderStatus : Type 0 where
  created paid captured : OrderStatus

-- A row of `payment_orders`, without `paid_at`, which nothing reads.
pub record Order : Type 0 where
  pub order_id : ℕ
  pub tenant_id : ℕ
  pub user_id : ℕ
  pub plan_id : ℕ
  pub yearly : Bool
  pub amount_paise : ℕ
  pub status : OrderStatus
  pub payment_id : Option ℕ

-- A row of `workloads`.
pub record Workload : Type 0 where
  pub tenant_id : ℕ
  pub is_function : Bool

-- The tables; `databases` are the rows of `app_databases`, each with the owner of its app, and
-- `domains` are the tenants of the rows of `mail_domains`.
pub record Db : Type 0 where
  pub plans : List Plan
  pub tenant_plans : List TenantPlan
  pub orders : List Order
  pub workloads : List Workload
  pub databases : List ℕ
  pub domains : List ℕ

-- `expires_at IS NULL OR expires_at > NOW()`
abbrev pub is_current : ℕ → TenantPlan → Bool
is_current now t = elim t.expires_at [ none ↦ true | some e ↦ ltb now e ]

abbrev pub has_plan : ℕ → ℕ → TenantPlan → Bool
has_plan now tenant t = t.tenant_id == tenant && is_current now t

abbrev pub plan_by_id : ℕ → Plan → Bool
plan_by_id id p = p.id == id

-- The plan defaults with the tenant's overrides on top.
abbrev pub limits_of : Plan → TenantPlan → Limits
limits_of p t = elim t.override_limits [ none ↦ p.limits | some o ↦ merge p.limits o ]

-- The plan and the limits that the database gives a tenant: its current row joined with its plan,
-- or the free plan. (`tenant_plans.plan_id REFERENCES plans(id)`, so the join loses no row.)
unfoldable pub resolve : (now tenant : ℕ) → Db → ℕ × Limits
resolve now tenant db =
    let fallback : ℕ × Limits =
      (free, elim (find (plan_by_id free) db.plans) [ none ↦ free_limits | some p ↦ p.limits ]) in
    elim (find (has_plan now tenant) db.tenant_plans) [
      | none ↦ fallback
      | some t ↦ elim (find (plan_by_id t.plan_id) db.plans) [
        | none ↦ fallback
        | some p ↦ (t.plan_id, limits_of p t)
      ]
    ]
