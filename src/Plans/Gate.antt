-- ===== src/Plans/Gate.antt =====
-- The limit gate of planGate.ts: a cache with a lifetime of 60 seconds before the database, and
-- the preHandler that `requirePlan` builds for a resource.
pub mod Entitled
pub mod Freshness
pub mod Quota
use text.Mathlib.Text.{◌==◌ as str_eq}
use tinai_infra.Prelude.{
  ℕ, ◌+◌, String, Bool, true, false, ◌&&◌, Option, none, some, List, length, select, if◌then◌else◌,
  ◌==◌, ltb, leb,
}
use tinai_infra.Plans.{Limit, unlimited, at_most, Limits, Db, Workload, resolve}

abbrev pub cache_ttl_ms : ℕ
cache_ttl_ms = 60_000

pub record CacheEntry : Type 0 where
  pub limits : Limits
  pub plan_id : ℕ
  pub expires_at : ℕ

-- `planCache`, a Map from tenants to entries.
abbrev pub Cache : Type 0
Cache = ℕ → Option CacheEntry

abbrev pub put : ℕ → Option CacheEntry → Cache → Cache
put tenant e c t = if t == tenant then e else c t

-- `getCache`: an entry past its time is deleted.
unfoldable pub get_cache : (now tenant : ℕ) → Cache → Option CacheEntry × Cache
get_cache now tenant c = elim (c tenant) [
  | none ↦ (none, c)
  | some e ↦ if ltb e.expires_at now then (none, put tenant none c) else (some e, c)
]

-- `setCache`
unfoldable pub set_cache : (now tenant plan_id : ℕ) → Limits → Cache → Cache
set_cache now tenant plan_id limits =
    put tenant
      (some (record { limits = limits; plan_id = plan_id; expires_at = now + cache_ttl_ms }))

-- The cached answer, or else the database's, which is cached; the clock is read again, as `stored`,
-- once the queries are back.
unfoldable pub fill :
    (now stored tenant : ℕ) → Db → Option CacheEntry × Cache → (ℕ × Limits) × Cache
fill now stored tenant db (some e, c) = ((e.plan_id, e.limits), c)
fill now stored tenant db (none, c) =
    let (plan_id, limits) = resolve now tenant db in
    ((plan_id, limits), set_cache stored tenant plan_id limits c)

-- `getPlanLimits`
unfoldable pub get_plan_limits : (now stored tenant : ℕ) → Db → Cache → (ℕ × Limits) × Cache
unfolding fill
get_plan_limits now stored tenant db c = fill now stored tenant db (get_cache now tenant c)

pub data LimitKey : Type 0 where
  max_workloads max_databases max_functions max_custom_domains : LimitKey

-- `RESOURCE_TO_LIMIT_KEY`
unfoldable pub limit_key : String → Option LimitKey
limit_key resource =
    if str_eq resource "workloads"
    then some max_workloads
    else if str_eq resource "databases"
    then some max_databases
    else if str_eq resource "functions"
    then some max_functions
    else if str_eq resource "custom_domains"
    then some max_custom_domains
    else none

-- `entry.limits[limitKey]`
abbrev pub limit_at : LimitKey → Limits → Option Limit
limit_at max_workloads l = l.max_workloads
limit_at max_databases l = l.max_databases
limit_at max_functions l = l.max_functions
limit_at max_custom_domains l = l.max_custom_domains

-- `RESOURCE_QUERIES`: the tenant's rows of each kind.
abbrev pub count : LimitKey → ℕ → Db → ℕ
count max_workloads tenant db =
    length (select (λ (w : Workload). w.tenant_id == tenant) db.workloads)
count max_databases tenant db = length (select (λ o. o == tenant) db.databases)
count max_functions tenant db =
    length (select (λ (w : Workload). w.tenant_id == tenant && w.is_function) db.workloads)
count max_custom_domains tenant db = length (select (λ d. d == tenant) db.domains)

-- The test of step 4; a comparison with a missing limit is false.
abbrev pub is_exceeded : ℕ → Option Limit → Bool
is_exceeded current none = false
is_exceeded current (some unlimited) = false
is_exceeded current (some (at_most limit)) = leb limit current

-- What the preHandler answers: nothing (the request goes on), 401, or 402 with the numbers.
pub data Verdict : Type 0 where
  admitted : Verdict
  unauthorized : Verdict
  exceeded : (current plan_id : ℕ) → Option Limit → Verdict

-- `planGateHandler`. The entry is the cached one, or else one made of the database's answer.
unfoldable pub gate : LimitKey → (now stored : ℕ) → Option ℕ → Db → Cache → Verdict × Cache
gate key now stored none db c = (unauthorized, c)
gate key now stored (some tenant) db c =
    let ((plan_id, limits), c') = get_plan_limits now stored tenant db c in
    let limit = limit_at key limits in
    let current = count key tenant db in
    (if is_exceeded current limit then exceeded current plan_id limit else admitted, c')

-- `requirePlan`: none where it throws, for a resource that it does not know.
unfoldable pub require_plan :
    String → Option ((now stored : ℕ) → Option ℕ → Db → Cache → Verdict × Cache)
require_plan resource = elim (limit_key resource) [ none ↦ none | some key ↦ some (gate key) ]
