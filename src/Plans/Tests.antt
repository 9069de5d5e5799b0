-- ===== src/Plans/Tests.antt =====
-- Plans on concrete inputs: tenant 5 has three workloads and a plan that ran out at time 100.
use tinai_infra.Prelude.{
  ℕ, ◌+◌, ◌≡◌, ◌↔◌, ◌≤◌, refl, true, false, none, some, [], ◌∷◌, arith, find, commit, is_some,
  status,
}
use tinai_infra.Plans.{
  unlimited, at_most, Limits, Plan, TenantPlan, Order, created, Workload, Db, resolve,
}
use tinai_infra.Plans.Gate.{
  Cache, cache_ttl_ms, max_workloads, max_custom_domains, limit_at, count, gate, admitted,
  require_plan, limit_key, get_plan_limits, fill, get_cache, set_cache,
}
use tinai_infra.Plans.Gate.Entitled.{entitled, held, HasRoom}
use tinai_infra.Plans.Gate.Freshness.{IsFresh, gate_decides}
use tinai_infra.Plans.Gate.Quota.{IsLimited, creates, creates_within_limit}
use tinai_infra.Plans.Payments.{
  is_order_of, upgrade, verify, verify_check, create_order, order_check,
}
use tinai_infra.Plans.Payments.Activation.{
  upgrade_activates, verify_activates, verify_guards, webhook_keeps_plans,
}
use tinai_infra.Plans.Payments.{webhook}

abbrev up_to : ℕ → Limits
up_to n = record {
  max_workloads = some (at_most n);
  max_databases = some unlimited;
  max_functions = none;
  max_custom_domains = none;
  storage_gb = none;
  api_calls_month = none;
}

abbrev paid_plan : Plan
paid_plan = record {
  id = 2;
  price_inr = 2999;
  price_monthly_paise = some 299_900;
  price_yearly_paise = none;
  limits = up_to 20;
}

abbrev row : TenantPlan
row = record {
  tenant_id = 5;
  plan_id = 2;
  started_at = 0;
  expires_at = some 100;
  override_limits = none;
}

abbrev order : Order
order = record {
  order_id = 70;
  tenant_id = 5;
  user_id = 9;
  plan_id = 2;
  yearly = false;
  amount_paise = 299_900;
  status = created;
  payment_id = none;
}

abbrev work : Workload
work = record { tenant_id = 5; is_function = false }

abbrev db : Db
db = record {
  plans = paid_plan ∷ [];
  tenant_plans = row ∷ [];
  orders = order ∷ [];
  workloads = work ∷ work ∷ work ∷ [];
  databases = [];
  domains = 5 ∷ 5 ∷ [];
}

-- The same without a plan, so that the tenant is on the free limits at all times.
abbrev free_db : Db
free_db = record db { tenant_plans = [] }

abbrev cold : Cache
cold _ = none

abbrev toy_hmac : ℕ → ℕ → ℕ → ℕ
toy_hmac secret o p = secret + o + p

-- In time the third workload is admitted; after the expiry the free limit of three holds.
gate_by_time :
    ((gate max_workloads 99 99 (some 5) db cold).0 ≡ admitted)
    × (is_some (limit_at max_workloads (resolve 100 5 db).1) ≡ true)
    × ((gate max_custom_domains 50 50 (some 5) db cold).0 ≡ admitted)
unfolding gate get_plan_limits fill get_cache set_cache resolve
gate_by_time = (refl, refl, refl)

unknown_resource : is_some (require_plan "pods") ≡ false
unfolding require_plan limit_key
unknown_resource = refl

orders_need_a_price :
    (status (create_order (some 1) (λ a. some (a, a)) 5 9 2 true db).0 ≡ 400)
    × (status (create_order (some 1) (λ a. none) 5 9 2 false db).0 ≡ 502)
    × (status (create_order (some 1) (λ a. some (a, a)) 5 9 2 false db).0 ≡ 200)
unfolding create_order order_check commit
orders_need_a_price = (refl, refl, refl)

gate_decides_example :
    ((asked : ℕ) × (kept : ℕ) × (asked ≤ kept)
      × (99 ≤ kept + cache_ttl_ms)
      × (((gate max_workloads 99 100 (some 5) db cold).0 ≡ admitted)
          ↔ HasRoom (entitled max_workloads asked 5 db) (held max_workloads 5 db)))
    × IsFresh (λ _. db) (gate max_workloads 99 100 (some 5) db cold).1
gate_decides_example =
    gate_decides (λ _. db) cold max_workloads 99 100 5 (λ t e h. absurd (ground arith))
      (omega arith)

free_db-IsLimited : IsLimited 5 3 (free_db, cold)
unfolding resolve
free_db-IsLimited = (λ now. refl, λ e h. ground arith)

creates_within_limit_test :
    count max_workloads 5 (creates 5 ((1, 2, false) ∷ (3, 4, true) ∷ []) (free_db, cold)).0 ≤ 3
creates_within_limit_test =
    creates_within_limit 5 3 ((1, 2, false) ∷ (3, 4, true) ∷ []) free_db cold free_db-IsLimited
      (omega arith)

upgrade_activates_test : (resolve 500 5 (upgrade (λ _. none) 200 5 2 db).1).0 ≡ 2
upgrade_activates_test = upgrade_activates (λ _. none) 200 500 5 2 db paid_plan refl

verify_activates_example : (resolve 60 5 (verify toy_hmac 1 50 5 70 8 79 db).1).0 ≡ 2
verify_activates_example =
    verify_activates toy_hmac 1 50 60 5 70 8 79 db order paid_plan refl refl refl
      (λ t h. ground arith)

verify_guards_test :
    (79 ≡ toy_hmac 1 70 8) × ((o : Order) × (find (is_order_of 70 5) db.orders ≡ some o))
unfolding verify verify_check commit
verify_guards_test = verify_guards toy_hmac 1 50 5 70 8 79 db (λ e. ground arith)

webhook_keeps_plans_test :
    resolve 60 5 (webhook (some 3) (some 3) (some (70, 8)) db).1 ≡ resolve 60 5 db
webhook_keeps_plans_test = webhook_keeps_plans (some 3) (some 3) (some (70, 8)) db 60 5
