-- ===== src/Plans/Payments.antt =====
-- Paying for a plan: POST /plans/upgrade of routes/plans.ts, and POST /payments/order, /verify and
-- /webhook of routes/razorpay.ts. The HMAC and the payment provider are parameters.
pub mod Activation
use tinai_infra.Prelude.{
  ℕ, ◌*◌, String, Bool, true, false, ◌&&◌, not, Option, none, some, List, [], ◌∷◌, ◌++◌, find,
  update_where, if◌then◌else◌, ◌==◌, ltb, leb, or_else, is_some, Reply, send, fail, Check, pass,
  require, require_row, commit, ◌>>=◌, ◌>>◌,
}
use tinai_infra.Plans.{
  Plan, TenantPlan, Order, OrderStatus, created, paid, captured, Db, plan_by_id,
}

abbrev pub of_tenant : ℕ → TenantPlan → Bool
of_tenant tenant t = t.tenant_id == tenant

-- `INSERT INTO tenant_plans … ON CONFLICT (tenant_id) DO UPDATE SET …`
abbrev pub upsert_plan : TenantPlan → (TenantPlan → TenantPlan) → List TenantPlan → List TenantPlan
upsert_plan new change ts =
    if is_some (find (of_tenant new.tenant_id) ts)
    then update_where (of_tenant new.tenant_id) change ts
    else ts ++ new ∷ []

abbrev pub new_plan : (now tenant plan_id : ℕ) → TenantPlan
new_plan now tenant plan_id = record {
  tenant_id = tenant;
  plan_id = plan_id;
  started_at = now;
  expires_at = none;
  override_limits = none;
}

pub record Upgraded : Type 0 where
  pub plan_id : ℕ
  pub price_inr : ℕ
  pub razorpay_order : Option ℕ

-- POST /plans/upgrade. `order_of` is `createRazorpayOrder`, which gives no order when the provider
-- is not configured or fails.
unfoldable pub upgrade :
    (order_of : ℕ → Option ℕ) (now tenant plan_id : ℕ) → Db → Reply Upgraded × Db
upgrade order_of now tenant plan_id db =
    commit (require_row (find (plan_by_id plan_id) db.plans) 400 "invalid plan_id")
      (λ plan db. (
        send 200 (record {
          plan_id = plan_id;
          price_inr = plan.price_inr;
          razorpay_order = if ltb 0 plan.price_inr then order_of (plan.price_inr * 100) else none;
        }),
        record db {
          tenant_plans =
              upsert_plan (new_plan now tenant plan_id)
                (λ t. record t { plan_id = plan_id; started_at = now; expires_at = none })
                db.tenant_plans;
        },
      ))
      db

abbrev pub order_by_id : ℕ → Order → Bool
order_by_id id o = o.order_id == id

abbrev pub price_of : Plan → Bool → Option ℕ
price_of p true = p.price_yearly_paise
price_of p false = p.price_monthly_paise

-- `!amount_paise || amount_paise <= 0`, negated
abbrev pub is_payable : Option ℕ → Bool
is_payable none = false
is_payable (some a) = ltb 0 a

-- The checks of POST /payments/order up to the provider's answer: `key_id` is the configured key,
-- `provider` answers with the new order's id for an amount, or fails.
unfoldable pub order_check :
    (key_id : Option ℕ) (provider : ℕ → Option (ℕ × ℕ)) (plan_id : ℕ)
    → Bool
    → Db
    → Check (ℕ × ℕ × ℕ)
order_check key_id provider plan_id yearly db = do
  require (is_some key_id) 503 "Payment gateway not configured yet."
  plan ← require_row (find (plan_by_id plan_id) db.plans) 404 "plan not found"
  require (is_payable (price_of plan yearly)) 400 "this plan does not require payment"
  let amount = or_else (price_of plan yearly) 0
  order ← require_row (provider amount) 502 "failed to create payment order"
  pass (order.0, order.1, amount)

-- POST /payments/order; `ON CONFLICT (order_id) DO NOTHING`.
unfoldable pub create_order :
    (key_id : Option ℕ) (provider : ℕ → Option (ℕ × ℕ)) (tenant user plan_id : ℕ)
    → Bool
    → Db
    → Reply (ℕ × ℕ) × Db
create_order key_id provider tenant user plan_id yearly db =
    commit (order_check key_id provider plan_id yearly db)
      (λ o db. (
        send 200 (o.0, o.1),
        if is_some (find (order_by_id o.0) db.orders) then db else record db {
          orders =
              db.orders
              ++ record {
                order_id = o.0;
                tenant_id = tenant;
                user_id = user;
                plan_id = plan_id;
                yearly = yearly;
                amount_paise = o.2;
                status = created;
                payment_id = none;
              }
                ∷ [];
        },
      ))
      db

abbrev pub is_order_of : ℕ → ℕ → Order → Bool
is_order_of id tenant o = o.order_id == id && o.tenant_id == tenant

-- The checks of POST /payments/verify; `hmac secret order payment` is the signature of
-- `order_id|payment_id` under the secret.
unfoldable pub verify_check :
    (hmac : ℕ → ℕ → ℕ → ℕ) (secret tenant order_id payment_id signature : ℕ) → Db → Check Order
verify_check hmac secret tenant order_id payment_id signature db = do
  require (signature == hmac secret order_id payment_id) 400 "invalid payment signature"
  require_row (find (is_order_of order_id tenant) db.orders) 404 "order not found"

-- POST /payments/verify
unfoldable pub verify :
    (hmac : ℕ → ℕ → ℕ → ℕ) (secret now tenant order_id payment_id signature : ℕ) → Db → Reply ℕ × Db
verify hmac secret now tenant order_id payment_id signature db =
    commit (verify_check hmac secret tenant order_id payment_id signature db)
      (λ order db. (
        send 200 order.plan_id,
        record db {
          tenant_plans =
              upsert_plan (new_plan now tenant order.plan_id)
                (λ t. record t { plan_id = order.plan_id; started_at = now }) db.tenant_plans;
          orders =
              update_where (order_by_id order_id)
                (λ o. record o { status = paid; payment_id = some payment_id }) db.orders;
        },
      ))
      db

-- POST /payments/webhook. `sign` is the signature of the request's body under the configured
-- secret; the event is none unless it is `payment.captured` with a payment.
unfoldable pub webhook :
    (sign : Option ℕ) (signature : Option ℕ) (event : Option (ℕ × ℕ)) → Db → Reply (Unit {0}) × Db
webhook sign signature event db =
    commit
      (do
        given ← require_row signature 400 "missing signature"
        expected ← require_row sign 400 "missing signature"
        require (given == expected) 400 "invalid webhook signature")
      (λ _ db. (
        send 200 tt,
        elim event [
          | none ↦ db
          | some (order_id, payment_id) ↦ record db {
            orders =
                update_where (order_by_id order_id)
                  (λ o. record o { status = captured; payment_id = some payment_id }) db.orders;
          }
        ],
      ))
      db
