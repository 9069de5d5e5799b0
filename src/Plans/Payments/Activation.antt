-- ===== src/Plans/Payments/Activation.antt =====
-- When a payment gives the tenant the plan.
use tinai_infra.Prelude.{
  ℕ, ◌≡◌, ◌≢◌, refl, ◌∙◌, inl, inr, true, Option, none, some, List, [], ◌∷◌, arith, find,
  update_where, ◌==◌, commit, pass, Option-cases, Bool-cases, find-append_miss, ==_refl,
}
use tinai_infra.Plans.{Plan, TenantPlan, Order, Db, plan_by_id, has_plan, is_current, resolve}
use tinai_infra.Plans.Payments.{
  of_tenant, upsert_plan, new_plan, upgrade, is_order_of, verify_check, verify, webhook,
}

-- `tenant_plans.tenant_id` is the table's key: a tenant's first row is its only one.
abbrev pub IsKeyed : List TenantPlan → Type 0
IsKeyed [] = Unit
IsKeyed (t ∷ ts) = (find (of_tenant t.tenant_id) ts ≡ none) × IsKeyed ts

has_plan-unkeyed :
    (now tenant : ℕ) (ts : List TenantPlan)
    → find (of_tenant tenant) ts ≡ none
    → find (has_plan now tenant) ts ≡ none
has_plan-unkeyed now tenant [] h = refl
has_plan-unkeyed now tenant (t ∷ ts) h = ground (arith, has_plan-unkeyed now tenant ts)

-- The tenant's row after an update of it, where the updated row is current or not.
module _ (now tenant : ℕ) (change : TenantPlan → TenantPlan)
    (keep : (t : TenantPlan) → (change t).tenant_id ≡ t.tenant_id) where
  find-update_current :
      (ts : List TenantPlan) (t : TenantPlan)
      → find (of_tenant tenant) ts ≡ some t
      → is_current now (change t) ≡ true
      → find (has_plan now tenant) (update_where (of_tenant tenant) change ts) ≡ some (change t)
  find-update_current [] t h k = ground arith
  find-update_current (x ∷ ts) t h k = elim (Bool-cases (of_tenant tenant x)) [
    | inl mine ↦ let same : x ≡ t = ground arith in rw (mine, same, find) (ground (arith, keep t))
    | inr other ↦ rw (other, find) (ground (arith, find-update_current ts t))
  ]

-- The tenant's plan after an upsert that leaves its row current.
module _ (now plan_id : ℕ) (new : TenantPlan) (change : TenantPlan → TenantPlan)
    (keep : (t : TenantPlan) → (change t).tenant_id ≡ t.tenant_id)
    (sets : (t : TenantPlan) → (change t).plan_id ≡ plan_id) where
  find-upsert :
      (ts : List TenantPlan)
      → new.plan_id ≡ plan_id
      → is_current now new ≡ true
      → ((t : TenantPlan)
          → find (of_tenant new.tenant_id) ts ≡ some t
          → is_current now (change t) ≡ true)
      → (t : TenantPlan) × (find (has_plan now new.tenant_id) (upsert_plan new change ts) ≡ some t)
        × (t.plan_id ≡ plan_id)
  find-upsert ts ep ec current = elim (Option-cases (find (of_tenant new.tenant_id) ts)) [
    | inl e ↦ (
      new,
      rw (e, upsert_plan)
          (find-append_miss (has_plan now new.tenant_id) ts (new ∷ [])
              (has_plan-unkeyed now new.tenant_id ts e)
            ∙ ground (arith, ==_refl new.tenant_id)),
      ep,
    )
    | inr (t, e) ↦ (
      change t,
      rw (e, upsert_plan) (find-update_current now new.tenant_id change keep ts t e (current t e)),
      sets t,
    )
  ]

-- A current row decides the plan.
resolve_row :
    (now tenant : ℕ) (db : Db) (t : TenantPlan) (p : Plan)
    → find (has_plan now tenant) db.tenant_plans ≡ some t
    → find (plan_by_id t.plan_id) db.plans ≡ some p
    → (resolve now tenant db).0 ≡ t.plan_id
unfolding resolve
resolve_row now tenant db t p h k = ground arith

-- After an upgrade to a plan that exists, the database gives the tenant that plan, at any time,
-- whether or not the payment provider made an order.
pub upgrade_activates :
    (order_of : ℕ → Option ℕ) (now at tenant plan_id : ℕ) (db : Db) (p : Plan)
    → find (plan_by_id plan_id) db.plans ≡ some p
    → (resolve at tenant (upgrade order_of now tenant plan_id db).1).0 ≡ plan_id
unfolding upgrade commit
upgrade_activates order_of now at tenant plan_id db p h =
    let change : TenantPlan → TenantPlan =
      λ t. record t { plan_id = plan_id; started_at = now; expires_at = none } in
    let (t, found, same) =
      find-upsert at plan_id (new_plan now tenant plan_id) change (λ t. refl) (λ t. refl)
        db.tenant_plans refl refl (λ t k. refl) in
    rw h (resolve_row at tenant _ t p found (rw same h) ∙ same)

verify_check_passes :
    (hmac : ℕ → ℕ → ℕ → ℕ) (secret tenant order_id payment_id signature : ℕ) (db : Db)
    (order : Order)
    → signature ≡ hmac secret order_id payment_id
    → find (is_order_of order_id tenant) db.orders ≡ some order
    → verify_check hmac secret tenant order_id payment_id signature db ≡ pass order
unfolding verify_check
verify_check_passes hmac secret tenant order_id payment_id signature db order sig eo = ground arith

-- A verified payment gives the tenant the plan of its order, at any time at which the tenant's row,
-- if there is one, has not expired.
pub verify_activates :
    (hmac : ℕ → ℕ → ℕ → ℕ) (secret now at tenant order_id payment_id signature : ℕ) (db : Db)
    (order : Order) (p : Plan)
    → signature ≡ hmac secret order_id payment_id
    → find (is_order_of order_id tenant) db.orders ≡ some order
    → find (plan_by_id order.plan_id) db.plans ≡ some p
    → ((t : TenantPlan) → find (of_tenant tenant) db.tenant_plans ≡ some t → is_current at t ≡ true)
    → (resolve at tenant (verify hmac secret now tenant order_id payment_id signature db).1).0
      ≡ order.plan_id
unfolding verify commit
verify_activates hmac secret now at tenant order_id payment_id signature db order p sig eo ep cur =
    let change : TenantPlan → TenantPlan =
      λ t. record t { plan_id = order.plan_id; started_at = now } in
    let (t, found, same) =
      find-upsert at order.plan_id (new_plan now tenant order.plan_id) change (λ t. refl)
        (λ t. refl) db.tenant_plans refl refl cur in
    rw
      (
        verify_check_passes hmac secret tenant order_id payment_id signature db order sig eo,
        commit,
        verify,
      )
      (resolve_row at tenant _ t p found (rw same ep) ∙ same)

-- Nothing changes unless the signature is the one of the order and the payment under the secret,
-- and the order is the tenant's.
pub verify_guards :
    (hmac : ℕ → ℕ → ℕ → ℕ) (secret now tenant order_id payment_id signature : ℕ) (db : Db)
    → (verify hmac secret now tenant order_id payment_id signature db).1 ≢ db
    → (signature ≡ hmac secret order_id payment_id)
      × ((order : Order) × (find (is_order_of order_id tenant) db.orders ≡ some order))
unfolding verify verify_check commit
verify_guards hmac secret now tenant order_id payment_id signature db changed =
    elim (Bool-cases (signature == hmac secret order_id payment_id)) [
      | inl sig ↦ elim (Option-cases (find (is_order_of order_id tenant) db.orders)) [
        | inl e ↦ absurd (changed (ground arith))
        | inr (order, e) ↦ (ground arith, (order, e))
      ]
      | inr other ↦ absurd (changed (ground arith))
    ]

-- A webhook never touches a tenant's plan, whatever event it brings and whether or not it is signed.
pub webhook_keeps_plans :
    (sign signature : Option ℕ) (event : Option (ℕ × ℕ)) (db : Db) (now tenant : ℕ)
    → resolve now tenant (webhook sign signature event db).1 ≡ resolve now tenant db
unfolding webhook commit resolve
webhook_keeps_plans none none event db now tenant = refl
webhook_keeps_plans none (some g) event db now tenant = refl
webhook_keeps_plans (some e) none event db now tenant = refl
webhook_keeps_plans (some e) (some g) event db now tenant = ground arith
