-- ===== src/Workloads/Routes/Updates.antt =====
-- What PUT /workloads/:id stores and answers.
use tinai_infra.Prelude.{
  ℕ, ◌≡◌, refl, ◌∙◌, ap, Bool, true, false, Option, none, some, [], ◌∷◌, arith, if◌then◌else◌, ◌==◌,
  find, find-update_where, send, pass, commit, find-holds,
}
use tinai_infra.Workloads.{Env, Workload, Api}
use tinai_infra.Workloads.Rows.{
  World, UpdateBody, put_env, merge_env, new_env, either, by_id, own, merged, set_columns,
}
use tinai_infra.Workloads.Routes.{update}

-- The value of a variable; the values that an object of updates gives, where a later one counts.
abbrev pub value_of : (key : ℕ) → Env → Option ℕ
value_of key [] = none
value_of key (e ∷ env) = if e.0 == key then some e.1 else value_of key env

abbrev pub last_value : (key : ℕ) → Env → Option ℕ
last_value key [] = none
last_value key (e ∷ env) = either (last_value key env) (if e.0 == key then some e.1 else none)

abbrev pub updated_value : (key : ℕ) → Option Env → Option ℕ
updated_value key none = none
updated_value key (some updates) = last_value key updates

put_env-value :
    (key k v : ℕ) (env : Env)
    → value_of key (put_env k v env) ≡ (if k == key then some v else value_of key env)
put_env-value key k v [] = refl
put_env-value key k v (e ∷ env) = ground (arith, put_env-value key k v env)

either_assoc : (a b c : Option ℕ) → either a (either b c) ≡ either (either a b) c
either_assoc none b c = refl
either_assoc (some x) b c = refl

if_either :
    (b : Bool) (v : ℕ) (c : Option ℕ)
    → (if b then some v else c) ≡ either (if b then some v else none) c
if_either true v c = refl
if_either false v c = refl

merge_env-value :
    (key : ℕ) (env updates : Env)
    → value_of key (merge_env env updates) ≡ either (last_value key updates) (value_of key env)
merge_env-value key env [] = refl
merge_env-value key env (u ∷ updates) =
    merge_env-value key (put_env u.0 u.1 env) updates
    ∙ ap (either (last_value key updates))
        (put_env-value key u.0 u.1 env ∙ if_either (u.0 == key) u.1 (value_of key env))
    ∙ either_assoc (last_value key updates) (if u.0 == key then some u.1 else none)
        (value_of key env)

new_env-value :
    (key : ℕ) (env : Env) (updates : Option Env)
    → value_of key (new_env env updates) ≡ either (updated_value key updates) (value_of key env)
new_env-value key env none = refl
new_env-value key env (some updates) = merge_env-value key env updates

module _ {K : Type 0} (api : Api K) (pro enterprise : ℕ) where
  pub own-found :
      (tenant id : ℕ) (s : World K) (w : Workload)
      → find (by_id id) s.workloads ≡ some w
      → w.tenant_id ≡ tenant
      → own tenant id s ≡ pass w
  own-found tenant id s w e mine = ground arith

  -- An update of the caller's own workload answers with the row that the table then has. Each
  -- environment variable has the last value that the update gives it, or the value it had.
  pub update_reads :
      (now tenant id : ℕ) (u : UpdateBody) (s : World K) (w : Workload)
      → find (by_id id) s.workloads ≡ some w
      → w.tenant_id ≡ tenant
      → (w' : Workload) × ((update api pro enterprise now tenant id u s).0 ≡ send 200 w')
        × (find (by_id id) (update api pro enterprise now tenant id u s).1.workloads ≡ some w')
        × (w'.tenant_id ≡ tenant)
        × ((key : ℕ) → value_of key w'.env ≡ either (updated_value key u.env) (value_of key w.env))
  unfolding update commit
  update_reads now tenant id u s w e mine = (
    merged u w,
    rw (own-found tenant id s w e mine) refl,
    rw (own-found tenant id s w e mine) (
        find-update_where (by_id id) (by_id id) (set_columns (merged u w)) s.workloads (λ a. refl) w
          e
        ∙ ap (λ (b : Bool). some (if b then merged u w else w))
            (find-holds (by_id id) s.workloads w e)),
    mine,
    λ key. new_env-value key w.env u.env,
  )
