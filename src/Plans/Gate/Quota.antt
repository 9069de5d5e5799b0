-- ===== src/Plans/Gate/Quota.antt =====
-- The gate keeps a tenant within its plan.
use tinai_infra.Prelude.{
  ℕ, suc, ◌≤◌, ◌<◌, ◌≡◌, refl, inl, inr, Bool, some, List, [], ◌∷◌, ◌++◌, arith, length, select,
  ◌==◌, Option-cases,
}
use tinai_infra.Plans.{at_most, Db, Workload, resolve}
use tinai_infra.Plans.Gate.{
  CacheEntry, Cache, get_cache, set_cache, get_plan_limits, max_workloads, count, Verdict, admitted,
  unauthorized, exceeded, gate,
}

-- The row that a request to create a workload inserts, where the gate lets it pass.
abbrev pub insert_if : Verdict → ℕ → Bool → Db → Db
insert_if admitted tenant is_function db = record db {
  workloads = db.workloads ++ record { tenant_id = tenant; is_function = is_function } ∷ [];
}
insert_if _ tenant is_function db = db

abbrev pub gated_create : (now stored tenant : ℕ) → Bool → Db × Cache → Db × Cache
gated_create now stored tenant is_function (db, c) =
    let (verdict, c') = gate max_workloads now stored (some tenant) db c in
    (insert_if verdict tenant is_function db, c')

-- A run of such requests, each with its times and its kind.
abbrev pub creates : ℕ → List (ℕ × ℕ × Bool) → Db × Cache → Db × Cache
creates tenant [] s = s
creates tenant ((now, stored, kind) ∷ rs) s =
    creates tenant rs (gated_create now stored tenant kind s)

-- The tenant's workload limit is `limit`, in the database at all times and in the cache.
abbrev pub IsLimited : ℕ → ℕ → Db × Cache → Type 0
IsLimited tenant limit (db, c) =
    ((now : ℕ) → (resolve now tenant db).1.max_workloads ≡ some (at_most limit))
    × ((e : CacheEntry) → c tenant ≡ some e → e.limits.max_workloads ≡ some (at_most limit))

pub length-select_append {ℓ} :
    {A : Type ℓ} (p : A → Bool) (xs : List A) (y : A)
    → length (select p (xs ++ y ∷ [])) ≤ suc (length (select p xs))
length-select_append p [] y = ground arith
length-select_append p (x ∷ xs) y = ground (arith, length-select_append p xs y)

pub get_plan_limits_limited :
    (now stored tenant limit : ℕ) (db : Db) (c : Cache)
    → IsLimited tenant limit (db, c)
    → ((get_plan_limits now stored tenant db c).0.1.max_workloads ≡ some (at_most limit))
      × ((e : CacheEntry)
          → (get_plan_limits now stored tenant db c).1 tenant ≡ some e
          → e.limits.max_workloads ≡ some (at_most limit))
unfolding get_plan_limits get_cache set_cache
get_plan_limits_limited now stored tenant limit db c (h, k) = elim (Option-cases (c tenant)) [
  | inl e ↦ (ground (arith, h now), λ e' he. ground (arith, h now))
  | inr (x, e) ↦ (ground (arith, h now, k x e), λ e' he. ground (arith, h now, k x e))
]

pub gate_limited :
    (now stored tenant limit : ℕ) (db : Db) (c : Cache)
    → IsLimited tenant limit (db, c)
    → (gate max_workloads now stored (some tenant) db c).0 ≡ admitted
    → count max_workloads tenant db < limit
unfolding gate
gate_limited now stored tenant limit db c h =
    ground (arith, (get_plan_limits_limited now stored tenant limit db c h).0)

insert_if-resolve :
    (v : Verdict) (now tenant : ℕ) (kind : Bool) (db : Db)
    → resolve now tenant (insert_if v tenant kind db) ≡ resolve now tenant db
unfolding resolve
insert_if-resolve admitted now tenant kind db = refl
insert_if-resolve unauthorized now tenant kind db = refl
insert_if-resolve (exceeded _ _ _) now tenant kind db = refl

insert_if-count :
    (v : Verdict) (tenant limit : ℕ) (kind : Bool) (db : Db)
    → (v ≡ admitted → count max_workloads tenant db < limit)
    → count max_workloads tenant db ≤ limit
    → count max_workloads tenant (insert_if v tenant kind db) ≤ limit
insert_if-count admitted tenant limit kind db room le = omega (
  arith,
  room refl,
  length-select_append (λ (w : Workload). w.tenant_id == tenant) db.workloads
      (record { tenant_id = tenant; is_function = kind }),
)
insert_if-count unauthorized tenant limit kind db room le = le
insert_if-count (exceeded _ _ _) tenant limit kind db room le = le

pub gate_cache_limited :
    (now stored tenant limit : ℕ) (db : Db) (c : Cache)
    → IsLimited tenant limit (db, c)
    → (e : CacheEntry) → (gate max_workloads now stored (some tenant) db c).1 tenant ≡ some e
    → e.limits.max_workloads ≡ some (at_most limit)
unfolding gate
gate_cache_limited now stored tenant limit db c h =
    (get_plan_limits_limited now stored tenant limit db c h).1

-- However many requests to create a workload arrive, a tenant that starts within its workload limit
-- stays within it, while the limit is a number and the same in the database and in the cache.
pub creates_within_limit :
    (tenant limit : ℕ) (rs : List (ℕ × ℕ × Bool)) (db : Db) (c : Cache)
    → IsLimited tenant limit (db, c)
    → count max_workloads tenant db ≤ limit
    → count max_workloads tenant (creates tenant rs (db, c)).0 ≤ limit
creates_within_limit tenant limit [] db c h le = le
creates_within_limit tenant limit ((now, stored, kind) ∷ rs) db c h le =
    let v = (gate max_workloads now stored (some tenant) db c).0 in
    creates_within_limit tenant limit rs (insert_if v tenant kind db)
      (gate max_workloads now stored (some tenant) db c).1
      (
        λ t. rw (insert_if-resolve v t tenant kind db) (h.0 t),
        gate_cache_limited now stored tenant limit db c h,
      )
      (insert_if-count v tenant limit kind db (gate_limited now stored tenant limit db c h) le)
