-- ===== src/Plans/Gate/Freshness.antt =====
-- How old the limits are that the gate decides by.
use tinai_infra.Prelude.{
  ℕ, ◌+◌, ◌≤◌, ◌≡◌, ap, ◌∙◌, if◌then◌else◌, refl, inl, inr, true, false, Option, none, some, arith,
  ◌==◌, ltb, ◌↔◌, Option-cases, Bool-cases,
}
use tinai_infra.Plans.{Limit, Limits, Db, resolve}
use tinai_infra.Plans.Gate.Entitled.{
  entitled, held, HasRoom, resolve-entitled, count-held, is_exceeded-HasRoom,
}
use tinai_infra.Plans.Gate.{
  cache_ttl_ms, CacheEntry, Cache, put, get_cache, set_cache, fill, get_plan_limits, LimitKey,
  limit_at, count, is_exceeded, exceeded, admitted, gate,
}

-- What the database said at time `asked`, put into the cache at `kept`.
abbrev pub Answered : (ℕ → Db) → ℕ → ℕ × Limits → (asked kept : ℕ) → Type 0
Answered dbs tenant r asked kept = (asked ≤ kept) × (r ≡ resolve asked tenant (dbs asked))

-- Every entry of the cache is an answer that the database gave, with its time to live. `dbs` is the
-- database at each time.
abbrev pub IsFresh : (ℕ → Db) → Cache → Type 0
IsFresh dbs c =
    (tenant : ℕ) (e : CacheEntry)
    → c tenant ≡ some e
    → (asked : ℕ) × (kept : ℕ) × (e.expires_at ≡ kept + cache_ttl_ms)
      × Answered dbs tenant (e.plan_id, e.limits) asked kept

put-none-IsFresh :
    (dbs : ℕ → Db) (c : Cache) (tenant : ℕ) → IsFresh dbs c → IsFresh dbs (put tenant none c)
put-none-IsFresh dbs c tenant fresh t e h = fresh t e (ground arith)

put_some-IsFresh :
    (dbs : ℕ → Db) (c : Cache) (tenant asked kept : ℕ)
    → asked ≤ kept
    → IsFresh dbs c
    → let (plan_id, limits) = resolve asked tenant (dbs asked) in
      IsFresh dbs (set_cache kept tenant plan_id limits c)
unfolding set_cache
put_some-IsFresh dbs c tenant asked kept le fresh t e h = elim (Bool-cases (t == tenant)) [
  | inl same ↦
      let same_tenant : t ≡ tenant = ground arith in
      let new : some (record {
        limits = (resolve asked tenant (dbs asked)).1;
        plan_id = (resolve asked tenant (dbs asked)).0;
        expires_at = kept + cache_ttl_ms;
      })
          ≡ some e =
        rw same at h in
      (asked, kept, ground arith, (le, rw same_tenant (ground arith)))
  | inr other ↦ fresh t e (ground arith)
]

-- The three ways in which `getCache` ends.
get_cache-none : (now tenant : ℕ) (c : Cache) → c tenant ≡ none → get_cache now tenant c ≡ (none, c)
unfolding get_cache
get_cache-none now tenant c e = rw (e, get_cache)

get_cache_old :
    (now tenant : ℕ) (c : Cache) (x : CacheEntry)
    → c tenant ≡ some x
    → ltb x.expires_at now ≡ true
    → get_cache now tenant c ≡ (none, put tenant none c)
unfolding get_cache
get_cache_old now tenant c x e old = rw (e, get_cache) (rw old)

get_cache_young :
    (now tenant : ℕ) (c : Cache) (x : CacheEntry)
    → c tenant ≡ some x
    → ltb x.expires_at now ≡ false
    → get_cache now tenant c ≡ (some x, c)
unfolding get_cache
get_cache_young now tenant c x e young = rw (e, get_cache) (rw young)

-- A cached answer that may be used at `now`, and a cache of such answers.
abbrev HitIsFresh : (ℕ → Db) → (now tenant : ℕ) → Option CacheEntry × Cache → Type 0
HitIsFresh dbs now tenant (none, c) = IsFresh dbs c
HitIsFresh dbs now tenant (some e, c) =
    ((asked : ℕ) × (kept : ℕ) × (now ≤ kept + cache_ttl_ms)
      × Answered dbs tenant (e.plan_id, e.limits) asked kept)
    × IsFresh dbs c

get_cache-HitIsFresh :
    (dbs : ℕ → Db) (c : Cache) (now tenant : ℕ)
    → IsFresh dbs c
    → HitIsFresh dbs now tenant (get_cache now tenant c)
get_cache-HitIsFresh dbs c now tenant fresh = elim (Option-cases (c tenant)) [
  | inl e ↦ rw (get_cache-none now tenant c e) fresh
  | inr (x, e) ↦ elim (Bool-cases (ltb x.expires_at now)) [
    | inl old ↦ rw (get_cache_old now tenant c x e old) (put-none-IsFresh dbs c tenant fresh)
    | inr young ↦
        let (asked, kept, at, answered) = fresh tenant x e in
        rw (get_cache_young now tenant c x e young) ((asked, kept, ground arith, answered), fresh)
  ]
]

-- The limits that `getPlanLimits` returns are an answer of the database that entered the cache no
-- more than 60 seconds ago; and the cache stays made of such answers.
fill-IsFresh :
    (dbs : ℕ → Db) (now stored tenant : ℕ) (hit : Option CacheEntry × Cache)
    → now ≤ stored
    → HitIsFresh dbs now tenant hit
    → let (r, c') = fill now stored tenant (dbs now) hit in
      ((asked : ℕ) × (kept : ℕ) × (now ≤ kept + cache_ttl_ms) × Answered dbs tenant r asked kept)
      × IsFresh dbs c'
unfolding fill
fill-IsFresh dbs now stored tenant (some e, c) le fresh = fresh
fill-IsFresh dbs now stored tenant (none, c) le fresh =
    ((now, stored, omega arith, (le, refl)), put_some-IsFresh dbs c tenant now stored le fresh)

get_plan_limits-IsFresh :
    (dbs : ℕ → Db) (c : Cache) (now stored tenant : ℕ)
    → IsFresh dbs c
    → now ≤ stored
    → let (r, c') = get_plan_limits now stored tenant (dbs now) c in
      ((asked : ℕ) × (kept : ℕ) × (now ≤ kept + cache_ttl_ms) × Answered dbs tenant r asked kept)
      × IsFresh dbs c'
unfolding get_plan_limits
get_plan_limits-IsFresh dbs c now stored tenant fresh le =
    fill-IsFresh dbs now stored tenant (get_cache now tenant c) le
      (get_cache-HitIsFresh dbs c now tenant fresh)

admits :
    (rows held_rows plan_id : ℕ) (l m : Option Limit)
    → rows ≡ held_rows
    → l ≡ m
    → ((if is_exceeded rows l then exceeded rows plan_id l else admitted) ≡ admitted)
      ↔ HasRoom m held_rows
admits rows held_rows plan_id l m same at =
    let (there, back) = is_exceeded-HasRoom held_rows m in
    rw (same, at) (λ k. there (ground arith), λ h. let e = back h in ground arith)

-- With a cache made of the database's answers, the gate admits a request exactly when the tenant has
-- room for one more row. The rows are those that it has now; the limit is what the tenant was entitled
-- to at a time when the database was asked, and that answer was cached at most 60 seconds ago. The
-- cache stays made of such answers.
pub gate_decides :
    (dbs : ℕ → Db) (c : Cache) (key : LimitKey) (now stored tenant : ℕ)
    → IsFresh dbs c
    → now ≤ stored
    → let (verdict, c') = gate key now stored (some tenant) (dbs now) c in
      ((asked : ℕ) × (kept : ℕ) × (asked ≤ kept)
        × (now ≤ kept + cache_ttl_ms)
        × ((verdict ≡ admitted)
            ↔ HasRoom (entitled key asked tenant (dbs asked)) (held key tenant (dbs now))))
      × IsFresh dbs c'
unfolding gate
gate_decides dbs c key now stored tenant fresh le =
    let ((asked, kept, young, (before, same)), fresh') =
      get_plan_limits-IsFresh dbs c now stored tenant fresh le in
    let r = (get_plan_limits now stored tenant (dbs now) c).0 in
    let limit : limit_at key r.1 ≡ entitled key asked tenant (dbs asked) =
      ap (λ (r : ℕ × Limits). limit_at key r.1) same
      ∙ resolve-entitled key asked tenant (dbs asked) in
    (
      (
        asked,
        kept,
        before,
        young,
        admits (count key tenant (dbs now)) (held key tenant (dbs now)) r.0 (limit_at key r.1)
            (entitled key asked tenant (dbs asked)) (count-held key tenant (dbs now)) limit,
      ),
      fresh',
    )
