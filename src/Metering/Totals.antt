-- ===== src/Metering/Totals.antt =====
-- What a tick says of each tenant.
use tinai_infra.Prelude.{
  ℕ, ◌+◌, ◌≡◌, ◌≢◌, refl, ◌∙◌, ap, subst, Bool, true, false, ◌&&◌, ◌||◌, Option, none, some, List,
  [], ◌∷◌, ◌++◌, map, arith, if◌then◌else◌, ◌==◌, ==_refl, is_some, length, find, find-append_miss,
  update_where, Bool-cases, Option-cases, inl, inr,
}
use tinai_infra.Metering.{
  Text, Conversions, parse_cpu_millicores, cpu_of_pod, Pod, Group, Snapshot, Db, meter_pods,
  is_snapshot, snapshot, upsert_snapshot, write_snapshots, run_metering_tick,
}
use tinai_infra.Metering.Groups.{
  IsUnique, pods_in, cpu_in, count_pods, sum_cpu, has_pod, has_group, meter_pods_groups,
}

find-replaced :
    (p : Snapshot → Bool) (r : Snapshot) (rows : List Snapshot)
    → p r ≡ true
    → is_some (find p rows) ≡ true
    → find p (update_where p (λ _. r) rows) ≡ some r
find-replaced p r [] e h = ground arith
find-replaced p r (x ∷ rows) e h = ground (arith, find-replaced p r rows e)

find-replaced_apart :
    (p q : Snapshot → Bool) (r : Snapshot) (rows : List Snapshot)
    → p r ≡ false
    → ((a : Snapshot) → q a ≡ true → p a ≡ false)
    → find p (update_where q (λ _. r) rows) ≡ find p rows
find-replaced_apart p q r [] e apart = refl
find-replaced_apart p q r (x ∷ rows) e apart =
    ground (arith, apart x, find-replaced_apart p q r rows e apart)

find-append_apart :
    (p : Snapshot → Bool) (r : Snapshot) (rows : List Snapshot)
    → p r ≡ false
    → find p (rows ++ r ∷ []) ≡ find p rows
find-append_apart p r [] e = ground arith
find-append_apart p r (x ∷ rows) e = ground (arith, find-append_apart p r rows e)

upsert_snapshot_found :
    (r : Snapshot) (rows : List Snapshot)
    → find (is_snapshot r.tenant_id r.snapshot_at) (upsert_snapshot r rows) ≡ some r
upsert_snapshot_found r rows =
    let self : is_snapshot r.tenant_id r.snapshot_at r ≡ true =
      rw (==_refl r.tenant_id, ==_refl r.snapshot_at) refl in
    elim (Option-cases (find (is_snapshot r.tenant_id r.snapshot_at) rows)) [
      | inl miss ↦ rw miss (
          find-append_miss (is_snapshot r.tenant_id r.snapshot_at) rows (r ∷ []) miss
          ∙ rw self refl)
      | inr (x, hit) ↦ rw hit (
          find-replaced (is_snapshot r.tenant_id r.snapshot_at) r rows self
            (ap (λ o. is_some o) hit))
    ]

upsert_snapshot_apart :
    (t now : ℕ) (r : Snapshot) (rows : List Snapshot)
    → r.tenant_id ≢ t
    → find (is_snapshot t now) (upsert_snapshot r rows) ≡ find (is_snapshot t now) rows
upsert_snapshot_apart t now r rows ne =
    elim (Bool-cases (is_some (find (is_snapshot r.tenant_id r.snapshot_at) rows))) [
      | inl e ↦ rw e (
          find-replaced_apart (is_snapshot t now) (is_snapshot r.tenant_id r.snapshot_at) r rows
            (ground arith) (λ a h. ground arith))
      | inr e ↦ rw e (find-append_apart (is_snapshot t now) r rows (ground arith))
    ]

abbrev total : (t now pods cpu : ℕ) → Snapshot
total t now pods cpu = record {
  tenant_id = t;
  snapshot_at = now;
  running_pods = pods;
  total_cpu_millicores = cpu;
}

abbrev expected : (t now pods cpu : ℕ) → Bool → Option Snapshot → Option Snapshot
expected t now pods cpu b old = if b then some (total t now pods cpu) else old

-- The rows after the first group's upsert.
abbrev after_group : (now : ℕ) → (is_taken : ℕ → Bool) → Group → List Snapshot → List Snapshot
after_group now is_taken g rows =
    if is_taken g.tenant_id then upsert_snapshot (snapshot now g) rows else rows

after_group_found :
    (now : ℕ) (is_taken : ℕ → Bool) (g : Group) (rows : List Snapshot)
    → find (is_snapshot g.tenant_id now) (after_group now is_taken g rows)
      ≡ expected g.tenant_id now
          (length g.pods)
          g.total_cpu
          (is_taken g.tenant_id)
          (find (is_snapshot g.tenant_id now) rows)
after_group_found now is_taken g rows = elim (Bool-cases (is_taken g.tenant_id)) [
  | inl e ↦ rw e (upsert_snapshot_found (snapshot now g) rows)
  | inr e ↦ rw e refl
]

after_group_apart :
    (now t : ℕ) (is_taken : ℕ → Bool) (g : Group) (rows : List Snapshot)
    → g.tenant_id ≢ t
    → find (is_snapshot t now) (after_group now is_taken g rows) ≡ find (is_snapshot t now) rows
after_group_apart now t is_taken g rows ne = elim (Bool-cases (is_taken g.tenant_id)) [
  | inl e ↦ rw e (upsert_snapshot_apart t now (snapshot now g) rows ne)
  | inr e ↦ rw e refl
]

find-write_snapshots :
    (now t : ℕ) (is_taken : ℕ → Bool) (gs : List Group) (rows : List Snapshot)
    → IsUnique gs
    → find (is_snapshot t now) (write_snapshots now is_taken gs rows)
      ≡ expected t now
          (pods_in t gs)
          (cpu_in t gs)
          (has_group t gs && is_taken t)
          (find (is_snapshot t now) rows)
find-write_snapshots now t is_taken [] rows h = refl
find-write_snapshots now t is_taken (g ∷ gs) rows (new, h) =
    let rows' = after_group now is_taken g rows in
    elim (Bool-cases (g.tenant_id == t)) [
      | inl same ↦
          let at : g.tenant_id ≡ t = ground arith in
          let missing : has_group g.tenant_id gs ≡ false = ap (λ o. is_some o) new in
          let last : find (is_snapshot g.tenant_id now) (write_snapshots now is_taken gs rows')
              ≡ find (is_snapshot g.tenant_id now) rows' =
            find-write_snapshots now g.tenant_id is_taken gs rows' h
            ∙ ap
                (λ b.
                  expected g.tenant_id now (pods_in g.tenant_id gs) (cpu_in g.tenant_id gs)
                    (b && is_taken g.tenant_id) (find (is_snapshot g.tenant_id now) rows'))
                missing in
          rw same (
            subst
              (λ t.
                find (is_snapshot t now) (write_snapshots now is_taken gs rows')
                ≡ expected t now (length g.pods) g.total_cpu (is_taken t)
                    (find (is_snapshot t now) rows))
              at (last ∙ after_group_found now is_taken g rows))
      | inr apart ↦ rw apart (
          find-write_snapshots now t is_taken gs rows' h
          ∙ ap (expected t now (pods_in t gs) (cpu_in t gs) (has_group t gs && is_taken t))
              (after_group_apart now t is_taken g rows (λ same. ground arith)))
    ]

-- The pods that run with the tenant's label.
abbrev pub is_labelled : (tenant : ℕ) → Option ℕ → Bool
is_labelled t none = false
is_labelled t (some label) = label == t

abbrev pub running_pods_of : (tenant : ℕ) → List (Pod × Bool) → List Pod
running_pods_of t [] = []
running_pods_of t ((p, b) ∷ ps) =
    if p.is_running && is_labelled t p.tenant_id
    then p ∷ running_pods_of t ps
    else running_pods_of t ps

-- The requests of all containers of some pods, and a sum.
abbrev pub requests_of : List Pod → List (Option Text)
requests_of [] = []
requests_of (p ∷ ps) = p.requests ++ requests_of ps

abbrev pub sum_of : List ℕ → ℕ
sum_of [] = 0
sum_of (n ∷ ns) = n + sum_of ns

abbrev pub is_any : List Pod → Bool
is_any [] = false
is_any (p ∷ ps) = true

count_pods_lem : (t : ℕ) (ps : List (Pod × Bool)) → count_pods t ps ≡ length (running_pods_of t ps)
count_pods_lem t [] = refl
count_pods_lem t ((p, b) ∷ ps) = ground (arith, count_pods_lem t ps)

has_pod_lem : (t : ℕ) (ps : List (Pod × Bool)) → has_pod t ps ≡ is_any (running_pods_of t ps)
has_pod_lem t [] = refl
has_pod_lem t ((p, b) ∷ ps) = ground (arith, has_pod_lem t ps)

module _ (js : Conversions) where
  cpu_of_pod-append :
      (qs : List (Option Text)) (ps : List Pod)
      → sum_of (map (parse_cpu_millicores js) (qs ++ requests_of ps))
        ≡ cpu_of_pod js qs + sum_of (map (parse_cpu_millicores js) (requests_of ps))
  unfolding cpu_of_pod
  cpu_of_pod-append [] ps = omega arith
  cpu_of_pod-append (q ∷ qs) ps = omega (arith, cpu_of_pod-append qs ps)

  sum_cpu_lem :
      (t : ℕ) (ps : List (Pod × Bool))
      → sum_cpu js t ps
        ≡ sum_of (map (parse_cpu_millicores js) (requests_of (running_pods_of t ps)))
  sum_cpu_lem t [] = refl
  sum_cpu_lem t ((p, b) ∷ ps) =
      ground (arith, cpu_of_pod-append p.requests (running_pods_of t ps), sum_cpu_lem t ps)

  -- After a tick, the snapshot of a tenant at its time has the number of the pods that run with the
  -- tenant's label and the sum of what all their containers request, each request as
  -- `parseCpuMillicores` reads it, if there is such a pod and the upsert is taken; otherwise it is what
  -- it was.
  pub tick_totals :
      (now t : ℕ) (is_taken : ℕ → Bool) (ps : List (Pod × Bool)) (db : Db)
      → find (is_snapshot t now) (run_metering_tick js now is_taken (some ps) db).usage_snapshots
        ≡ (if is_any (running_pods_of t ps) && is_taken t
            then some (record {
              tenant_id = t;
              snapshot_at = now;
              running_pods = length (running_pods_of t ps);
              total_cpu_millicores =
                  sum_of (map (parse_cpu_millicores js) (requests_of (running_pods_of t ps)));
            })
            else find (is_snapshot t now) db.usage_snapshots)
  unfolding run_metering_tick
  tick_totals now t is_taken ps db =
      let (unique, pods, cpu, known) = meter_pods_groups js now t ps db.cpu_seconds_log [] tt in
      let gs = (meter_pods js now ps (db.cpu_seconds_log, [])).1 in
      let old = find (is_snapshot t now) db.usage_snapshots in
      let n = length (running_pods_of t ps) in
      let all : pods_in t gs ≡ n = omega (arith, pods, count_pods_lem t ps) in
      let sum : cpu_in t gs
          ≡ sum_of (map (parse_cpu_millicores js) (requests_of (running_pods_of t ps))) =
        omega (arith, cpu, sum_cpu_lem t ps) in
      let has : has_group t gs ≡ is_any (running_pods_of t ps) =
        known ∙ or_nothing (has_pod t ps) ∙ has_pod_lem t ps in
      find-write_snapshots now t is_taken gs db.usage_snapshots unique
      ∙ ap (λ n. expected t now n (cpu_in t gs) (has_group t gs && is_taken t) old) all
      ∙ ap (λ c. expected t now n c (has_group t gs && is_taken t) old) sum
      ∙ ap
          (λ b.
            expected t now n
              (sum_of (map (parse_cpu_millicores js) (requests_of (running_pods_of t ps))))
              (b && is_taken t) old)
          has
    where
      or_nothing : (b : Bool) → (b || false) ≡ b
      or_nothing true = refl
      or_nothing false = refl
