-- ===== src/Metering.antt =====
-- Usage metering: jobs/usageMetering.ts of platform/services/tinai-api, one tick. Tenants, pod names
-- and namespaces are numbers; an empty tenant label, which the code takes for a missing one, is none.
-- All statements of a tick have one time.
pub mod Groups
pub mod Totals
mod Tests
use tinai_infra.Prelude.{
  ℕ, ◌+◌, ◌*◌, Bool, true, false, ◌&&◌, Option, none, some, List, [], ◌∷◌, ◌++◌, if◌then◌else◌,
  ◌==◌, or_else, is_some, length, find, update_where,
}

-- The characters of a CPU quantity.
abbrev pub Text : Type 0
Text = List ℕ

-- What the code takes from JavaScript's strings and numbers: `trim`, `parseInt` in base ten, and
-- `Math.round(parseFloat(…) * 1000)`, where none stands for NaN.
pub record Conversions : Type 0 where
  pub trim : Text → Text
  pub parse_int : Text → Option ℕ
  pub parse_thousandths : Text → Option ℕ

-- The text without a last `m`, where it ends with one.
abbrev pub before_m : Text → Option Text
before_m [] = none
before_m (c ∷ []) = if c == b'm' then some [] else none
before_m (c ∷ d ∷ cs) = elim (before_m (d ∷ cs)) [ none ↦ none | some t ↦ some (c ∷ t) ]

-- A pod: whether its phase is `Running`, its label and names, and the CPU request of each container.
pub record Pod : Type 0 where
  pub is_running : Bool
  pub tenant_id : Option ℕ
  pub name : Option ℕ
  pub namespace : Option ℕ
  pub requests : List (Option Text)

pub record LogRow : Type 0 where
  pub tenant_id : ℕ
  pub pod_name : ℕ
  pub namespace : ℕ
  pub cpu_millicores : ℕ
  pub recorded_at : ℕ

pub record Snapshot : Type 0 where
  pub tenant_id : ℕ
  pub snapshot_at : ℕ
  pub running_pods : ℕ
  pub total_cpu_millicores : ℕ

pub record Db : Type 0 where
  pub cpu_seconds_log : List LogRow
  pub usage_snapshots : List Snapshot

-- An entry of `tenantMap`.
pub record Group : Type 0 where
  pub tenant_id : ℕ
  pub pods : List ℕ
  pub total_cpu : ℕ

-- `'unknown'`, and TENANT_NAMESPACE.
abbrev pub unknown_name : ℕ
unknown_name = 0

abbrev pub tenant_namespace : ℕ
tenant_namespace = 0

module _ (js : Conversions) where
  abbrev pub parse_trimmed : Text → ℕ
  parse_trimmed t = elim (before_m t) [
    | some number ↦ or_else (js.parse_int number) 100
    | none ↦ or_else (js.parse_thousandths t) 100
  ]

  -- `parseCpuMillicores`; an empty text counts as missing.
  unfoldable pub parse_cpu_millicores : Option Text → ℕ
  parse_cpu_millicores none = 100
  parse_cpu_millicores (some []) = 100
  parse_cpu_millicores (some (c ∷ cs)) = parse_trimmed (js.trim (c ∷ cs))

  -- The sum over the containers.
  unfoldable pub cpu_of_pod : List (Option Text) → ℕ
  cpu_of_pod [] = 0
  cpu_of_pod (q ∷ qs) = parse_cpu_millicores q + cpu_of_pod qs

abbrev pub is_group : ℕ → Group → Bool
is_group t g = g.tenant_id == t

-- `tenantMap.get` and `set`
abbrev pub accumulate : (tenant name cpu : ℕ) → List Group → List Group
accumulate t name cpu [] = record { tenant_id = t; pods = name ∷ []; total_cpu = cpu } ∷ []
accumulate t name cpu (g ∷ gs) =
    if g.tenant_id == t
    then record g { pods = g.pods ++ name ∷ []; total_cpu = g.total_cpu + cpu } ∷ gs
    else g ∷ accumulate t name cpu gs

-- The tenant of a pod that counts.
abbrev pub metered : Pod → Option ℕ
metered p = if p.is_running then p.tenant_id else none

module _ (js : Conversions) where
  abbrev pub log_row : (now tenant : ℕ) → Pod → LogRow
  log_row now t p = record {
    tenant_id = t;
    pod_name = or_else p.name unknown_name;
    namespace = or_else p.namespace tenant_namespace;
    cpu_millicores = cpu_of_pod js p.requests;
    recorded_at = now;
  }

-- An insert that fails is only logged.
abbrev pub insert_log : Bool → LogRow → List LogRow → List LogRow
insert_log true r rows = rows ++ r ∷ []
insert_log false r rows = rows

module _ (js : Conversions) where
  abbrev pub meter_pod :
      (now : ℕ)
      → Option ℕ
      → Pod
      → (is_logged : Bool) → List LogRow × List Group
      → List LogRow × List Group
  meter_pod now none p is_logged (rows, gs) = (rows, gs)
  meter_pod now (some t) p is_logged (rows, gs) = (
    insert_log is_logged (log_row js now t p) rows,
    accumulate t (or_else p.name unknown_name) (cpu_of_pod js p.requests) gs,
  )

  -- The loop over the pods, each with whether its insert is taken.
  abbrev pub meter_pods :
      (now : ℕ) → List (Pod × Bool) → List LogRow × List Group → List LogRow × List Group
  meter_pods now [] s = s
  meter_pods now ((p, is_logged) ∷ ps) s =
      meter_pods now ps (meter_pod now (metered p) p is_logged s)

abbrev pub is_snapshot : (tenant at : ℕ) → Snapshot → Bool
is_snapshot t at r = r.tenant_id == t && r.snapshot_at == at

abbrev pub snapshot : (now : ℕ) → Group → Snapshot
snapshot now g = record {
  tenant_id = g.tenant_id;
  snapshot_at = now;
  running_pods = length g.pods;
  total_cpu_millicores = g.total_cpu;
}

-- `ON CONFLICT (tenant_id, snapshot_at) DO UPDATE`
abbrev pub upsert_snapshot : Snapshot → List Snapshot → List Snapshot
upsert_snapshot r rows =
    if is_some (find (is_snapshot r.tenant_id r.snapshot_at) rows)
    then update_where (is_snapshot r.tenant_id r.snapshot_at) (λ _. r) rows
    else rows ++ r ∷ []

-- The upserts, where `is_taken` tells those that do not fail.
abbrev pub write_snapshots :
    (now : ℕ) → (is_taken : ℕ → Bool) → List Group → List Snapshot → List Snapshot
write_snapshots now is_taken [] rows = rows
write_snapshots now is_taken (g ∷ gs) rows =
    write_snapshots now is_taken gs
      (if is_taken g.tenant_id then upsert_snapshot (snapshot now g) rows else rows)

module _ (js : Conversions) where
  -- `runMeteringTick`; a list of pods that fails is none.
  unfoldable pub run_metering_tick :
      (now : ℕ) → (is_taken : ℕ → Bool) → Option (List (Pod × Bool)) → Db → Db
  run_metering_tick now is_taken none db = db
  run_metering_tick now is_taken (some ps) db =
      let (rows, gs) = meter_pods js now ps (db.cpu_seconds_log, []) in
      record {
        cpu_seconds_log = rows;
        usage_snapshots = write_snapshots now is_taken gs db.usage_snapshots;
      }
