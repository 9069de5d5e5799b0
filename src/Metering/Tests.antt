-- ===== src/Metering/Tests.antt =====
-- A tick on concrete pods. Tenant 5 has two running pods, one of them with two containers.
use tinai_infra.Prelude.{
  ℕ, ◌+◌, ◌-◌, ◌*◌, ◌≡◌, refl, Bool, true, false, Option, none, some, List, [], ◌∷◌, find,
}
use tinai_infra.Metering.{
  Text, Conversions, Pod, Db, is_snapshot, run_metering_tick, cpu_of_pod, parse_cpu_millicores,
}
use tinai_infra.Metering.Totals.{tick_totals}

abbrev number : ℕ → Text → Option ℕ
number n [] = some n
number n (c ∷ cs) = number (n * 10 + (c - b'0')) cs

-- A reader of digits.
abbrev digits : Conversions
digits = record {
  trim = λ t. t;
  parse_int = λ t. elim t [ [] ↦ none | c ∷ cs ↦ number 0 (c ∷ cs) ];
  parse_thousandths = λ t. elim (number 0 t) [ none ↦ none | some n ↦ some (n * 1000) ];
}

abbrev pod : (is_running : Bool) → Option ℕ → List (Option Text) → Pod
pod is_running tenant requests = record {
  is_running = is_running;
  tenant_id = tenant;
  name = some 1;
  namespace = none;
  requests = requests;
}

abbrev pods : List (Pod × Bool)
pods =
    (pod true (some 5) (some (b'2' ∷ b'5' ∷ b'm' ∷ []) ∷ none ∷ []), true)
    ∷ (pod false (some 5) (none ∷ []), true)
    ∷ (pod true (some 6) (some (b'2' ∷ []) ∷ []), false)
    ∷ (pod true (some 5) (some (b'm' ∷ []) ∷ []), true)
    ∷ (pod true none (none ∷ []), true)
    ∷ []

abbrev db : Db
db = record { cpu_seconds_log = []; usage_snapshots = [] }

tick_totals_test :
    find (is_snapshot 5 60) (run_metering_tick digits 60 (λ t. true) (some pods) db).usage_snapshots
    ≡ some
        (record { tenant_id = 5; snapshot_at = 60; running_pods = 2; total_cpu_millicores = 225 })
unfolding run_metering_tick cpu_of_pod parse_cpu_millicores
tick_totals_test = refl

tick_totals_example :
    find (is_snapshot 6 60) (run_metering_tick digits 60 (λ t. true) (some pods) db).usage_snapshots
    ≡ some
        (record { tenant_id = 6; snapshot_at = 60; running_pods = 1; total_cpu_millicores = 2000 })
unfolding cpu_of_pod parse_cpu_millicores
tick_totals_example = tick_totals digits 60 6 (λ t. true) pods db
