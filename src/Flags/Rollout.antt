-- ===== src/Flags/Rollout.antt =====
-- The percentage rollout.
use tinai_infra.Prelude.{◌≡◌, ◌≤◌, ℕ, some, true, arith}
use tinai_infra.Flags.Scalars.{Text, bool}
use tinai_infra.Flags.{Flag, Context, rollout, evaluate_flag}

-- Widening a rollout never takes a flag away: who is answered `true` stays so at any higher
-- percentage, whatever the rules, the environment and the default.
pub evaluate_flag_mono :
    (c : Context) (env : Text) (f : Flag) (wider : ℕ)
    → f.rollout_pct ≤ wider
    → evaluate_flag c env f ≡ some (bool true)
    → evaluate_flag c env (record f { rollout_pct = wider }) ≡ some (bool true)
unfolding evaluate_flag rollout
evaluate_flag_mono c env f wider le h = ground arith
