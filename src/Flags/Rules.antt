-- ===== src/Flags/Rules.antt =====
-- Targeting rules and the whole answer for a flag.
use tinai_infra.Prelude.{
  ◌≡◌, ◌≤◌, refl, ◌≢◌, true, false, none, some, List, [], ◌∷◌, ◌++◌, arith, All, or_else, ltb,
  if◌then◌else◌,
}
use tinai_infra.Flags.Scalars.{Text, bool, str}
use tinai_infra.Flags.{
  Rule, Flag, Context, matches, target, bucket, rollout, evaluate_flag, attr, user_id, any_text,
}

-- The rules before the first that matches have no say, and neither have those behind it.
pub target_first :
    (c : Context) (before after : List Rule) (r : Rule)
    → All (λ q. matches c q ≡ false) before
    → matches c r ≡ true
    → target c (before ++ r ∷ after) ≡ some (or_else r.variation (bool true))
unfolding target
target_first c [] after r miss hit = ground arith
target_first c (q ∷ before) after r (m, miss) hit =
    ground (arith, target_first c before after r miss hit)

pub target_nothing :
    (c : Context) (rs : List Rule) → All (λ q. matches c q ≡ false) rs → target c rs ≡ none
unfolding target
target_nothing c [] miss = refl
target_nothing c (q ∷ rs) (m, miss) = ground (arith, target_nothing c rs miss)

-- For an enabled flag in one of its environments that no rule matches, a user with an id is
-- answered `true` exactly by the bucket of the id, and the default otherwise.
pub evaluate_flag-bucket :
    (c : Context) (env : Text) (f : Flag) (user : Text)
    → f.enabled ≡ true
    → any_text env f.environments ≡ true
    → All (λ q. matches c q ≡ false) f.targeting
    → f.rollout_pct ≤ 100
    → attr user_id c ≡ str user
    → user ≢ []
    → evaluate_flag c env f
      ≡ some (if ltb (bucket user) f.rollout_pct then bool true else f.default_value)
unfolding evaluate_flag rollout bucket
evaluate_flag-bucket c env f user on here miss pct e ne =
    ground (arith, target_nothing c f.targeting miss)

-- A rule that matches first decides an enabled flag in its environment, whatever the rollout.
pub evaluate_flag_targeted :
    (c : Context) (env : Text) (f : Flag) (before after : List Rule) (r : Rule)
    → f.enabled ≡ true
    → any_text env f.environments ≡ true
    → f.targeting ≡ before ++ r ∷ after
    → All (λ q. matches c q ≡ false) before
    → matches c r ≡ true
    → evaluate_flag c env f ≡ some (or_else r.variation (bool true))
unfolding evaluate_flag
evaluate_flag_targeted c env f before after r on here e miss hit =
    let same : target c f.targeting ≡ some (or_else r.variation (bool true)) =
      rw e (target_first c before after r miss hit) in
    ground (arith, same)
