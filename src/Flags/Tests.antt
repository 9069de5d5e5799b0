-- ===== src/Flags/Tests.antt =====
-- Flags on concrete inputs: a rollout of 30 percent with one rule.
use tinai_infra.Prelude.{
  ◌≡◌, ◌⊎◌, refl, true, false, none, some, [], ◌∷◌, arith, find, send, select, if◌then◌else◌, ltb,
}
use tinai_infra.Flags.Scalars.{
  Text, text_eq, undef, object, bool, num, str, null, includes, to_text,
}
use tinai_infra.Flags.{
  Rule, contains, Flag, Context, Store, Patch, disabled, is_flag, patched, matches, target, bucket,
  rollout, evaluate_flag, evaluate, is_requested, update_flag,
}
use tinai_infra.Flags.Rollout.{evaluate_flag_mono}
use tinai_infra.Flags.Rules.{evaluate_flag-bucket, evaluate_flag_targeted}
use tinai_infra.Flags.Answers.{key_is, evaluate_answers}
use tinai_infra.Flags.Updates.{update_flag_stores, update_flag_isolated}

abbrev prod : Text
prod = b'p' ∷ []

-- `{ userId: "ab" }`: the codes 97 and 98 add up to 195, which falls into bucket 95.
abbrev visitor : Context
visitor = record {
  own =
      (b'u' ∷ b's' ∷ b'e' ∷ b'r' ∷ b'I' ∷ b'd' ∷ [], str (b'a' ∷ b'b' ∷ []))
      ∷ (b'm' ∷ [], num 142)
      ∷ [];
  inherited = λ name. if text_eq name (b'c' ∷ []) then object 0 [] else undef;
}

-- `m contains 42`
abbrev rule : Rule
rule = record {
  attribute = b'm' ∷ [];
  operator = contains;
  value = num 42;
  values = none;
  variation = some (num 7);
}

abbrev flag : Flag
flag = record {
  id = 1;
  tenant_id = 5;
  project_id = 6;
  key = b'k' ∷ [];
  default_value = bool false;
  enabled = true;
  environments = prod ∷ [];
  rollout_pct = 96;
  targeting = [];
}

flags_run : Unit {0}
unfolding evaluate evaluate_flag target matches rollout bucket includes to_text
flags_run = tt

-- A key that every object inherits, here `c`, is not answered.
inherited_key : evaluate 5 6 ((b'c' ∷ []) ∷ []) visitor prod (flag ∷ []) ≡ some []
unfolding flags_run
inherited_key = refl

rule_hits : target visitor (rule ∷ []) ≡ some (num 7)
unfolding flags_run
rule_hits = refl

unasked_flag :
    evaluate 5 6
      ((b'k' ∷ []) ∷ (b'z' ∷ []) ∷ [])
      visitor
      prod
      (flag ∷ record flag { tenant_id = 4 } ∷ [])
    ≡ some ((b'z' ∷ [], null) ∷ (b'k' ∷ [], bool true) ∷ [])
unfolding flags_run
unasked_flag = refl

evaluate_flag_mono_example :
    evaluate_flag visitor prod (record flag { rollout_pct = 98 }) ≡ some (bool true)
unfolding flags_run
evaluate_flag_mono_example = evaluate_flag_mono visitor prod flag 98 (omega arith) refl

evaluate_flag-bucket_test :
    evaluate_flag visitor prod flag
    ≡ some (if ltb (bucket (b'a' ∷ b'b' ∷ [])) 96 then bool true else bool false)
evaluate_flag-bucket_test =
    evaluate_flag-bucket visitor prod flag (b'a' ∷ b'b' ∷ []) refl refl tt (omega arith) refl
      (λ e. ground arith)

evaluate_flag_targeted_test :
    evaluate_flag visitor prod (record flag { targeting = rule ∷ [] }) ≡ some (num 7)
unfolding flags_run
evaluate_flag_targeted_test =
    evaluate_flag_targeted visitor prod (record flag { targeting = rule ∷ [] }) [] [] rule refl refl
      refl tt refl

evaluate_answers_example :
    let rows = select (is_requested 5 6 ((b'k' ∷ []) ∷ [])) (flag ∷ []) in
    ((find (key_is (b'k' ∷ [])) rows ≡ none) × (some (bool true) ≡ some null))
    ⊎ ((f : Flag) × (find (key_is (b'k' ∷ [])) rows ≡ some f)
        × (some (bool true) ≡ evaluate_flag visitor prod f))
unfolding flags_run
evaluate_answers_example =
    evaluate_answers 5 6 ((b'k' ∷ []) ∷ []) visitor prod (flag ∷ []) ((b'k' ∷ [], bool true) ∷ [])
      (b'k' ∷ []) (refl, tt) refl refl refl

abbrev off : Patch
off = record {
  enabled = some false;
  rollout_pct = none;
  targeting = none;
  default_value = none;
  environments = none;
}

abbrev store : Store
store = record { flags = flag ∷ []; history = [] }

stored_update :
    let (reply, s') = update_flag 5 9 1 off store in
    (reply ≡ send 200 (patched off flag))
    × (find (is_flag 1 5) s'.flags ≡ some (patched off flag))
    × (s'.history
        ≡ record {
          flag_id = 1;
          actor_id = 9;
          action = disabled;
          old_value = some flag;
          new_value = patched off flag;
        }
          ∷ [])
stored_update = update_flag_stores 5 9 1 off store flag refl refl

other_tenant :
    find (is_flag 1 5) (update_flag 4 9 1 off store).1.flags ≡ find (is_flag 1 5) store.flags
other_tenant = update_flag_isolated 4 9 1 off store 5 1 (omega arith)
