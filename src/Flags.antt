-- ===== src/Flags.antt =====
-- Feature flags: platform/services/tinai-api/src/routes/featureFlags.ts. `Flags.Scalars` has the JSON
-- scalars that rules compare; here are the evaluation of flags and the routes that change them.
pub mod Scalars
pub mod Rollout
pub mod Rules
pub mod Answers
pub mod Updates
mod Tests
use tinai_infra.Flags.Scalars.{
  Text, text_eq, Value, undef, null, bool, num, str, is_truthy, same_value, to_text, includes,
}
use tinai_infra.Prelude.{
  ℕ, ◌+◌, ◌-◌, ◌/◌, ◌%◌, Bool, true, false, not, ◌&&◌, ◌||◌, Option, none, some, List, [], ◌∷◌,
  ◌++◌, if◌then◌else◌, ◌==◌, ltb, leb, or_else, is_some, find, select, update_where, delete_where,
  Reply, send, fail, require, require_row, pass, commit, ◌>>=◌, ◌>>◌,
}

pub data Operator : Type 0 where
  equals contains member_of other : Operator

-- A targeting rule. Where the rule's value is an array, `values` has its elements and `value` is
-- the array's conversion to a string.
pub record Rule : Type 0 where
  pub attribute : Text
  pub operator : Operator
  pub value : Value
  pub values : Option (List Value)
  pub variation : Option Value

pub record Flag : Type 0 where
  pub id : ℕ
  pub tenant_id : ℕ
  pub project_id : ℕ
  pub key : Text
  pub default_value : Value
  pub enabled : Bool
  pub environments : List Text
  pub rollout_pct : ℕ
  pub targeting : List Rule

-- The context of a request: its attributes, and what every object inherits from `Object.prototype`
-- under a name, such as `constructor`; undef stands for nothing.
pub record Context : Type 0 where
  pub own : List (Text × Value)
  pub inherited : Text → Value

abbrev pub attr_in : (name : Text) → List (Text × Value) → Value → Value
attr_in name [] rest = rest
attr_in name ((k, v) ∷ c) rest = if text_eq k name then v else attr_in name c rest

-- `context[name]`
abbrev pub attr : Text → Context → Value
attr name c = attr_in name c.own (c.inherited name)

abbrev pub is_undef : Value → Bool
is_undef undef = true
is_undef _ = false

abbrev pub any_same : Value → List Value → Bool
any_same v [] = false
any_same v (w ∷ ws) = same_value w v || any_same v ws

abbrev pub in_values : Value → Option (List Value) → Bool
in_values v none = false
in_values v (some ws) = any_same v ws

-- The `switch` on the rule's operator.
abbrev pub operator_holds : Operator → Value → Rule → Bool
operator_holds equals v r = not (is_some r.values) && same_value v r.value
operator_holds contains v r = includes (to_text r.value) (to_text v)
operator_holds member_of v r = in_values v r.values
operator_holds other v r = false

-- A falsy attribute skips the rule.
unfoldable pub matches : Context → Rule → Bool
matches c r = is_truthy (attr r.attribute c) && operator_holds r.operator (attr r.attribute c) r

-- The loop over the rules, up to the first that matches.
unfoldable pub target : Context → List Rule → Option Value
target c [] = none
target c (r ∷ rs) = if matches c r then some (or_else r.variation (bool true)) else target c rs

-- `c.charCodeAt(0)` of a code point: its first UTF-16 unit.
abbrev pub char_code : ℕ → ℕ
char_code c = if ltb c 0x10000 then c else 0xd800 + (c - 0x10000) / 0x400

abbrev pub sum_codes : ℕ → Text → ℕ
sum_codes a [] = a
sum_codes a (c ∷ cs) = sum_codes (a + char_code c) cs

unfoldable pub bucket : Text → ℕ
bucket user = sum_codes 0 user % 100

-- `[...context.userId]` throws for a number, a Boolean or an object; `none` stands for the exception.
-- (An array would be taken for its elements.)
unfoldable pub rollout : Flag → Value → Option Value
unfolding bucket
rollout f user =
    if ltb f.rollout_pct 100 && is_truthy user
    then elim user [
      | str u ↦ some (if ltb (bucket u) f.rollout_pct then bool true else f.default_value)
      | _ ↦ none
    ]
    else some (if leb 100 f.rollout_pct then bool true else f.default_value)

abbrev pub any_text : Text → List Text → Bool
any_text t [] = false
any_text t (u ∷ us) = text_eq u t || any_text t us

abbrev pub user_id : Text
user_id = b'u' ∷ b's' ∷ b'e' ∷ b'r' ∷ b'I' ∷ b'd' ∷ []

-- The body of the loop for one flag: the value written for its key.
unfoldable pub evaluate_flag : Context → Text → Flag → Option Value
evaluate_flag c env f =
    if not f.enabled || not (any_text env f.environments)
    then some f.default_value
    else elim (target c f.targeting) [ some v ↦ some v | none ↦ rollout f (attr user_id c) ]

-- `result`, an object written key by key.
abbrev pub Result : Type 0
Result = List (Text × Value)

abbrev pub get : Text → Result → Option Value
get k [] = none
get k ((j, v) ∷ r) = if text_eq j k then some v else get k r

abbrev pub put : Text → Value → Result → Result
put k v r = (k, v) ∷ r

pub evaluate_rows : Context → Text → List Flag → Result → Option Result
evaluate_rows c env [] r = some r
evaluate_rows c env (f ∷ fs) r = elim (evaluate_flag c env f) [
  | none ↦ none
  | some v ↦ evaluate_rows c env fs (put f.key v r)
]

-- `for (const key of requestedFlags) if (!(key in result)) result[key] = null`; a key that `result`
-- inherits is in it.
pub fill_missing : (inherited : Text → Value) → List Text → Result → Result
fill_missing inherited [] r = r
fill_missing inherited (k ∷ ks) r =
    fill_missing inherited ks
      (if is_some (get k r) || not (is_undef (inherited k)) then r else put k null r)

abbrev pub is_requested : (tenant project : ℕ) → List Text → Flag → Bool
is_requested tenant project keys f =
    f.tenant_id == tenant && f.project_id == project && any_text f.key keys

-- POST /projects/:projectId/flags/evaluate; `none` where the handler throws. (A flag with the key
-- `__proto__` would be no member of the result.)
unfoldable pub evaluate :
    (tenant project : ℕ) → List Text → Context → Text → List Flag → Option Result
unfolding evaluate_rows fill_missing
evaluate tenant project keys c env flags =
    elim (evaluate_rows c env (select (is_requested tenant project keys) flags) []) [
      | none ↦ none
      | some r ↦ some (fill_missing c.inherited keys r)
    ]

-- A row of `feature_flag_history`; a creation has no old value, and the new one holds no targeting.
pub data HistoryAction : Type 0 where
  created enabled disabled updated : HistoryAction

pub record History : Type 0 where
  pub flag_id : ℕ
  pub actor_id : ℕ
  pub action : HistoryAction
  pub old_value : Option Flag
  pub new_value : Flag

pub record Store : Type 0 where
  pub flags : List Flag
  pub history : List History

-- The body of PUT; what is absent is left alone.
pub record Patch : Type 0 where
  pub enabled : Option Bool
  pub rollout_pct : Option ℕ
  pub targeting : Option (List Rule)
  pub default_value : Option Value
  pub environments : Option (List Text)

abbrev pub is_flag : (id tenant : ℕ) → Flag → Bool
is_flag id tenant f = f.id == id && f.tenant_id == tenant

-- The SET list, `column = COALESCE($n, column)`.
abbrev pub patched : Patch → Flag → Flag
patched p f = record f {
  default_value = or_else p.default_value f.default_value;
  enabled = or_else p.enabled f.enabled;
  environments = or_else p.environments f.environments;
  rollout_pct = or_else p.rollout_pct f.rollout_pct;
  targeting = or_else p.targeting f.targeting;
}

abbrev pub action_of : Option Bool → HistoryAction
action_of none = updated
action_of (some true) = enabled
action_of (some false) = disabled

-- `rollout_pct BETWEEN 0 AND 100`, a constraint of the table: a row that breaks it raises.
abbrev pub pct_allowed : Patch → Bool
pct_allowed p = elim p.rollout_pct [ none ↦ true | some n ↦ leb n 100 ]

-- PUT /projects/:projectId/flags/:flagId. The ids are the table's key, so the updated row is the
-- one read before.
pub update_flag : (tenant user id : ℕ) → Patch → Store → Reply Flag × Store
update_flag tenant user id p s =
    commit
      (do
        old ← require_row (find (is_flag id tenant) s.flags) 404 "Flag not found"
        require (pct_allowed p) 500 "check constraint"
        pass old)
      (λ old s. (
        send 200 (patched p old),
        record {
          flags = update_where (is_flag id tenant) (patched p) s.flags;
          history =
              s.history
              ++ record {
                flag_id = id;
                actor_id = user;
                action = action_of p.enabled;
                old_value = some old;
                new_value = patched p old;
              }
                ∷ [];
        },
      ))
      s

abbrev pub same_key : Flag → Flag → Bool
same_key f g = g.tenant_id == f.tenant_id && g.project_id == f.project_id && text_eq g.key f.key

-- POST /projects/:projectId/flags. The new row has the columns' defaults; a key that the project
-- has already raises, since the handler does not catch the violation of the unique key.
pub create_flag : (user : ℕ) → Flag → Store → Reply Flag × Store
create_flag user new s =
    commit (require (not (is_some (find (same_key new) s.flags))) 500 "unique constraint")
      (λ _ s. (
        send 201 new,
        record {
          flags = s.flags ++ new ∷ [];
          history =
              s.history
              ++ record {
                flag_id = new.id;
                actor_id = user;
                action = created;
                old_value = none;
                new_value = new;
              }
                ∷ [];
        },
      ))
      s

abbrev pub logs : ℕ → History → Bool
logs id h = h.flag_id == id

-- DELETE /projects/:projectId/flags/:flagId; the history goes with the flag (ON DELETE CASCADE).
pub delete_flag : (tenant id : ℕ) → Store → Reply (Unit {0}) × Store
delete_flag tenant id s = (
  send 204 tt,
  record {
    flags = delete_where (is_flag id tenant) s.flags;
    history =
        if is_some (find (is_flag id tenant) s.flags)
        then delete_where (logs id) s.history
        else s.history;
  },
)
