-- ===== src/Flags/Answers.antt =====
-- What an evaluation answers for each key.
use tinai_infra.Prelude.{
  ℕ, ◌≡◌, sym, ◌∙◌, ◌⊎◌, inl, inr, Bool, true, none, some, List, [], ◌∷◌, arith, select, find,
  Bool-cases, Option-cases,
}
use tinai_infra.Flags.Scalars.{Text, text_eq, text_eq_sound, Value, undef, null}
use tinai_infra.Flags.{
  is_undef, Flag, Context, Result, get, put, any_text, is_requested, evaluate_flag, evaluate_rows,
  fill_missing, evaluate,
}

abbrev pub key_is : Text → Flag → Bool
key_is k f = text_eq f.key k

-- `UNIQUE(tenant_id, project_id, key)`, among rows of one project.
abbrev pub HasUniqueKeys : List Flag → Type 0
HasUniqueKeys [] = Unit
HasUniqueKeys (f ∷ fs) = (find (key_is f.key) fs ≡ none) × HasUniqueKeys fs

-- A key that no later row has keeps its value.
get-evaluate_rows_miss :
    (c : Context) (env : Text) (k : Text) (fs : List Flag) (r r' : Result)
    → find (key_is k) fs ≡ none
    → evaluate_rows c env fs r ≡ some r'
    → get k r' ≡ get k r
unfolding evaluate_rows
get-evaluate_rows_miss c env k [] r r' miss h = ground arith
get-evaluate_rows_miss c env k (f ∷ fs) r r' miss h = elim (Option-cases (evaluate_flag c env f)) [
  | inl e ↦ ground arith
  | inr (v, e) ↦ ground (arith, get-evaluate_rows_miss c env k fs (put f.key v r) r')
]

get-evaluate_rows :
    (c : Context) (env : Text) (k : Text) (fs : List Flag) (r r' : Result) (f : Flag)
    → HasUniqueKeys fs
    → find (key_is k) fs ≡ some f
    → evaluate_rows c env fs r ≡ some r'
    → get k r' ≡ evaluate_flag c env f
unfolding evaluate_rows
get-evaluate_rows c env k [] r r' f u e h = ground arith
get-evaluate_rows c env k (g ∷ fs) r r' f u e h = elim (Option-cases (evaluate_flag c env g)) [
  | inl throws ↦ ground arith
  | inr (v, ev) ↦
      let rest : evaluate_rows c env fs (put g.key v r) ≡ some r' = ground arith in
      elim (Bool-cases (text_eq g.key k)) [
        | inl mine ↦
            let same : g ≡ f = ground arith in
            let key : g.key ≡ k = text_eq_sound g.key k mine in
            let alone : find (key_is k) fs ≡ none = rw key at u.0 in
            get-evaluate_rows_miss c env k fs (put g.key v r) r' alone rest
            ∙ (rw mine (rw (← same) (sym ev)))
        | inr other ↦ get-evaluate_rows c env k fs (put g.key v r) r' f u.1 (ground arith) rest
      ]
]

-- No row throws in an evaluation that ends.
evaluate_rows_found :
    (c : Context) (env : Text) (k : Text) (fs : List Flag) (r r' : Result) (f : Flag)
    → find (key_is k) fs ≡ some f
    → evaluate_rows c env fs r ≡ some r'
    → (v : Value) × (evaluate_flag c env f ≡ some v)
unfolding evaluate_rows
evaluate_rows_found c env k [] r r' f e h = ground arith
evaluate_rows_found c env k (g ∷ fs) r r' f e h = elim (Option-cases (evaluate_flag c env g)) [
  | inl throws ↦ ground arith
  | inr (v, ev) ↦ elim (Bool-cases (text_eq g.key k)) [
    | inl mine ↦ (v, let same : g ≡ f = ground arith in rw (← same) ev)
    | inr other ↦ evaluate_rows_found c env k fs (put g.key v r) r' f (ground arith) (ground arith)
  ]
]

get-fill_missing-some :
    (inherited : Text → Value) (k : Text) (ks : List Text) (r : Result) (v : Value)
    → get k r ≡ some v
    → get k (fill_missing inherited ks r) ≡ some v
unfolding fill_missing
get-fill_missing-some inherited k [] r v h = h
get-fill_missing-some inherited k (j ∷ ks) r v h = elim (Option-cases (get j r)) [
  | inr (w, e) ↦ rw e (get-fill_missing-some inherited k ks r v h)
  | inl e ↦ elim (Bool-cases (is_undef (inherited j))) [
    | inr there ↦ rw (e, there) (get-fill_missing-some inherited k ks r v h)
    | inl away ↦ elim (Bool-cases (text_eq j k)) [
      | inl same ↦
          let key : j ≡ k = text_eq_sound j k same in
          let none_is_some : none ≡ some v = sym (rw key at e) ∙ h in ground arith
      | inr other ↦
          rw (e, away) (get-fill_missing-some inherited k ks (put j null r) v (rw other h))
    ]
  ]
]

get-fill_missing-none :
    (inherited : Text → Value) (k : Text) (ks : List Text) (r : Result)
    → get k r ≡ none
    → inherited k ≡ undef
    → any_text k ks ≡ true
    → get k (fill_missing inherited ks r) ≡ some null
unfolding fill_missing
get-fill_missing-none inherited k [] r h own asked = ground arith
get-fill_missing-none inherited k (j ∷ ks) r h own asked = elim (Bool-cases (text_eq j k)) [
  | inl same ↦
      let key : j ≡ k = text_eq_sound j k same in
      let miss : get j r ≡ none = rw key h in
      let away : inherited j ≡ undef = rw key own in
      rw (miss, away) (get-fill_missing-some inherited k ks (put j null r) null (rw same))
  | inr other ↦ elim (Option-cases (get j r)) [
    | inl e ↦ elim (Bool-cases (is_undef (inherited j))) [
      | inl away ↦
          rw (e, away)
            (get-fill_missing-none inherited k ks (put j null r) (rw other h) own (ground arith))
      | inr there ↦ rw (e, there) (get-fill_missing-none inherited k ks r h own (ground arith))
    ]
    | inr (w, e) ↦ rw e (get-fill_missing-none inherited k ks r h own (ground arith))
  ]
]

-- For every key that is asked for and that is no name which every object inherits, an evaluation that
-- does not throw answers the value of the project's flag with that key, and null where the project has
-- no such flag, if the keys of a project's flags differ.
pub evaluate_answers :
    (tenant project : ℕ) (keys : List Text) (c : Context) (env : Text) (flags : List Flag)
    (result : Result) (k : Text)
    → HasUniqueKeys (select (is_requested tenant project keys) flags)
    → evaluate tenant project keys c env flags ≡ some result
    → any_text k keys ≡ true
    → c.inherited k ≡ undef
    → let rows = select (is_requested tenant project keys) flags in
      ((find (key_is k) rows ≡ none) × (get k result ≡ some null))
      ⊎ ((f : Flag) × (find (key_is k) rows ≡ some f) × (get k result ≡ evaluate_flag c env f))
unfolding evaluate
evaluate_answers tenant project keys c env flags result k u h asked own =
    let rows = select (is_requested tenant project keys) flags in
    elim (Option-cases (evaluate_rows c env rows [])) [
      | inl throws ↦ ground arith
      | inr (r, e) ↦
          let filled : fill_missing c.inherited keys r ≡ result = ground arith in
          elim (Option-cases (find (key_is k) rows)) [
            | inl miss ↦ inl (
              miss,
              rw (← filled) (
                  get-fill_missing-none c.inherited k keys r
                    (get-evaluate_rows_miss c env k rows [] r miss e) own asked),
            )
            | inr (f, found) ↦
                let (v, ev) = evaluate_rows_found c env k rows [] r f found e in
                let written : get k r ≡ some v =
                  get-evaluate_rows c env k rows [] r f u found e ∙ ev in
                inr (
                  f,
                  found,
                  rw (← filled) (get-fill_missing-some c.inherited k keys r v written ∙ sym ev),
                )
          ]
    ]
