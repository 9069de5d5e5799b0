-- ===== src/EnvVars/Vars/Bulk.antt =====
-- The values that POST /workloads/:id/env/bulk leaves.
use tinai_infra.Prelude.{
  ℕ, ◌≡◌, ◌≢◌, refl, ◌∙◌, ap, subst, Bool, true, false, ◌||◌, Option, none, some, List, [], ◌∷◌,
  ◌++◌, arith, if◌then◌else◌, ◌==◌, ==_refl, is_some, or_else, length, find, update_where, send,
  pass, commit, Bool-cases, inl, inr, find-update_where_apart,
}
use tinai_infra.EnvVars.{EnvVar, Db, Caller, upserted, BulkVar, own_workload}
use tinai_infra.EnvVars.Vars.{
  is_var, var_row, set_value, upsert_var, upsert_all, has_key, repeats, bulk_check, bulk_env,
}

abbrev value_in : Option EnvVar → Option ℕ
value_in none = none
value_in (some r) = some r.value

-- The value of a variable of a workload.
abbrev pub stored : (id key : ℕ) → List EnvVar → Option ℕ
stored id key rows = value_in (find (is_var id key) rows)

-- The value that the body gives a key, and the value after it.
abbrev pub given : ℕ → List BulkVar → Option ℕ
given key [] = none
given key (v ∷ vs) = if v.key == key then some v.value else given key vs

abbrev pub given_or : Option ℕ → Option ℕ → Option ℕ
given_or none old = old
given_or (some v) old = some v

stored_set :
    (id key now value : ℕ) (o : Option Bool) (rows : List EnvVar)
    → is_some (find (is_var id key) rows) ≡ true
    → stored id key (update_where (is_var id key) (set_value now value o) rows) ≡ some value
stored_set id key now value o [] e = ground arith
stored_set id key now value o (r ∷ rows) e = ground (arith, stored_set id key now value o rows)

find-append_out {ℓ} :
    {A : Type ℓ} (p : A → Bool) (xs : List A) (a : A)
    → p a ≡ false
    → find p (xs ++ a ∷ []) ≡ find p xs
find-append_out p [] a out = ground arith
find-append_out p (x ∷ xs) a out = ground (arith, find-append_out p xs a out)

stored_new :
    (c : Caller) (id key now value : ℕ) (b : Bool) (rows : List EnvVar)
    → is_some (find (is_var id key) rows) ≡ false
    → stored id key (rows ++ var_row c now id key value b ∷ []) ≡ some value
stored_new c id key now value b [] e = ground (arith, ==_refl id, ==_refl key)
stored_new c id key now value b (r ∷ rows) e = ground (arith, stored_new c id key now value b rows)

upsert_var_set :
    (c : Caller) (now id : ℕ) (v : BulkVar) (rows : List EnvVar)
    → stored id v.key (upsert_var c now id v rows) ≡ some v.value
upsert_var_set c now id v rows = elim (Bool-cases (is_some (find (is_var id v.key) rows))) [
  | inl e ↦ rw e (stored_set id v.key now v.value (some (or_else v.is_secret false)) rows e)
  | inr e ↦ rw e (stored_new c id v.key now v.value (or_else v.is_secret false) rows e)
]

upsert_var_apart :
    (c : Caller) (now id key : ℕ) (v : BulkVar) (rows : List EnvVar)
    → v.key ≢ key
    → stored id key (upsert_var c now id v rows) ≡ stored id key rows
upsert_var_apart c now id key v rows ne =
    elim (Bool-cases (is_some (find (is_var id v.key) rows))) [
      | inl e ↦ rw e (
          ap value_in (
            find-update_where_apart (is_var id key) (is_var id v.key)
              (set_value now v.value (some (or_else v.is_secret false))) rows (λ r. refl)
              (λ r h. ground arith)))
      | inr e ↦ rw e (
          ap value_in (
            find-append_out (is_var id key) rows
              (var_row c now id v.key v.value (or_else v.is_secret false)) (ground arith)))
    ]

upsert_var-stored :
    (c : Caller) (now id key : ℕ) (v : BulkVar) (rows : List EnvVar)
    → stored id key (upsert_var c now id v rows)
      ≡ (if v.key == key then some v.value else stored id key rows)
upsert_var-stored c now id key v rows = elim (Bool-cases (v.key == key)) [
  | inl same ↦
      let at : v.key ≡ key = ground arith in
      rw same (
        subst (λ k. stored id k (upsert_var c now id v rows) ≡ some v.value) at
          (upsert_var_set c now id v rows))
  | inr apart ↦ rw apart (upsert_var_apart c now id key v rows (λ e. ground arith))
]

given-none : (key : ℕ) (vs : List BulkVar) → has_key key vs ≡ false → given key vs ≡ none
given-none key [] e = refl
given-none key (v ∷ vs) e = ground (arith, given-none key vs)

given_first :
    (v : BulkVar) (vs : List BulkVar) (key : ℕ) (old : Option ℕ)
    → has_key v.key vs ≡ false
    → given_or (given key vs) (if v.key == key then some v.value else old)
      ≡ given_or (given key (v ∷ vs)) old
given_first v vs key old once = elim (Bool-cases (v.key == key)) [
  | inl same ↦
      let at : v.key ≡ key = ground arith in
      let missing : given key vs ≡ none =
        subst (λ k. given k vs ≡ none) at (given-none v.key vs once) in
      rw (same, missing) refl
  | inr apart ↦ rw apart refl
]

or_false : {a b : Bool} → (a || b) ≡ false → (a ≡ false) × (b ≡ false)
or_false e = (ground arith, ground arith)

upsert_all-stored :
    (c : Caller) (now id key : ℕ) (vs : List BulkVar) (rows : List EnvVar)
    → repeats vs ≡ false
    → stored id key (upsert_all c now id vs rows) ≡ given_or (given key vs) (stored id key rows)
upsert_all-stored c now id key [] rows e = refl
upsert_all-stored c now id key (v ∷ vs) rows e =
    let first = upsert_var-stored c now id key v rows in
    let rest = upsert_all-stored c now id key vs (upsert_var c now id v rows) (or_false e).1 in
    rest
    ∙ ap (given_or (given key vs)) first
    ∙ given_first v vs key (stored id key rows) (or_false e).0

-- A bulk request of the owner that repeats no key is answered with the number of its variables. Each
-- key then has the value that the body gives it, and a key that the body lacks the value it had.
pub bulk_env_values :
    (c : Caller) (now id : ℕ) (vs : List BulkVar) (s : Db)
    → own_workload c id s ≡ pass tt
    → repeats vs ≡ false
    → ((bulk_env c now id vs s).0 ≡ send 200 (upserted (length vs)))
      × ((key : ℕ)
          → stored id key (bulk_env c now id vs s).1.vars
            ≡ given_or (given key vs) (stored id key s.vars))
unfolding bulk_env commit
bulk_env_values c now id [] s own once = (rw own refl, λ key. rw own refl)
bulk_env_values c now id (v ∷ vs) s own once =
    let passes : bulk_check c id (v ∷ vs) s ≡ pass tt = rw (own, once) refl in
    (rw passes refl, λ key. rw passes (upsert_all-stored c now id key (v ∷ vs) s.vars once))
