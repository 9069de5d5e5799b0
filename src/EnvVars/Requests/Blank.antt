-- ===== src/EnvVars/Requests/Blank.antt =====
-- Tables whose secrets are blanked, and what is alike on them.
use mathlib.Core.Option
use tinai_infra.Prelude.{
  ℕ, ◌≡◌, refl, ◌∙◌, ap, sym, Bool, true, false, ◌&&◌, Option, none, some, List, map, if◌then◌else◌,
  find, Reply, Check, pass, reject, require_row, commit, ◌>>=◌,
}
use tinai_infra.EnvVars.{EnvVar, Secret, Db, Caller, Answer, view, own_workload, own_project}
use tinai_infra.EnvVars.Vars.{is_var, updatable}
use tinai_infra.EnvVars.Secrets.{is_secret_of, deletable}
use tinai_infra.EnvVars.Requests.{Request, get_vars, get_secrets}
use tinai_infra.EnvVars.Requests.Tables.{map-find, map-twice}

-- The value of a secret is blanked.
abbrev pub blank_var : EnvVar → EnvVar
blank_var r = record r { value = if r.is_secret then 0 else r.value }

abbrev pub blank_secret : Secret → Secret
blank_secret r = record r { value = 0 }

abbrev pub blank : Db → Db
blank db = record db { vars = map blank_var db.vars; secrets = map blank_secret db.secrets }

-- The requests that may show a secret.
abbrev pub is_revealing : Caller → Request → Bool
is_revealing c (get_vars id reveal) = reveal && c.is_admin
is_revealing c (get_secrets id reveal) = reveal && c.is_admin
is_revealing c _ = false

-- The same reply, and tables that differ in the values of secrets at most.
abbrev pub Alike : (p q : Reply Answer × Db) → Type 0
Alike p q = (p.0 ≡ q.0) × (blank p.1 ≡ blank q.1)

if_twice : (b : Bool) (v : ℕ) → (if b then 0 else if b then 0 else v) ≡ (if b then 0 else v)
if_twice true v = refl
if_twice false v = refl

pub blank_var_twice : (r : EnvVar) → blank_var (blank_var r) ≡ blank_var r
blank_var_twice r = ap (λ v. record r { value = v }) (if_twice r.is_secret r.value)

pub view_blind : (b : Bool) (r : EnvVar) → b ≡ r.is_secret → view false (blank_var r) ≡ view false r
view_blind true r e = rw (← e) refl
view_blind false r e = rw (← e) refl

pub blank_twice : (db : Db) → blank db ≡ blank (blank db)
blank_twice db =
    ap (λ vars. record db { vars = vars; secrets = map blank_secret db.secrets })
      (sym (map-twice blank_var db.vars blank_var_twice))
    ∙ ap (λ secrets. record db { vars = map blank_var (map blank_var db.vars); secrets = secrets })
        (sym (map-twice blank_secret db.secrets (λ a. refl)))

pub commit-Alike {ℓ} :
    {A : Type ℓ} (c : Check A) (body : A → Db → Reply Answer × Db) (db : Db)
    → ((a : A) → Alike (body a db) (body a (blank db)))
    → Alike (commit c body db) (commit c body (blank db))
unfolding commit
commit-Alike (pass a) body db h = h a
commit-Alike (reject n e) body db h = (refl, blank_twice db)

-- A check that passes on a row, and the same check where the row is blanked.
module _ {ℓ} {A : Type ℓ} (hide : A → A) where
  abbrev pub hidden : Check A → Check A
  hidden (pass a) = pass (hide a)
  hidden (reject n e) = reject n e

  pub commit-Alike_row :
      (c d : Check A) (body : A → Db → Reply Answer × Db) (db : Db)
      → d ≡ hidden c
      → ((a : A) → Alike (body a db) (body (hide a) (blank db)))
      → Alike (commit c body db) (commit d body (blank db))
  unfolding commit
  commit-Alike_row (pass a) d body db same h = rw same (h a)
  commit-Alike_row (reject n e) d body db same h = rw same (refl, blank_twice db)

updatable_hidden :
    (m : Check (Unit {0})) (o : Option EnvVar)
    → (m >>= λ _. require_row (Option.map blank_var o) 404 "env var not found")
      ≡ hidden blank_var (m >>= λ _. require_row o 404 "env var not found")
updatable_hidden (pass a) (some r) = refl
updatable_hidden (pass a) none = refl
updatable_hidden (reject n e) o = refl

deletable_hidden :
    (m : Check (Unit {0})) (o : Option Secret)
    → (m >>= λ _. require_row (Option.map blank_secret o) 404 "secret not found")
      ≡ hidden blank_secret (m >>= λ _. require_row o 404 "secret not found")
deletable_hidden (pass a) (some r) = refl
deletable_hidden (pass a) none = refl
deletable_hidden (reject n e) o = refl

pub updatable-blank :
    (c : Caller) (id key : ℕ) (db : Db)
    → updatable c id key (blank db) ≡ hidden blank_var (updatable c id key db)
updatable-blank c id key db =
    ap (λ o. own_workload c id db >>= λ _. require_row o 404 "env var not found")
      (map-find blank_var (is_var id key) (λ a. refl) db.vars)
    ∙ updatable_hidden (own_workload c id db) (find (is_var id key) db.vars)

pub deletable-blank :
    (c : Caller) (id key : ℕ) (db : Db)
    → deletable c id key (blank db) ≡ hidden blank_secret (deletable c id key db)
deletable-blank c id key db =
    ap (λ o. own_project c id db >>= λ _. require_row o 404 "secret not found")
      (map-find blank_secret (is_secret_of id key) (λ a. refl) db.secrets)
    ∙ deletable_hidden (own_project c id db) (find (is_secret_of id key) db.secrets)

-- The tables, where one of them is alike.
pub alike_vars :
    (db : Db) (xs ys : List EnvVar)
    → map blank_var ys ≡ map blank_var xs
    → blank (record db { vars = xs }) ≡ blank (record (blank db) { vars = ys })
alike_vars db xs ys e =
    ap (λ vars. record db { vars = vars; secrets = map blank_secret db.secrets }) (sym e)
    ∙ ap (λ secrets. record db { vars = map blank_var ys; secrets = secrets })
        (sym (map-twice blank_secret db.secrets (λ a. refl)))

pub alike_secrets :
    (db : Db) (xs ys : List Secret)
    → map blank_secret ys ≡ map blank_secret xs
    → blank (record db { secrets = xs }) ≡ blank (record (blank db) { secrets = ys })
alike_secrets db xs ys e =
    ap (λ secrets. record db { vars = map blank_var db.vars; secrets = secrets }) (sym e)
    ∙ ap (λ vars. record db { vars = vars; secrets = map blank_secret ys })
        (sym (map-twice blank_var db.vars blank_var_twice))
