-- ===== src/Auth/Passwords.antt =====
-- Registration and sign-in by password, of routes/auth.ts. A stored hash is its parts between colons;
-- texts are numbers, and the empty one is zero.
pub mod Logins
use tinai_infra.Prelude.{
  ℕ, zero, suc, String, Bool, true, false, not, ◌&&◌, ◌||◌, Option, none, some, List, [], ◌∷◌, ◌++◌,
  if◌then◌else◌, ◌==◌, is_some, find, update_where, Reply, send, fail, Check, require, commit,
}
use tinai_infra.Plans.{TenantPlan, free}
use tinai_infra.Auth.{tenant, User, Db, Token, Crypto, make_token}
use tinai_infra.Auth.Sessions.{Session, by_id, by_email, create_refresh_token}

-- `pbkdf2Sync` to hex digits, with the number of iterations and the digest that the code has; and a
-- Buffer made of hex digits, with its length.
pub record Kdf : Type 0 where
  pub pbkdf2 : (password salt : ℕ) → ℕ
  pub bytes : ℕ → ℕ
  pub byte_length : ℕ → ℕ

abbrev pub pbkdf2_text : ℕ
pbkdf2_text = 1

abbrev pub legacy_text : ℕ
legacy_text = 2

abbrev pub sms_text : ℕ
sms_text = 3

abbrev pub is_empty : ℕ → Bool
is_empty text = text == 0

pub record Project : Type 0 where
  pub id : ℕ
  pub tenant_id : ℕ
  pub is_default : Bool

pub data Stage : Type 0 where
  production staging development : Stage

pub record Environment : Type 0 where
  pub project_id : ℕ
  pub tenant_id : ℕ
  pub stage : Stage

-- The tables that a registration writes.
pub record Accounts : Type 0 where
  pub db : Db
  pub projects : List Project
  pub environments : List Environment
  pub tenant_plans : List TenantPlan

abbrev pub has_default : ℕ → Project → Bool
has_default owner p = p.tenant_id == owner && p.is_default

abbrev pub has_plan : ℕ → TenantPlan → Bool
has_plan owner p = p.tenant_id == owner

abbrev same_stage : Stage → Stage → Bool
same_stage production production = true
same_stage staging staging = true
same_stage development development = true
same_stage _ _ = false

abbrev pub is_environment : (project : ℕ) → Stage → Environment → Bool
is_environment project s e = e.project_id == project && same_stage e.stage s

-- The statements of the best-effort block, each `ON CONFLICT DO NOTHING`.
abbrev pub add_project : (owner id : ℕ) → Accounts → Accounts
add_project owner id a = if is_some (find (has_default owner) a.projects) then a else record a {
  projects = a.projects ++ record { id = id; tenant_id = owner; is_default = true } ∷ [];
}

abbrev pub add_environment : (owner project : ℕ) → Stage → Accounts → Accounts
add_environment owner project s a =
    if is_some (find (is_environment project s) a.environments) then a else record a {
      environments =
          a.environments ++ record { project_id = project; tenant_id = owner; stage = s } ∷ [];
    }

abbrev pub add_plan : (now owner : ℕ) → Accounts → Accounts
add_plan now owner a = if is_some (find (has_plan owner) a.tenant_plans) then a else record a {
  tenant_plans =
      a.tenant_plans
      ++ record {
        tenant_id = owner;
        plan_id = free;
        started_at = now;
        expires_at = none;
        override_limits = none;
      }
        ∷ [];
}

-- `if (project?.id)`: the environments are those of a project that was inserted.
abbrev pub environment_writes : (inserted : Bool) → (owner project : ℕ) → List (Accounts → Accounts)
environment_writes true owner project =
    add_environment owner project production
    ∷ add_environment owner project staging
    ∷ add_environment owner project development
    ∷ []
environment_writes false owner project = []

abbrev pub setup : (now owner project : ℕ) → Accounts → List (Accounts → Accounts)
setup now owner project a =
    add_project owner project
      ∷ environment_writes (not (is_some (find (has_default owner) a.projects))) owner project
    ++ add_plan now owner ∷ []

-- The first statements of the block; the one after them throws, where there is one.
abbrev pub run_some : (done : ℕ) → List (Accounts → Accounts) → Accounts → Accounts
run_some zero ws a = a
run_some (suc n) [] a = a
run_some (suc n) (w ∷ ws) a = run_some n ws (w a)

module _ (k : Crypto) (f : Kdf) where
  -- `hashPassword`
  abbrev pub hash_password : (password salt : ℕ) → List ℕ
  hash_password password salt = pbkdf2_text ∷ salt ∷ f.pbkdf2 password salt ∷ []

  -- `timingSafeEqual`, which throws on buffers of different lengths.
  abbrev pub timing_safe_equal : ℕ → ℕ → Option Bool
  timing_safe_equal a b =
      if f.byte_length a == f.byte_length b then some (f.bytes a == f.bytes b) else none

  abbrev pub verify_parts : (password prefix salt hash : ℕ) → Option Bool
  verify_parts password prefix salt hash =
      if not (prefix == pbkdf2_text || prefix == legacy_text)
      then some false
      else if is_empty salt || is_empty hash
      then some false
      else timing_safe_equal hash (f.pbkdf2 password salt)

  -- `verifyPassword`: none where it throws.
  abbrev pub verify_password : (password : ℕ) → List ℕ → Option Bool
  verify_password password (prefix ∷ salt ∷ hash ∷ []) = verify_parts password prefix salt hash
  verify_password password (salt ∷ hash ∷ _) = verify_parts password legacy_text salt hash
  verify_password password _ = some false

  abbrev pub registered : (id email password salt tenant_id : ℕ) → User
  registered id email password salt tenant_id = record {
    id = id;
    email = email;
    password_hash = hash_password password salt;
    role = tenant;
    tenant_id = tenant_id;
    magic_token = none;
    magic_expires = none;
    last_login = none;
  }

  -- POST /auth/register, with the random tenant and salt.
  unfoldable pub register :
      (done now jti id tenant_id salt project email password : ℕ)
      → Accounts
      → Reply (Token × ℕ) × Accounts
  register done now jti id tenant_id salt project email password a =
      commit
        (require (not (is_some (find (by_email email) a.db.users))) 409 "email already registered")
        (λ _ (a : Accounts).
          let u = registered id email password salt tenant_id in
          (
            send 201 (make_token k now jti u, u.id),
            run_some done (setup now tenant_id project a)
                (record a { db = record a.db { users = a.db.users ++ u ∷ [] } }),
          ))
        a

  abbrev pub last_login_at : ℕ → User → User
  last_login_at now u = record u { last_login = some now }

  abbrev pub signed_in : (now jti raw : ℕ) → User → Session
  signed_in now jti raw u = record {
    access_token = make_token k now jti u;
    refresh_token = raw;
    user_id = u.id;
  }

  abbrev pub after_check : (now jti raw : ℕ) → User → Option Bool → Db → Reply Session × Db
  after_check now jti raw u none db = (fail 500 "Input buffers must have the same byte length", db)
  after_check now jti raw u (some false) db = (fail 401 "invalid credentials", db)
  after_check now jti raw u (some true) db = (
    send 200 (signed_in now jti raw u),
    create_refresh_token k now u.id raw
        (record db { users = update_where (by_id u.id) (last_login_at now) db.users }),
  )

  abbrev pub login_as : (now jti raw password : ℕ) → Option User → Db → Reply Session × Db
  login_as now jti raw password none db = (fail 401 "invalid credentials", db)
  login_as now jti raw password (some u) db =
      after_check now jti raw u (verify_password password u.password_hash) db

  -- POST /auth/login
  unfoldable pub login : (now jti raw email password : ℕ) → Db → Reply Session × Db
  login now jti raw email password db =
      login_as now jti raw password (find (by_email email) db.users) db
