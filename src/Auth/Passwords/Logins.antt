-- ===== src/Auth/Passwords/Logins.antt =====
-- Who signs in by password.
use tinai_infra.Prelude.{
  ℕ, zero, suc, ◌≡◌, refl, ◌∙◌, ap, Bool, true, false, not, Option, none, some, List, [], ◌∷◌, ◌++◌,
  arith, if◌then◌else◌, ◌==◌, ==_refl, is_some, find, find-append_miss, Reply, send, fail, pass,
  require, commit-sent,
}
use tinai_infra.Auth.{User, Db, Token, Crypto, make_token, tenant}
use tinai_infra.Auth.Sessions.{Session, by_email}
use tinai_infra.Auth.Sms.{find_or_create}
use tinai_infra.Auth.Passwords.{
  Kdf, Accounts, Stage, production, staging, development, has_plan, is_environment, sms_text,
  is_empty, has_default, add_environment, add_plan, environment_writes, setup, run_some,
  hash_password, verify_password, registered, register, signed_in, after_check, login_as, login,
}

-- What PBKDF2 to 64 bytes gives: 128 hex digits.
abbrev pub Is64Bytes : Kdf → Type 0
Is64Bytes f =
    (password salt : ℕ)
    → (is_empty (f.pbkdf2 password salt) ≡ false) × (f.byte_length (f.pbkdf2 password salt) ≡ 64)

-- The best-effort block leaves the users alone.
abbrev KeepsDb : (Accounts → Accounts) → Type 0
KeepsDb w = (a : Accounts) → (w a).db ≡ a.db

abbrev AllKeep : List (Accounts → Accounts) → Type 0
AllKeep [] = Unit
AllKeep (w ∷ ws) = KeepsDb w × AllKeep ws

run_some-db :
    (n : ℕ) (ws : List (Accounts → Accounts)) (a : Accounts)
    → AllKeep ws
    → (run_some n ws a).db ≡ a.db
run_some-db zero ws a h = refl
run_some-db (suc n) [] a h = refl
run_some-db (suc n) (w ∷ ws) a (k, h) = run_some-db n ws (w a) h ∙ k a

if-db : (b : Bool) (x y : Accounts) → x.db ≡ y.db → (if b then y else x).db ≡ y.db
if-db true x y e = refl
if-db false x y e = e

setup-AllKeep : (now owner project : ℕ) (a : Accounts) → AllKeep (setup now owner project a)
setup-AllKeep now owner project a = (
  λ a. if-db (is_some (find (has_default owner) a.projects)) _ a refl,
  rest (not (is_some (find (has_default owner) a.projects))),
)
  where
    plan : KeepsDb (add_plan now owner)
    plan a = if-db (is_some (find (has_plan owner) a.tenant_plans)) _ a refl

    environment : (stage : Stage) → KeepsDb (add_environment owner project stage)
    environment stage a =
        if-db (is_some (find (is_environment project stage) a.environments)) _ a refl

    rest : (b : Bool) → AllKeep (environment_writes b owner project ++ add_plan now owner ∷ [])
    rest true =
        (environment production, (environment staging, (environment development, (plan, tt))))
    rest false = (plan, tt)

module _ (k : Crypto) (f : Kdf) (sized : Is64Bytes f) where
  verify-hash_password :
      (guess password salt : ℕ)
      → is_empty salt ≡ false
      → verify_password k f guess (hash_password k f password salt)
        ≡ some (f.bytes (f.pbkdf2 password salt) == f.bytes (f.pbkdf2 guess salt))
  verify-hash_password guess password salt full =
      let (stored, long) = sized password salt in
      let (_, long') = sized guess salt in rw (full, stored, long, long') refl

  after_check_ends :
      (later jti raw : ℕ) (u : User) (b : Bool) (db : Db)
      → (after_check k f later jti raw u (some b) db).0
        ≡ (if b then send 200 (signed_in k f later jti raw u) else fail 401 "invalid credentials")
  after_check_ends later jti raw u true db = refl
  after_check_ends later jti raw u false db = refl

  -- The sign-in on a table whose last row is the user's.
  login_last :
      (later jti raw guess email : ℕ) (u : User) (users : List User) (db : Db)
      → find (by_email email) users ≡ none
      → u.email ≡ email
      → db.users ≡ users ++ u ∷ []
      → login k f later jti raw email guess db
        ≡ after_check k f later jti raw u (verify_password k f guess u.password_hash) db
  unfolding login
  login_last later jti raw guess email u users db fresh has_email last =
      let found : find (by_email email) (u ∷ []) ≡ some u =
        ap (λ (b : Bool). if b then some u else none)
          (ap (λ e. e == email) has_email ∙ ==_refl email) in
      ap (λ o. login_as k f later jti raw guess o db)
        (ap (find (by_email email)) last
          ∙ find-append_miss (by_email email) users (u ∷ []) fresh
          ∙ found)

  free_email :
      (email : ℕ) (o : Option User) (v : Unit {0})
      → require (not (is_some o)) 409 "email already registered" ≡ pass v
      → o ≡ none
  free_email email none v e = refl
  free_email email (some u) v e = ground arith

  -- A user who has registered signs in with the same e-mail address and a password that PBKDF2 takes to
  -- the same bytes under the same salt, as the user who was registered, and with no other password,
  -- whether or not the default project and the plan were set up.
  pub register-login :
      (done now jti id tenant_id salt project email password : ℕ) (a : Accounts) (token : Token)
      (later jti' raw guess : ℕ)
      → is_empty salt ≡ false
      → (register k f done now jti id tenant_id salt project email password a).0
        ≡ send 201 (token, id)
      → (login k f later jti' raw email guess
          (register k f done now jti id tenant_id salt project email password a).1.db).0
        ≡ (if f.bytes (f.pbkdf2 password salt) == f.bytes (f.pbkdf2 guess salt)
            then send 200
                (signed_in k f later jti' raw (registered k f id email password salt tenant_id))
            else fail 401 "invalid credentials")
  unfolding register
  register-login done now jti id tenant_id salt project email password a token later jti' raw guess
        full sent =
      let u = registered k f id email password salt tenant_id in
      let start : Accounts = record a { db = record a.db { users = a.db.users ++ u ∷ [] } } in
      let (v, passes, same) =
        commit-sent
          (require (not (is_some (find (by_email email) a.db.users))) 409
            "email already registered")
          (λ _ (a : Accounts). (
            send 201 (make_token k now jti u, u.id),
            run_some done (setup now tenant_id project a)
                (record a { db = record a.db { users = a.db.users ++ u ∷ [] } }),
          ))
          a 201 (token, id) sent in
      let kept : (run_some done (setup now tenant_id project a) start).db ≡ start.db =
        run_some-db done (setup now tenant_id project a) start
          (setup-AllKeep now tenant_id project a) in
      let stored = ap (λ (p : Reply (Token × ℕ) × Accounts). p.1.db) same ∙ kept in
      let db' = (register k f done now jti id tenant_id salt project email password a).1.db in
      ap (λ (p : Reply Session × Db). p.0)
        (login_last later jti' raw guess email u a.db.users db'
            (free_email email (find (by_email email) a.db.users) v passes) refl
            (ap (λ (d : Db). d.users) stored)
          ∙ ap (λ o. after_check k f later jti' raw u o db')
              (verify-hash_password guess password salt full))
      ∙ after_check_ends later jti' raw u
          (f.bytes (f.pbkdf2 password salt) == f.bytes (f.pbkdf2 guess salt)) db'

  -- An account that a sign-in by SMS has made answers every attempt to sign in by password with 500:
  -- the buffers that are compared have 16 and 64 bytes.
  pub sms_login_throws :
      (email_of tenant_of : ℕ → ℕ) (now mobile new_id hex : ℕ) (db : Db) (later jti raw guess : ℕ)
      → find (by_email (email_of mobile)) db.users ≡ none
      → is_empty hex ≡ false
      → f.byte_length hex ≡ 16
      → (login k f later jti raw
          (email_of mobile)
          guess
          (find_or_create k email_of tenant_of now mobile new_id (sms_text ∷ hex ∷ []) db).1).0
        ≡ fail 500 "Input buffers must have the same byte length"
  unfolding find_or_create
  sms_login_throws email_of tenant_of now mobile new_id hex db later jti raw guess fresh full
        short =
      let u : User = record {
        id = new_id;
        email = email_of mobile;
        password_hash = sms_text ∷ hex ∷ [];
        role = tenant;
        tenant_id = tenant_of mobile;
        magic_token = none;
        magic_expires = none;
        last_login = none;
      } in
      let db' =
        (find_or_create k email_of tenant_of now mobile new_id (sms_text ∷ hex ∷ []) db).1 in
      let throws : verify_password k f guess (sms_text ∷ hex ∷ []) ≡ none =
        rw (full, short, (sized guess sms_text).1) refl in
      ap (λ (p : Reply Session × Db). p.0)
        (login_last later jti raw guess (email_of mobile) u db.users db' fresh refl
            (rw (fresh, find_or_create) refl)
          ∙ ap (λ o. after_check k f later jti raw u o db') throws)
