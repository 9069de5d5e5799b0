-- ===== src/Auth/Tests.antt =====
-- Sign-ins on concrete inputs: user 1 of tenant 8, with toy cryptography.
use tinai_infra.Prelude.{
  ℕ, ◌+◌, ◌/◌, ◌≡◌, ◌<◌, refl, ltb, if◌then◌else◌, true, false, none, some, [], ◌∷◌, arith, find,
  pass, reject, fail, status, commit,
}
use tinai_infra.Auth.{tenant, User, Db, Claims, Token, Crypto, verify_jwt, make_token, sign_jwt}
use tinai_infra.Auth.Sessions.{
  refresh_ms, bearer, logout, of_user, rotate_refresh_token, magic_link, verify_magic_link, Session,
}
use tinai_infra.Auth.Sessions.Refresh.{rotate_once}
use tinai_infra.Auth.Sessions.Magic.{verify_magic_link_once, magic_link_signs_in, magic_link_silent}
use tinai_infra.Auth.Sessions.Logout.{logout_revokes, logout_last_second}
use tinai_infra.Auth.Sms.{send_otp, resend_otp, verify_sms}
use tinai_infra.Auth.Sms.Codes.{send_otp_only, send_otp_once, resend_otp_waits}
use tinai_infra.Auth.Gateway.{
  get, Request, identity_of, is_public, authenticate, pre_handler, is_past,
}
use tinai_infra.Auth.Gateway.Denylist.{
  pre_handler_after_logout, pre_handler_identity, make_token-pre_handler,
}
use tinai_infra.Auth.Sms.{find_or_create}
use tinai_infra.Auth.Passwords.{Kdf, Accounts, sms_text, register, login}
use tinai_infra.Auth.Passwords.Logins.{Is64Bytes, register-login, sms_login_throws}

abbrev user : User
user = record {
  id = 1;
  email = 50;
  password_hash = [];
  role = tenant;
  tenant_id = 8;
  magic_token = none;
  magic_expires = none;
  last_login = none;
}

-- What a token made for the user at second 100 decodes to.
abbrev claims : Claims
claims = record {
  sub = some 1;
  role = some tenant;
  tenant_id = some 8;
  legacy_tenant = none;
  jti = some 77;
  exp = some 86_500;
}

abbrev toy : Crypto
toy = record {
  hmac = λ h b. h + b + 1;
  header = 3;
  encode = λ c. 4;
  decode = λ b. some claims;
  bytes = λ x. x / 2;
  sha256 = λ x. x + 1000;
}

abbrev store : Db
store = record {
  users = user ∷ [];
  refresh_tokens = record { user_id = 1; token_hash = 1005; expires_at = 9000 } ∷ [];
  sms_otps = [];
  revoked_tokens = [];
}

abbrev token : Token
token = 3 ∷ 4 ∷ 8 ∷ []

-- Another text with the same bytes as the signature.
abbrev other_token : Token
other_token = 3 ∷ 4 ∷ 9 ∷ []

abbrev list_apps : Request
list_apps = record { method = get; route = "/api/v1/apps"; has_csrf = true; token = some token }

verified : verify_jwt toy 100_000 token store ≡ pass claims
unfolding verify_jwt
verified = refl

rotate_once_example :
    let db' = (rotate_refresh_token toy 100 5 6 store).1 in
    ((rotate_refresh_token toy 200 5 7 db').0 ≡ none)
    × (200 < 100 + refresh_ms → (rotate_refresh_token toy 200 6 7 db').0 ≡ some 1)
unfolding rotate_refresh_token
rotate_once_example = rotate_once toy 100 200 5 6 7 1 store (omega arith) (omega arith) refl refl

abbrev linked : Db
unfolding magic_link
linked = (magic_link toy false 100 50 4321 store).1

abbrev signed_in : Session
signed_in = record { access_token = 3 ∷ 4 ∷ 8 ∷ []; refresh_token = 5; user_id = 1 }

verify_magic_link_once_example :
    (verify_magic_link toy 300 50 4321 78 6 (verify_magic_link toy 200 50 4321 77 5 linked).1).0
    ≡ fail 401 "invalid or expired token"
unfolding magic_link verify_magic_link make_token sign_jwt
verify_magic_link_once_example =
    verify_magic_link_once toy 200 300 50 4321 77 5 78 6 linked signed_in (omega arith) refl

magic_link_signs_in_test :
    status (verify_magic_link toy 200 50 4321 77 5 (magic_link toy false 100 50 4321 store).1).0
    ≡ 200
magic_link_signs_in_test =
    magic_link_signs_in toy 100 200 50 4321 77 5 store user refl (omega arith)

silent_request :
    (magic_link toy false 100 50 4321 store).0 ≡ (magic_link toy false 100 51 4322 store).0
silent_request = magic_link_silent toy 100 50 51 4321 4322 store

logout_revokes_example :
    let db' = logout toy 100_000 (bearer token) store in
    (verify_jwt toy 200_000 token db' ≡ reject 401 "token revoked")
    × (find (of_user toy 1) db'.refresh_tokens ≡ none)
logout_revokes_example =
    logout_revokes toy 100_000 200_000 token store claims 77 1 86_500 verified refl refl refl refl
      (omega arith)

logout_last_second_test :
    verify_jwt toy 86_500_999 token (logout toy 100_000 (bearer token) store) ≡ pass claims
logout_last_second_test =
    logout_last_second toy 100_000 86_500_999 token store claims 77 1 86_500 verified refl refl refl
      refl (omega arith) (omega arith)

pre_handler_after_logout_example :
    (verify_jwt toy 200_000 token (logout toy 100_000 (bearer token) store)
      ≡ reject 401 "token revoked")
    × (pre_handler toy 200_000 list_apps ≡ pass (some (identity_of claims)))
unfolding is_public
pre_handler_after_logout_example =
    pre_handler_after_logout toy 100_000 200_000 token store claims 77 1 86_500 list_apps verified
      refl refl refl refl (omega arith) refl refl refl refl refl

pre_handler_identity_example :
    (h : ℕ) × (b : ℕ) × (sig : ℕ) × (rest : Token) × (c : Claims) × (some other_token
      ≡ some (h ∷ b ∷ sig ∷ rest))
    × (toy.bytes sig ≡ toy.bytes (toy.hmac h b))
    × (toy.decode b ≡ some c)
    × (is_past 200_000 c.exp ≡ false)
    × (identity_of claims ≡ identity_of c)
unfolding pre_handler is_public authenticate
pre_handler_identity_example =
    pre_handler_identity toy 200_000 (record list_apps { token = some other_token })
      (identity_of claims) refl

make_token-pre_handler_example :
    pre_handler toy 200_000 list_apps
    ≡ pass (some (record { user_id = some 1; tenant_id = some 8; role = tenant }))
unfolding is_public make_token sign_jwt
make_token-pre_handler_example =
    make_token-pre_handler toy 100_000 200_000 77 user list_apps refl (omega arith) refl refl refl
      refl refl

abbrev email_of : ℕ → ℕ
email_of m = m + 1

send_otp_only_example :
    let db' = (send_otp toy email_of email_of true false 100 9_000_000_000 1 4321 store).1 in
    status (verify_sms toy email_of email_of 200 9_000_000_000 1234 77 2 [] db').0 ≡ 401
send_otp_only_example =
    send_otp_only toy email_of email_of false 100 200 9_000_000_000 1 4321 store refl (omega arith)
      1234 77 2 []

send_otp_once_example :
    let sent = (send_otp toy email_of email_of true false 100 9_000_000_000 1 4321 store).1 in
    let used = (verify_sms toy email_of email_of 200 9_000_000_000 4321 77 2 [] sent).1 in
    verify_sms toy email_of email_of 300 9_000_000_000 4321 78 2 [] used
    ≡ (fail 401 "invalid or expired OTP", used)
send_otp_once_example =
    send_otp_once toy email_of email_of false 100 200 9_000_000_000 1 4321 store refl (omega arith)
      300 77 78 2 4321 []

resend_otp_waits_test :
    let db' = (send_otp toy email_of email_of true false 100 9_000_000_000 1 4321 store).1 in
    resend_otp toy email_of email_of true 60_099 9_000_000_000 2 8765 db'
    ≡ (fail 429 "please wait 60 seconds before requesting another OTP", db')
resend_otp_waits_test =
    resend_otp_waits toy email_of email_of true false 100 60_099 9_000_000_000 1 2 4321 8765 store
      refl (omega arith)

-- A derivation whose digits are numbers from 1000 on, where smaller numbers are short.
abbrev toy_kdf : Kdf
toy_kdf = record {
  pbkdf2 = λ password salt. 1000 + password + salt;
  bytes = λ t. t;
  byte_length = λ t. if ltb t 1000 then 16 else 64;
}

toy_kdf-Is64Bytes : Is64Bytes toy_kdf
toy_kdf-Is64Bytes password salt = (ground arith, ground arith)

abbrev accounts : Accounts
accounts = record { db = store; projects = []; environments = []; tenant_plans = [] }

register-login_example :
    (login toy toy_kdf 500 79 6 51 1235
      (register toy toy_kdf 2 400 78 2 9 5 30 51 1234 accounts).1.db).0
    ≡ fail 401 "invalid credentials"
unfolding register make_token sign_jwt commit
register-login_example =
    register-login toy toy_kdf toy_kdf-Is64Bytes 2 400 78 2 9 5 30 51 1234 accounts (3 ∷ 4 ∷ 8 ∷ [])
      500 79 6 1235 refl refl

sms_login_throws_example :
    (login toy toy_kdf 500 79 6 900 1234
      (find_or_create toy (λ m. m) (λ m. m) 400 900 3 (sms_text ∷ 7 ∷ []) store).1).0
    ≡ fail 500 "Input buffers must have the same byte length"
sms_login_throws_example =
    sms_login_throws toy toy_kdf toy_kdf-Is64Bytes (λ m. m) (λ m. m) 400 900 3 7 store 500 79 6 1234
      refl refl refl
