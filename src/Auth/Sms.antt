-- ===== src/Auth/Sms.antt =====
-- Sign-in by SMS: POST /auth/sms-otp, /auth/verify-sms and /auth/resend-sms of routes/auth.ts.
pub mod Codes
use tinai_infra.Prelude.{
  ℕ, ◌+◌, String, Bool, true, false, not, ◌&&◌, ◌||◌, Option, none, some, List, [], ◌∷◌, ◌++◌,
  if◌then◌else◌, ◌==◌, ltb, leb, is_some, find, select, update_where, delete_where, Reply, send,
  fail, Check, pass, require, require_row, commit, ◌>>=◌, ◌>>◌,
}
use tinai_infra.Auth.{Role, tenant, User, Otp, Db, Token, Crypto, make_token}

-- `/^[6-9]\d{9}$/`, on the number that ten digits spell.
abbrev pub is_mobile : ℕ → Bool
is_mobile m = leb 6_000_000_000 m && ltb m 10_000_000_000

abbrev pub sms_otp_ms : ℕ
sms_otp_ms = 600_000

abbrev pub cooldown_ms : ℕ
cooldown_ms = 60_000

abbrev pub mobile_is : ℕ → Otp → Bool
mobile_is m o = o.mobile == m

-- `mobile = $1 AND used = false AND expires_at > NOW()`
abbrev pub is_usable : (now mobile : ℕ) → Otp → Bool
is_usable now m o = o.mobile == m && not o.used && ltb now o.expires_at

-- `ORDER BY created_at DESC LIMIT 1`
abbrev pub latest : List Otp → Option Otp
latest [] = none
latest (o ∷ os) = elim (latest os) [
  | none ↦ some o
  | some p ↦ if ltb o.created_at p.created_at then some p else some o
]

-- `mobile = $1 AND created_at > NOW() - INTERVAL '60 seconds'`
abbrev pub is_recent : (now mobile : ℕ) → Otp → Bool
is_recent now m o = o.mobile == m && ltb now (o.created_at + cooldown_ms)

abbrev pub purged : ℕ → Db → Db
purged mobile db = record db { sms_otps = delete_where (mobile_is mobile) db.sms_otps }

abbrev pub bad_mobile : String
bad_mobile = "mobile must be a 10-digit Indian number starting with 6–9"

abbrev pub mark_used : ℕ → List Otp → List Otp
mark_used id os = update_where (λ o. o.id == id) (λ o. record o { used = true }) os

-- `email_of` and `tenant_of` are the texts that the code makes of a mobile number.
module _ (k : Crypto) (email_of tenant_of : ℕ → ℕ) where
  -- The old codes are purged first; where the SMS cannot be sent, the handler throws after that.
  pub issue : (sent dev : Bool) (now mobile id otp : ℕ) → Db → Reply (Option ℕ) × Db
  issue false dev now mobile id otp db = (fail 500 "send failed", purged mobile db)
  issue true dev now mobile id otp db = (
    send 200 (if dev then some otp else none),
    record db {
      sms_otps =
          delete_where (mobile_is mobile) db.sms_otps
          ++ record {
            id = id;
            mobile = mobile;
            otp_hash = k.sha256 otp;
            expires_at = now + sms_otp_ms;
            used = false;
            created_at = now;
          }
            ∷ [];
    },
  )

  -- POST /auth/sms-otp
  unfoldable pub send_otp : (sent dev : Bool) (now mobile id otp : ℕ) → Db → Reply (Option ℕ) × Db
  unfolding issue
  send_otp sent dev now mobile id otp db =
      commit (require (is_mobile mobile) 400 bad_mobile) (λ _. issue sent dev now mobile id otp) db

  -- POST /auth/resend-sms; its answer never shows the code.
  unfoldable pub resend_otp : (sent : Bool) (now mobile id otp : ℕ) → Db → Reply (Option ℕ) × Db
  unfolding issue
  resend_otp sent now mobile id otp db =
      commit
        (do
          require (is_mobile mobile) 400 bad_mobile
          require (not (is_some (find (is_recent now mobile) db.sms_otps))) 429
              "please wait 60 seconds before requesting another OTP")
        (λ _. issue sent false now mobile id otp) db

  -- The user of a mobile, who is created at the first sign-in; `sentinel` is no password's hash.
  unfoldable pub find_or_create : (now mobile new_id : ℕ) → (sentinel : List ℕ) → Db → User × Db
  find_or_create now mobile new_id sentinel db =
      elim (find (λ (u : User). u.email == email_of mobile) db.users) [
        | some u ↦ (
          u,
          record db {
            users =
                update_where (λ (v : User). v.id == u.id) (λ v. record v { last_login = some now })
                  db.users;
          },
        )
        | none ↦
            let new : User = record {
              id = new_id;
              email = email_of mobile;
              password_hash = sentinel;
              role = tenant;
              tenant_id = tenant_of mobile;
              magic_token = none;
              magic_expires = none;
              last_login = none;
            } in
            (new, record db { users = db.users ++ new ∷ [] })
      ]

  unfoldable pub sms_check : (now mobile otp : ℕ) → Db → Check Otp
  sms_check now mobile otp db = do
    require (is_mobile mobile) 400 bad_mobile
    o ←
        require_row (latest (select (is_usable now mobile) db.sms_otps)) 401
          "invalid or expired OTP"
    require (o.otp_hash == k.sha256 otp) 401 "invalid or expired OTP"
    pass o

  -- POST /auth/verify-sms
  unfoldable pub verify_sms :
      (now mobile otp jti new_id : ℕ) → (sentinel : List ℕ) → Db → Reply Token × Db
  unfolding find_or_create
  verify_sms now mobile otp jti new_id sentinel db =
      commit (sms_check now mobile otp db)
        (λ o db.
          let (u, db') =
            find_or_create now mobile new_id sentinel
              (record db { sms_otps = mark_used o.id db.sms_otps }) in
          (send 200 (make_token k now jti u), db'))
        db
