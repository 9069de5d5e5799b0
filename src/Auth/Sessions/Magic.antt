-- ===== src/Auth/Sessions/Magic.antt =====
-- A sign-in code is used once, and asking for one tells nothing about an address.
use tinai_infra.Prelude.{
  ℕ, ◌+◌, ◌≡◌, ◌≤◌, ◌<◌, inl, inr, false, some, List, [], ◌∷◌, arith, find, update_where,
  Bool-cases, find-update_where_gone, send, fail, status, is_some,
}
use tinai_infra.Auth.{User, Db, Crypto}
use tinai_infra.Auth.Sessions.{
  by_email, has_magic, magic_ms, consumed, magic_link, verify_magic_link, Session,
}

module _ (k : Crypto) where
  -- A code that has signed someone in is refused at that time and ever after.
  pub verify_magic_link_once :
      (now later email token jti raw jti' raw' : ℕ) (db : Db) (s : Session)
      → now ≤ later
      → (verify_magic_link k now email token jti raw db).0 ≡ send 200 s
      → (verify_magic_link k later email token jti' raw'
          (verify_magic_link k now email token jti raw db).1).0
        ≡ fail 401 "invalid or expired token"
  unfolding verify_magic_link
  verify_magic_link_once now later email token jti raw jti' raw' db s le h = ground (
    arith,
    find-update_where_gone (has_magic k later email token) (has_magic k now email token)
        (consumed k now) db.users (λ a e. ground arith) (λ a. ground arith),
  )

  has_magic_sent :
      (now later email otp : ℕ) (us : List User) (u : User)
      → later < now + magic_ms
      → find (by_email email) us ≡ some u
      → (v : User) × (find (has_magic k later email otp) (
            update_where
              (by_email email)
              (λ u. record u { magic_token = some otp; magic_expires = some (now + magic_ms) })
              us)
          ≡ some v)
  has_magic_sent now later email otp [] u lt e = ground arith
  has_magic_sent now later email otp (x ∷ us) u lt e = elim (Bool-cases (by_email email x)) [
    | inl mine ↦ (
      record x { magic_token = some otp; magic_expires = some (now + magic_ms) },
      rw (mine, find) (ground arith),
    )
    | inr other ↦
        let (v, found) = has_magic_sent now later email otp us u lt (ground arith) in
        (v, rw (other, find) (ground arith))
  ]

  -- The code that was sent to a registered address signs its owner in, for 15 minutes.
  pub magic_link_signs_in :
      (now later email otp jti raw : ℕ) (db : Db) (u : User)
      → find (by_email email) db.users ≡ some u
      → later < now + magic_ms
      → status
          (verify_magic_link k later email otp jti raw (magic_link k false now email otp db).1).0
        ≡ 200
  unfolding magic_link verify_magic_link
  magic_link_signs_in now later email otp jti raw db u e lt =
      rw (e, is_some) (ground (arith, has_magic_sent now later email otp db.users u lt e))

  -- Outside development the answer to a request for a code is the same for every address.
  pub magic_link_silent :
      (now email other otp otp' : ℕ) (db : Db)
      → (magic_link k false now email otp db).0 ≡ (magic_link k false now other otp' db).0
  unfolding magic_link
  magic_link_silent now email other otp otp' db = ground arith
