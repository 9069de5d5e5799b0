-- ===== src/Auth/Sessions.antt =====
-- Sign-in by magic link, refresh tokens and logout.
pub mod Refresh
pub mod Magic
pub mod Logout
use tinai_infra.Prelude.{
  ℕ, ◌+◌, ◌*◌, String, Bool, true, false, not, ◌&&◌, ◌||◌, Option, none, some, List, [], ◌∷◌, ◌++◌,
  if◌then◌else◌, ◌==◌, ltb, is_some, find, update_where, delete_where, Reply, send, fail, Check,
  pass, reject,
}
use tinai_infra.Auth.{User, RefreshRow, Revoked, Db, Claims, Token, Crypto, make_token, verify_jwt}

abbrev pub refresh_ms : ℕ
refresh_ms = 2_592_000_000

abbrev pub magic_ms : ℕ
magic_ms = 900_000

-- The body of a successful sign-in.
pub record Session : Type 0 where
  pub access_token : Token
  pub refresh_token : ℕ
  pub user_id : ℕ

abbrev pub by_id : ℕ → User → Bool
by_id id u = u.id == id

abbrev pub by_email : ℕ → User → Bool
by_email email u = u.email == email

module _ (k : Crypto) where
  -- `createRefreshToken`, where `raw` is the random token.
  unfoldable pub create_refresh_token : (now user raw : ℕ) → Db → Db
  create_refresh_token now user raw db = record db {
    refresh_tokens =
        db.refresh_tokens
        ++ record { user_id = user; token_hash = k.sha256 raw; expires_at = now + refresh_ms } ∷ [];
  }

  -- `token_hash = $1 AND expires_at > NOW()`
  abbrev pub is_live : (now hash : ℕ) → RefreshRow → Bool
  is_live now hash r = r.token_hash == hash && ltb now r.expires_at

  -- `rotateRefreshToken`: the user whose token it was, where there was one.
  unfoldable pub rotate_refresh_token : (now raw new_raw : ℕ) → Db → Option ℕ × Db
  unfolding create_refresh_token
  rotate_refresh_token now raw new_raw db =
      elim (find (is_live now (k.sha256 raw)) db.refresh_tokens) [
        | none ↦ (none, db)
        | some row ↦ (
          some row.user_id,
          create_refresh_token now row.user_id new_raw (record db {
            refresh_tokens = delete_where (is_live now (k.sha256 raw)) db.refresh_tokens;
          }),
        )
      ]

  -- What POST /auth/refresh answers once the token is rotated.
  abbrev pub refreshed : (now jti new_raw : ℕ) → Option ℕ → Db → Reply (Token × ℕ)
  refreshed now jti new_raw none db = fail 401 "invalid or expired refresh token"
  refreshed now jti new_raw (some user) db = elim (find (by_id user) db.users) [
    | none ↦ fail 401 "user not found"
    | some u ↦ send 200 (make_token k now jti u, new_raw)
  ]

  -- POST /auth/refresh
  unfoldable pub refresh : (now jti raw new_raw : ℕ) → Db → Reply (Token × ℕ) × Db
  refresh now jti raw new_raw db =
      let (user, db') = rotate_refresh_token now raw new_raw db in
      (refreshed now jti new_raw user db', db')

  -- POST /auth/magic-link; the code is shown only in development.
  unfoldable pub magic_link : (dev : Bool) (now email otp : ℕ) → Db → Reply (Option ℕ) × Db
  magic_link dev now email otp db =
      if is_some (find (by_email email) db.users)
      then (
        send 200 (if dev then some otp else none),
        record db {
          users =
              update_where (by_email email)
                (λ u. record u { magic_token = some otp; magic_expires = some (now + magic_ms) })
                db.users;
        },
      )
      else (send 200 none, db)

  abbrev pub token_is : ℕ → Option ℕ → Bool
  token_is t none = false
  token_is t (some m) = m == t

  abbrev pub is_open : ℕ → Option ℕ → Bool
  is_open now none = false
  is_open now (some e) = ltb now e

  -- `email = $1 AND magic_token = $2 AND magic_expires > NOW()`
  abbrev pub has_magic : (now email token : ℕ) → User → Bool
  has_magic now email token u =
      u.email == email && (token_is token u.magic_token && is_open now u.magic_expires)

  abbrev pub consumed : ℕ → User → User
  consumed now u = record u { magic_token = none; magic_expires = none; last_login = some now }

  -- POST /auth/verify-magic-link
  unfoldable pub verify_magic_link : (now email token jti raw : ℕ) → Db → Reply Session × Db
  unfolding create_refresh_token
  verify_magic_link now email token jti raw db = elim (find (has_magic now email token) db.users) [
    | none ↦ (fail 401 "invalid or expired token", db)
    | some u ↦ (
      send 200 (record {
        access_token = make_token k now jti (consumed now u);
        refresh_token = raw;
        user_id = u.id;
      }),
      create_refresh_token now u.id raw
          (record db { users = update_where (has_magic now email token) (consumed now) db.users }),
    )
  ]

  -- `ON CONFLICT (jti) DO NOTHING`
  abbrev pub revoke : Revoked → List Revoked → List Revoked
  revoke r rs = if is_some (find (λ q. q.jti == r.jti) rs) then rs else rs ++ r ∷ []

  abbrev pub of_user : ℕ → RefreshRow → Bool
  of_user user r = r.user_id == user

  -- The column `user_id` is NOT NULL: for claims without a subject the insert raises, and the
  -- handler carries on with nothing written.
  abbrev pub revoke_claims : Claims → List Revoked → List Revoked
  revoke_claims c rs = elim c.jti [
    | none ↦ rs
    | some jti ↦ elim c.exp [
      | none ↦ rs
      | some exp ↦ elim c.sub [
        | none ↦ rs
        | some user ↦ revoke (record { jti = jti; user_id = user; expires_at = exp * 1000 }) rs
      ]
    ]
  ]

  abbrev pub drop_tokens : Option ℕ → List RefreshRow → List RefreshRow
  drop_tokens none ts = ts
  drop_tokens (some user) ts = delete_where (of_user user) ts

  -- The token in the Authorization header, or else the refresh token in the body.
  pub data Credential : Type 0 where
    bearer : Token → Credential
    raw_refresh : ℕ → Credential
    nothing : Credential

  abbrev pub end_session : Check Claims → Db → Db
  end_session (reject n e) db = db
  end_session (pass c) db = record db {
    revoked_tokens = revoke_claims c db.revoked_tokens;
    refresh_tokens = drop_tokens c.sub db.refresh_tokens;
  }

  -- POST /auth/logout; it answers `{ ok: true }` whatever happens.
  unfoldable pub logout : ℕ → Credential → Db → Db
  logout now (bearer token) db = end_session (verify_jwt k now token db) db
  logout now (raw_refresh raw) db = record db {
    refresh_tokens = delete_where (λ r. r.token_hash == k.sha256 raw) db.refresh_tokens;
  }
  logout now nothing db = db
