-- ===== src/Auth.antt =====
-- Authentication: platform/services/tinai-api/src/routes/auth.ts and the preHandler of server.ts.
-- Here are the tables, the JWT helpers and the parameters that stand for node's crypto module.
-- Times are milliseconds; ids, emails, mobiles and tokens are numbers.
pub mod Sessions
pub mod Sms
pub mod Gateway
pub mod Passwords
mod Tests
use tinai_infra.Prelude.{
  ℕ, ◌+◌, ◌/◌, Bool, true, false, not, ◌&&◌, ◌||◌, Option, none, some, List, [], ◌∷◌, if◌then◌else◌,
  ◌==◌, ltb, is_some, find, Check, pass, reject, require, require_row, ◌>>=◌, ◌>>◌,
}

pub data Role : Type 0 where
  tenant admin : Role

-- A row of `users`.
pub record User : Type 0 where
  pub id : ℕ
  pub email : ℕ
  pub password_hash : List ℕ
  pub role : Role
  pub tenant_id : ℕ
  pub magic_token : Option ℕ
  pub magic_expires : Option ℕ
  pub last_login : Option ℕ

pub record RefreshRow : Type 0 where
  pub user_id : ℕ
  pub token_hash : ℕ
  pub expires_at : ℕ

pub record Otp : Type 0 where
  pub id : ℕ
  pub mobile : ℕ
  pub otp_hash : ℕ
  pub expires_at : ℕ
  pub used : Bool
  pub created_at : ℕ

pub record Revoked : Type 0 where
  pub jti : ℕ
  pub user_id : ℕ
  pub expires_at : ℕ

pub record Db : Type 0 where
  pub users : List User
  pub refresh_tokens : List RefreshRow
  pub sms_otps : List Otp
  pub revoked_tokens : List Revoked

-- The claims of a token's payload that the code reads; each may be missing from a payload that others
-- have made. `email` and `iat`, which `makeToken` also writes, are left out.
pub record Claims : Type 0 where
  pub sub : Option ℕ
  pub role : Option Role
  pub tenant_id : Option ℕ
  pub legacy_tenant : Option ℕ
  pub jti : Option ℕ
  pub exp : Option ℕ

-- A token, split at its dots; an empty part is zero.
abbrev pub Token : Type 0
Token = List ℕ

-- What the code takes from node's crypto and Buffer: an HMAC of a header and a body under the JWT
-- secret, the header's text, the payload's base64url JSON and back, the bytes that a base64url text
-- stands for, which several texts can share, and a digest.
pub record Crypto : Type 0 where
  pub hmac : ℕ → ℕ → ℕ
  pub header : ℕ
  pub encode : Claims → ℕ
  pub decode : ℕ → Option Claims
  pub bytes : ℕ → ℕ
  pub sha256 : ℕ → ℕ

abbrev pub jwt_expiry_seconds : ℕ
jwt_expiry_seconds = 86_400

module _ (k : Crypto) where
  -- `signJwt`
  unfoldable pub sign_jwt : Claims → Token
  sign_jwt c = let body = k.encode c in k.header ∷ body ∷ k.hmac k.header body ∷ []

  -- The payload of `makeToken`; `jti` is the random id.
  abbrev pub claims_for : (now jti : ℕ) → User → Claims
  claims_for now jti u = record {
    sub = some u.id;
    role = some u.role;
    tenant_id = some u.tenant_id;
    legacy_tenant = none;
    jti = some jti;
    exp = some (now / 1000 + jwt_expiry_seconds);
  }

  -- `makeToken`
  unfoldable pub make_token : (now jti : ℕ) → User → Token
  unfolding sign_jwt
  make_token now jti u = sign_jwt (claims_for now jti u)

  -- The header, the body and the signature of a token that has three parts.
  abbrev pub parts : Token → Check (ℕ × ℕ × ℕ)
  parts (h ∷ b ∷ s ∷ []) = pass (h, b, s)
  parts _ = reject 401 "malformed token"

  abbrev pub is_expired : ℕ → Option ℕ → Bool
  is_expired now none = false
  is_expired now (some e) = ltb e (now / 1000)

  -- `jti = $1 AND expires_at > NOW()`
  abbrev pub is_revoked : (now jti : ℕ) → Revoked → Bool
  is_revoked now jti r = r.jti == jti && ltb now r.expires_at

  abbrev pub denied : ℕ → Option ℕ → List Revoked → Bool
  denied now none rs = false
  denied now (some jti) rs = is_some (find (is_revoked now jti) rs)

  -- `verifyJwt`, with the denylist check.
  unfoldable pub verify_jwt : ℕ → Token → Db → Check Claims
  verify_jwt now token db = do
    p ← parts token
    require (p.2 == k.hmac p.0 p.1) 401 "invalid signature"
    c ← require_row (k.decode p.1) 401 "Unexpected token"
    require (not (is_expired now c.exp)) 401 "token expired"
    require (not (denied now c.jti db.revoked_tokens)) 401 "token revoked"
    pass c
