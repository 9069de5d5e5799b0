-- ===== src/Auth/Gateway.antt =====
-- The preHandler of platform/services/tinai-api/src/server.ts, through which every request goes.
pub mod Denylist
use text.Mathlib.Text.{◌==◌ as str_eq}
use tinai_infra.Prelude.{
  ℕ, ◌/◌, String, Bool, true, false, not, ◌&&◌, ◌||◌, Option, none, some, List, [], ◌∷◌,
  if◌then◌else◌, ◌==◌, ltb, is_some, or_else, Check, pass, reject, require, require_row, ◌>>=◌,
  ◌>>◌,
}
use tinai_infra.Auth.{Role, tenant, Claims, Token, Crypto}

pub data Method : Type 0 where
  get post put delete patch other : Method

abbrev pub is_mutating : Method → Bool
is_mutating get = false
is_mutating other = false
is_mutating _ = true

-- `PUBLIC_ROUTES`
abbrev pub public_routes : List String
public_routes =
    "/healthz" ∷ "/api/v1/auth/register" ∷ "/api/v1/auth/login" ∷ "/api/v1/auth/magic-link"
    ∷ "/api/v1/auth/verify-magic-link" ∷ "/api/v1/auth/sms-otp" ∷ "/api/v1/auth/verify-sms"
    ∷ "/api/v1/auth/resend-sms" ∷ "/api/v1/billing/webhooks/razorpay"
    ∷ "/api/v1/compliance/privacy-notice" ∷ "/api/v1/templates"
    ∷ "/api/v1/forge/callbacks/build-complete" ∷ "/api/v1/forge/callbacks/rollout-complete" ∷ []

abbrev has_route : String → List String → Bool
has_route r [] = false
has_route r (p ∷ ps) = str_eq p r || has_route r ps

unfoldable pub is_public : String → Bool
is_public route = has_route route public_routes

-- A request: the token is none where the Authorization header is missing or has no `Bearer `.
pub record Request : Type 0 where
  pub method : Method
  pub route : String
  pub has_csrf : Bool
  pub token : Option Token

-- What the handlers find on the request.
pub record Identity : Type 0 where
  pub user_id : Option ℕ
  pub tenant_id : Option ℕ
  pub role : Role

-- `a ?? b`
abbrev pub first_of_two : Option ℕ → Option ℕ → Option ℕ
first_of_two none b = b
first_of_two (some a) b = some a

abbrev pub identity_of : Claims → Identity
identity_of c = record {
  user_id = c.sub;
  tenant_id = first_of_two c.tenant_id (first_of_two c.legacy_tenant c.sub);
  role = or_else c.role tenant;
}

abbrev pub is_post : Method → Bool
is_post post = true
is_post _ = false

-- The webhook that has its own token.
abbrev pub is_deploy : Request → Bool
is_deploy r = is_post r.method && str_eq r.route "/api/v1/apps/:name/deploy"

-- `payload.exp && payload.exp < …`
abbrev pub is_past : ℕ → Option ℕ → Bool
is_past now none = false
is_past now (some e) = not (e == 0) && ltb e (now / 1000)

module _ (k : Crypto) where
  -- The first three parts of the token, none of them empty; further ones are dropped.
  abbrev pub three_parts : Token → Check (ℕ × ℕ × ℕ)
  three_parts (h ∷ b ∷ s ∷ _) =
      if h == 0 || b == 0 || s == 0 then reject 401 "unauthorized: malformed" else pass (h, b, s)
  three_parts _ = reject 401 "unauthorized: malformed"

  -- The `try` block; the signatures are compared as bytes.
  unfoldable pub authenticate : ℕ → Token → Check Identity
  authenticate now token = do
    p ← three_parts token
    require (k.bytes p.2 == k.bytes (k.hmac p.0 p.1)) 401 "unauthorized: invalid signature"
    c ← require_row (k.decode p.1) 401 "unauthorized: Unexpected token"
    require (not (is_past now c.exp)) 401 "unauthorized: token expired"
    pass (identity_of c)

  -- The hook: none where the request goes on without an identity.
  unfoldable pub pre_handler : ℕ → Request → Check (Option Identity)
  pre_handler now r =
      if is_mutating r.method && not (is_public r.route) && not r.has_csrf
      then reject 403 "CSRF protection: missing or invalid x-tinai-csrf header"
      else if is_public r.route || is_deploy r
      then pass none
      else elim r.token [
        | none ↦ reject 401 "missing or invalid authorization header"
        | some token ↦ elim (authenticate now token) [
          | pass i ↦ pass (some i)
          | reject n e ↦ reject n e
        ]
      ]
