-- ===== src/Auth/Gateway/Denylist.antt =====
-- What the hook checks of a token, beside what `verifyJwt` of routes/auth.ts does.
use tinai_infra.Prelude.{
  ℕ, ◌+◌, ◌*◌, ◌≡◌, ◌≢◌, ◌≤◌, ◌<◌, ap, ◌∙◌, refl, subst, inl, inr, Bool, ◌||◌, true, false, none,
  some, [], ◌∷◌, arith, find, ◌==◌, Option-cases, ==_refl, pass, reject,
}
use tinai_infra.Auth.{
  Crypto, Token, Claims, Revoked, Db, verify_jwt, sign_jwt, make_token, claims_for, User,
}
use tinai_infra.Auth.Sessions.{logout, bearer}
use tinai_infra.Auth.Sessions.Logout.{verified_parts, logout_revokes}
use tinai_infra.Auth.Gateway.{
  Request, Identity, identity_of, is_public, is_deploy, authenticate, pre_handler, is_past,
}

abbrev pub has_empty : Token → Bool
has_empty [] = false
has_empty (p ∷ ps) = p == 0 || has_empty ps

module _ (k : Crypto) where
  -- The hook takes a signed token for its claims while its expiry lies ahead.
  authenticate_known :
      (now h b : ℕ) (c : Claims)
      → k.decode b ≡ some c
      → is_past now c.exp ≡ false
      → has_empty (h ∷ b ∷ k.hmac h b ∷ []) ≡ false
      → authenticate k now (h ∷ b ∷ k.hmac h b ∷ []) ≡ pass (identity_of c)
  unfolding authenticate
  authenticate_known now h b c d young whole = ground (arith, ==_refl (k.bytes (k.hmac h b)))

  -- A logout does not close the routes to its token. Until the token, no part of which is empty,
  -- expires, `verifyJwt` answers "token revoked", and yet the hook gives a request with the token and
  -- the CSRF header its user.
  pub pre_handler_after_logout :
      (now later : ℕ) (token : Token) (db : Db) (c : Claims) (jti user exp : ℕ) (r : Request)
      → verify_jwt k now token db ≡ pass c
      → c.jti ≡ some jti
      → c.sub ≡ some user
      → c.exp ≡ some exp
      → find (λ (q : Revoked). q.jti == jti) db.revoked_tokens ≡ none
      → later < exp * 1000
      → is_public r.route ≡ false
      → is_deploy r ≡ false
      → r.has_csrf ≡ true
      → r.token ≡ some token
      → has_empty token ≡ false
      → (verify_jwt k later token (logout k now (bearer token) db) ≡ reject 401 "token revoked")
        × (pre_handler k later r ≡ pass (some (identity_of c)))
  unfolding pre_handler
  pre_handler_after_logout now later token db c jti user exp r v ej es ee fresh lt private
        not_deploy csrf et whole =
      let (h, b, same, d, _) = verified_parts k now token db c v in
      let young : is_past later c.exp ≡ false = rw (ee, is_past) (ground arith) in
      let whole' : has_empty (h ∷ b ∷ k.hmac h b ∷ []) ≡ false =
        subst (λ t. has_empty t ≡ false) same whole in
      let known : authenticate k later token ≡ pass (identity_of c) =
        rw same (authenticate_known later h b c d young whole') in
      ((logout_revokes k now later token db c jti user exp v ej es ee fresh lt).0, ground arith)

  authenticated_parts :
      (now : ℕ) (token : Token) (i : Identity)
      → authenticate k now token ≡ pass i
      → (h : ℕ) × (b : ℕ) × (sig : ℕ) × (rest : Token) × (c : Claims) × (token ≡ h ∷ b ∷ sig ∷ rest)
        × (k.bytes sig ≡ k.bytes (k.hmac h b))
        × (k.decode b ≡ some c)
        × (is_past now c.exp ≡ false)
        × (i ≡ identity_of c)
  unfolding authenticate
  authenticated_parts now [] i e = ground arith
  authenticated_parts now (h ∷ []) i e = ground arith
  authenticated_parts now (h ∷ b ∷ []) i e = ground arith
  authenticated_parts now (h ∷ b ∷ s ∷ rest) i e = elim (Option-cases (k.decode b)) [
    | inl bad ↦ ground arith
    | inr (c, d) ↦ (h, b, s, rest, c, refl, ground arith, d, ground arith, ground arith)
  ]

  pre_handler_authenticates :
      (now : ℕ) (r : Request) (i : Identity) (token : Token)
      → r.token ≡ some token
      → pre_handler k now r ≡ pass (some i)
      → authenticate k now token ≡ pass i
  unfolding pre_handler
  pre_handler_authenticates now r i token et e = ground arith

  no_token_no_identity :
      (now : ℕ) (r : Request) (i : Identity) → r.token ≡ none → pre_handler k now r ≢ pass (some i)
  unfolding pre_handler
  no_token_no_identity now r i et e = ground arith

  -- Nobody is given an identity by the hook but the bearer of a token whose third part stands for the
  -- bytes of the signature of the first two, and the identity is the one in the payload.
  pub pre_handler_identity :
      (now : ℕ) (r : Request) (i : Identity)
      → pre_handler k now r ≡ pass (some i)
      → (h : ℕ) × (b : ℕ) × (sig : ℕ) × (rest : Token) × (c : Claims) × (r.token
          ≡ some (h ∷ b ∷ sig ∷ rest))
        × (k.bytes sig ≡ k.bytes (k.hmac h b))
        × (k.decode b ≡ some c)
        × (is_past now c.exp ≡ false)
        × (i ≡ identity_of c)
  pre_handler_identity now r i e = elim (Option-cases r.token) [
    | inl miss ↦ absurd (no_token_no_identity now r i miss e)
    | inr (token, et) ↦
        let (h, b, sig, rest, c, same, signed, d, young, is) =
          authenticated_parts now token i (pre_handler_authenticates now r i token et e) in
        (h, b, sig, rest, c, et ∙ ap some same, signed, d, young, is)
  ]

  -- For 24 hours, a token made for a user signs the user in to every route that is neither public nor
  -- the deploy webhook, in a request with the CSRF header, where the payload decodes to what was
  -- encoded and no part of the token is empty: the hook gives the user's id, tenant and role.
  pub make_token-pre_handler :
      (now later jti : ℕ) (u : User) (r : Request)
      → k.decode (k.encode (claims_for k now jti u)) ≡ some (claims_for k now jti u)
      → later ≤ now + 86_400_000
      → is_public r.route ≡ false
      → is_deploy r ≡ false
      → r.has_csrf ≡ true
      → r.token ≡ some (make_token k now jti u)
      → has_empty (make_token k now jti u) ≡ false
      → pre_handler k later r
        ≡ pass (some (record { user_id = some u.id; tenant_id = some u.tenant_id; role = u.role }))
  unfolding pre_handler make_token sign_jwt
  make_token-pre_handler now later jti u r round le private not_deploy csrf et whole =
      let known =
        authenticate_known later k.header (k.encode (claims_for k now jti u))
          (claims_for k now jti u) round (ground arith) whole in
      ground (arith, known)
