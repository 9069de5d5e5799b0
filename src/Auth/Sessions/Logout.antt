-- ===== src/Auth/Sessions/Logout.antt =====
-- What a logout ends.
use tinai_infra.Prelude.{
  ℕ, ◌+◌, ◌*◌, ◌/◌, ◌≡◌, ◌≤◌, ◌<◌, ◌∙◌, inl, inr, false, none, some, List, [], ◌∷◌, arith, find,
  ◌==◌, ltb, Option-cases, if◌then◌else◌, ==_refl, is_some, pass, reject, find-append_miss,
  find-none_of_stricter, find-delete_where_gone,
}
use tinai_infra.Auth.{
  Db, Crypto, Claims, Token, Revoked, is_revoked, verify_jwt, is_expired, denied,
}
use tinai_infra.Auth.Sessions.{
  bearer, logout, revoke, end_session, revoke_claims, drop_tokens, of_user,
}

module _ (k : Crypto) where
  revoked_row :
      (later jti user exp : ℕ) (rs : List Revoked)
      → find (λ q. q.jti == jti) rs ≡ none
      → find
          (is_revoked k later jti)
          (revoke k (record { jti = jti; user_id = user; expires_at = exp * 1000 }) rs)
        ≡ (if ltb later (exp * 1000)
            then some (record { jti = jti; user_id = user; expires_at = exp * 1000 })
            else none)
  revoked_row later jti user exp rs h =
      rw (h, revoke, is_some)
        (find-append_miss (is_revoked k later jti) rs _ (
            find-none_of_stricter (is_revoked k later jti) (λ q. q.jti == jti) rs
              (λ a e. ground arith) h)
          ∙ ground (arith, ==_refl jti))

  -- A verified token's third part is its signature, and its claims are what the payload decodes to.
  pub verified_parts :
      (now : ℕ) (token : Token) (db : Db) (c : Claims)
      → verify_jwt k now token db ≡ pass c
      → (h : ℕ) × (b : ℕ) × (token ≡ h ∷ b ∷ k.hmac h b ∷ [])
        × (k.decode b ≡ some c)
        × (is_expired k now c.exp ≡ false)
  unfolding verify_jwt
  verified_parts now [] db c e = ground arith
  verified_parts now (h ∷ []) db c e = ground arith
  verified_parts now (h ∷ b ∷ []) db c e = ground arith
  verified_parts now (h ∷ b ∷ s ∷ []) db c e = elim (Option-cases (k.decode b)) [
    | inl bad ↦ ground arith
    | inr (c', d) ↦ (h, b, ground arith, ground arith, ground arith)
  ]
  verified_parts now (h ∷ b ∷ s ∷ _ ∷ _) db c e = ground arith

  -- A token that has verified before is refused later only for its age or the denylist.
  verify_known :
      (later h b : ℕ) (db : Db) (c : Claims)
      → k.decode b ≡ some c
      → is_expired k later c.exp ≡ false
      → verify_jwt k later (h ∷ b ∷ k.hmac h b ∷ []) db
        ≡ (if denied k later c.jti db.revoked_tokens then reject 401 "token revoked" else pass c)
  unfolding verify_jwt
  verify_known later h b db c d young = ground (arith, ==_refl (k.hmac h b))

  -- The denylist after the session of some claims has ended.
  denied_after :
      (later : ℕ) (db : Db) (c : Claims) (jti user exp : ℕ)
      → c.jti ≡ some jti
      → c.sub ≡ some user
      → c.exp ≡ some exp
      → find (λ (q : Revoked). q.jti == jti) db.revoked_tokens ≡ none
      → denied k later c.jti (end_session k (pass c) db).revoked_tokens ≡ ltb later (exp * 1000)
  denied_after later db c jti user exp ej es ee fresh =
      rw (ej, ee, es, denied, revoke_claims)
        (rw (revoked_row later jti user exp db.revoked_tokens fresh, is_some) (ground arith))

  -- What the tokens of a user come to when the session of the user's claims has ended.
  tokens_after :
      (db : Db) (c : Claims) (user : ℕ)
      → c.sub ≡ some user
      → find (of_user k user) (end_session k (pass c) db).refresh_tokens ≡ none
  tokens_after db c user es =
      rw (es, drop_tokens)
        (find-delete_where_gone (of_user k user) (of_user k user) db.refresh_tokens (λ a e. e))

  -- What a verified token does after the logout that it made.
  verify_after_logout :
      (now later : ℕ) (token : Token) (db : Db) (c : Claims) (jti user exp : ℕ)
      → verify_jwt k now token db ≡ pass c
      → c.jti ≡ some jti
      → c.sub ≡ some user
      → c.exp ≡ some exp
      → find (λ (q : Revoked). q.jti == jti) db.revoked_tokens ≡ none
      → (later / 1000 ≤ exp)
      → verify_jwt k later token (logout k now (bearer token) db)
        ≡ (if ltb later (exp * 1000) then reject 401 "token revoked" else pass c)
  unfolding logout
  verify_after_logout now later token db c jti user exp v ej es ee fresh young =
      let (h, b, same, d, _) = verified_parts now token db c v in
      let young' : is_expired k later c.exp ≡ false = rw (ee, is_expired) (ground arith) in
      let seen = verify_known later h b (end_session k (pass c) db) c d young' in
      let after = denied_after later db c jti user exp ej es ee fresh in
      rw v (rw same (seen ∙ rw after))

  -- After a logout with a token that verifies, whose id has not been revoked before, the token is
  -- refused with "token revoked" while its expiry lies ahead; every refresh token of its user is gone.
  pub logout_revokes :
      (now later : ℕ) (token : Token) (db : Db) (c : Claims) (jti user exp : ℕ)
      → verify_jwt k now token db ≡ pass c
      → c.jti ≡ some jti
      → c.sub ≡ some user
      → c.exp ≡ some exp
      → find (λ (q : Revoked). q.jti == jti) db.revoked_tokens ≡ none
      → later < exp * 1000
      → let db' = logout k now (bearer token) db in
        (verify_jwt k later token db' ≡ reject 401 "token revoked")
        × (find (of_user k user) db'.refresh_tokens ≡ none)
  unfolding logout
  logout_revokes now later token db c jti user exp v ej es ee fresh lt = (
    verify_after_logout now later token db c jti user exp v ej es ee fresh (omega arith)
        ∙ ground arith,
    rw v (tokens_after db c user es),
  )

  -- In the second in which it expires, the token is accepted again: the denylist has dropped it
  -- already, and the test of the expiry, in whole seconds, has not.
  pub logout_last_second :
      (now later : ℕ) (token : Token) (db : Db) (c : Claims) (jti user exp : ℕ)
      → verify_jwt k now token db ≡ pass c
      → c.jti ≡ some jti
      → c.sub ≡ some user
      → c.exp ≡ some exp
      → find (λ (q : Revoked). q.jti == jti) db.revoked_tokens ≡ none
      → exp * 1000 ≤ later
      → later < exp * 1000 + 1000
      → verify_jwt k later token (logout k now (bearer token) db) ≡ pass c
  logout_last_second now later token db c jti user exp v ej es ee fresh le lt =
      verify_after_logout now later token db c jti user exp v ej es ee fresh (omega arith)
      ∙ ground arith
