-- ===== src/Auth/Sms/Codes.antt =====
-- Only the last code that was sent to a mobile signs in, once, and not more often than once a minute
-- is one sent again.
use tinai_infra.Prelude.{
  ℕ, ◌+◌, ◌≡◌, ◌<◌, refl, ap, ◌∙◌, inl, inr, Bool, true, false, some, List, [], ◌∷◌, ◌++◌, arith,
  select, delete_where, ◌==◌, Bool-cases, if◌then◌else◌, ==_refl, commit, fail, status, pass,
  reject, find-append_miss, find-delete_where_gone,
}
use tinai_infra.Auth.{Otp, Db, Crypto}
use tinai_infra.Auth.Sms.{
  is_mobile, sms_otp_ms, cooldown_ms, mobile_is, is_usable, latest, is_recent, send_otp, resend_otp,
  mark_used, find_or_create, sms_check, verify_sms,
}

-- What is left to select for a mobile once its codes are purged.
select_purged :
    (now mobile : ℕ) (os : List Otp) (o : Otp)
    → select (is_usable now mobile) (delete_where (mobile_is mobile) os ++ o ∷ [])
      ≡ select (is_usable now mobile) (o ∷ [])
select_purged now mobile [] o = refl
select_purged now mobile (p ∷ os) o = elim (Bool-cases (mobile_is mobile p)) [
  | inl mine ↦ rw mine (select_purged now mobile os o)
  | inr other ↦ ground (arith, select_purged now mobile os o)
]

-- Nothing usable is left once the new row is marked.
select_spent :
    (now mobile : ℕ) (os : List Otp) (o : Otp)
    → select (is_usable now mobile) (mark_used o.id (delete_where (mobile_is mobile) os ++ o ∷ []))
      ≡ []
select_spent now mobile [] o = ground (arith, ==_refl o.id)
select_spent now mobile (p ∷ os) o = elim (Bool-cases (mobile_is mobile p)) [
  | inl mine ↦ rw mine (select_spent now mobile os o)
  | inr other ↦ rw other (ground (arith, select_spent now mobile os o))
]

abbrev new_code : Crypto → (now mobile id otp : ℕ) → Otp
new_code k now mobile id otp = record {
  id = id;
  mobile = mobile;
  otp_hash = k.sha256 otp;
  expires_at = now + sms_otp_ms;
  used = false;
  created_at = now;
}

sent_code_found :
    (k : Crypto) (now later mobile id otp : ℕ) (os : List Otp)
    → later < now + sms_otp_ms
    → latest (
        select
          (is_usable later mobile)
          (delete_where (mobile_is mobile) os ++ new_code k now mobile id otp ∷ []))
      ≡ some (new_code k now mobile id otp)
sent_code_found k now later mobile id otp os lt =
    ap latest (select_purged later mobile os (new_code k now mobile id otp))
    ∙ ground (arith, ==_refl mobile)

module _ (k : Crypto) (email_of tenant_of : ℕ → ℕ) where
  find_or_create-sms_otps :
      (now mobile new_id : ℕ) (sentinel : List ℕ) (db : Db)
      → (find_or_create k email_of tenant_of now mobile new_id sentinel db).1.sms_otps ≡ db.sms_otps
  unfolding find_or_create
  find_or_create-sms_otps now mobile new_id sentinel db = ground arith

  -- The check by what is left to select.
  sms_check_found :
      (now mobile guess : ℕ) (db : Db) (o : Otp)
      → is_mobile mobile ≡ true
      → latest (select (is_usable now mobile) db.sms_otps) ≡ some o
      → sms_check k email_of tenant_of now mobile guess db
        ≡ (if o.otp_hash == k.sha256 guess then pass o else reject 401 "invalid or expired OTP")
  unfolding sms_check
  sms_check_found now mobile guess db o ok e = ground arith

  sms_check_empty :
      (now mobile guess : ℕ) (db : Db)
      → is_mobile mobile ≡ true
      → select (is_usable now mobile) db.sms_otps ≡ []
      → sms_check k email_of tenant_of now mobile guess db ≡ reject 401 "invalid or expired OTP"
  unfolding sms_check
  sms_check_empty now mobile guess db ok e = ground (arith, ap latest e)

  verify_sms_passed :
      (now mobile otp jti new_id : ℕ) (sentinel : List ℕ) (db : Db) (o : Otp)
      → sms_check k email_of tenant_of now mobile otp db ≡ pass o
      → let (reply, db') = verify_sms k email_of tenant_of now mobile otp jti new_id sentinel db in
        (status reply ≡ 200) × (db'.sms_otps ≡ mark_used o.id db.sms_otps)
  unfolding verify_sms commit
  verify_sms_passed now mobile otp jti new_id sentinel db o e =
      rw (e, verify_sms, commit)
        (
          refl,
          find_or_create-sms_otps now mobile new_id sentinel
              (record db { sms_otps = mark_used o.id db.sms_otps }),
        )

  verify_sms_rejected :
      (now mobile otp jti new_id : ℕ) (sentinel : List ℕ) (db : Db)
      → sms_check k email_of tenant_of now mobile otp db ≡ reject 401 "invalid or expired OTP"
      → verify_sms k email_of tenant_of now mobile otp jti new_id sentinel db
        ≡ (fail 401 "invalid or expired OTP", db)
  unfolding verify_sms commit
  verify_sms_rejected now mobile otp jti new_id sentinel db e = rw (e, verify_sms, commit)

  send_otp-sms_otps :
      (dev : Bool) (now mobile id otp : ℕ) (db : Db)
      → is_mobile mobile ≡ true
      → (send_otp k email_of tenant_of true dev now mobile id otp db).1.sms_otps
        ≡ delete_where (mobile_is mobile) db.sms_otps ++ new_code k now mobile id otp ∷ []
  unfolding send_otp commit
  send_otp-sms_otps dev now mobile id otp db ok = ground arith

  module _ (dev : Bool) (now later mobile id otp : ℕ) (db : Db) (ok : is_mobile mobile ≡ true)
      (lt : later < now + sms_otp_ms) where
    sent_code_usable :
        latest (
          select
            (is_usable later mobile)
            (send_otp k email_of tenant_of true dev now mobile id otp db).1.sms_otps)
        ≡ some (new_code k now mobile id otp)
    sent_code_usable =
        rw (send_otp-sms_otps dev now mobile id otp db ok)
          (sent_code_found k now later mobile id otp db.sms_otps lt)

    -- After a code is sent to a valid mobile, within ten minutes, that code and no code with another
    -- digest signs in.
    pub send_otp_only :
        (guess jti new_id : ℕ) (sentinel : List ℕ)
        → let db' = (send_otp k email_of tenant_of true dev now mobile id otp db).1 in
          status (verify_sms k email_of tenant_of later mobile guess jti new_id sentinel db').0
          ≡ (if k.sha256 otp == k.sha256 guess then 200 else 401)
    send_otp_only guess jti new_id sentinel =
        let db' = (send_otp k email_of tenant_of true dev now mobile id otp db).1 in
        let check =
          sms_check_found later mobile guess db' (new_code k now mobile id otp) ok
            sent_code_usable in
        elim (Bool-cases (k.sha256 otp == k.sha256 guess)) [
          | inl same ↦
              rw same
                (verify_sms_passed later mobile guess jti new_id sentinel db'
                  (new_code k now mobile id otp) (check ∙ rw same)).0
          | inr other ↦ rw other (
              ap (λ r. status r.0)
                (verify_sms_rejected later mobile guess jti new_id sentinel db' (check ∙ rw other)))
        ]

    -- After a code was sent to a valid mobile and has signed its owner in within ten minutes, nobody
    -- signs in at the mobile, at any time and with any guess.
    pub send_otp_once :
        (again jti jti' new_id guess : ℕ) (sentinel : List ℕ)
        → let sent = (send_otp k email_of tenant_of true dev now mobile id otp db).1 in
          let used =
            (verify_sms k email_of tenant_of later mobile otp jti new_id sentinel sent).1 in
          verify_sms k email_of tenant_of again mobile guess jti' new_id sentinel used
          ≡ (fail 401 "invalid or expired OTP", used)
    send_otp_once again jti jti' new_id guess sentinel =
        let sent = (send_otp k email_of tenant_of true dev now mobile id otp db).1 in
        let used = (verify_sms k email_of tenant_of later mobile otp jti new_id sentinel sent).1 in
        let check =
          sms_check_found later mobile otp sent (new_code k now mobile id otp) ok
            sent_code_usable in
        let marked =
          (verify_sms_passed later mobile otp jti new_id sentinel sent
            (new_code k now mobile id otp) (check ∙ rw (==_refl (k.sha256 otp)))).1 in
        verify_sms_rejected again mobile guess jti' new_id sentinel used (
          sms_check_empty again mobile guess used ok (
            rw (marked, send_otp-sms_otps dev now mobile id otp db ok)
              (select_spent again mobile db.sms_otps (new_code k now mobile id otp))))

  -- Within a minute of a code that was sent to a valid mobile, another one is refused, and nothing
  -- changes.
  pub resend_otp_waits :
      (sent dev : Bool) (now later mobile id id' otp otp' : ℕ) (db : Db)
      → is_mobile mobile ≡ true
      → later < now + cooldown_ms
      → let db' = (send_otp k email_of tenant_of true dev now mobile id otp db).1 in
        resend_otp k email_of tenant_of sent later mobile id' otp' db'
        ≡ (fail 429 "please wait 60 seconds before requesting another OTP", db')
  unfolding send_otp resend_otp commit
  resend_otp_waits sent dev now later mobile id id' otp otp' db ok lt = ground (
    arith,
    find-append_miss (is_recent later mobile) (delete_where (mobile_is mobile) db.sms_otps)
        (new_code k now mobile id otp ∷ [])
        (find-delete_where_gone (is_recent later mobile) (mobile_is mobile) db.sms_otps
          (λ a h. ground arith)),
  )
