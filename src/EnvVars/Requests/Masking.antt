-- ===== src/EnvVars/Requests/Masking.antt =====
-- What the replies tell of the values of secrets.
use tinai_infra.Prelude.{ℕ, ◌≡◌, refl, ◌∙◌, ap, sym, false, List, [], ◌∷◌}
use tinai_infra.EnvVars.{Db, Caller}
use tinai_infra.EnvVars.Requests.{
  Request, get_vars, post_var, put_var, delete_var, post_bulk, get_secrets, post_secret,
  remove_secret, handle, replies,
}
use tinai_infra.EnvVars.Requests.Blank.{blank, is_revealing, Alike}
use tinai_infra.EnvVars.Requests.Alike.{
  list_env-Alike, list_secrets-Alike, create_env-Alike, update_env-Alike, delete_env-Alike,
  bulk_env-Alike, put_secret-Alike, delete_secret-Alike,
}

handle-Alike :
    (c : Caller) (now : ℕ) (r : Request) (db : Db)
    → is_revealing c r ≡ false
    → Alike (handle c now r db) (handle c now r (blank db))
unfolding handle
handle-Alike c now (get_vars id reveal) db e = list_env-Alike c id reveal db e
handle-Alike c now (post_var id key value o) db e = create_env-Alike c now id key value o db
handle-Alike c now (put_var id key value o) db e = update_env-Alike c now id key value o db
handle-Alike c now (delete_var id key) db e = delete_env-Alike c id key db
handle-Alike c now (post_bulk id vs) db e = bulk_env-Alike c now id vs db
handle-Alike c now (get_secrets id reveal) db e = list_secrets-Alike c id reveal db e
handle-Alike c now (post_secret id key value) db e = put_secret-Alike c now id key value db
handle-Alike c now (remove_secret id key) db e = delete_secret-Alike c id key db

-- No request of the run asks an admin's reveal.
abbrev pub IsHiding : List (Caller × ℕ × Request) → Type 0
IsHiding [] = Unit
IsHiding ((c, now, r) ∷ rs) = (is_revealing c r ≡ false) × IsHiding rs

-- Two tables that differ in nothing but the values of secrets give the same replies to every run of
-- requests, as long as none of them is an admin's request to reveal: no such reply depends on the
-- value of a secret, and none of them makes a later one depend on it.
pub replies_hide :
    (rs : List (Caller × ℕ × Request)) (s t : Db)
    → IsHiding rs
    → blank s ≡ blank t
    → replies rs s ≡ replies rs t
unfolding replies
replies_hide [] s t h e = refl
replies_hide ((c, now, r) ∷ rs) s t h e =
    let (sent, kept) = handle-Alike c now r s h.0 in
    let (sent', kept') = handle-Alike c now r t h.0 in
    let middle = ap (handle c now r) e in
    let first : (handle c now r s).0 ≡ (handle c now r t).0 =
      sent ∙ ap (λ p. p.0) middle ∙ sym sent' in
    let after : blank (handle c now r s).1 ≡ blank (handle c now r t).1 =
      kept ∙ ap (λ p. blank p.1) middle ∙ sym kept' in
    ap (λ a. a ∷ replies rs (handle c now r s).1) first
    ∙ ap (λ l. (handle c now r t).0 ∷ l)
        (replies_hide rs (handle c now r s).1 (handle c now r t).1 h.1 after)
