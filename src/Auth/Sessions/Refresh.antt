-- ===== src/Auth/Sessions/Refresh.antt =====
-- A refresh token is spent by its rotation, and its successor belongs to the same user.
use tinai_infra.Prelude.{
  ℕ, ◌+◌, ◌≡◌, ◌≢◌, ◌≤◌, ◌<◌, ◌∙◌, inl, inr, none, some, List, [], ◌∷◌, ◌++◌, arith, find,
  delete_where, Option-cases, find-append_miss, find-delete_where_gone, find-delete_where_apart,
  ==_refl,
}
use tinai_infra.Auth.{RefreshRow, Db, Crypto}
use tinai_infra.Auth.Sessions.{is_live, refresh_ms, rotate_refresh_token}

module _ (k : Crypto) where
  abbrev live_table : (now raw new_raw : ℕ) → ℕ → List RefreshRow → List RefreshRow
  live_table now raw new_raw user ts =
      delete_where (is_live k now (k.sha256 raw)) ts
      ++ record { user_id = user; token_hash = k.sha256 new_raw; expires_at = now + refresh_ms }
        ∷ []

  spent_stays_spent :
      (now later raw new_raw user : ℕ) (ts : List RefreshRow)
      → now ≤ later
      → k.sha256 new_raw ≢ k.sha256 raw
      → find (is_live k later (k.sha256 raw)) (live_table now raw new_raw user ts) ≡ none
  spent_stays_spent now later raw new_raw user ts le ne =
      find-append_miss (is_live k later (k.sha256 raw))
        (delete_where (is_live k now (k.sha256 raw)) ts) _
        (find-delete_where_gone (is_live k later (k.sha256 raw)) (is_live k now (k.sha256 raw)) ts
          (λ a h. ground arith))
      ∙ ground arith

  successor_found :
      (now later raw new_raw user : ℕ) (ts : List RefreshRow)
      → later < now + refresh_ms
      → find (is_live k later (k.sha256 new_raw)) ts ≡ none
      → k.sha256 new_raw ≢ k.sha256 raw
      → find (is_live k later (k.sha256 new_raw)) (live_table now raw new_raw user ts)
        ≡ some (record {
          user_id = user;
          token_hash = k.sha256 new_raw;
          expires_at = now + refresh_ms;
        })
  successor_found now later raw new_raw user ts lt fresh ne =
      find-append_miss (is_live k later (k.sha256 new_raw))
        (delete_where (is_live k now (k.sha256 raw)) ts) _
        (find-delete_where_apart (is_live k later (k.sha256 new_raw)) (is_live k now (k.sha256 raw))
            ts (λ a h. ground arith)
          ∙ fresh)
      ∙ ground (arith, ==_refl (k.sha256 new_raw))

  -- A refresh token that is rotated at some time is rejected at that time and ever after, and the
  -- token that replaces it stands for the same user for 30 days, where digests of tokens differ and
  -- the new one is in the table of no other.
  pub rotate_once :
      (now later raw new_raw newer_raw user : ℕ) (db : Db)
      → now ≤ later
      → k.sha256 new_raw ≢ k.sha256 raw
      → find (is_live k later (k.sha256 new_raw)) db.refresh_tokens ≡ none
      → (rotate_refresh_token k now raw new_raw db).0 ≡ some user
      → let db' = (rotate_refresh_token k now raw new_raw db).1 in
        ((rotate_refresh_token k later raw newer_raw db').0 ≡ none)
        × (later < now + refresh_ms
            → (rotate_refresh_token k later new_raw newer_raw db').0 ≡ some user)
  unfolding rotate_refresh_token
  rotate_once now later raw new_raw newer_raw user db le ne fresh h =
      elim (Option-cases (find (is_live k now (k.sha256 raw)) db.refresh_tokens)) [
        | inl miss ↦ ground arith
        | inr (row, e) ↦ (
          ground
              (arith, spent_stays_spent now later raw new_raw row.user_id db.refresh_tokens le ne),
          λ lt. ground (
            arith,
            successor_found now later raw new_raw row.user_id db.refresh_tokens lt fresh ne,
          ),
        )
      ]
