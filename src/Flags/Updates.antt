-- ===== src/Flags/Updates.antt =====
-- What an update of a flag changes, and for whom.
use tinai_infra.Prelude.{
  ℕ, ◌≡◌, ◌≢◌, refl, ◌∙◌, true, some, [], ◌∷◌, ◌++◌, arith, find, send, commit, find-holds,
  find-update_where, find-update_where_apart, commit-keeps,
}
use tinai_infra.Flags.{Flag, Store, Patch, is_flag, patched, pct_allowed, action_of, update_flag}

-- An update of a tenant's flag answers the patched row, stores it, and logs the row before and after.
pub update_flag_stores :
    (tenant user id : ℕ) (p : Patch) (s : Store) (old : Flag)
    → find (is_flag id tenant) s.flags ≡ some old
    → pct_allowed p ≡ true
    → let (reply, s') = update_flag tenant user id p s in
      (reply ≡ send 200 (patched p old))
      × (find (is_flag id tenant) s'.flags ≡ some (patched p old))
      × (s'.history
          ≡ s.history
            ++ record {
              flag_id = id;
              actor_id = user;
              action = action_of p.enabled;
              old_value = some old;
              new_value = patched p old;
            }
              ∷ [])
unfolding update_flag commit
update_flag_stores tenant user id p s old found allowed =
    rw (found, allowed)
      (
        refl,
        find-update_where (is_flag id tenant) (is_flag id tenant) (patched p) s.flags (λ a. refl)
              old found
            ∙ rw (find-holds (is_flag id tenant) s.flags old found),
        refl,
      )

-- A tenant's update leaves every flag of another tenant as it was.
pub update_flag_isolated :
    (tenant user id : ℕ) (p : Patch) (s : Store) (other id' : ℕ)
    → other ≢ tenant
    → find (is_flag id' other) (update_flag tenant user id p s).1.flags
      ≡ find (is_flag id' other) s.flags
unfolding update_flag
update_flag_isolated tenant user id p s other id' ne =
    commit-keeps (λ t. find (is_flag id' other) t.flags ≡ find (is_flag id' other) s.flags) _ _ s
      refl
      (λ _ _.
        find-update_where_apart (is_flag id' other) (is_flag id tenant) (patched p) s.flags
          (λ a. refl) (λ a h. ground arith))
