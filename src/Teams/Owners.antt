-- ===== src/Teams/Owners.antt =====
-- Who owns a team, across every request.
use tinai_infra.Prelude.{
  ℕ, ◌≡◌, refl, inl, inr, ◌≢◌, true, false, Option, none, some, List, [], ◌∷◌, ◌++◌, arith, pass,
  commit-keeps, update_where_none, find, update_where, delete_where, Option-cases, Bool-cases, ◌==◌,
  find-append_hit, find-update_where_apart, find-delete_where_apart, ◌&&◌,
}
use tinai_infra.Teams.{
  Role, owner, Member, Invitation, Store, role_of, of_member, Team, change_check, remove_check,
  is_owner_row, member_in, in_team, by_slug, join, create_team, change_role, invite, accept_invite,
  remove_member, Request, create, change, send_invite, accept, remove, handle,
}

-- A member of a team keeps the role when a row is appended.
role_of-append :
    (ms ns : List Member) (t u : ℕ) (r : Role)
    → role_of ms t u ≡ some r
    → role_of (ms ++ ns) t u ≡ some r
role_of-append ms ns t u r h = elim (Option-cases (find (of_member t u) ms)) [
  | inl e ↦ ground arith
  | inr (m, e) ↦ ground (arith, find-append_hit (of_member t u) ms ns m)
]

role_of-join :
    (team user : ℕ) (role : Role) (ms : List Member) (t u : ℕ) (r : Role)
    → role_of ms t u ≡ some r
    → role_of (join team user role ms) t u ≡ some r
role_of-join team user role ms t u r h =
    ground
      (arith, role_of-append ms (record { team_id = team; user_id = user; role = role } ∷ []) t u r)

-- Two memberships with different keys.
pub of_member_apart :
    (team user t u : ℕ)
    → ((team == t) && (user == u)) ≡ false
    → (m : Member) → of_member t u m ≡ true
    → of_member team user m ≡ false
of_member_apart team user t u h m k = ground arith

-- Changing or deleting the rows of a membership whose first row is no owner's.
module _ (ms : List Member) (team user t u : ℕ) (safe : role_of ms team user ≢ some owner) where
  apart_of_owner : role_of ms t u ≡ some owner → ((team == t) && (user == u)) ≡ false
  apart_of_owner k = elim (Bool-cases ((team == t) && (user == u))) [
    | inl same ↦
        let et : team ≡ t = ground arith in
        let eu : user ≡ u = ground arith in absurd (safe (rw (et, eu) k))
    | inr e ↦ e
  ]

  role_of-change :
      (role : Role)
      → role_of ms t u ≡ some owner
      → role_of (update_where (of_member team user) (λ m. record m { role = role }) ms) t u
        ≡ some owner
  role_of-change role k =
      rw
        (
          find-update_where_apart (of_member t u) (of_member team user)
              (λ m. record m { role = role }) ms (λ a. refl)
              (of_member_apart team user t u (apart_of_owner k)),
          role_of,
        )
        k

  role_of-delete :
      role_of ms t u ≡ some owner → role_of (delete_where (of_member team user) ms) t u ≡ some owner
  role_of-delete k =
      rw
        (
          find-delete_where_apart (of_member t u) (of_member team user) ms
              (of_member_apart team user t u (apart_of_owner k)),
          role_of,
        )
        k

-- The owner of a team, as the store records it.
abbrev pub IsOwner : Store → ℕ → ℕ → Type 0
IsOwner s t u = role_of s.members t u ≡ some owner

-- What the checks of a change and of a removal establish about the member's row.
pub change_check_safe :
    (user slug member_id : ℕ) (role : Role) (s : Store)
    → change_check user slug member_id role s ≡ pass tt
    → (is_owner_row (member_in s slug member_id) ≡ false) × (role ≢ owner)
unfolding change_check
change_check_safe user slug member_id role s h = ground arith

remove_check_safe :
    (user slug member_id : ℕ) (s : Store)
    → remove_check user slug member_id s ≡ pass tt
    → is_owner_row (member_in s slug member_id) ≡ false
unfolding remove_check
remove_check_safe user slug member_id s h = ground arith

update_in_team :
    (team : Option Team) (member_id : ℕ) (role : Role) (ms : List Member) (t u : ℕ)
    → is_owner_row (find (in_team team member_id) ms) ≡ false
    → role_of ms t u ≡ some owner
    → role_of (update_where (in_team team member_id) (λ m. record m { role = role }) ms) t u
      ≡ some owner
update_in_team none member_id role ms t u safe h =
    rw (update_where_none (λ m. record m { role = role }) ms, role_of) h
update_in_team (some team) member_id role ms t u safe h =
    role_of-change ms team.id member_id t u (λ k. ground arith) role h

delete_in_team :
    (team : Option Team) (member_id : ℕ) (ms : List Member) (t u : ℕ)
    → is_owner_row (find (in_team team member_id) ms) ≡ false
    → role_of ms t u ≡ some owner
    → role_of (delete_where (in_team team member_id) ms) t u ≡ some owner
delete_in_team none member_id ms t u safe h =
    rw (find-delete_where_apart (of_member t u) (λ _. false) ms (λ _ _. refl), role_of) h
delete_in_team (some team) member_id ms t u safe h =
    role_of-delete ms team.id member_id t u (λ k. ground arith) h

create_team-IsOwner :
    (tenant user new_id name slug : ℕ) (s : Store) (t u : ℕ)
    → IsOwner s t u
    → IsOwner (create_team tenant user new_id name slug s).1 t u
unfolding create_team
create_team-IsOwner tenant user new_id name slug s t u h = ground (
  arith,
  role_of-append s.members (record { team_id = new_id; user_id = user; role = owner } ∷ []) t u
      owner h,
)

-- An owner of a team stays its owner: no request to the routes, by whomever, takes the role away.
pub handle-IsOwner :
    (r : Request) (s : Store) (t u : ℕ) → IsOwner s t u → IsOwner (handle r s).1 t u
unfolding handle change_role invite accept_invite remove_member
handle-IsOwner (create tenant user new_id name slug) s t u h =
    create_team-IsOwner tenant user new_id name slug s t u h
handle-IsOwner (change user slug member_id role) s t u h =
    commit-keeps (λ s. IsOwner s t u) (change_check user slug member_id role s) _ s h
      (λ _ passed.
        update_in_team (find (by_slug slug) s.teams) member_id role s.members t u
          (change_check_safe user slug member_id role s passed).0 h)
handle-IsOwner (send_invite now user slug new_id token email role) s t u h =
    commit-keeps (λ s. IsOwner s t u) _ _ s h (λ _ _. h)
handle-IsOwner (accept now user token) s t u h =
    commit-keeps {A = Invitation} (λ s. IsOwner s t u) _ _ s h
      (λ i _. role_of-join i.team_id user i.role s.members t u owner h)
handle-IsOwner (remove user slug member_id) s t u h =
    commit-keeps (λ s. IsOwner s t u) (remove_check user slug member_id s) _ s h
      (λ _ passed.
        delete_in_team (find (by_slug slug) s.teams) member_id s.members t u
          (remove_check_safe user slug member_id s passed) h)
