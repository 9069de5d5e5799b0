-- ===== src/Teams/Access.antt =====
-- Who may change a team: refused requests write nothing, and no request hands out ownership.
use tinai_infra.Prelude.{
  ℕ, ◌≡◌, ◌≤◌, ◌≢◌, ◌⊎◌, inl, inr, false, Option, none, some, List, [], ◌∷◌, ◌++◌, arith, find,
  update_where, delete_where, refl, ◌&&◌, Bool-cases, find-append_miss, find-append_hit,
  find-update_where, find-update_where-none, find-delete_where_gone, find-delete_where_apart,
  or_else, require_row, Option-cases, ◌==◌, All, find-All, All-append, All-update_where, ◌>>◌,
  require, commit, fail, pass, commit-keeps, commit-back, status,
}
use tinai_infra.Teams.Owners.{of_member_apart, change_check_safe}
use tinai_infra.Teams.{
  Team, Role, owner, member, Member, Invitation, Store, role_of, of_member, manager_in, in_team,
  join, is_requestable, is_pending, create_team, change_check, change_role, invite, accept_invite,
  remove_check, remove_member, Request, create, change, send_invite, accept, remove, handle,
  by_slug,
}

-- A caller who is no owner or admin of the team that the slug names changes no role there.
pub change_role_denied :
    (user slug member_id : ℕ) (role : Role) (s : Store)
    → manager_in s slug user ≡ none
    → ((change_role user slug member_id role s).1 ≡ s)
      × (400 ≤ status (change_role user slug member_id role s).0)
unfolding change_role change_check commit
change_role_denied user slug member_id role s h = ground arith

-- Someone who is no owner or admin of the team can remove only their own membership.
pub remove_member_denied :
    (user slug member_id : ℕ) (s : Store)
    → manager_in s slug user ≡ none
    → user ≢ member_id
    → remove_member user slug member_id s ≡ (fail 403 "Not authorized", s)
unfolding remove_member remove_check commit
remove_member_denied user slug member_id s h ne = ground arith

-- No open or accepted invitation carries the owner's role.
abbrev pub NoOwnerInvites : Store → Type 0
NoOwnerInvites s = All (λ (i : Invitation). i.role ≢ owner) s.invitations

invite_role_safe :
    (s : Store) (user slug team : ℕ) (role : Option Role)
    → (require (is_requestable (or_else role member)) 400 "schema"
        >> require_row (manager_in s slug user) 403 "Not authorized to invite")
      ≡ pass team
    → or_else role member ≢ owner
invite_role_safe s user slug team role h k = ground arith

pub handle-NoOwnerInvites :
    (r : Request) (s : Store) → NoOwnerInvites s → NoOwnerInvites (handle r s).1
unfolding handle create_team change_role invite accept_invite remove_member
handle-NoOwnerInvites (create tenant user new_id name slug) s h = ground arith
handle-NoOwnerInvites (change user slug member_id role) s h =
    commit-keeps NoOwnerInvites _ _ s h (λ _ _. h)
handle-NoOwnerInvites (send_invite now user slug new_id token email role) s h =
    commit-keeps NoOwnerInvites _ _ s h (λ team passed.
      All-append (λ (i : Invitation). i.role ≢ owner) s.invitations _ h
        (invite_role_safe s user slug team role passed, tt))
handle-NoOwnerInvites (accept now user token) s h =
    commit-keeps {A = Invitation} NoOwnerInvites _ _ s h (λ i _.
      All-update_where (λ (j : Invitation). j.role ≢ owner) (λ j. j.id == i.id)
        (λ j. record j { accepted_at = some now }) s.invitations (λ j k. k) h)
handle-NoOwnerInvites (remove user slug member_id) s h =
    commit-keeps NoOwnerInvites _ _ s h (λ _ _. h)

-- A row that an append makes an owner's is the appended one.
owner_of_append :
    (ms : List Member) (m : Member) (t u : ℕ)
    → role_of (ms ++ m ∷ []) t u ≡ some owner
    → (role_of ms t u ≡ some owner) ⊎ ((m.team_id ≡ t) × (m.user_id ≡ u) × (m.role ≡ owner))
owner_of_append ms m t u h = elim (Option-cases (find (of_member t u) ms)) [
  | inl e ↦ ground (arith, find-append_miss (of_member t u) ms (m ∷ []) e)
  | inr (b, e) ↦ ground (arith, find-append_hit (of_member t u) ms (m ∷ []) b e)
]

owner_of_update :
    (ms : List Member) (team : Option Team) (member_id : ℕ) (role : Role) (t u : ℕ)
    → role ≢ owner
    → role_of (update_where (in_team team member_id) (λ m. record m { role = role }) ms) t u
      ≡ some owner
    → role_of ms t u ≡ some owner
owner_of_update ms team member_id role t u ne h = elim (Option-cases (find (of_member t u) ms)) [
  | inl e ↦ ground (
    arith,
    find-update_where-none (of_member t u) (in_team team member_id) (λ m. record m { role = role })
        ms (λ a. refl) e,
  )
  | inr (b, e) ↦ ground (
    arith,
    find-update_where (of_member t u) (in_team team member_id) (λ m. record m { role = role }) ms
        (λ a. refl) b e,
  )
]

owner_of_delete :
    (ms : List Member) (team : Option Team) (member_id t u : ℕ)
    → role_of (delete_where (in_team team member_id) ms) t u ≡ some owner
    → role_of ms t u ≡ some owner
owner_of_delete ms none member_id t u h =
    rw (find-delete_where_apart (of_member t u) (λ _. false) ms (λ _ _. refl), role_of) at h
owner_of_delete ms (some team) member_id t u h =
    elim (Bool-cases ((team.id == t) && (member_id == u))) [
      | inl same ↦ ground (
        arith,
        find-delete_where_gone (of_member t u) (of_member team.id member_id) ms
            (λ m k. ground arith),
      )
      | inr e ↦ ground (
        arith,
        find-delete_where_apart (of_member t u) (of_member team.id member_id) ms
            (of_member_apart team.id member_id t u e),
      )
    ]

owner_of_join :
    (team user : ℕ) (role : Role) (ms : List Member) (t u : ℕ)
    → role ≢ owner
    → role_of (join team user role ms) t u ≡ some owner
    → role_of ms t u ≡ some owner
owner_of_join team user role ms t u ne h =
    ground (arith, owner_of_append ms (record { team_id = team; user_id = user; role = role }) t u)

-- `user` created the team with this very request.
abbrev pub Founds : Request → ℕ → ℕ → Type 0
Founds (create tenant user new_id name slug) t u = (new_id ≡ t) × (user ≡ u)
Founds _ t u = ⊥

-- Ownership is never handed out: while no invitation names the owner's role, whoever owns a team
-- after a request owned it before, or created the team by that request.
pub handle_owner_origin :
    (r : Request) (s : Store) (t u : ℕ)
    → NoOwnerInvites s
    → role_of (handle r s).1.members t u ≡ some owner
    → (role_of s.members t u ≡ some owner) ⊎ Founds r t u
unfolding handle create_team change_role invite accept_invite remove_member
handle_owner_origin (create tenant user new_id name slug) s t u inv h = ground (
  arith,
  owner_of_append s.members (record { team_id = new_id; user_id = user; role = owner }) t u,
)
handle_owner_origin (change user slug member_id role) s t u inv h = inl (
    commit-back (λ s. role_of s.members t u ≡ some owner) _ _ s h
      (λ _ passed.
        owner_of_update s.members (find (by_slug slug) s.teams) member_id role t u
          (change_check_safe user slug member_id role s passed).1))
handle_owner_origin (send_invite now user slug new_id token email role) s t u inv h =
    inl (commit-back (λ s. role_of s.members t u ≡ some owner) _ _ s h (λ _ _ k. k))
handle_owner_origin (accept now user token) s t u inv h = inl (
    commit-back {A = Invitation} (λ s. role_of s.members t u ≡ some owner) _ _ s h
      (λ i passed. owner_of_join i.team_id user i.role s.members t u (
        find-All (λ (j : Invitation). j.role ≢ owner) (is_pending now token) s.invitations i inv
          (ground arith))))
handle_owner_origin (remove user slug member_id) s t u inv h = inl (
    commit-back (λ s. role_of s.members t u ≡ some owner) _ _ s h
      (λ _ _. owner_of_delete s.members (find (by_slug slug) s.teams) member_id t u))
