-- ===== src/Teams/Tests.antt =====
-- A team on concrete inputs: user 1 founds team 10, and invites user 2 as an admin.
use tinai_infra.Prelude.{
  ◌≡◌, ◌≢◌, ◌⊎◌, ◌≤◌, ◌<◌, refl, none, some, [], ◌∷◌, arith, find, fail, commit, status,
}
use tinai_infra.Teams.{
  owner, admin, viewer, Store, Invitation, joined, role_of, is_pending, create_team, change_role,
  accept_invite, remove_member, create, remove, handle,
}
use tinai_infra.Teams.Owners.{IsOwner, handle-IsOwner}
use tinai_infra.Teams.Access.{
  change_role_denied, remove_member_denied, Founds, handle_owner_origin, NoOwnerInvites,
}
use tinai_infra.Teams.Invites.{accept_invite_once}

abbrev founded : Store
founded = record {
  teams = record { id = 10; name = 0; slug = 7; owner_id = 1 } ∷ [];
  members =
      record { team_id = 10; user_id = 1; role = owner }
      ∷ record { team_id = 10; user_id = 3; role = viewer }
      ∷ [];
  invitations =
      record {
        id = 20;
        team_id = 10;
        email = 5;
        role = admin;
        token = 99;
        invited_by = 1;
        expires_at = 1000;
        accepted_at = none;
      }
      ∷ [];
  audit_log = [];
}

-- A second acceptance of the token, and one after it has expired, find nothing.
accept_twice :
    (status (accept_invite 500 4 99 (accept_invite 500 2 99 founded).1).0 ≡ 404)
    × (status (accept_invite 1000 2 99 founded).0 ≡ 404)
unfolding accept_invite commit
accept_twice = (refl, refl)

-- An admin cannot demote the owner.
demote_owner : status (change_role 2 7 1 viewer (accept_invite 500 2 99 founded).1).0 ≡ 400
unfolding accept_invite commit change_role
demote_owner = refl

handle-IsOwner_example : IsOwner (handle (remove 1 7 1) founded).1 10 1
handle-IsOwner_example = handle-IsOwner (remove 1 7 1) founded 10 1 refl

change_role_denied_test :
    ((change_role 3 7 3 admin founded).1 ≡ founded)
    × (400 ≤ status (change_role 3 7 3 admin founded).0)
change_role_denied_test = change_role_denied 3 7 3 admin founded refl

remove_member_denied_test : remove_member 3 7 1 founded ≡ (fail 403 "Not authorized", founded)
remove_member_denied_test = remove_member_denied 3 7 1 founded refl (omega arith)

founded-NoOwnerInvites : NoOwnerInvites founded
founded-NoOwnerInvites = ground arith

handle_owner_origin_example :
    (role_of founded.members 11 4 ≡ some owner) ⊎ Founds (create 0 4 11 0 8) 11 4
unfolding handle create_team
handle_owner_origin_example =
    handle_owner_origin (create 0 4 11 0 8) founded 11 4 founded-NoOwnerInvites refl

accept_invite_once_example :
    let s' = (accept_invite 500 2 99 founded).1 in
    ((i : Invitation) × (find (is_pending 500 99) founded.invitations ≡ some i)
      × (i.token ≡ 99)
      × (i.accepted_at ≡ none)
      × (500 < i.expires_at)
      × (joined 10 ≡ joined i.team_id)
      × (role_of s'.members i.team_id 2 ≢ none))
    × (accept_invite 600 4 99 s' ≡ (fail 404 "Invitation not found or expired", s'))
unfolding accept_invite commit
accept_invite_once_example =
    accept_invite_once 500 600 2 4 99 20 founded (joined 10) (λ e. refl, tt) refl
