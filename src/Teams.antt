-- ===== src/Teams.antt =====
-- Teams, members and invitations: platform/services/tinai-api/src/routes/teams.ts over the tables
-- of migration 018. Ids, slugs and tokens are only compared, so they are numbers.
pub mod Owners
pub mod Access
pub mod Invites
mod Tests
use tinai_infra.Prelude.{
  ℕ, ◌+◌, String, Bool, true, false, not, ◌&&◌, ◌||◌, Option, none, some, List, [], ◌∷◌, ◌++◌,
  Reply, send, fail, Check, require, require_row, commit, ◌>>=◌, ◌>>◌, if◌then◌else◌, ◌==◌, ltb,
  or_else, is_some, find, update_where, delete_where,
}

pub data Role : Type 0 where
  owner admin member viewer billing : Role

-- `['owner', 'admin'].includes(role)`
abbrev pub is_manager : Role → Bool
is_manager owner = true
is_manager admin = true
is_manager _ = false

abbrev pub is_owner : Role → Bool
is_owner owner = true
is_owner _ = false

pub record Team : Type 0 where
  pub id : ℕ
  pub name : ℕ
  pub slug : ℕ
  pub owner_id : ℕ

pub record Member : Type 0 where
  pub team_id : ℕ
  pub user_id : ℕ
  pub role : Role

pub record Invitation : Type 0 where
  pub id : ℕ
  pub team_id : ℕ
  pub email : ℕ
  pub role : Role
  pub token : ℕ
  pub invited_by : ℕ
  pub expires_at : ℕ
  pub accepted_at : Option ℕ

pub record AuditRow : Type 0 where
  pub tenant_id : ℕ
  pub actor_id : ℕ
  pub resource : ℕ
  pub team_id : ℕ

pub record Store : Type 0 where
  pub teams : List Team
  pub members : List Member
  pub invitations : List Invitation
  pub audit_log : List AuditRow

-- The 409 and the bodies of the 2xx answers.
pub data Body : Type 0 where
  team_row : Team → Body
  ok_body : Body
  joined : ℕ → Body
  invited : ℕ → Body
  empty : Body

abbrev pub by_slug : ℕ → Team → Bool
by_slug slug t = t.slug == slug

abbrev pub of_member : ℕ → ℕ → Member → Bool
of_member team user m = m.team_id == team && m.user_id == user

-- The role that `user` has in `team`, if any.
abbrev pub role_of : List Member → ℕ → ℕ → Option Role
role_of ms team user = elim (find (of_member team user) ms) [ none ↦ none | some m ↦ some m.role ]

-- `teams t JOIN team_members tm ON tm.team_id = t.id AND tm.user_id = $2 WHERE t.slug = $1`:
-- the team's id and the caller's role.
abbrev pub caller_in : Store → ℕ → ℕ → Option (ℕ × Role)
caller_in s slug user = elim (find (by_slug slug) s.teams) [
  | none ↦ none
  | some t ↦ elim (role_of s.members t.id user) [ none ↦ none | some r ↦ some (t.id, r) ]
]

-- The same join with `AND tm.role IN ('owner', 'admin')`.
abbrev pub manager_in : Store → ℕ → ℕ → Option ℕ
manager_in s slug user = elim (caller_in s slug user) [
  | none ↦ none
  | some (team, r) ↦ if is_manager r then some team else none
]

-- `WHERE user_id = $1 AND team_id = (SELECT id FROM teams WHERE slug = $2)`; with no such team the
-- comparison holds for no row.
abbrev pub in_team : Option Team → ℕ → Member → Bool
in_team none user m = false
in_team (some t) user m = of_member t.id user m

abbrev pub in_slug : Store → ℕ → ℕ → Member → Bool
in_slug s slug user = in_team (find (by_slug slug) s.teams) user

abbrev pub member_in : Store → ℕ → ℕ → Option Member
member_in s slug user = find (in_slug s slug user) s.members

-- POST /teams. The three inserts are one transaction: a slug that is taken rolls it back.
pub create_team : (tenant user new_id name slug : ℕ) → Store → Reply Body × Store
create_team tenant user new_id name slug s =
    if is_some (find (by_slug slug) s.teams)
    then (fail 409 "Team slug already taken", s)
    else let team : Team = record { id = new_id; name = name; slug = slug; owner_id = user } in
      (
        send 201 (team_row team),
        record {
          teams = s.teams ++ team ∷ [];
          members = s.members ++ record { team_id = new_id; user_id = user; role = owner } ∷ [];
          invitations = s.invitations;
          audit_log =
              s.audit_log
              ++ record { tenant_id = tenant; actor_id = user; resource = slug; team_id = new_id }
                ∷ [];
        },
      )

-- The schema's `enum` of the roles that a request may name.
abbrev pub is_requestable : Role → Bool
is_requestable owner = false
is_requestable _ = true

-- The checks of PUT /teams/:slug/members/:memberId.
pub change_check : (user slug member_id : ℕ) → Role → Store → Check (Unit {0})
change_check user slug member_id role s = do
  require (is_requestable role) 400 "schema"
  caller ← require_row (caller_in s slug user) 404 "Team not found"
  require (is_manager caller.1) 403 "Only owners and admins can change roles"
  target ← require_row (member_in s slug member_id) 404 "Member not found"
  require (not (is_owner target.role)) 400 "Cannot change owner role"

-- PUT /teams/:slug/members/:memberId
pub change_role : (user slug member_id : ℕ) → Role → Store → Reply Body × Store
unfolding change_check
change_role user slug member_id role s =
    commit (change_check user slug member_id role s)
      (λ _ s. (
        send 200 ok_body,
        record s {
          members =
              update_where (in_slug s slug member_id) (λ m. record m { role = role }) s.members;
        },
      ))
      s

-- The column default `now() + interval '7 days'`, in milliseconds.
abbrev pub invite_ms : ℕ
invite_ms = 604_800_000

-- POST /teams/:slug/invitations; `role` defaults to `member`.
pub invite : (now user slug new_id token email : ℕ) → Option Role → Store → Reply Body × Store
invite now user slug new_id token email role s =
    commit
      (do
        require (is_requestable (or_else role member)) 400 "schema"
        require_row (manager_in s slug user) 403 "Not authorized to invite")
      (λ team s. (
        send 201 (invited token),
        record s {
          invitations =
              s.invitations
              ++ record {
                id = new_id;
                team_id = team;
                email = email;
                role = or_else role member;
                token = token;
                invited_by = user;
                expires_at = now + invite_ms;
                accepted_at = none;
              }
                ∷ [];
        },
      ))
      s

-- `token = $1 AND accepted_at IS NULL AND expires_at > NOW()`
abbrev pub is_pending : ℕ → ℕ → Invitation → Bool
is_pending now token i = i.token == token && not (is_some i.accepted_at) && ltb now i.expires_at

-- `INSERT INTO team_members … ON CONFLICT DO NOTHING`, under UNIQUE(team_id, user_id).
abbrev pub join : ℕ → ℕ → Role → List Member → List Member
join team user role ms =
    if is_some (find (of_member team user) ms)
    then ms
    else ms ++ record { team_id = team; user_id = user; role = role } ∷ []

-- POST /teams/invitations/:token/accept
pub accept_invite : (now user token : ℕ) → Store → Reply Body × Store
accept_invite now user token s =
    commit
      (require_row (find (is_pending now token) s.invitations) 404
        "Invitation not found or expired")
      (λ i s. (
        send 200 (joined i.team_id),
        record s {
          members = join i.team_id user i.role s.members;
          invitations =
              update_where (λ j. j.id == i.id) (λ j. record j { accepted_at = some now })
                s.invitations;
        },
      ))
      s

-- `target[0]?.role === 'owner'`
abbrev pub is_owner_row : Option Member → Bool
is_owner_row none = false
is_owner_row (some m) = is_owner m.role

-- The checks of DELETE /teams/:slug/members/:memberId.
pub remove_check : (user slug member_id : ℕ) → Store → Check (Unit {0})
remove_check user slug member_id s = do
  require (user == member_id || is_some (manager_in s slug user)) 403 "Not authorized"
  require (not (is_owner_row (member_in s slug member_id))) 400 "Cannot remove team owner"

-- DELETE /teams/:slug/members/:memberId
pub remove_member : (user slug member_id : ℕ) → Store → Reply Body × Store
unfolding remove_check
remove_member user slug member_id s =
    commit (remove_check user slug member_id s)
      (λ _ s.
        (send 204 empty, record s { members = delete_where (in_slug s slug member_id) s.members }))
      s

-- One request to the routes that change the store, with what the environment supplies.
pub data Request : Type 0 where
  create : (tenant user new_id name slug : ℕ) → Request
  change : (user slug member_id : ℕ) → Role → Request
  send_invite : (now user slug new_id token email : ℕ) → Option Role → Request
  accept : (now user token : ℕ) → Request
  remove : (user slug member_id : ℕ) → Request

pub handle : Request → Store → Reply Body × Store
handle (create tenant user new_id name slug) = create_team tenant user new_id name slug
handle (change user slug member_id role) = change_role user slug member_id role
handle (send_invite now user slug new_id token email role) =
    invite now user slug new_id token email role
handle (accept now user token) = accept_invite now user token
handle (remove user slug member_id) = remove_member user slug member_id
