-- ===== src/Teams/Invites.antt =====
-- An invitation is used once, before it expires.
use tinai_infra.Prelude.{
  ℕ, ◌≡◌, ◌≢◌, ◌<◌, refl, Bool, inl, inr, none, some, List, [], ◌∷◌, arith, find, update_where,
  Option-cases, ◌==◌, All, find-holds, find-append_miss, commit, fail, send,
}
use tinai_infra.Teams.{
  Role, Member, Invitation, Store, Body, joined, role_of, of_member, join, is_pending,
  accept_invite,
}

-- The rows with the token are those of one invitation.
abbrev pub IsToken : (token id : ℕ) → List Invitation → Type 0
IsToken token id is = All (λ (j : Invitation). j.token ≡ token → j.id ≡ id) is

-- Once the invitation is marked, no row with its token is open, at any time.
find-marked :
    (now later token id : ℕ) (is : List Invitation)
    → IsToken token id is
    → find
        (is_pending later token)
        (update_where (λ j. j.id == id) (λ j. record j { accepted_at = some now }) is)
      ≡ none
find-marked now later token id [] h = refl
find-marked now later token id (i ∷ is) (of_id, h) =
    ground (arith, find-marked now later token id is h)

role_of-join_self :
    (team user : ℕ) (role : Role) (ms : List Member)
    → role_of (join team user role ms) team user ≢ none
role_of-join_self team user role ms h = ground (
  arith,
  find-append_miss (of_member team user) ms
      (record { team_id = team; user_id = user; role = role } ∷ []),
)

IsToken-found :
    (token id : ℕ) (p : Invitation → Bool) (is : List Invitation) (i : Invitation)
    → IsToken token id is
    → find p is ≡ some i
    → i.token ≡ token
    → i.id ≡ id
IsToken-found token id p [] i h e same = ground arith
IsToken-found token id p (j ∷ is) i (of_id, h) e same =
    ground (arith, IsToken-found token id p is i h)

-- What an acceptance that succeeds has found and done.
accepted :
    (now user token : ℕ) (s : Store) (b : Body)
    → (accept_invite now user token s).0 ≡ send 200 b
    → (i : Invitation) × (find (is_pending now token) s.invitations ≡ some i)
      × (i.token ≡ token)
      × (i.accepted_at ≡ none)
      × (now < i.expires_at)
      × (b ≡ joined i.team_id)
      × (role_of (accept_invite now user token s).1.members i.team_id user ≢ none)
      × ((accept_invite now user token s).1.invitations
          ≡ update_where
              (λ j. j.id == i.id)
              (λ j. record j { accepted_at = some now })
              s.invitations)
unfolding accept_invite commit
accepted now user token s b e = elim (Option-cases (find (is_pending now token) s.invitations)) [
  | inl miss ↦ ground arith
  | inr (i, hit) ↦
      let held = find-holds (is_pending now token) s.invitations i hit in
      (
        i,
        hit,
        ground (arith, held),
        ground (arith, held),
        ground (arith, held),
        ground (arith, hit),
        rw hit (role_of-join_self i.team_id user i.role s.members),
        rw hit refl,
      )
]

-- An acceptance that succeeds answers for an invitation with its token that nobody has accepted and
-- that has not expired, and makes the user a member of the team. If the rows with the token are those
-- of one invitation, the token is then used up: every later acceptance by it, whoever asks, is a 404
-- that writes nothing.
pub accept_invite_once :
    (now later user other token id : ℕ) (s : Store) (b : Body)
    → IsToken token id s.invitations
    → (accept_invite now user token s).0 ≡ send 200 b
    → let s' = (accept_invite now user token s).1 in
      ((i : Invitation) × (find (is_pending now token) s.invitations ≡ some i)
        × (i.token ≡ token)
        × (i.accepted_at ≡ none)
        × (now < i.expires_at)
        × (b ≡ joined i.team_id)
        × (role_of s'.members i.team_id user ≢ none))
      × (accept_invite later other token s' ≡ (fail 404 "Invitation not found or expired", s'))
unfolding accept_invite commit
accept_invite_once now later user other token id s b one e =
    let (i, hit, t, opened, young, reply, there, marked) = accepted now user token s b e in
    let same : i.id ≡ id =
      IsToken-found token id (is_pending now token) s.invitations i one hit t in
    let spent : find (is_pending later token) (accept_invite now user token s).1.invitations
        ≡ none =
      rw marked (rw same (find-marked now later token id s.invitations one)) in
    ((i, hit, t, opened, young, reply, there), rw spent refl)
