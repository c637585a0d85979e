-- ===== src/Projects/Members.antt =====
-- app/modules/projects/service.py: who is on a project. Inviting, changing a role, removing,
-- leaving, and claiming the invitations of an address.
pub mod Guards
pub mod Sound
pub mod Owners
pub mod Steps
pub mod Claims
pub mod Eviction
pub mod Invites
pub mod Reach
use mathlib.Core.Option
use prompt_studio_backend.Prelude.{
  ℕ, String, Bool, false, not, ◌&&◌, Option, none, some, List, [], ◌∷◌, map, if◌then◌else◌, ◌!=◌,
  ◌==◌, nat_eq, string_eq, holds, is_none, is_some, length, select_where, first_where, count_where,
}
use prompt_studio_backend.Collab.Hub.{disconnect_user}
use prompt_studio_backend.Core.Errors.{not_found_error, conflict_error}
use prompt_studio_backend.Core.Roles.{
  ProjectRole, MemberStatus, ActivityType, role_value, at_least, project_role_eq, member_status_eq,
}
use prompt_studio_backend.Core.Text.{strip, lower, normalise_email, format}
use prompt_studio_backend.Projects.Access.{ProjectAccess}
use prompt_studio_backend.Projects.Feed.{record_audit, add_activity}
use prompt_studio_backend.Store.{User, Project, ProjectMember, World, project_invite}
use prompt_studio_backend.Store.Action.{
  Action, pure, gets, or_raise, ◌>>=◌, ◌>>◌, modify, raise_if, when, new_id, commit, send_mail,
}
use prompt_studio_backend.Store.Rows.{
  get_project, get_member, update_member, add_member, delete_member,
}
use prompt_studio_backend.Core.ErrorMessage

-- `get_by_email` of app/modules/users/service.py
unfoldable pub get_by_email : String → World → Option User
get_by_email email w = first_where (λ u. u.email == normalise_email email) w.users

-- `User.display_name`: `self.full_name.strip() or self.email`
pub display_name : User → String
display_name user = if strip user.full_name == "" then user.email else strip user.full_name

abbrev pub at_address : ℕ → String → ProjectMember → Bool
at_address pid email row = row.project_id == pid && row.email == email

unfoldable pub member_by_email : ℕ → String → World → Option ProjectMember
member_by_email pid email w = first_where (at_address pid email) w.members

abbrev pub is_live : ProjectMember → Bool
is_live row = row.status != MemberStatus.revoked

-- `existing is not None and existing.status != MemberStatus.REVOKED`
abbrev pub is_on_it : Option ProjectMember → Bool
is_on_it none = false
is_on_it (some existing) = is_live existing

-- An account counts once it has proved the address.
pub claimed : Option User → Option User
claimed none = none
claimed (some account) = if is_some account.email_verified_at then some account else none

-- What an invitation writes to the address's row.
abbrev pub invited : ProjectRole → User → ℕ → Option User → ProjectMember → ProjectMember
invited role actor now account row = record row {
  role = role;
  user_id = Option.map (λ (u : User). u.id) account;
  status = if is_some account then MemberStatus.active else MemberStatus.invited;
  invited_by = some actor.id;
  invited_at = some now;
  joined_at = if is_some account then some now else none;
}

-- `ProjectMember(project_id=…, email=…)`
abbrev pub new_member : ℕ → ℕ → String → ProjectMember
new_member key pid email = record {
  id = key;
  project_id = pid;
  email = email;
  user_id = none;
  role = ProjectRole.editor;
  status = MemberStatus.invited;
  invited_by = none;
  invited_at = none;
  joined_at = none;
  last_opened_at = none;
}

-- `member = existing or ProjectMember(…)`, its columns, and `db.add(member)`
pub write_invite :
    Option ProjectMember → ℕ → String → (ProjectMember → ProjectMember) → Action ProjectMember
write_invite (some existing) pid email f = do
  modify (update_member existing.id f)
  pure (f existing)
write_invite none pid email f = do
  key ← new_id
  modify (add_member (f (new_member key pid email)))
  pure (f (new_member key pid email))

-- The feed entry, the audit row, the commit and the mail of an invitation.
pub announce_invite :
    (ℕ → String → String) → Project → User → String → ProjectRole → Bool → Action (Unit {0})
announce_invite create_invite_token project actor email role is_new_user = do
  add_activity project (some actor) ActivityType.member_invited
      (format ("added " ∷ email ∷ " as " ∷ lower (role_value role) ∷ [])) []
  record_audit "project.member_invited" "project" project.id
      (format (actor.email ∷ " added " ∷ email ∷ " to " ∷ project.name ∷ []))
  commit
  send_mail (
      project_invite email project.name (display_name actor) (create_invite_token project.id email)
        is_new_user)

-- The token's encoding is the jwt library's: `create_invite_token` is a parameter.
pub invite_member :
    (ℕ → String → String) → Project → User → String → ProjectRole → Action ProjectMember
invite_member create_invite_token project actor email role = do
  let address = normalise_email email
  existing ← gets (member_by_email project.id address)
  raise_if (is_on_it existing) (conflict_error ErrorMessage.member_already_added [])
  account ← gets (get_by_email address)
  now ← gets (λ w. w.now)
  member ← write_invite existing project.id address (invited role actor now (claimed account))
  announce_invite create_invite_token project actor address role (is_none account)
  pure member

-- `_evict_open_sockets`: a row that no account holds has no sockets.
unfoldable pub evict_open_sockets : ℕ → Option ℕ → Action (Unit {0})
evict_open_sockets pid none = pure tt
evict_open_sockets pid (some uid) =
    modify λ w. record w { hub = (disconnect_user w.now pid uid false w.hub).1 }

-- Someone who can administer the project: an owner whose row an account holds.
abbrev pub is_usable_owner : ℕ → ProjectMember → Bool
is_usable_owner pid row =
    row.project_id == pid && row.role == ProjectRole.owner && is_live row && is_some row.user_id

-- The others, once one row is excluded.
abbrev pub is_another_owner : ℕ → ℕ → ProjectMember → Bool
is_another_owner pid excluding row = is_usable_owner pid row && not (row.id == excluding)

-- `_assert_another_owner_remains`
pub assert_another_owner_remains : ℕ → ℕ → Action (Unit {0})
assert_another_owner_remains pid excluding = do
  others ← gets (λ w. count_where (is_another_owner pid excluding) w.members)
  raise_if (others == 0) (conflict_error ErrorMessage.cannot_remove_last_owner [])

-- A row of this project, by its id.
pub member_of : ℕ → ℕ → Action ProjectMember
member_of pid member_id = do
  found ← gets (get_member member_id)
  member ← or_raise found (not_found_error ErrorMessage.member_not_found)
  raise_if (member.project_id != pid) (not_found_error ErrorMessage.member_not_found)
  pure member

abbrev pub with_role : ProjectRole → ProjectMember → ProjectMember
with_role role row = record row { role = role }

-- After the row is changed: the feed, the commit, and the eviction on the way down.
pub finish_role : Project → User → ProjectMember → ProjectRole → Action ProjectMember
finish_role project actor member role = do
  add_activity project (some actor) ActivityType.member_role_changed
      (format ("made " ∷ member.email ∷ " a " ∷ lower (role_value role) ∷ [])) []
  commit
  when (not (at_least role member.role)) (evict_open_sockets project.id member.user_id)
  pure (with_role role member)

pub update_member_role : Project → User → ℕ → ProjectRole → Action ProjectMember
update_member_role project actor member_id role = do
  member ← member_of project.id member_id
  raise_if (holds member.user_id actor.id) (conflict_error ErrorMessage.cannot_change_own_role [])
  when (member.role == ProjectRole.owner && role != ProjectRole.owner)
      (assert_another_owner_remains project.id member.id)
  modify (update_member member.id (with_role role))
  finish_role project actor member role

-- After the row is deleted: the feed, the audit row, the commit and the eviction.
pub finish_removal : Project → User → ProjectMember → Action (Unit {0})
finish_removal project actor member = do
  add_activity project (some actor) ActivityType.member_removed
      (format ("removed " ∷ member.email ∷ [])) []
  record_audit "project.member_removed" "project" project.id
      (format (actor.email ∷ " removed " ∷ member.email ∷ " from " ∷ project.name ∷ []))
  commit
  evict_open_sockets project.id member.user_id

pub remove_member : Project → User → ℕ → Action (Unit {0})
remove_member project actor member_id = do
  member ← member_of project.id member_id
  when (member.role == ProjectRole.owner) (assert_another_owner_remains project.id member.id)
  modify (delete_member member.id)
  finish_removal project actor member

unfoldable pub finish_leaving : Project → User → Action (Unit {0})
finish_leaving project user = do
  add_activity project (some user) ActivityType.member_removed "left the project" []
  commit
  evict_open_sockets project.id (some user.id)

unfoldable pub leave_project : ProjectAccess → User → Action (Unit {0})
leave_project access user = do
  when (access.role == ProjectRole.owner)
      (assert_another_owner_remains access.project.id access.member.id)
  modify (delete_member access.member.id)
  finish_leaving access.project user

abbrev pub claimed_by : User → ℕ → ProjectMember → ProjectMember
claimed_by user now row = record row {
  user_id = some user.id;
  status = MemberStatus.active;
  joined_at = some now;
}

abbrev pub is_pending : User → ProjectMember → Bool
is_pending user row = row.email == user.email && is_none row.user_id

-- The feed entry of a claimed invitation, if the project is still there.
pub note_joined : User → Option Project → Action (Unit {0})
note_joined user none = pure tt
note_joined user (some project) =
    add_activity project (some user) ActivityType.member_joined
      (format (user.email ∷ " joined the project" ∷ [])) []

-- The loop over the pending invitations.
pub claim_rows : User → List ProjectMember → Action (Unit {0})
claim_rows user [] = pure tt
claim_rows user (row ∷ pending) = do
  now ← gets (λ w. w.now)
  modify (update_member row.id (claimed_by user now))
  project ← gets (get_project row.project_id)
  note_joined user project
  claim_rows user pending

pub claim_invites : User → Action ℕ
claim_invites user = do
  pending ← gets (λ w. select_where (is_pending user) w.members)
  claim_rows user pending
  pure (length pending)

unfoldable pub mark_opened : ProjectAccess → Action (Unit {0})
mark_opened access = do
  now ← gets (λ w. w.now)
  modify (update_member access.member.id (λ row. record row { last_opened_at = some now }))
  commit
