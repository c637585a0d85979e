-- ===== src/Admin.antt =====
-- app/modules/admin/service.py: who may manage whom, and deleting an account.
pub mod Guards
pub mod Superadmins
pub mod Ended
pub mod Accounts
pub mod Routes
pub mod Projects
use prompt_studio_backend.Prelude.{
  ℕ, Bool, true, false, not, ◌&&◌, ◌||◌, some, List, [], ◌∷◌, map, ◌==◌, nat_eq, holds,
  select_where, count_where,
}
use prompt_studio_backend.Auth.Sessions.{logout_everywhere}
use prompt_studio_backend.Collab.Hub.{disconnect_user}
use prompt_studio_backend.Core.Errors.{not_found_error, authorization_error, conflict_error}
use prompt_studio_backend.Core.Roles.{GlobalRole, global_role_eq}
use prompt_studio_backend.Core.Text.{format}
use prompt_studio_backend.Projects.Feed.{record_audit}
use prompt_studio_backend.Store.{User, ProjectMember, World}
use prompt_studio_backend.Store.Action.{
  Action, pure, gets, or_raise, ◌>>=◌, ◌>>◌, modify, raise_if, when, commit,
}
use prompt_studio_backend.Store.Rows.{get_user, update_user}
use prompt_studio_backend.Core.ErrorMessage

-- `_load`
unfoldable pub load_user : ℕ → Action User
load_user user_id = do
  found ← gets (get_user user_id)
  user ← or_raise found (not_found_error ErrorMessage.user_not_found_or_inactive)
  raise_if user.is_deleted (not_found_error ErrorMessage.user_not_found_or_inactive)
  pure user

abbrev pub is_superadmin : User → Bool
is_superadmin user = user.is_superuser || user.role == GlobalRole.superadmin

abbrev pub is_privileged : User → Bool
is_privileged target =
    target.is_superuser || target.role == GlobalRole.superadmin || target.role == GlobalRole.admin

-- `_assert_may_manage`
unfoldable pub assert_may_manage : User → User → Action (Unit {0})
assert_may_manage actor target =
    raise_if (not (target.id == actor.id) && is_privileged target && not (is_superadmin actor))
      (authorization_error "Only a superadmin can manage another admin account")

-- The accounts that can administer the platform.
abbrev pub is_usable_superadmin : User → Bool
is_usable_superadmin u =
    not u.is_deleted && u.is_active && (u.role == GlobalRole.superadmin || u.is_superuser)

abbrev pub is_another_superadmin : ℕ → User → Bool
is_another_superadmin excluding u = is_usable_superadmin u && not (u.id == excluding)

-- `_assert_another_superadmin_remains`
unfoldable pub assert_another_superadmin_remains : ℕ → Action (Unit {0})
assert_another_superadmin_remains excluding = do
  others ← gets (λ w. count_where (is_another_superadmin excluding) w.users)
  raise_if (others == 0) (conflict_error ErrorMessage.cannot_demote_last_superadmin [])

unfoldable pub disconnect_all : List ℕ → ℕ → World → World
disconnect_all [] uid w = w
disconnect_all (pid ∷ projects) uid w =
    disconnect_all projects uid (record w { hub = (disconnect_user w.now pid uid false w.hub).1 })

-- `_close_all_sockets`
unfoldable pub close_all_sockets : User → Action (Unit {0})
close_all_sockets user = do
  projects ← gets (λ w.
      map (λ (row : ProjectMember). row.project_id)
        (select_where (λ row. holds row.user_id user.id) w.members))
  modify (disconnect_all projects user.id)

abbrev pub deleted_user : ℕ → User → User
deleted_user now u = record u { is_deleted = true; deleted_at = some now; is_active = false }

-- After the account is marked: the audit row, the commit, and the end of what is open.
unfoldable pub finish_deletion : User → User → Action (Unit {0})
finish_deletion actor user = do
  record_audit "admin.user_deleted" "user" user.id
      (format (actor.email ∷ " deleted " ∷ user.email ∷ []))
  commit
  logout_everywhere user
  close_all_sockets user

unfoldable pub delete_user : User → ℕ → Action (Unit {0})
delete_user actor user_id = do
  user ← load_user user_id
  assert_may_manage actor user
  raise_if (user.id == actor.id) (conflict_error ErrorMessage.cannot_deactivate_self [])
  when (user.role == GlobalRole.superadmin || user.is_superuser)
      (assert_another_superadmin_remains user.id)
  now ← gets (λ w. w.now)
  modify (update_user user.id (deleted_user now))
  finish_deletion actor user
