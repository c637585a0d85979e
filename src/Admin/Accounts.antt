-- ===== src/Admin/Accounts.antt =====
-- app/modules/admin/service.py: changing and creating accounts. The password that
-- `generate_password` draws is an argument.
pub mod Ranks
use prompt_studio_backend.Prelude.{
  ℕ, String, Bool, true, false, not, ◌&&◌, ◌||◌, Option, none, some, [], ◌∷◌, if◌then◌else◌, ◌!=◌,
  ◌==◌, nat_eq, string_eq, is_none, or_else,
}
use prompt_studio_backend.Admin.{
  load_user, is_superadmin, assert_may_manage, assert_another_superadmin_remains, close_all_sockets,
}
use prompt_studio_backend.Auth.Sessions.{logout_everywhere}
use prompt_studio_backend.Auth.Tokens.{TokenLibrary}
use prompt_studio_backend.Core.Errors.{conflict_error, validation_error}
use prompt_studio_backend.Core.Roles.{GlobalRole, role_text, global_role_eq}
use prompt_studio_backend.Core.Text.{strip, format}
use prompt_studio_backend.Projects.Feed.{record_audit}
use prompt_studio_backend.Projects.Members.{display_name, claim_invites}
use prompt_studio_backend.Store.{User, UserCredentials, welcome}
use prompt_studio_backend.Store.Action.{
  Action, pure, gets, ◌>>=◌, ◌>>◌, modify, raise_if, when, new_id, commit, request, send_mail,
}
use prompt_studio_backend.Store.Rows.{
  update_user, get_credentials, update_credentials, add_credentials,
}
use prompt_studio_backend.Users.{NewAccount, create_user}
use prompt_studio_backend.Core.ErrorMessage

-- `AdminUserUpdate` and `AdminUserCreate` of app/modules/users/schemas.py
pub record AdminUserUpdate : Type 0 where
  pub full_name : Option String
  pub role : Option GlobalRole
  pub is_active : Option Bool
  pub reset_password : Bool

pub record AdminUserCreate : Type 0 where
  pub email : String
  pub full_name : String
  pub role : GlobalRole
  pub password : Option String
  pub is_active : Bool
  pub send_invite_email : Bool

pub record PasswordIssued : Type 0 where
  pub user_id : ℕ
  pub email : String
  pub temporary_password : Option String
  pub emailed : Bool

-- `_assert_may_set_role`
unfoldable pub assert_may_set_role : User → GlobalRole → Action (Unit {0})
assert_may_set_role actor role =
    raise_if
      ((role == GlobalRole.admin || role == GlobalRole.superadmin) && not (is_superadmin actor))
      (validation_error "Only a superadmin can grant admin roles")

abbrev pub granted : GlobalRole → User → User
granted role u = record u { role = role }

-- The branch of the role, and the account as it leaves it.
unfoldable pub change_role : User → User → Option GlobalRole → Action User
change_role actor user none = pure user
change_role actor user (some role) = if role == user.role then pure user else do
  assert_may_set_role actor role
  raise_if (user.id == actor.id) (conflict_error "You cannot change your own role" [])
  when (user.role == GlobalRole.superadmin) (assert_another_superadmin_remains user.id)
  modify (update_user user.id (granted role))
  record_audit "admin.role_changed" "user" user.id (
      format (
        actor.email
        ∷ " changed "
        ∷ user.email
        ∷ " from "
        ∷ role_text user.role
        ∷ " to "
        ∷ role_text role
        ∷ []))
  pure (granted role user)

abbrev pub named : String → User → User
named full_name u = record u { full_name = strip full_name }

unfoldable pub change_name : User → Option String → Action User
change_name user none = pure user
change_name user (some full_name) = do
  modify (update_user user.id (named full_name))
  pure (named full_name user)

abbrev pub activated : Bool → User → User
activated active u = record u { is_active = active }

-- `active == user.is_active`
abbrev pub is_as_before : Bool → User → Bool
is_as_before active user = if active then user.is_active else not user.is_active

-- The branch of the activation.
unfoldable pub change_activation : User → User → Option Bool → Action User
change_activation actor user none = pure user
change_activation actor user (some active) = if is_as_before active user then pure user else do
  raise_if (user.id == actor.id) (conflict_error ErrorMessage.cannot_deactivate_self [])
  when (not active && user.role == GlobalRole.superadmin)
      (assert_another_superadmin_remains user.id)
  modify (update_user user.id (activated active))
  record_audit (if active then "admin.user_activated" else "admin.user_deactivated") "user" user.id
      (format (
        actor.email
        ∷ " "
        ∷ (if active then "activated" else "deactivated")
        ∷ " "
        ∷ user.email
        ∷ []))
  pure (activated active user)

abbrev pub issued : String → ℕ → UserCredentials → UserCredentials
issued hashed now c = record c {
  hashed_password = hashed;
  must_change_password = true;
  password_changed_at = some now;
}

abbrev pub blank_credentials : ℕ → UserCredentials
blank_credentials key = record {
  user_id = key;
  hashed_password = "";
  must_change_password = false;
  password_changed_at = none;
}

-- What is open ends: the tokens, and the sockets.
unfoldable pub end_sessions_if : Bool → User → Action (Unit {0})
end_sessions_if false user = pure tt
end_sessions_if true user = do logout_everywhere user; close_all_sockets user

-- `if password:`, then the mail.
unfoldable pub welcome_if : Option String → User → Action (Unit {0})
welcome_if none user = pure tt
welcome_if (some password) user =
    when (password != "") (send_mail (welcome user.email (display_name user) (some password)))

abbrev pub ends_sessions : AdminUserUpdate → Bool
ends_sessions change = holds_false change.is_active || change.reset_password
  where
    holds_false : Option Bool → Bool
    holds_false none = false
    holds_false (some active) = not active

-- After the branches: the commit, the sessions, the mail.
unfoldable pub finish_update : AdminUserUpdate → User → Option String → Action PasswordIssued
finish_update change user password = do
  commit
  end_sessions_if (ends_sessions change) user
  welcome_if password user
  pure (record {
    user_id = user.id;
    email = user.email;
    temporary_password = password;
    emailed = or_else password "" != "";
  })

-- The mail of a new account, which holds the password only if it was issued.
unfoldable pub welcome_new : Bool → User → Option String → Action (Unit {0})
welcome_new false user password = pure tt
welcome_new true user password = send_mail (welcome user.email (display_name user) password)

-- `request.password or generate_password()`
abbrev pub password_or : Option String → String → String
password_or none generated = generated
password_or (some password) generated = if password == "" then generated else password

abbrev pub account_of : AdminUserCreate → String → NewAccount
account_of request password = record {
  email = request.email;
  password = password;
  full_name = request.full_name;
  role = request.role;
  is_active = request.is_active;
  is_superuser = false;
  must_change_password = is_none request.password;
  email_verified = true;
}

module _ (library : TokenLibrary) where
  -- The branch of the password.
  unfoldable pub reissue : User → User → String → Bool → Action (Option String)
  reissue actor user generated false = pure none
  reissue actor user generated true = do
    found ← gets (get_credentials user.id)
    when (is_none found) (modify (add_credentials (blank_credentials user.id)))
    salt ← new_id
    now ← gets (λ w. w.now)
    modify (update_credentials user.id (issued (library.hash_password generated salt) now))
    record_audit "admin.password_reset" "user" user.id
        (format (actor.email ∷ " issued a new password for " ∷ user.email ∷ []))
    pure (some generated)

  -- `update_user`
  unfoldable pub update_account : User → ℕ → AdminUserUpdate → String → Action PasswordIssued
  update_account actor user_id change generated = do
    user ← load_user user_id
    assert_may_manage actor user
    user ← change_role actor user change.role
    user ← change_name user change.full_name
    user ← change_activation actor user change.is_active
    password ← reissue actor user generated change.reset_password
    finish_update change user password

  -- `create_user` of the administration
  unfoldable pub create_account : User → AdminUserCreate → String → Action PasswordIssued
  create_account actor request generated = do
    assert_may_set_role actor request.role
    let password = password_or request.password generated
    user ← create_user library (account_of request password)
    claim_invites user
    record_audit "admin.user_created" "user" user.id
        (format (actor.email ∷ " created " ∷ user.email ∷ " as " ∷ role_text request.role ∷ []))
    commit
    let shown = if is_none request.password then some password else none
    welcome_new request.send_invite_email user shown
    pure (record {
      user_id = user.id;
      email = user.email;
      temporary_password = shown;
      emailed = request.send_invite_email;
    })
