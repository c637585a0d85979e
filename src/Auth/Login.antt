-- ===== src/Auth/Login.antt =====
-- app/modules/auth/service.py: signing in with a password, and the lock on an account that is being
-- guessed at.
pub mod Lockout
use mathlib.Core.Option
use prompt_studio_backend.Prelude.{
  ℕ, ◌+◌, ◌*◌, String, Bool, false, not, ◌&&◌, Option, none, some, [], ◌∷◌, map, ltb, leb,
  if◌then◌else◌, ◌==◌, nat_eq, holds, or_else, count_where, any_where,
}
use prompt_studio_backend.Auth.Sessions.{issue}
use prompt_studio_backend.Auth.Tokens.{TokenLibrary, Token}
use prompt_studio_backend.Core.Errors.{authentication_error}
use prompt_studio_backend.Core.Roles.{MemberStatus, member_status_eq}
use prompt_studio_backend.Core.Text.{format}
use prompt_studio_backend.Projects.Feed.{record_audit}
use prompt_studio_backend.Projects.Members.{get_by_email}
use prompt_studio_backend.Store.{User, UserCredentials, World, minute}
use prompt_studio_backend.Store.Action.{
  Action, pure, raise, gets, or_raise, ◌>>=◌, ◌>>◌, modify, raise_if, when, commit,
}
use prompt_studio_backend.Store.Rows.{get_user, update_user, get_credentials}
use prompt_studio_backend.Core.ErrorMessage

-- `LoginResponse`, without the profile's columns
pub record LoginResponse : Type 0 where
  pub token : Token
  pub user_id : ℕ
  pub must_change_password : Bool
  pub project_count : ℕ

-- `project_count` of app/modules/users/service.py: the projects that this person can open.
pub project_count : ℕ → World → ℕ
project_count uid w =
    count_where
      (λ row.
        holds row.user_id uid
        && row.status == MemberStatus.active
        && any_where (λ p. p.id == row.project_id && not p.is_deleted) w.projects)
      w.members

abbrev pub counted_failure : User → User
counted_failure u = record u { failed_login_count = u.failed_login_count + 1 }

abbrev pub locked_out : ℕ → User → User
locked_out until u = record u { locked_until = some until; failed_login_count = 0 }

-- The lock, once the account is clearly being guessed at.
pub lock_account : User → Action (Unit {0})
lock_account user = do
  until ← gets (λ w. w.now + w.settings.lockout_minutes * minute)
  modify (update_user user.id (locked_out until))
  record_audit "auth.locked" "user" user.id
      (format (user.email ∷ " locked after repeated failures" ∷ []))

-- The count that the atomic update returns.
abbrev pub failures_of : ℕ → World → ℕ
failures_of uid w = or_else (Option.map (λ (u : User). u.failed_login_count) (get_user uid w)) 0

-- `_register_failure`
pub register_failure : User → Action (Unit {0})
register_failure user = do
  modify (update_user user.id counted_failure)
  count ← gets (failures_of user.id)
  limit ← gets (λ w. w.settings.max_failed_logins)
  when (leb limit count) (lock_account user)
  commit

abbrev pub is_locked : ℕ → User → Bool
is_locked now user = is_locked_until user.locked_until
  where
    is_locked_until : Option ℕ → Bool
    is_locked_until none = false
    is_locked_until (some until) = ltb now until

abbrev pub signed_in : ℕ → User → User
signed_in now u = record u {
  failed_login_count = 0;
  locked_until = none;
  last_login_at = some now;
  last_seen_at = some now;
}

module _ (library : TokenLibrary) where
  -- The stored password, if it is the one that was given.
  unfoldable pub matching_credentials : String → Option UserCredentials → Option UserCredentials
  matching_credentials password none = none
  matching_credentials password (some credentials) =
      if library.verify_password password credentials.hashed_password
      then some credentials
      else none

  -- `_login_response`
  unfoldable pub login_response : User → UserCredentials → Action LoginResponse
  login_response user credentials = do
    token ← issue library user
    count ← gets (project_count user.id)
    pure (record {
      token = token;
      user_id = user.id;
      must_change_password = credentials.must_change_password;
      project_count = count;
    })

  -- What follows the check of the password.
  pub sign_in : User → Option UserCredentials → Action LoginResponse
  sign_in user none = do
    register_failure user
    raise (authentication_error ErrorMessage.invalid_credentials)
  sign_in user (some credentials) = do
    raise_if (not user.is_active) (authentication_error ErrorMessage.inactive_user)
    now ← gets (λ w. w.now)
    modify (update_user user.id (signed_in now))
    record_audit "auth.login" "user" user.id (format (user.email ∷ " signed in" ∷ []))
    response ← login_response user credentials
    commit
    pure response

  pub authenticate : String → String → Action LoginResponse
  authenticate email password = do
    found ← gets (get_by_email email)
    user ← or_raise found (authentication_error ErrorMessage.invalid_credentials)
    raise_if user.is_deleted (authentication_error ErrorMessage.invalid_credentials)
    now ← gets (λ w. w.now)
    raise_if (is_locked now user) (authentication_error ErrorMessage.account_locked)
    credentials ← gets (get_credentials user.id)
    sign_in user (matching_credentials password credentials)
