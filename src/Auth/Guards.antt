-- ===== src/Auth/Guards.antt =====
-- app/modules/auth/dependencies.py: what every request passes before its handler runs, and what a
-- websocket passes at its handshake.
pub mod Entry
pub mod Socket
use prompt_studio_backend.Prelude.{
  String, Bool, false, not, ◌&&◌, ◌||◌, Option, none, some, List, [], ◌∷◌, if◌then◌else◌, ◌==◌,
  string_eq, holds, any_where,
}
use prompt_studio_backend.Auth.Sessions.{is_token_revoked}
use prompt_studio_backend.Auth.Tokens.{Payload, TokenLibrary}
use prompt_studio_backend.Core.Errors.{authentication_error, authorization_error}
use prompt_studio_backend.Core.Roles.{GlobalRole, TokenType, global_role_eq, token_type_eq}
use prompt_studio_backend.Rbac.{role_has}
use prompt_studio_backend.Store.{User, UserCredentials}
use prompt_studio_backend.Store.Action.{
  Action, pure, gets, or_raise, ◌>>=◌, ◌>>◌, modify, raise_if, own_session, attempt,
}
use prompt_studio_backend.Store.Rows.{get_user, get_credentials}
use prompt_studio_backend.Core.ErrorMessage

-- `str.endswith` of a tuple
unfoldable pub ends_with : String → String → Bool
ends_with String.[] suffix = String.[] == suffix
ends_with (String.◌∷◌ c s) suffix = String.◌∷◌ c s == suffix || ends_with s suffix

-- `_PASSWORD_CHANGE_ALLOWED`
abbrev pub password_change_allowed : List String
password_change_allowed = "/auth/set-initial-password" ∷ "/auth/logout" ∷ "/users/me" ∷ []

unfoldable pub is_password_route : String → Bool
is_password_route path = any_where (ends_with path) password_change_allowed

-- `set_audit_actor`
abbrev pub set_audit_actor : User → Action (Unit {0})
set_audit_actor user = modify λ w. record w { audit_actor = some (user.id, user.email) }

-- `credentials is not None and credentials.must_change_password`
abbrev pub is_issued : Option UserCredentials → Bool
is_issued none = false
is_issued (some credentials) = credentials.must_change_password

-- `_resolve_user`; a subject that is not the text of an id has no `user_id`
unfoldable pub resolve_user : Payload → Action User
resolve_user payload = do
  uid ← or_raise payload.user_id (authentication_error ErrorMessage.could_not_validate_credentials)
  revoked ← gets (is_token_revoked payload.jti)
  raise_if revoked (authentication_error ErrorMessage.token_revoked)
  found ← gets (get_user uid)
  user ← or_raise found (authentication_error ErrorMessage.user_not_found_or_inactive)
  raise_if (not user.is_active || user.is_deleted)
      (authentication_error ErrorMessage.user_not_found_or_inactive)
  pure user

-- `_assert_password_is_chosen`
unfoldable pub assert_password_is_chosen : String → User → Action (Unit {0})
assert_password_is_chosen path user = do
  credentials ← gets (get_credentials user.id)
  raise_if (is_issued credentials && not (is_password_route path))
      (authorization_error "Set your own password before using the app")

-- `require_permission(code)`
unfoldable pub require_permission : String → User → Action User
require_permission code user = do
  raise_if (not (role_has user.role code user.is_superuser))
      (authorization_error ErrorMessage.not_enough_permissions)
  pure user

-- `User.is_admin` of app/modules/users/models.py
abbrev pub is_admin : User → Bool
is_admin user =
    user.is_superuser || user.role == GlobalRole.superadmin || user.role == GlobalRole.admin

unfoldable pub get_current_admin : User → Action User
get_current_admin user = do
  raise_if (not (is_admin user)) (authorization_error ErrorMessage.not_enough_permissions)
  pure user

unfoldable pub get_current_superadmin : User → Action User
get_current_superadmin user = do
  raise_if (not (user.is_superuser || user.role == GlobalRole.superadmin))
      (authorization_error ErrorMessage.not_enough_permissions)
  pure user

module _ (library : TokenLibrary) where
  unfoldable pub get_access_payload : String → Action Payload
  get_access_payload token = do
    now ← gets (λ w. w.now)
    payload ←
        or_raise (library.decode_token token now)
          (authentication_error ErrorMessage.could_not_validate_credentials)
    raise_if (not (holds payload.type TokenType.access))
        (authentication_error ErrorMessage.invalid_token_type)
    pure payload

  unfoldable pub get_current_user : String → String → Action User
  get_current_user path token = do
    payload ← get_access_payload token
    user ← resolve_user payload
    assert_password_is_chosen path user
    set_audit_actor user
    pure user

  -- The caller that a token names, or nobody: `get_optional_user` after its decoding.
  unfoldable pub optional_user : Option Payload → Action (Option User)
  optional_user none = pure none
  optional_user (some payload) =
      if not (holds payload.type TokenType.access)
      then pure none
      else attempt (do user ← resolve_user payload; set_audit_actor user; pure user)

  unfoldable pub get_optional_user : Option String → Action (Option User)
  get_optional_user none = pure none
  get_optional_user (some token) = do
    now ← gets (λ w. w.now)
    optional_user (library.decode_token token now)

  -- The wall of the issued password, for a websocket.
  unfoldable pub past_wall : Payload → Option User → Action (Option (User × Payload))
  past_wall payload none = pure none
  past_wall payload (some user) = do
    credentials ← gets (get_credentials user.id)
    pure (if is_issued credentials then none else some (user, payload))

  unfoldable pub socket_user : Option Payload → Action (Option (User × Payload))
  socket_user none = pure none
  socket_user (some payload) =
      if not (holds payload.type TokenType.access)
      then pure none
      else own_session (do user ← attempt (resolve_user payload); past_wall payload user)

  unfoldable pub authenticate_websocket : String → Action (Option (User × Payload))
  authenticate_websocket token = do
    now ← gets (λ w. w.now)
    socket_user (library.decode_token token now)
