-- ===== src/Auth/Passwords.antt =====
-- app/modules/auth/service.py: changing, issuing and resetting passwords, and confirming an address.
pub mod Window
use prompt_studio_backend.Prelude.{
  ℕ, ◌/◌, String, Bool, false, not, ◌||◌, Option, none, some, [], ◌∷◌, ltb, if◌then◌else◌,
  string_eq, holds, is_some, or_else,
}
use prompt_studio_backend.Auth.Login.{matching_credentials}
use prompt_studio_backend.Auth.Sessions.{
  is_token_revoked, with_denied, deny_payload, revoke_all_sessions, load_active_user,
}
use prompt_studio_backend.Auth.Tokens.{Payload, TokenLibrary}
use prompt_studio_backend.Core.Errors.{authentication_error, conflict_error, validation_error}
use prompt_studio_backend.Core.Passwords.{assert_password_strong}
use prompt_studio_backend.Core.Roles.{TokenType, token_type_eq}
use prompt_studio_backend.Core.Text.{format, show}
use prompt_studio_backend.Projects.Feed.{record_audit}
use prompt_studio_backend.Projects.Lifecycle.{changed}
use prompt_studio_backend.Projects.Members.{get_by_email, claimed, claim_invites}
use prompt_studio_backend.Store.{User, UserCredentials, email_verification, password_reset}
use prompt_studio_backend.Store.Action.{
  Action, pure, gets, or_raise, ◌>>=◌, ◌>>◌, modify, raise_if, when, new_id, commit, send_mail,
}
use prompt_studio_backend.Store.Rows.{update_user, get_credentials, update_credentials}
use prompt_studio_backend.Core.ErrorMessage

abbrev pub chosen : String → ℕ → UserCredentials → UserCredentials
chosen hashed now c = record c {
  hashed_password = hashed;
  must_change_password = false;
  password_changed_at = some now;
}

-- Both truncated to whole seconds; a link or a password that carries no time does not count.
abbrev pub is_outdated : Option ℕ → Option ℕ → Bool
is_outdated none changed = false
is_outdated (some issued) none = false
is_outdated (some issued) (some changed) = ltb (issued / 1_000_000) (changed / 1_000_000)

abbrev pub unlocked : User → User
unlocked u = record u { failed_login_count = 0; locked_until = none }

module _ (library : TokenLibrary) where
  -- `_apply_chosen_password`
  unfoldable pub apply_chosen_password : User → String → Action (Unit {0})
  apply_chosen_password user new_password = do
    assert_password_strong new_password
    salt ← new_id
    now ← gets (λ w. w.now)
    modify (update_credentials user.id (chosen (library.hash_password new_password salt) now))

  -- `_decode_typed`
  unfoldable pub decode_typed : String → TokenType → String → Action Payload
  decode_typed token expected message = do
    now ← gets (λ w. w.now)
    payload ← or_raise (library.decode_token token now) (authentication_error message)
    raise_if (not (holds payload.type expected))
        (authentication_error ErrorMessage.invalid_token_type)
    pure payload

  unfoldable pub change_password : User → String → String → Action (Unit {0})
  change_password user current_password new_password = do
    found ← gets (get_credentials user.id)
    credentials ←
        or_raise (matching_credentials library current_password found)
          (authentication_error ErrorMessage.current_password_incorrect)
    raise_if (library.verify_password new_password credentials.hashed_password)
        (validation_error ErrorMessage.same_password)
    apply_chosen_password user new_password
    record_audit "auth.password_changed" "user" user.id
        (format (user.email ∷ " changed their password" ∷ []))
    commit

  unfoldable pub set_initial_password : User → String → Option String → Action (Unit {0})
  set_initial_password user new_password keep_jti = do
    found ← gets (get_credentials user.id)
    credentials ← or_raise found (authentication_error ErrorMessage.user_not_found_or_inactive)
    raise_if (not credentials.must_change_password)
        (conflict_error "This account already has a chosen password" [])
    apply_chosen_password user new_password
    revoke_all_sessions user keep_jti
    record_audit "auth.initial_password_set" "user" user.id
        (format (user.email ∷ " set their own password" ∷ []))
    commit

  -- The mail and the audit row of a reset link.
  unfoldable pub issue_reset : Option User → Action (Option String)
  issue_reset none = pure none
  issue_reset (some user) = if not user.is_active || user.is_deleted then pure none else do
    nonce ← new_id
    now ← gets (λ w. w.now)
    let token = library.create_reset_token user.id nonce now
    send_mail (password_reset user.email token)
    record_audit "auth.password_reset_requested" "user" user.id
        (format ("reset link sent to " ∷ user.email ∷ []))
    commit
    pure (some token)

  unfoldable pub forgot_password : String → Action (Option String)
  forgot_password email = do found ← gets (get_by_email email); issue_reset found

  -- After the link has been accepted: the password, the link, the sessions, the lock.
  unfoldable pub finish_reset : Payload → User → String → Action (Unit {0})
  finish_reset payload user new_password = do
    apply_chosen_password user new_password
    modify (λ w. with_denied (deny_payload payload w.revoked_tokens) w)
    revoke_all_sessions user none
    modify (update_user user.id unlocked)
    record_audit "auth.password_reset" "user" user.id
        (format (user.email ∷ " reset their password" ∷ []))
    commit

  unfoldable pub reset_password : String → String → Action (Unit {0})
  reset_password token new_password = do
    payload ← decode_typed token TokenType.reset ErrorMessage.invalid_reset_token
    revoked ← gets (is_token_revoked payload.jti)
    raise_if revoked (authentication_error ErrorMessage.reset_token_used)
    user ← load_active_user payload.user_id
    found ← gets (get_credentials user.id)
    credentials ← or_raise found (authentication_error ErrorMessage.user_not_found_or_inactive)
    raise_if (is_outdated payload.iat credentials.password_changed_at)
        (authentication_error ErrorMessage.reset_token_used)
    finish_reset payload user new_password

  abbrev pub confirmed : ℕ → User → User
  confirmed now u = record u { email_verified_at = some (or_else u.email_verified_at now) }

  -- After the link has been accepted: the address, its invitations, the link.
  unfoldable pub finish_verify : Payload → User → Action User
  finish_verify payload user = do
    now ← gets (λ w. w.now)
    modify (update_user user.id (confirmed now))
    claimed ← claim_invites (confirmed now user)
    when (ltb 0 claimed) (
        record_audit "auth.verify_email" "user" user.id (
          format (
            user.email
            ∷ " confirmed their address and claimed "
            ∷ show claimed
            ∷ " invitation(s)"
            ∷ [])))
    modify (λ w. with_denied (deny_payload payload w.revoked_tokens) w)
    commit
    pure (confirmed now user)

  unfoldable pub verify_email : String → Action User
  verify_email token = do
    payload ← decode_typed token TokenType.verify ErrorMessage.invalid_verify_token
    revoked ← gets (is_token_revoked payload.jti)
    raise_if revoked (authentication_error ErrorMessage.invalid_verify_token)
    user ← load_active_user payload.user_id
    raise_if (not (holds payload.email user.email))
        (authentication_error ErrorMessage.invalid_verify_token)
    finish_verify payload user

  unfoldable pub resend_verification : User → Action (Unit {0})
  resend_verification user = do
    raise_if (is_some user.email_verified_at)
        (conflict_error "This address is already confirmed" [])
    nonce ← new_id
    now ← gets (λ w. w.now)
    send_mail
        (email_verification user.email (library.create_verify_token user.id user.email nonce now))
