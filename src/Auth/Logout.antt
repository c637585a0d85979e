-- ===== src/Auth/Logout.antt =====
-- app/modules/auth/service.py: signing out of one device, and ending one session.
pub mod Stopped
use prompt_studio_backend.Prelude.{
  ℕ, String, Option, none, some, List, ltb, if◌then◌else◌, ◌!=◌, ◌==◌, nat_eq, string_eq, holds,
  first_where, delete_where,
}
use prompt_studio_backend.Auth.Sessions.{
  with_denied, deny_payload, deny_access, end_row, find_session,
}
use prompt_studio_backend.Auth.Tokens.{Payload, TokenLibrary}
use prompt_studio_backend.Core.Errors.{authentication_error}
use prompt_studio_backend.Core.Roles.{TokenType, token_type_eq}
use prompt_studio_backend.Store.{User, Session, RevokedToken, World}
use prompt_studio_backend.Store.Action.{
  Action, pure, gets, or_raise, ◌>>=◌, ◌>>◌, modify, raise_if, commit,
}
use prompt_studio_backend.Store.Rows.{get_session, update_session}
use prompt_studio_backend.Core.ErrorMessage

-- `purge_expired_revocations`. The program leaves out the rows that the request itself has added: what
-- it adds is of tokens that have not expired.
unfoldable pub purge_expired : ℕ → List RevokedToken → List RevokedToken
purge_expired now denied = delete_where (λ r. ltb r.expires_at now) denied

-- The end of the session that is signed out: a first `revoked_at` is kept.
unfoldable pub end_session : Option Session → Action (Unit {0})
end_session none = pure tt
end_session (some s) = do
  now ← gets (λ w. w.now)
  modify (update_session s.id (end_row now))
  modify (λ w. with_denied (deny_access now s w.revoked_tokens) w)

-- The access token alone identifies its session.
abbrev pub session_of_access : Payload → World → Option Session
session_of_access access_payload w =
    if access_payload.jti == ""
    then none
    else first_where (λ s. holds s.access_jti access_payload.jti) w.sessions

-- The end of `logout`: the session, the purge and the commit.
unfoldable pub finish_logout : Option Session → Action (Unit {0})
finish_logout session = do
  end_session session
  modify (λ w. with_denied (purge_expired w.now w.revoked_tokens) w)
  commit

module _ (library : TokenLibrary) where
  -- The session that the refresh token names, or without one the session that the access token does.
  unfoldable pub presented_session : Payload → Option String → World → Option Session
  presented_session access_payload none w = session_of_access access_payload w
  presented_session access_payload (some refresh_token) w =
      if refresh_token == ""
      then session_of_access access_payload w
      else find_session library refresh_token w

  -- A refresh token that is decoded goes on the denylist; an invalid one needs no revoking.
  unfoldable pub deny_refresh : ℕ → Option String → List RevokedToken → List RevokedToken
  deny_refresh now none denied = denied
  deny_refresh now (some refresh_token) denied =
      if refresh_token == "" then denied else deny_decoded (library.decode_token refresh_token now)
    where
      deny_decoded : Option Payload → List RevokedToken
      deny_decoded none = denied
      deny_decoded (some payload) =
          if holds payload.type TokenType.refresh then deny_payload payload denied else denied

  unfoldable pub logout : Payload → Option String → Action (Unit {0})
  logout access_payload refresh_token = do
    now ← gets (λ w. w.now)
    modify (λ w. with_denied (deny_payload access_payload w.revoked_tokens) w)
    session ← gets (presented_session access_payload refresh_token)
    modify (λ w. with_denied (deny_refresh now refresh_token w.revoked_tokens) w)
    finish_logout session

unfoldable pub revoke_session : User → ℕ → Action (Unit {0})
revoke_session user session_id = do
  found ← gets (get_session session_id)
  s ← or_raise found (authentication_error ErrorMessage.resource_not_found)
  raise_if (s.user_id != user.id) (authentication_error ErrorMessage.resource_not_found)
  now ← gets (λ w. w.now)
  modify (update_session s.id (λ row. record row { revoked_at = some now }))
  modify (λ w. with_denied (deny_access now s w.revoked_tokens) w)
  commit
