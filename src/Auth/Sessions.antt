-- ===== src/Auth/Sessions.antt =====
-- app/modules/auth/service.py: live sessions, the denylist of token ids, rotation and signing out.
pub mod Once
pub mod Ended
use mathlib.Core.Option
use prompt_studio_backend.Prelude.{
  ℕ, ◌+◌, ◌*◌, String, Bool, false, not, ◌&&◌, ◌||◌, Option, none, some, List, [], ◌∷◌, map, ltb,
  leb, if◌then◌else◌, ◌!=◌, ◌==◌, nat_eq, string_eq, holds, is_none, is_some, or_else, first_where,
  count_where, any_where,
}
use prompt_studio_backend.Auth.Tokens.{Payload, TokenLibrary, Token}
use prompt_studio_backend.Core.Errors.{authentication_error}
use prompt_studio_backend.Core.Roles.{TokenType, token_type_eq}
use prompt_studio_backend.Store.{User, Session, RevokedToken, World, day}
use prompt_studio_backend.Store.Action.{
  Action, pure, raise, gets, or_raise, ◌>>=◌, ◌>>◌, modify, raise_if, new_id, commit,
}
use prompt_studio_backend.Store.Rows.{get_user, update_user, update_session, add_session}
use prompt_studio_backend.Core.ErrorMessage

-- `_already_revoked`: what is pending in the session is among the rows that it sees.
unfoldable pub already_revoked : String → List RevokedToken → Bool
already_revoked jti denied = any_where (λ r. r.jti == jti) denied

unfoldable pub is_token_revoked : String → World → Bool
is_token_revoked jti w = if jti == "" then false else already_revoked jti w.revoked_tokens

abbrev pub with_denied : List RevokedToken → World → World
with_denied denied w = record w { db = record w.db { revoked_tokens = denied } }

-- A token id goes on the denylist once.
unfoldable pub deny : String → ℕ → List RevokedToken → List RevokedToken
deny jti exp denied =
    if already_revoked jti denied then denied else record { jti = jti; expires_at = exp } ∷ denied

-- `_revoke_jti`
unfoldable pub deny_payload : Payload → List RevokedToken → List RevokedToken
deny_payload payload denied = deny_until payload.exp
  where
    deny_until : Option ℕ → List RevokedToken
    deny_until none = denied
    deny_until (some exp) = if payload.jti == "" then denied else deny payload.jti exp denied

-- `_revoke_session_access`
unfoldable pub deny_access : ℕ → Session → List RevokedToken → List RevokedToken
deny_access now s denied = deny_jti s.access_jti
  where
    deny_jti : Option String → List RevokedToken
    deny_jti none = denied
    deny_jti (some jti) =
        if jti == "" || leb (or_else s.access_expires_at s.expires_at) now
        then denied
        else deny jti (or_else s.access_expires_at s.expires_at) denied

abbrev pub end_row : ℕ → Session → Session
end_row now s = record s { revoked_at = some (or_else s.revoked_at now) }

-- The sessions that `revoke_all_sessions` comes to, and the one that it spares.
abbrev pub is_unexpired : ℕ → ℕ → Session → Bool
is_unexpired uid now s = s.user_id == uid && ltb now s.expires_at

abbrev pub is_kept : Option String → Session → Bool
is_kept none s = false
is_kept (some keep) s = keep != "" && holds s.access_jti keep

-- The loop of `revoke_all_sessions`, over the rows themselves.
unfoldable pub end_sessions :
    Option String → ℕ → ℕ → List Session → List RevokedToken → List Session × List RevokedToken
end_sessions keep uid now [] denied = ([], denied)
end_sessions keep uid now (s ∷ ss) denied =
    let ends = is_unexpired uid now s && not (is_kept keep s) in
    let (rest, after) =
      end_sessions keep uid now ss (if ends then deny_access now s denied else denied) in
    ((if ends then end_row now s else s) ∷ rest, after)

unfoldable pub revoke_all_sessions : User → Option String → Action ℕ
revoke_all_sessions user keep = do
  now ← gets (λ w. w.now)
  ended ← gets (λ w.
      count_where (λ s. is_unexpired user.id now s && not (is_kept keep s) && is_none s.revoked_at)
        w.sessions)
  modify λ w.
      let (sessions, denied) = end_sessions keep user.id now w.sessions w.revoked_tokens in
      record w { db = record w.db { sessions = sessions; revoked_tokens = denied } }
  pure ended

unfoldable pub logout_everywhere : User → Action ℕ
logout_everywhere user = do revoked ← revoke_all_sessions user none; commit; pure revoked

unfoldable pub load_active_user : Option ℕ → Action User
load_active_user none = raise (authentication_error ErrorMessage.could_not_validate_credentials)
load_active_user (some uid) = do
  found ← gets (get_user uid)
  user ← or_raise found (authentication_error ErrorMessage.user_not_found_or_inactive)
  raise_if (not user.is_active || user.is_deleted)
      (authentication_error ErrorMessage.user_not_found_or_inactive)
  pure user

module _ (library : TokenLibrary) where
  unfoldable pub find_session : String → World → Option Session
  find_session refresh_token w =
      first_where (λ s. s.refresh_token_hash == library.fingerprint refresh_token) w.sessions

  -- What the decoded access token says of itself, for the session's row.
  abbrev pub access_claims : String → ℕ → Option String × Option ℕ
  access_claims access_token now = (
    Option.map (λ (p : Payload). p.jti) (library.decode_token access_token now),
    Option.bind (library.decode_token access_token now) (λ (p : Payload). p.exp),
  )

  -- `_issue`
  unfoldable pub issue : User → Action Token
  issue user = do
    nonce ← new_id
    key ← new_id
    now ← gets (λ w. w.now)
    settings ← gets (λ w. w.settings)
    let refresh_token = library.create_refresh_token user.id nonce now
    let access_token = library.create_access_token user nonce now
    modify (
        add_session (record {
          id = key;
          user_id = user.id;
          refresh_token_hash = library.fingerprint refresh_token;
          access_jti = (access_claims access_token now).0;
          access_expires_at = (access_claims access_token now).1;
          expires_at = now + settings.refresh_token_expire_days * day;
          last_used_at = some now;
          revoked_at = none;
        }))
    pure (record {
      access_token = access_token;
      refresh_token = refresh_token;
      expires_in = settings.access_token_expire_minutes * 60;
    })

  -- The second half of a refresh: the old pair is retired, a new one issued, the whole committed.
  unfoldable pub rotate : Payload → User → Session → Action Token
  rotate payload user s = do
    now ← gets (λ w. w.now)
    modify (update_session s.id (λ row. record row { revoked_at = some now }))
    modify (λ w. with_denied (deny_access now s w.revoked_tokens) w)
    modify (λ w. with_denied (deny_payload payload w.revoked_tokens) w)
    token ← issue user
    modify (update_user user.id (λ u. record u { last_seen_at = some now }))
    commit
    pure token

  unfoldable pub refresh_tokens : String → Action Token
  refresh_tokens refresh_token = do
    now ← gets (λ w. w.now)
    payload ←
        or_raise (library.decode_token refresh_token now)
          (authentication_error ErrorMessage.invalid_refresh_token)
    raise_if (not (holds payload.type TokenType.refresh))
        (authentication_error ErrorMessage.invalid_token_type)
    revoked ← gets (is_token_revoked payload.jti)
    raise_if revoked (authentication_error ErrorMessage.token_revoked)
    user ← load_active_user payload.user_id
    found ← gets (find_session refresh_token)
    s ← or_raise found (authentication_error ErrorMessage.invalid_refresh_token)
    raise_if (is_some s.revoked_at || leb s.expires_at now)
        (authentication_error ErrorMessage.invalid_refresh_token)
    rotate payload user s
