-- ===== src/Auth/Routes.antt =====
-- app/modules/auth/router.py: the handlers that do more than call the service.
pub mod Alike
use prompt_studio_backend.Prelude.{String, Option, none, some, if◌then◌else◌, ◌==◌, string_eq}
use prompt_studio_backend.Auth.Logout.{logout}
use prompt_studio_backend.Auth.Passwords.{set_initial_password, forgot_password}
use prompt_studio_backend.Auth.Tokens.{Payload, TokenLibrary}
use prompt_studio_backend.Store.{User}
use prompt_studio_backend.Store.Action.{Action, pure, ◌>>=◌, ◌>>◌}

-- `data.refresh_token if data else None`: a missing body is a missing token
abbrev pub refresh_of : Option (Option String) → Option String
refresh_of none = none
refresh_of (some token) = token

module _ (library : TokenLibrary) where
  unfoldable pub logout_route : Payload → Option (Option String) → Action (Unit {0})
  logout_route payload body = logout library payload (refresh_of body)

  -- The session that asks is spared.
  unfoldable pub set_initial_password_route : User → Payload → String → Action (Unit {0})
  set_initial_password_route user payload new_password =
      set_initial_password library user new_password (some payload.jti)

  -- The token goes into the response on a test server only.
  unfoldable pub forgot_password_route : String → String → Action (Option String)
  forgot_password_route environment email = do
    token ← forgot_password library email
    pure (if environment == "test" then token else none)
