-- ===== src/Tests/Accounts.antt =====
-- Signing in, refreshing and signing out, with a library whose tokens are plain texts.
use prompt_studio_backend.Prelude.{
  ℕ, String, List, ◌≡◌, refl, true, false, none, some, [], ◌∷◌, arith, if◌then◌else◌, ◌==◌,
  string_eq, first_where, any_where, All,
}
use prompt_studio_backend.Auth.Login.{matching_credentials, authenticate}
use prompt_studio_backend.Auth.Login.Lockout.{wait, guess, guesses_lock_account}
use prompt_studio_backend.Auth.Logout.{logout}
use prompt_studio_backend.Auth.Logout.Stopped.{logout_stops_access}
use prompt_studio_backend.Auth.Sessions.{
  already_revoked, is_token_revoked, is_unexpired, logout_everywhere, load_active_user,
  find_session, issue, rotate, refresh_tokens,
}
use prompt_studio_backend.Auth.Sessions.Ended.{is_ended, logout_everywhere_ends_sessions}
use prompt_studio_backend.Auth.Sessions.Once.{refresh_token_works_once}
use prompt_studio_backend.Auth.Tokens.{Payload, TokenLibrary, Token}
use prompt_studio_backend.Core.Errors.{AppError, authentication_error}
use prompt_studio_backend.Core.Roles.{TokenType}
use prompt_studio_backend.Core.Text.{normalise_email}
use prompt_studio_backend.Projects.Members.{get_by_email}
use prompt_studio_backend.Store.{UserCredentials, Session, World}
use prompt_studio_backend.Store.Action.{ok, err}
use prompt_studio_backend.Tests.Samples.{owner, some_db, some_world}
use prompt_studio_backend.Core.ErrorMessage

abbrev pub payload_of : Payload
payload_of = record {
  type = some TokenType.refresh;
  user_id = some 1;
  email = none;
  jti = "first";
  iat = some 500;
  exp = some 5000;
}

-- It decodes "old" alone, fingerprints a token as itself, and stores passwords as they are.
abbrev pub plain_library : TokenLibrary
plain_library = record {
  decode_token = λ token now. if token == "old" then some payload_of else none;
  fingerprint = λ token. token;
  verify_password = λ password hashed. password == hashed;
  create_refresh_token = λ uid nonce now. "new";
  create_access_token = λ user nonce now. "access";
  create_reset_token = λ uid nonce now. "reset";
  create_verify_token = λ uid email nonce now. "verify";
  hash_password = λ password nonce. password;
}

abbrev laptop : Session
laptop = record {
  id = 70;
  user_id = 1;
  refresh_token_hash = "old";
  access_jti = some "laptop";
  access_expires_at = some 2000;
  expires_at = 9000;
  last_used_at = none;
  revoked_at = none;
}

-- Rotated away, with an access token that still lives.
abbrev phone : Session
phone = record laptop {
  id = 71;
  refresh_token_hash = "phone";
  access_jti = some "phone";
  revoked_at = some 800;
}

abbrev owner_secret : UserCredentials
owner_secret = record {
  user_id = 1;
  hashed_password = "right";
  must_change_password = false;
  password_changed_at = none;
}

abbrev pub signed_in_world : World
signed_in_world = record some_world {
  db = record some_db { sessions = laptop ∷ phone ∷ []; credentials = owner_secret ∷ [] };
}

abbrev new_pair : Token
new_pair = record { access_token = "access"; refresh_token = "new"; expires_in = 1800 }

first_refresh : (refresh_tokens plain_library "old" signed_in_world).0 ≡ ok new_pair
unfolding refresh_tokens rotate issue find_session load_active_user is_token_revoked already_revoked
    first_where any_where
first_refresh = refl

-- A minute later.
abbrev later_world : World
later_world = record signed_in_world {
  db = (refresh_tokens plain_library "old" signed_in_world).1.committed;
  now = 1060;
}

refresh_token_works_once_example :
    (e : AppError) × (refresh_tokens plain_library "old" later_world ≡ (err e, later_world))
refresh_token_works_once_example =
    refresh_token_works_once plain_library "old" signed_in_world later_world refl refl refl refl
      first_refresh refl

logout_everywhere_ends_sessions_example :
    All
      (λ s.
        is_unexpired 1 1000 s ≡ true
        → is_ended 1000 (logout_everywhere owner signed_in_world).1.revoked_tokens s ≡ true)
      (logout_everywhere owner signed_in_world).1.sessions
logout_everywhere_ends_sessions_example = logout_everywhere_ends_sessions owner signed_in_world

-- Five guesses, a second apart.
abbrev five_guesses : List (ℕ × String)
five_guesses =
    (0, "a") ∷ (1_000_000, "b") ∷ (1_000_000, "c") ∷ (1_000_000, "d") ∷ (1_000_000, "e") ∷ []

guesses_lock_account_example :
    authenticate plain_library "Owner@X.com" "right"
      (wait 59_000_000 (guess plain_library "Owner@X.com" five_guesses signed_in_world))
    ≡ (
      err (authentication_error ErrorMessage.account_locked),
      wait 59_000_000 (guess plain_library "Owner@X.com" five_guesses signed_in_world),
    )
unfolding get_by_email first_where normalise_email matching_credentials
guesses_lock_account_example =
    guesses_lock_account plain_library "Owner@X.com" five_guesses "right" 59_000_000 0 owner
      signed_in_world (refl, refl, refl, refl, refl) (refl, (refl, (refl, (refl, (refl, tt))))) refl
      (omega arith) (omega arith)

abbrev laptop_payload : Payload
laptop_payload = record payload_of { type = some TokenType.access; jti = "laptop"; exp = some 2000 }

laptop_unrevoked : already_revoked "laptop" signed_in_world.revoked_tokens ≡ false
unfolding already_revoked any_where
laptop_unrevoked = refl

logout_stops_access_example :
    ((logout plain_library laptop_payload (some "old") signed_in_world).0 ≡ ok tt)
    × (already_revoked "laptop"
          (logout plain_library laptop_payload
            (some "old")
            signed_in_world).1.committed.revoked_tokens
        ≡ true)
logout_stops_access_example =
    logout_stops_access plain_library laptop_payload (some "old") signed_in_world refl refl
      laptop_unrevoked (omega arith)
