-- ===== src/Auth/Register.antt =====
-- app/modules/auth/service.py: registering, where an invitation is the only proof of an address.
pub mod Proved
use mathlib.Core.Option
use prompt_studio_backend.Prelude.{
  ℕ, String, Bool, true, false, Option, none, some, [], ◌∷◌, map, if◌then◌else◌, ◌==◌, string_eq,
  holds,
}
use prompt_studio_backend.Auth.Login.{LoginResponse, login_response}
use prompt_studio_backend.Auth.Tokens.{Payload, TokenLibrary}
use prompt_studio_backend.Core.Errors.{AppError}
use prompt_studio_backend.Core.Roles.{GlobalRole, TokenType, token_type_eq}
use prompt_studio_backend.Core.Text.{normalise_email, format}
use prompt_studio_backend.Projects.Feed.{record_audit}
use prompt_studio_backend.Projects.Members.{claim_invites}
use prompt_studio_backend.Store.{User, email_verification}
use prompt_studio_backend.Store.Action.{
  Action, pure, gets, or_raise, ◌>>=◌, ◌>>◌, new_id, commit, send_mail,
}
use prompt_studio_backend.Store.Rows.{get_credentials}
use prompt_studio_backend.Users.{NewAccount, create_user}

pub record RegisterRequest : Type 0 where
  pub email : String
  pub password : String
  pub full_name : String
  pub invite_token : Option String

-- What a failed `assert` answers.
abbrev pub assertion_error : AppError
assertion_error = record { message = ""; status_code = 500; errors = [] }

unfoldable pub claim_if : Bool → User → Action ℕ
claim_if true user = claim_invites user
claim_if false user = pure 0

-- The account that a registration asks for.
abbrev pub registrant : RegisterRequest → Bool → NewAccount
registrant body verified = record {
  email = normalise_email body.email;
  password = body.password;
  full_name = body.full_name;
  role = GlobalRole.member;
  is_active = true;
  is_superuser = false;
  must_change_password = false;
  email_verified = verified;
}

module _ (library : TokenLibrary) where
  -- `_invited_email`: the address that an invitation token was issued to
  abbrev pub issued_to : Option Payload → Option String
  issued_to none = none
  issued_to (some payload) =
      if holds payload.type TokenType.invite then Option.map normalise_email payload.email else none

  unfoldable pub invited_email : Option String → ℕ → Option String
  invited_email none now = none
  invited_email (some token) now =
      if token == "" then none else issued_to (library.decode_token token now)

  -- The confirmation mail of an address that was not proved.
  unfoldable pub send_verification : Bool → User → Action (Unit {0})
  send_verification true user = pure tt
  send_verification false user = do
    nonce ← new_id
    now ← gets (λ w. w.now)
    send_mail
        (email_verification user.email (library.create_verify_token user.id user.email nonce now))

  -- After the account is made: its invitations if it proved the address, the commit, and the sign-in.
  unfoldable pub finish_register : Bool → User → Action LoginResponse
  finish_register verified user = do
    claim_if verified user
    record_audit "auth.register" "user" user.id (format (user.email ∷ " created an account" ∷ []))
    commit
    send_verification verified user
    found ← gets (get_credentials user.id)
    credentials ← or_raise found assertion_error
    response ← login_response library user credentials
    commit
    pure response

  unfoldable pub register : RegisterRequest → Action LoginResponse
  register body = do
    now ← gets (λ w. w.now)
    let verified = holds (invited_email body.invite_token now) (normalise_email body.email)
    user ← create_user library (registrant body verified)
    finish_register verified user
