-- ===== src/Tests/Passwords.antt =====
-- A reset that goes through, an earlier link that it retires, and a registration on a forged invitation.
use prompt_studio_backend.Prelude.{
  ℕ, String, ◌≡◌, refl, none, some, arith, if◌then◌else◌, ◌==◌, string_eq, first_where, any_where,
}
use prompt_studio_backend.Auth.Passwords.{
  apply_chosen_password, decode_typed, finish_reset, reset_password,
}
use prompt_studio_backend.Auth.Passwords.Window.{reset_closes_window}
use prompt_studio_backend.Auth.Register.{RegisterRequest}
use prompt_studio_backend.Auth.Sessions.{
  already_revoked, is_token_revoked, revoke_all_sessions, load_active_user,
}
use prompt_studio_backend.Auth.Tokens.{Payload, TokenLibrary}
use prompt_studio_backend.Core.Errors.{AppError}
use prompt_studio_backend.Core.Passwords.{
  encode, text_length, is_digit, has_char, assert_password_strong,
}
use prompt_studio_backend.Core.Roles.{TokenType}
use prompt_studio_backend.Projects.Feed.{record_audit}
use prompt_studio_backend.Store.{World}
use prompt_studio_backend.Store.Action.{Result, ok, err}
use prompt_studio_backend.Tests.Accounts.{payload_of, plain_library, signed_in_world}

abbrev reset_payload : String → ℕ → Payload
reset_payload jti iat = record payload_of {
  type = some TokenType.reset;
  jti = jti;
  iat = some iat;
  exp = some 900_000_000;
}

-- Two links are out, a minute apart.
abbrev link_library : TokenLibrary
link_library = record plain_library {
  decode_token = λ token now.
      if token == "first"
      then some (reset_payload "1" 1_000_000)
      else if token == "second"
      then some (reset_payload "2" 61_000_000)
      else none;
}

abbrev locked_out_world : World
locked_out_world = record signed_in_world { now = 90_000_000 }

abbrev recovered : Result (Unit {0}) × World
recovered = reset_password link_library "second" "hunter22" locked_out_world

second_link : recovered.0 ≡ ok tt
unfolding reset_password decode_typed load_active_user finish_reset apply_chosen_password
    assert_password_strong text_length encode has_char is_digit any_where first_where
    is_token_revoked already_revoked revoke_all_sessions record_audit
second_link = refl

abbrev afterwards : World
afterwards = record locked_out_world { db = recovered.1.committed; now = 95_000_000 }

reset_closes_window_example :
    (e : AppError) × (reset_password link_library "first" "intruder1" afterwards
      ≡ (err e, afterwards))
reset_closes_window_example =
    reset_closes_window link_library "second" "first" "hunter22" "intruder1" locked_out_world
      afterwards refl refl second_link refl refl refl refl (omega arith)

abbrev newcomer : RegisterRequest
newcomer = record {
  email = "New@X.com";
  password = "hunter22";
  full_name = "New";
  invite_token = some "forged";
}
