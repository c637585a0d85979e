-- ===== src/Tests/Guards.antt =====
-- The guards of a request and of a handshake, with a library that knows one access token.
use prompt_studio_backend.Prelude.{none, some, if◌then◌else◌, ◌==◌, string_eq}
use prompt_studio_backend.Auth.Tokens.{Payload, TokenLibrary}
use prompt_studio_backend.Core.Roles.{TokenType}
use prompt_studio_backend.Tests.Accounts.{payload_of, plain_library}

abbrev access_payload : Payload
access_payload = record payload_of { type = some TokenType.access; jti = "laptop" }

abbrev access_library : TokenLibrary
access_library = record plain_library {
  decode_token = λ token now. if token == "access" then some access_payload else none;
}
