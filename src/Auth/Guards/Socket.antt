-- ===== src/Auth/Guards/Socket.antt =====
-- The handshake of a websocket beside the guard of a request (app/modules/auth/dependencies.py).
use prompt_studio_backend.Prelude.{Option, none, some}
use prompt_studio_backend.Auth.Tokens.{Payload}
use prompt_studio_backend.Core.Roles.{token_type_eq}
use prompt_studio_backend.Store.{User}
use prompt_studio_backend.Store.Action.{Result, ok, err}

-- Whom a handshake answers with.
abbrev pub socket_answer : Result (Option (User × Payload)) → Option User
socket_answer (err e) = none
socket_answer (ok none) = none
socket_answer (ok (some (user, payload))) = some user
