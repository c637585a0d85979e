-- ===== src/Tests/Socket.antt =====
-- The editor's socket, with a save that goes through and a session that ends.
use prompt_studio_backend.Prelude.{
  ℕ, refl, inl, inr, Option, none, some, List, [], ◌∷◌, arith, any_where, All,
}
use prompt_studio_backend.Auth.Sessions.{already_revoked, is_token_revoked}
use prompt_studio_backend.Collab.Socket.{Socket, Loop, Arrival, frame}
use prompt_studio_backend.Collab.Socket.Revoked.{Denies, HasLeft, revoked_socket_leaves}
use prompt_studio_backend.Collab.Socket.Serve.{dispatch, serve}
use prompt_studio_backend.Collab.Socket.Writes.{IsGuarded, socket_writes_need_editor}
use prompt_studio_backend.Core.Json.{Json, number, text, object, empty, field}
use prompt_studio_backend.Core.Roles.{ProjectRole}
use prompt_studio_backend.Projects.Schemas.{JsonLibrary}
use prompt_studio_backend.Store.{World}
use prompt_studio_backend.Tests.Samples.{editor, some_world}

abbrev plain_json : JsonLibrary
plain_json = record { doc_bytes = λ doc. 100; read_int = read; repr = λ value. "?" }
  where
    read : Option Json → Option (Option ℕ)
    read (some (number n)) = some (some n)
    read (some other) = none
    read none = some none

abbrev editor_socket : Socket
editor_socket = record {
  connection = record {
    id = 31;
    user_id = 2;
    email = "editor@x.com";
    name = "editor@x.com";
    accent_color = "#4f46e5";
    role = ProjectRole.editor;
    project_id = 10;
  };
  user = editor;
  access_jti = "sock";
}

abbrev fresh_loop : Loop
fresh_loop = record { deadline = 31_000_000; last_snapshot = 0 }

abbrev update_message : Json
update_message = object (
    field "type" (text "doc.update")
      (field "doc" (object empty) (field "base_version" (number 4) empty)))

socket_writes_need_editor_example :
    IsGuarded editor_socket some_world
      (dispatch plain_json editor_socket fresh_loop (some update_message) some_world).1
socket_writes_need_editor_example =
    socket_writes_need_editor editor_socket plain_json fresh_loop (some update_message) some_world

-- The session ends while the client goes on sending.
abbrev at_time : ℕ → World → World
at_time now w = record w {
  now = now;
  committed = record w.committed {
    revoked_tokens = record { jti = "sock"; expires_at = 90_000_000 } ∷ [];
  };
}

abbrev pings : List Arrival
pings =
    record { meanwhile = at_time 2_000; event = frame (object (field "type" (text "ping") empty)) }
    ∷ record {
      meanwhile = at_time 40_000_000;
      event = frame (object (field "type" (text "ping") empty));
    }
    ∷ []

pings_denied : All (Denies editor_socket) pings
unfolding is_token_revoked already_revoked any_where
pings_denied = (λ w i. (i, inl refl), (λ w i. (i, inl refl), tt))

revoked_socket_leaves_example :
    HasLeft editor_socket (serve plain_json editor_socket pings fresh_loop some_world)
revoked_socket_leaves_example =
    revoked_socket_leaves 31_000_000 plain_json editor_socket pings fresh_loop some_world
      (omega arith) (λ e. cc, tt, tt) pings_denied (inr (inl (λ w. omega arith)))
