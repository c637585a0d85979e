-- ===== src/Collab/Socket/Handshake.antt =====
-- app/modules/collab/router.py: `collaborate`, from the token to the end of the socket. The socket is
-- numbered before it is let in, so that a refusal has somewhere to be written down.
use prompt_studio_backend.Prelude.{
  ℕ, ◌+◌, String, Option, none, some, List, if◌then◌else◌, ◌==◌, nat_eq,
}
use prompt_studio_backend.Auth.Guards.{authenticate_websocket}
use prompt_studio_backend.Auth.Tokens.{Payload, TokenLibrary}
use prompt_studio_backend.Collab.Hub.{Person, Message, describe, join, hello}
use prompt_studio_backend.Collab.Rooms.{Connection}
use prompt_studio_backend.Collab.Socket.{
  ws_unauthorised, ws_forbidden, ws_not_found, revalidate_interval, Socket, Arrival, Ending, tell,
  is_lost, close_with, leave_room, settle, left,
}
use prompt_studio_backend.Collab.Socket.Serve.{serve}
use prompt_studio_backend.Core.Roles.{ProjectRole, at_least}
use prompt_studio_backend.Projects.Access.{ProjectAccess, resolve_access}
use prompt_studio_backend.Projects.Members.{display_name, mark_opened}
use prompt_studio_backend.Projects.Schemas.{JsonLibrary}
use prompt_studio_backend.Store.{User}
use prompt_studio_backend.Store.Action.{
  Result, Action, pure, gets, ◌>>=◌, ◌>>◌, new_id, own_session, ok, err,
}

-- A socket that was never in a room.
abbrev pub unseated : ℕ → ℕ → Connection
unseated sid pid = record {
  id = sid;
  user_id = 0;
  email = "";
  name = "";
  accent_color = "";
  role = ProjectRole.viewer;
  project_id = pid;
}

abbrev pub seated : ℕ → ℕ → User → ProjectRole → Connection
seated sid pid user role = record {
  id = sid;
  user_id = user.id;
  email = user.email;
  name = display_name user;
  accent_color = user.accent_color;
  role = role;
  project_id = pid;
}

abbrev pub greeting : Connection → ProjectAccess → List Person → Message
greeting c access members = hello (record {
  connection_id = c.id;
  you = describe c;
  can_edit = at_least c.role ProjectRole.editor;
  doc = access.project.doc;
  doc_version = access.project.doc_version;
  members = members;
})

-- `members = await hub.join(connection)`
abbrev pub join_room : Connection → Action (List Person)
join_room c w =
    let (members, entered) = join w.now c w.hub in (ok members, record w { hub = entered })

-- The session of the handshake.
unfoldable pub open_project : ℕ → User → Action ProjectAccess
open_project pid user =
    own_session
      do access ← resolve_access pid user ProjectRole.viewer; mark_opened access; pure access

-- The room and the greeting; a socket that goes in the middle of this still leaves.
unfoldable pub enter : ℕ → ℕ → User → String → ProjectAccess → Action (Option Socket)
enter sid pid user jti access = do
  let c = seated sid pid user access.role
  members ← join_room c
  lost ← gets (is_lost c)
  tell c (greeting c access members)
  if lost
      then (do leave_room c; pure none)
      else pure (some (record { connection = c; user = user; access_jti = jti }))

-- A refusal carries a code that the client can act on.
unfoldable pub admit_access : ℕ → ℕ → User → String → Result ProjectAccess → Action (Option Socket)
admit_access sid pid user jti (ok access) = enter sid pid user jti access
admit_access sid pid user jti (err e) = do
  close_with (unseated sid pid) (if e.status_code == 404 then ws_not_found else ws_forbidden)
      e.message
  pure none

unfoldable pub admit : ℕ → ℕ → Option (User × Payload) → Action (Option Socket)
admit sid pid none = do
  close_with (unseated sid pid) ws_unauthorised "Your session has expired"
  pure none
admit sid pid (some (user, payload)) = do
  access ← settle (open_project pid user)
  admit_access sid pid user payload.jti access

module _ (library : TokenLibrary) (json : JsonLibrary) where
  unfoldable pub handshake : ℕ → String → Action (Option Socket)
  handshake pid token = do
    sid ← new_id
    authenticated ← authenticate_websocket library token
    admit sid pid authenticated

  unfoldable pub run_socket : List Arrival → Option Socket → Action Ending
  run_socket arrivals none = pure left
  run_socket arrivals (some s) = do
    now ← gets (λ w. w.now)
    serve json s arrivals (record { deadline = now + revalidate_interval; last_snapshot = 0 })

  unfoldable pub collaborate : ℕ → String → List Arrival → Action Ending
  collaborate pid token arrivals = do socket ← handshake pid token; run_socket arrivals socket
