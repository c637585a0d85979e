-- ===== src/Collab/Socket/Serve.antt =====
-- app/modules/collab/router.py: the rounds of the loop, what each kind of message does, and the
-- handshake before them.
use prompt_studio_backend.Prelude.{
  ◌+◌, ◌-◌, String, Bool, true, false, ◌||◌, Option, none, some, List, [], ◌∷◌, ltb, leb,
  if◌then◌else◌, ◌==◌, string_eq,
}
use prompt_studio_backend.Collab.Hub.{
  Pointer, record_presence, broadcast, cursor, selection, doc_updated, doc_ack, doc_conflict, pong,
}
use prompt_studio_backend.Collab.Rooms.{Connection}
use prompt_studio_backend.Collab.Socket.{
  ws_unauthorised, ws_bad_message, snapshot_interval, revalidate_interval, Socket, Loop, Event,
  timeout, frame, malformed, disconnected, Arrival, Round, go, stop, Saving, signed_out, conflict,
  refused, stored, Ending, answer, send_error, close_with, is_closed, leave_room, still_authorised,
  write_save, waiting, left,
}
use prompt_studio_backend.Core.Json.{Json, Fields, get, null, bool, number, text, list, object}
use prompt_studio_backend.Core.RateLimit.Window.{allowed}
use prompt_studio_backend.Core.Text.{format}
use prompt_studio_backend.Projects.Documents.{ProjectDocSave}
use prompt_studio_backend.Projects.Members.{display_name}
use prompt_studio_backend.Projects.Schemas.{JsonLibrary, read_save}
use prompt_studio_backend.Store.{User, Project}
use prompt_studio_backend.Store.Action.{Action, pure, gets, ◌>>=◌, ◌>>◌, modify}

-- An error frame, after which the socket goes on.
unfoldable pub answer_error : Connection → String → Loop → Action Round
answer_error c message loop = do send_error c message; pure (go loop)

-- What goes to the others once a save is stored, and the acknowledgement.
unfoldable pub announce_save : Connection → User → Project → Loop → Action Round
announce_save c user project loop = do
  now ← gets (λ w. w.now)
  modify λ w. record w {
    hub =
        broadcast now c.project_id (doc_updated project.doc project.doc_version user.id now)
          (some c.id) false w.hub;
  }
  answer c (doc_ack project.doc_version) loop

-- The answer to a save, by how it fared.
unfoldable pub respond : Connection → Option Json → Loop → Loop → Saving → Action Round
respond c sent loop after (signed_out reason) = do
  close_with c ws_unauthorised reason
  pure (go loop)
respond c sent loop after (conflict message doc version) =
    answer c (doc_conflict message doc version sent) loop
respond c sent loop after (refused message) = answer_error c message loop
respond c sent loop after (stored user project) = announce_save c user project after

-- `message.get(…)` compared with a word
abbrev pub is_text : Option Json → String → Bool
is_text (some (text t)) word = t == word
is_text (some null) word = false
is_text (some (bool b)) word = false
is_text (some (number n)) word = false
is_text (some (list xs)) word = false
is_text (some (object o)) word = false
is_text none word = false

-- `doc if isinstance(doc, dict)`
abbrev pub as_object : Option Json → Option Fields
as_object (some (object o)) = some o
as_object (some (text t)) = none
as_object (some null) = none
as_object (some (bool b)) = none
as_object (some (number n)) = none
as_object (some (list xs)) = none
as_object none = none

-- A relayed cursor or selection, with the identity that the server knows.
unfoldable pub relay_pointer : Socket → Bool → Option Json → Action (Unit {0})
relay_pointer s is_cursor payload = do
  let pointer : Pointer = record {
    user_id = s.user.id;
    connection_id = s.connection.id;
    accent_color = s.user.accent_color;
    name = display_name s.user;
    payload = payload;
  }
  modify λ w. record w {
    hub =
        broadcast w.now s.connection.project_id
          (if is_cursor then cursor pointer else selection pointer) (some s.connection.id) false
          w.hub;
  }

-- The periodic question: it is asked once the deadline has passed, whatever came.
unfoldable pub revalidated : Socket → Loop → Bool → Action (Option Loop)
revalidated s loop true = do
  now ← gets (λ w. w.now)
  pure (some (record loop { deadline = now + revalidate_interval }))
revalidated s loop false = do
  close_with s.connection ws_unauthorised "Your access changed"
  pure none

unfoldable pub revalidate : Socket → Loop → Action (Option Loop)
revalidate s loop = do
  now ← gets (λ w. w.now)
  if leb loop.deadline now
      then (do allowed ← still_authorised s; revalidated s loop allowed)
      else pure (some loop)

-- The ping doubles as the presence heartbeat (`touch_presence`).
unfoldable pub answer_ping : Connection → Loop → Action Round
answer_ping c loop = do
  now ← gets (λ w. w.now)
  modify λ w. record w { hub = record_presence c w.hub }
  answer c (pong now) loop

unfoldable pub answer_pointer : Socket → Bool → Option Json → Loop → Action Round
answer_pointer s is_cursor payload loop = do relay_pointer s is_cursor payload; pure (go loop)

-- The next round, or the `finally` of the loop's end.
unfoldable pub after_round : Connection → (Loop → Action Ending) → Round → Action Ending
after_round c next (go loop) = next loop
after_round c next stop = do leave_room c; pure left

module _ (json : JsonLibrary) where
  -- `_apply_update` from the point where the save has been read.
  unfoldable pub apply_save : Socket → Loop → Option Json → Option ProjectDocSave → Action Round
  apply_save s loop sent none =
      answer_error s.connection "That save was not in a shape the server accepts" loop
  apply_save s loop sent (some save) = do
    stamp ← gets (λ w. w.now)
    let take_snapshot = ltb snapshot_interval (stamp - loop.last_snapshot)
    result ← write_save s save take_snapshot
    respond s.connection sent loop
        (if take_snapshot then record loop { last_snapshot = stamp } else loop) result

  -- `_apply_update`
  unfoldable pub apply_update : Socket → Loop → Fields → Option Fields → Action Round
  apply_update s loop message none = answer_error s.connection "`doc` must be an object" loop
  apply_update s loop message (some doc) =
      apply_save s loop (get message "base_version")
        (read_save json doc (get message "base_version") (get message "schema_version"))

  unfoldable pub dispatch_object : Socket → Loop → Fields → Action Round
  dispatch_object s loop message =
      let kind = get message "type" in
      if is_text kind "ping"
      then answer_ping s.connection loop
      else if is_text kind "cursor" || is_text kind "selection"
      then answer_pointer s (is_text kind "cursor") (get message "payload") loop
      else if is_text kind "doc.update"
      then apply_update s loop message (as_object (get message "doc"))
      else answer_error s.connection (format ("Unknown message type: " ∷ json.repr kind ∷ [])) loop

  -- JSON's null is Python's None, so it passes for a timeout.
  unfoldable pub dispatch : Socket → Loop → Option Json → Action Round
  dispatch s loop none = pure (go loop)
  dispatch s loop (some null) = pure (go loop)
  dispatch s loop (some (object message)) = dispatch_object s loop message
  dispatch s loop (some other) = answer_error s.connection "Expected a JSON object" loop

  -- After the question: the message, unless the socket was closed.
  unfoldable pub dispatch_if : Socket → Option Json → Option Loop → Action Round
  dispatch_if s message none = pure stop
  dispatch_if s message (some loop) = dispatch s loop message

  unfoldable pub receive : Socket → Event → Loop → Action Round
  receive s timeout loop = do asked ← revalidate s loop; dispatch_if s none asked
  receive s (frame message) loop = do asked ← revalidate s loop; dispatch_if s (some message) asked
  receive s malformed loop = do
    close_with s.connection ws_bad_message "Malformed message"
    pure stop
  receive s disconnected loop = pure stop

  -- One round: a socket that was closed from this side cannot be read any more.
  unfoldable pub round_of : Socket → Event → Loop → Action Round
  round_of s event loop = do
    closed ← gets (is_closed s.connection)
    if closed then pure stop else receive s event loop

  -- The loop over what arrives.
  unfoldable pub serve : Socket → List Arrival → Loop → Action Ending
  serve s [] loop = pure waiting
  serve s (a ∷ arrivals) loop = do
    modify a.meanwhile
    next ← round_of s a.event loop
    after_round s.connection (serve s arrivals) next
