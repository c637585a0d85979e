-- ===== src/Collab/Socket/Answers.antt =====
-- What a round answers to each kind of message, and the deadline that it goes on with
-- (app/modules/collab/router.py).
use prompt_studio_backend.Prelude.{
  ℕ, ◌-◌, ◌≤◌, String, inl, inr, false, ◌||◌, Option, none, some, [], ◌∷◌, arith, ltb,
  if◌then◌else◌, Bool-cases,
}
use prompt_studio_backend.Collab.Hub.{Message, doc_updated, doc_ack, doc_conflict, pong, error}
use prompt_studio_backend.Collab.Hub.Shrink.{rooms-send_all, rooms-record_presence}
use prompt_studio_backend.Collab.Rooms.{Connection}
use prompt_studio_backend.Collab.Socket.{
  ws_unauthorised, snapshot_interval, Socket, Loop, Round, go, stop, Saving, signed_out, conflict,
  refused, stored, tell, is_lost, answer, close_with, write_save,
}
use prompt_studio_backend.Collab.Socket.Kept.{write_save-ReturnsIn, HasDict, IsDict-broadcast}
use prompt_studio_backend.Collab.Socket.Serve.{
  answer_error, announce_save, respond, is_text, relay_pointer, answer_ping, answer_pointer,
  apply_save, apply_update, dispatch_object, dispatch,
}
use prompt_studio_backend.Core.Json.{Json, Fields, get, null, bool, number, text, list, object}
use prompt_studio_backend.Projects.Documents.{ProjectDocSave}
use prompt_studio_backend.Projects.Schemas.{JsonLibrary}
use prompt_studio_backend.Store.{World}
use prompt_studio_backend.Store.Action.{Result, bind-ok, ok, err}

-- A round that returns: it goes on with a deadline no later than `d`, or it stops.
abbrev pub Kept : ℕ → Result Round × World → Type 0
Kept d (ok (go loop), w) = (loop.deadline ≤ d) × HasDict w
Kept d (ok stop, w) = HasDict w
Kept d (err e, w) = ⊥

tell-HasDict : (c : Connection) (m : Message) (w : World) → HasDict w → HasDict (tell c m w).1
tell-HasDict c m w i = rw (rooms-send_all m (c ∷ []) w.hub) i

pub close_with-HasDict :
    (c : Connection) (code : ℕ) (reason : String) (w : World)
    → HasDict w
    → HasDict (close_with c code reason w).1
unfolding close_with
close_with-HasDict c code reason w i = elim (Bool-cases (is_lost c w)) [
  | inl e ↦ rw (e, if◌then◌else◌) (tell-HasDict c (error reason) w i)
  | inr e ↦ rw (e, if◌then◌else◌) (tell-HasDict c (error reason) w i)
]

module _ (d : ℕ) where
  answer-Kept :
      (c : Connection) (m : Message) (loop : Loop) (w : World)
      → loop.deadline ≤ d
      → HasDict w
      → Kept d (answer c m loop w)
  answer-Kept c m loop w le i = elim (Bool-cases (is_lost c w)) [
    | inl e ↦ rw (e, if◌then◌else◌) (tell-HasDict c m w i)
    | inr e ↦ rw (e, if◌then◌else◌) (le, tell-HasDict c m w i)
  ]

  answer_error-Kept :
      (c : Connection) (message : String) (loop : Loop) (w : World)
      → loop.deadline ≤ d
      → HasDict w
      → Kept d (answer_error c message loop w)
  unfolding answer_error
  answer_error-Kept c message loop w le i = (le, tell-HasDict c (error message) w i)

  respond-Kept :
      (c : Connection) (sent : Option Json) (loop after : Loop) (s : Saving) (w : World)
      → loop.deadline ≤ d
      → after.deadline ≤ d
      → HasDict w
      → Kept d (respond c sent loop after s w)
  unfolding respond announce_save close_with
  respond-Kept c sent loop after (signed_out reason) w le le' i =
      (le, close_with-HasDict c ws_unauthorised reason w i)
  respond-Kept c sent loop after (conflict message doc version) w le le' i =
      answer-Kept c (doc_conflict message doc version sent) loop w le i
  respond-Kept c sent loop after (refused message) w le le' i =
      answer_error-Kept c message loop w le i
  respond-Kept c sent loop after (stored user project) w le le' i =
      answer-Kept c (doc_ack project.doc_version) after _ le' (
        IsDict-broadcast w.now c.project_id
          (doc_updated project.doc project.doc_version user.id w.now) (some c.id) false w.hub i)

  module _ (json : JsonLibrary) (s : Socket) where
    apply_save-Kept :
        (loop : Loop) (sent : Option Json) (save : Option ProjectDocSave) (w : World)
        → loop.deadline ≤ d
        → HasDict w
        → Kept d (apply_save json s loop sent save w)
    unfolding apply_save
    apply_save-Kept loop sent none w le i = answer_error-Kept s.connection _ loop w le i
    apply_save-Kept loop sent (some save) w le i =
        let take = ltb snapshot_interval (w.now - loop.last_snapshot) in
        let ((result, returned), same) = write_save-ReturnsIn s save take w in
        rw (bind-ok (write_save s save take) _ w returned) (
          respond-Kept s.connection sent loop _ result (write_save s save take w).1 le
            (ground arith) (rw same i))

    apply_update-Kept :
        (loop : Loop) (message : Fields) (doc : Option Fields) (w : World)
        → loop.deadline ≤ d
        → HasDict w
        → Kept d (apply_update json s loop message doc w)
    unfolding apply_update
    apply_update-Kept loop message none w le i = answer_error-Kept s.connection _ loop w le i
    apply_update-Kept loop message (some doc) w le i = apply_save-Kept loop _ _ w le i

    dispatch_object-Kept :
        (loop : Loop) (message : Fields) (w : World)
        → loop.deadline ≤ d
        → HasDict w
        → Kept d (dispatch_object json s loop message w)
    unfolding dispatch_object answer_ping answer_pointer relay_pointer
    dispatch_object-Kept loop message w le i =
        elim (Bool-cases (is_text (get message "type") "ping")) [
          | inl e ↦
              rw (e, if◌then◌else◌)
                (answer-Kept s.connection (pong w.now) loop _ le (rw rooms-record_presence i))
          | inr e ↦
              elim (Bool-cases (
                is_text (get message "type") "cursor"
                || is_text (get message "type") "selection")) [
                  | inl e' ↦
                      rw (e, if◌then◌else◌, e')
                        (
                          le,
                          IsDict-broadcast w.now s.connection.project_id _ (some s.connection.id)
                              false w.hub i,
                        )
                  | inr e' ↦ elim (Bool-cases (is_text (get message "type") "doc.update")) [
                    | inl e'' ↦
                        rw (e, if◌then◌else◌, e', e'') (apply_update-Kept loop message _ w le i)
                    | inr e'' ↦
                        rw (e, if◌then◌else◌, e', e'')
                          (answer_error-Kept s.connection _ loop w le i)
                  ]
                ]
        ]

    pub dispatch-Kept :
        (loop : Loop) (message : Option Json) (w : World)
        → loop.deadline ≤ d
        → HasDict w
        → Kept d (dispatch json s loop message w)
    unfolding dispatch
    dispatch-Kept loop none w le i = (le, i)
    dispatch-Kept loop (some (object message)) w le i = dispatch_object-Kept loop message w le i
    dispatch-Kept loop (some null) w le i = (le, i)
    dispatch-Kept loop (some (bool b)) w le i = answer_error-Kept s.connection _ loop w le i
    dispatch-Kept loop (some (number n)) w le i = answer_error-Kept s.connection _ loop w le i
    dispatch-Kept loop (some (text t)) w le i = answer_error-Kept s.connection _ loop w le i
    dispatch-Kept loop (some (list xs)) w le i = answer_error-Kept s.connection _ loop w le i
