-- ===== src/Collab/Socket/Rounds.antt =====
-- One round of a socket's loop whose access is gone (app/modules/collab/router.py).
use prompt_studio_backend.Prelude.{
  ℕ, ◌≤◌, ◌≡◌, refl, inl, inr, false, Option, none, some, arith, leb, if◌then◌else◌, le→leb,
  Bool-cases,
}
use prompt_studio_backend.Collab.Socket.{
  ws_unauthorised, ws_bad_message, Socket, Loop, Event, timeout, frame, malformed, disconnected,
  Round, go, stop, close_with, is_closed, still_authorised,
}
use prompt_studio_backend.Collab.Socket.Answers.{Kept, close_with-HasDict, dispatch-Kept}
use prompt_studio_backend.Collab.Socket.Kept.{still_authorised-ReturnsIn, HasDict}
use prompt_studio_backend.Collab.Socket.Serve.{
  revalidated, revalidate, dispatch_if, receive, round_of,
}
use prompt_studio_backend.Core.Json.{Json}
use prompt_studio_backend.Projects.Schemas.{JsonLibrary}
use prompt_studio_backend.Store.{World}
use prompt_studio_backend.Store.Action.{Result, ◌>>=◌, bind-ok, ok, err}

-- A round that stops.
abbrev pub Stopped : Result Round × World → Type 0
Stopped (r, w) = (r ≡ ok stop) × HasDict w

-- The question's answer in this world.
abbrev pub IsUnauthorised : Socket → World → Type 0
IsUnauthorised s w = (still_authorised s w).0 ≡ ok false

module _ (d : ℕ) (json : JsonLibrary) (s : Socket) where
  Stopped-Kept : (r : Result Round) (w : World) → Stopped (r, w) → Kept d (r, w)
  Stopped-Kept (ok (go loop)) w (e, i) = cc
  Stopped-Kept (ok stop) w (e, i) = i
  Stopped-Kept (err x) w (e, i) = cc

  revalidated-Stopped :
      (message : Option Json) (loop : Loop) (w : World)
      → loop.deadline ≤ w.now
      → HasDict w
      → IsUnauthorised s w
      → Stopped ((revalidate s loop >>= dispatch_if json s message) w)
  unfolding revalidate revalidated dispatch_if close_with
  revalidated-Stopped message loop w due i denied =
      let asked = still_authorised-ReturnsIn s w in
      rw
        (
          le→leb loop.deadline w.now due,
          if◌then◌else◌,
          bind-ok (still_authorised s) (revalidated s loop) w denied,
        )
        (
          refl,
          close_with-HasDict s.connection ws_unauthorised "Your access changed"
              (still_authorised s w).1 (rw asked.1 i),
        )

  revalidated-Kept :
      (message : Option Json) (loop : Loop) (w : World)
      → loop.deadline ≤ d
      → HasDict w
      → IsUnauthorised s w
      → Kept d ((revalidate s loop >>= dispatch_if json s message) w)
  unfolding revalidate dispatch_if
  revalidated-Kept message loop w le i denied = elim (Bool-cases (leb loop.deadline w.now)) [
    | inl e ↦ Stopped-Kept _ _ (revalidated-Stopped message loop w (ground arith) i denied)
    | inr e ↦ rw (e, if◌then◌else◌) (dispatch-Kept d json s loop message w le i)
  ]

  receive-Stopped :
      (event : Event) (loop : Loop) (w : World)
      → loop.deadline ≤ w.now
      → HasDict w
      → IsUnauthorised s w
      → Stopped (receive json s event loop w)
  unfolding receive close_with
  receive-Stopped timeout loop w due i denied = revalidated-Stopped none loop w due i denied
  receive-Stopped (frame message) loop w due i denied =
      revalidated-Stopped (some message) loop w due i denied
  receive-Stopped malformed loop w due i denied =
      (refl, close_with-HasDict s.connection ws_bad_message "Malformed message" w i)
  receive-Stopped disconnected loop w due i denied = (refl, i)

  receive-Kept :
      (event : Event) (loop : Loop) (w : World)
      → loop.deadline ≤ d
      → HasDict w
      → IsUnauthorised s w
      → Kept d (receive json s event loop w)
  unfolding receive close_with
  receive-Kept timeout loop w le i denied = revalidated-Kept none loop w le i denied
  receive-Kept (frame message) loop w le i denied =
      revalidated-Kept (some message) loop w le i denied
  receive-Kept malformed loop w le i denied =
      close_with-HasDict s.connection ws_bad_message "Malformed message" w i
  receive-Kept disconnected loop w le i denied = i

  pub round_of-Stopped :
      (event : Event) (loop : Loop) (w : World)
      → loop.deadline ≤ w.now
      → HasDict w
      → IsUnauthorised s w
      → Stopped (round_of json s event loop w)
  unfolding round_of
  round_of-Stopped event loop w due i denied = elim (Bool-cases (is_closed s.connection w)) [
    | inl e ↦ rw (e, if◌then◌else◌) (refl, i)
    | inr e ↦ rw (e, if◌then◌else◌) (receive-Stopped event loop w due i denied)
  ]

  pub round_of-Kept :
      (event : Event) (loop : Loop) (w : World)
      → loop.deadline ≤ d
      → HasDict w
      → IsUnauthorised s w
      → Kept d (round_of json s event loop w)
  unfolding round_of
  round_of-Kept event loop w le i denied = elim (Bool-cases (is_closed s.connection w)) [
    | inl e ↦ rw (e, if◌then◌else◌) i
    | inr e ↦ rw (e, if◌then◌else◌) (receive-Kept event loop w le i denied)
  ]
