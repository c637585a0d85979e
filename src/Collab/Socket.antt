-- ===== src/Collab/Socket.antt =====
-- app/modules/collab/router.py: one websocket from its handshake to its departure. Between two
-- messages of the client anything may happen, so a socket is run over its arrivals: what the others
-- did in the meanwhile, and what came then.
pub mod Serve
pub mod Handshake
pub mod Kept
pub mod Answers
pub mod Rounds
pub mod Revoked
pub mod Writes
use prompt_studio_backend.Prelude.{
  ℕ, ◌*◌, String, Bool, true, false, not, ◌||◌, Option, none, some, [], ◌∷◌, ◌++◌, if◌then◌else◌,
  ◌==◌, nat_eq, is_some, any_where,
}
use prompt_studio_backend.Auth.Sessions.{is_token_revoked}
use prompt_studio_backend.Collab.Hub.{Message, is_gone, send_all, leave, error}
use prompt_studio_backend.Collab.Rooms.{Connection}
use prompt_studio_backend.Core.Errors.{AppError}
use prompt_studio_backend.Core.Json.{Json, Fields, empty}
use prompt_studio_backend.Core.Roles.{ProjectRole}
use prompt_studio_backend.Projects.Access.{resolve_access}
use prompt_studio_backend.Projects.Documents.{ProjectDocSave, saved, save_doc}
use prompt_studio_backend.Store.{User, Project, World}
use prompt_studio_backend.Store.Action.{
  Result, Action, pure, gets, ◌>>=◌, ◌>>◌, modify, rollback, own_session, attempt, ok, err,
}
use prompt_studio_backend.Store.Rows.{get_user, get_project}

-- Close codes, and the two intervals.
abbrev pub ws_unauthorised : ℕ
ws_unauthorised = 4401

abbrev pub ws_forbidden : ℕ
ws_forbidden = 4403

abbrev pub ws_not_found : ℕ
ws_not_found = 4404

abbrev pub ws_bad_message : ℕ
ws_bad_message = 4400

abbrev pub snapshot_interval : ℕ
snapshot_interval = 90 * 1_000_000

abbrev pub revalidate_interval : ℕ
revalidate_interval = 30 * 1_000_000

-- What the handler keeps of its caller.
pub record Socket : Type 0 where
  pub connection : Connection
  pub user : User
  pub access_jti : String

-- The variables of the loop.
pub record Loop : Type 0 where
  pub deadline : ℕ
  pub last_snapshot : ℕ

-- What `receive_json` comes to: nothing before the deadline, a JSON value, a frame that is none, or
-- a socket that has gone.
pub data Event : Type 0 where
  timeout : Event
  frame : Json → Event
  malformed : Event
  disconnected : Event

pub record Arrival : Type 0 where
  pub meanwhile : World → World
  pub event : Event

-- One round of the loop either goes on or ends in `finally`.
pub data Round : Type 0 where
  go : Loop → Round
  stop : Round

-- How an update fared.
pub data Saving : Type 0 where
  signed_out : String → Saving
  conflict : String → Fields → ℕ → Saving
  refused : String → Saving
  stored : User → Project → Saving

pub data Ending : Type 0 where
  waiting left : Ending

-- `websocket.send_json(…)`, where a failure is of no account
abbrev pub tell : Connection → Message → Action (Unit {0})
tell c m = modify λ w. record w { hub = send_all m (c ∷ []) w.hub }

abbrev pub is_lost : Connection → World → Bool
is_lost c w = is_gone w.hub c

-- `websocket.send_json(…)`, where a failure ends the loop
abbrev pub answer : Connection → Message → Loop → Action Round
answer c m loop = do lost ← gets (is_lost c); tell c m; pure (if lost then stop else go loop)

-- `_error`
abbrev pub send_error : Connection → String → Action (Unit {0})
send_error c message = tell c (error message)

-- `_close`
unfoldable pub close_with : Connection → ℕ → String → Action (Unit {0})
close_with c code reason = do
  lost ← gets (is_lost c)
  send_error c reason
  modify λ w.
      if lost
      then w
      else record w { hub = record w.hub { closed = w.hub.closed ++ (c.id, code) ∷ [] } }

abbrev pub is_closed : Connection → World → Bool
is_closed c w = any_where (λ (x : ℕ × ℕ). x.0 == c.id) w.hub.closed

-- `hub.leave`, in `finally`
abbrev pub leave_room : Connection → Action (Unit {0})
leave_room c = modify λ w. record w { hub = leave w.now c w.hub }

-- `_reload_user`
unfoldable pub reload_user : ℕ → World → Option User
reload_user uid w = live (get_user uid w)
  where
    live : Option User → Option User
    live none = none
    live (some user) = if not user.is_active || user.is_deleted then none else some user

-- `_current_doc`
abbrev pub current_doc : Option Project → Fields × ℕ
current_doc none = (empty, 0)
current_doc (some project) = (project.doc, project.doc_version)

-- `try: … except AppError as exc`
abbrev pub settle : {A : Type 0} → Action A → Action (Result A)
settle m w = let (r, w') = m w in (ok r, w')

-- Whether the account and its place on the project still stand.
abbrev pub may_view : ℕ → Option User → Action Bool
may_view pid none = pure false
may_view pid (some user) = do
  access ← attempt (resolve_access pid user ProjectRole.viewer)
  pure (is_some access)

-- `_still_authorised`
unfoldable pub still_authorised : Socket → Action Bool
still_authorised s = own_session do
  revoked ← gets (is_token_revoked s.access_jti)
  user ← gets (reload_user s.user.id)
  if revoked then pure false else may_view s.connection.project_id user

-- The refusal of a save, with the current document if it was stale.
unfoldable pub refuse_save : ℕ → AppError → Action Saving
refuse_save pid e = do
  modify rollback
  found ← gets (get_project pid)
  pure (
      if e.status_code == 409
      then conflict e.message (current_doc found).0 (current_doc found).1
      else refused e.message)

unfoldable pub saving : ℕ → User → Result Project → Action Saving
saving pid user (ok project) = pure (stored user project)
saving pid user (err e) = refuse_save pid e

-- The save itself, on an account that is still there.
unfoldable pub save_as : ℕ → ProjectDocSave → Bool → Option User → Action Saving
save_as pid save take_snapshot none = pure (signed_out "Your account is no longer active")
save_as pid save take_snapshot (some user) = do
  saved ← settle do
    access ← resolve_access pid user ProjectRole.editor
    save_doc access user save take_snapshot true
  saving pid user saved

-- The session of `_apply_update`.
unfoldable pub write_save : Socket → ProjectDocSave → Bool → Action Saving
write_save s save take_snapshot = own_session do
  revoked ← gets (is_token_revoked s.access_jti)
  user ← gets (reload_user s.user.id)
  if revoked
      then pure (signed_out "Your session has ended")
      else save_as s.connection.project_id save take_snapshot user
