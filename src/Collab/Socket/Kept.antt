-- ===== src/Collab/Socket/Kept.antt =====
-- The hub under the actions of one socket (app/modules/collab/router.py and hub.py).
use prompt_studio_backend.Prelude.{
  ℕ, ◌≡◌, refl, ◌≢◌, inl, inr, Bool, true, false, Option, none, some, [], ◌∷◌, if◌then◌else◌,
  nat_beq_iff, is_some, Bool-cases, All,
}
use prompt_studio_backend.Auth.Sessions.{is_token_revoked}
use prompt_studio_backend.Collab.Hub.{Message, Hub, broadcast}
use prompt_studio_backend.Collab.Hub.Shrink.{broadcast-InRoom, leave-All}
use prompt_studio_backend.Collab.Rooms.{Connection, Room, room_of}
use prompt_studio_backend.Collab.Rooms.Laws.{IsDict}
use prompt_studio_backend.Collab.Socket.{
  Socket, signed_out, stored, leave_room, reload_user, may_view, still_authorised, refuse_save,
  saving, save_as, write_save,
}
use prompt_studio_backend.Core.Roles.{ProjectRole}
use prompt_studio_backend.Projects.Access.{ProjectAccess}
use prompt_studio_backend.Projects.Access.Frame.{after_binding, resolve_access-then}
use prompt_studio_backend.Projects.Documents.{ProjectDocSave, save_doc}
use prompt_studio_backend.Projects.Documents.Frame.{save_doc-then}
use prompt_studio_backend.Projects.Feed.Frame.{HubIs}
use prompt_studio_backend.Store.{User, Project, ProjectMember, World}
use prompt_studio_backend.Store.Action.{Result, continue, rollback, attempted, ok, err}

binding-HubIs :
    (h : Hub) (user : User) (row : ProjectMember) (w : World)
    → HubIs h w
    → HubIs h (after_binding user row w)
binding-HubIs h user row w p = p

-- An action that returns, in a world with the same hub.
abbrev pub ReturnsIn : Hub → {A : Type 0} → Result A × World → Type 0
ReturnsIn h {A} (r, w) = ((a : A) × (r ≡ ok a)) × HubIs h w

may_view-ReturnsIn :
    (h : Hub) (pid : ℕ) (user : Option User) (w : World)
    → HubIs h w
    → ReturnsIn h (may_view pid user w)
may_view-ReturnsIn h pid none w p = ((false, refl), p)
may_view-ReturnsIn h pid (some user) w p =
    resolve_access-then (HubIs h) (binding-HubIs h)
      (λ r. ReturnsIn h (ok (is_some (attempted r.0)), r.1)) pid user ProjectRole.viewer w
      (λ r w' p'. ((is_some (attempted r), refl), p')) p

pub still_authorised-ReturnsIn : (s : Socket) (w : World) → ReturnsIn w.hub (still_authorised s w)
unfolding still_authorised
still_authorised-ReturnsIn s w = elim (Bool-cases (is_token_revoked s.access_jti (rollback w))) [
  | inl e ↦ rw (e, if◌then◌else◌) ((false, refl), refl)
  | inr e ↦
      rw (e, if◌then◌else◌)
        (may_view-ReturnsIn w.hub s.connection.project_id (reload_user s.user.id (rollback w))
          (rollback w) refl)
]

saving-ReturnsIn :
    (h : Hub) (pid : ℕ) (user : User) (r : Result Project) (w : World)
    → HubIs h w
    → ReturnsIn h (saving pid user r w)
unfolding saving refuse_save
saving-ReturnsIn h pid user (ok project) w p = ((stored user project, refl), p)
saving-ReturnsIn h pid user (err e) w p = ((_, refl), p)

save_as-ReturnsIn :
    (h : Hub) (pid : ℕ) (save : ProjectDocSave) (take_snapshot : Bool) (user : Option User)
    (w : World)
    → HubIs h w
    → ReturnsIn h (save_as pid save take_snapshot user w)
unfolding save_as
save_as-ReturnsIn h pid save take_snapshot none w p =
    ((signed_out "Your account is no longer active", refl), p)
save_as-ReturnsIn h pid save take_snapshot (some user) w p =
    resolve_access-then (HubIs h) (binding-HubIs h)
      (λ r. ReturnsIn h (
        saving pid user (continue r (λ access. save_doc access user save take_snapshot true)).0
          (continue r (λ access. save_doc access user save take_snapshot true)).1))
      pid user ProjectRole.editor w after p
  where
    after :
        (r : Result ProjectAccess) (w' : World)
        → HubIs h w'
        → ReturnsIn h (
            saving pid user
              (continue (r, w') (λ access. save_doc access user save take_snapshot true)).0
              (continue (r, w') (λ access. save_doc access user save take_snapshot true)).1)
    after (err e) w' p' = saving-ReturnsIn h pid user (err e) w' p'
    after (ok access) w' p' =
        save_doc-then h (λ r. ReturnsIn h (saving pid user r.0 r.1))
          (λ r w'' p''. saving-ReturnsIn h pid user r w'' p'') access user save take_snapshot true
          w' p'

pub write_save-ReturnsIn :
    (s : Socket) (save : ProjectDocSave) (take_snapshot : Bool) (w : World)
    → ReturnsIn w.hub (write_save s save take_snapshot w)
unfolding write_save
write_save-ReturnsIn s save take_snapshot w =
    elim (Bool-cases (is_token_revoked s.access_jti (rollback w))) [
      | inl e ↦ rw (e, if◌then◌else◌) ((signed_out "Your session has ended", refl), refl)
      | inr e ↦
          rw (e, if◌then◌else◌)
            (save_as-ReturnsIn w.hub s.connection.project_id save take_snapshot
              (reload_user s.user.id (rollback w)) (rollback w) refl)
    ]

-- The rooms are a dict.
abbrev pub HasDict : World → Type 0
HasDict w = IsDict w.hub.rooms

All-Unit : (room : Room) → All (λ (c : Connection). Unit {0}) room
All-Unit [] = tt
All-Unit (c ∷ room) = (tt, All-Unit room)

pub IsDict-broadcast :
    (at pid : ℕ) (m : Message) (x : Option ℕ) (b : Bool) (h : Hub)
    → IsDict h.rooms
    → IsDict (broadcast at pid m x b h).rooms
IsDict-broadcast at pid m x b h i =
    (broadcast-InRoom (λ _. Unit {0}) pid at pid m x b h (i, All-Unit (room_of pid h.rooms))).0

-- Once a socket has left, no socket with its id is in its room.
abbrev pub IsOut : Connection → World → Type 0
IsOut c w = HasDict w × All (λ d. d.id ≢ c.id) (room_of c.project_id w.hub.rooms)

pub leave_room-IsOut : (c : Connection) (w : World) → HasDict w → IsOut c (leave_room c w).1
leave_room-IsOut c w i =
    leave-All (λ _. Unit {0}) (λ d. d.id ≢ c.id) w.now c w.hub
      (λ d _ n same. cc ((nat_beq_iff d.id c.id).1 same)) i
      (All-Unit (room_of c.project_id w.hub.rooms))
