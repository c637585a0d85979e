-- ===== src/Collab/Hub/Eviction.antt =====
-- The room after `disconnect_user` (app/modules/collab/hub.py).
use mathlib.Core.Path.{subst}
use prompt_studio_backend.Prelude.{
  ℕ, ◌≡◌, refl, ◌≢◌, inl, inr, Bool, true, false, ◌&&◌, ◌||◌, [], ◌∷◌, arith, if◌then◌else◌, ◌==◌,
  ◌!=◌, nat_beq_iff, nat_eq, Bool-cases, beq_refl, or_true, any_where, All, All-map, All-any_where,
}
use prompt_studio_backend.Collab.Hub.{
  Hub, publish_control, close_socket, close_sockets, disconnect_user,
}
use prompt_studio_backend.Collab.Hub.Shrink.{leave-All}
use prompt_studio_backend.Collab.Rooms.{Connection, Room, room_of}
use prompt_studio_backend.Collab.Rooms.Laws.{IsDict}

abbrev pub IsPlaced : ℕ → Connection → Type 0
IsPlaced pid c = c.project_id ≡ pid

-- A socket of the person that the loop has still to come to.
abbrev pending : ℕ → Room → Connection → Bool
pending uid cs d = d.user_id != uid || any_where (λ c. c.user_id == d.user_id && c.id == d.id) cs

-- The sockets of the room that the loop has passed are gone from it.
abbrev Covered : ℕ → Room → Connection → Type 0
Covered uid cs d = pending uid cs d ≡ true

Covered-tail :
    (uid : ℕ) (c : Connection) (cs : Room) (d : Connection)
    → Covered uid (c ∷ cs) d
    → (c.user_id == uid && c.id == d.id) ≡ false
    → Covered uid cs d
unfolding any_where
Covered-tail uid c cs d h e = ground arith

close_socket-Covered :
    (at uid : ℕ) (c : Connection) (cs : Room) (h : Hub)
    → IsDict h.rooms
    → All (Covered uid (c ∷ cs)) (room_of c.project_id h.rooms)
    → IsDict (close_socket at uid c h).rooms
      × All (Covered uid cs) (room_of c.project_id (close_socket at uid c h).rooms)
unfolding close_socket
close_socket-Covered at uid c cs h i a = elim (Bool-cases (c.user_id == uid)) [
  | inl e ↦
      rw (e, if◌then◌else◌)
        (leave-All (Covered uid (c ∷ cs)) (Covered uid cs) at c h
          (λ d k n. Covered-tail uid c cs d k (ground (arith, nat_beq_iff c.id d.id))) i a)
  | inr e ↦
      rw (e, if◌then◌else◌)
        (
          i,
          All-map _ _ (room_of c.project_id h.rooms)
              (λ d k. Covered-tail uid c cs d k (ground arith)) a,
        )
]

close_socket-Placed :
    (at uid pid : ℕ) (c : Connection) (cs : Room) (h : Hub)
    → c.project_id ≡ pid
    → IsDict h.rooms
    → All (Covered uid (c ∷ cs)) (room_of pid h.rooms)
    → IsDict (close_socket at uid c h).rooms
      × All (Covered uid cs) (room_of pid (close_socket at uid c h).rooms)
close_socket-Placed at uid pid c cs h e i =
    subst
      (λ p.
        All (Covered uid (c ∷ cs)) (room_of p h.rooms)
        → IsDict (close_socket at uid c h).rooms
          × All (Covered uid cs) (room_of p (close_socket at uid c h).rooms))
      e (close_socket-Covered at uid c cs h i)

close_sockets-Covered :
    (at uid pid : ℕ) (cs : Room) (h : Hub)
    → All (IsPlaced pid) cs
    → IsDict h.rooms
    → All (Covered uid cs) (room_of pid h.rooms)
    → All (Covered uid []) (room_of pid (close_sockets at uid cs h).rooms)
unfolding close_sockets
close_sockets-Covered at uid pid [] h p i a = a
close_sockets-Covered at uid pid (c ∷ cs) h p i a =
    let one = close_socket-Placed at uid pid c cs h p.0 i a in
    close_sockets-Covered at uid pid cs (close_socket at uid c h) p.1 one.0 one.1

-- When the loop begins, every socket of the person is still to come.
Covered-room : (uid : ℕ) (room : Room) → All (Covered uid room) room
Covered-room uid room =
    All-map _ _ room (λ d k. rw k (or_true (d.user_id != uid)))
      (All-any_where (λ c d. c.user_id == d.user_id && c.id == d.id) room
        (λ c. rw (beq_refl c.user_id) (beq_refl c.id)))

-- When it ends, no socket of the person is left.
Covered-nil : (uid : ℕ) (d : Connection) → Covered uid [] d → d.user_id ≢ uid
unfolding any_where
Covered-nil uid d k e = ground arith

rooms-publish_control : (pid uid : ℕ) (h : Hub) → (publish_control pid uid h).rooms ≡ h.rooms
unfolding publish_control
rooms-publish_control pid uid h = ground arith

rooms-disconnect_user :
    (at pid uid : ℕ) (local_only : Bool) (h : Hub)
    → (disconnect_user at pid uid local_only h).1.rooms
      ≡ (close_sockets at uid (room_of pid h.rooms) h).rooms
unfolding disconnect_user
rooms-disconnect_user at pid uid true h = refl
rooms-disconnect_user at pid uid false h = rooms-publish_control pid uid _

-- Once a person is disconnected from a project, no socket of theirs is in its room: every
-- connection that is left belongs to somebody else. The rooms form a dict, and the sockets of the
-- room are on this project.
pub disconnect_user_evicts :
    (at pid uid : ℕ) (local_only : Bool) (h : Hub)
    → IsDict h.rooms
    → All (IsPlaced pid) (room_of pid h.rooms)
    → All (λ c. c.user_id ≢ uid) (room_of pid (disconnect_user at pid uid local_only h).1.rooms)
disconnect_user_evicts at pid uid local_only h i p = rw rooms-disconnect_user (
    All-map _ _ _ (Covered-nil uid) (
      close_sockets-Covered at uid pid (room_of pid h.rooms) h p i
        (Covered-room uid (room_of pid h.rooms))))
