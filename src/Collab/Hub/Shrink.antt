-- ===== src/Collab/Hub/Shrink.antt =====
-- The rooms under a delivery, a departure and an eviction (app/modules/collab/hub.py).
use prompt_studio_backend.Prelude.{
  ℕ, zero, suc, ◌≡◌, refl, ◌∙◌, inl, inr, Bool, true, false, Option, none, some, [], ◌∷◌, arith,
  if◌then◌else◌, ◌==◌, nat_beq_iff, nat_eq, Bool-cases, beq_refl, All, delete_where-All,
  delete_where-All_of,
}
use prompt_studio_backend.Collab.Hub.{
  Message, presence, Hub, describe, presence_snapshot, record_presence, forget_presence, publish,
  publish_control, send_all, reap, reap_all, targets, dead, if_any, deliver_local, rounds,
  broadcast, detach, announce_departure, leave, member_left,
}
use prompt_studio_backend.Collab.Rooms.{Connection, Room, Rooms, room_of, drop_connection}
use prompt_studio_backend.Collab.Rooms.Laws.{
  IsDict, room_of-drop_connection, IsDict-drop_connection,
}

pub rooms-send_all : (m : Message) (cs : Room) (h : Hub) → (send_all m cs h).rooms ≡ h.rooms
unfolding send_all
rooms-send_all m [] h = refl
rooms-send_all m (c ∷ cs) h = rooms-send_all m cs _ ∙ ground arith

pub rooms-publish :
    (pid : ℕ) (m : Message) (x : Option ℕ) (h : Hub) → (publish pid m x h).rooms ≡ h.rooms
unfolding publish
rooms-publish pid m x h = ground arith

rooms-publish_control : (pid uid : ℕ) (h : Hub) → (publish_control pid uid h).rooms ≡ h.rooms
unfolding publish_control
rooms-publish_control pid uid h = ground arith

pub rooms-forget_presence : (c : Connection) (h : Hub) → (forget_presence c h).rooms ≡ h.rooms
unfolding forget_presence
rooms-forget_presence c h = ground arith

pub rooms-record_presence : (c : Connection) (h : Hub) → (record_presence c h).rooms ≡ h.rooms
unfolding record_presence
rooms-record_presence c h = ground arith

module _ (P : Connection → Type 0) (q : ℕ) where
  abbrev pub InRoom : Rooms → Type 0
  InRoom rs = IsDict rs × All P (room_of q rs)

  pub drop_connection-InRoom :
      (pid cid : ℕ) (rs : Rooms) → InRoom rs → InRoom (drop_connection pid cid rs)
  drop_connection-InRoom pid cid rs h = (
    IsDict-drop_connection pid cid rs h.0,
    rw (room_of-drop_connection q pid cid rs h.0) (elim (Bool-cases (q == pid)) [
      | inl e ↦
          rw (e, if◌then◌else◌, ← (nat_beq_iff q pid).0 e)
            (delete_where-All P (λ c. c.id == cid) (room_of q rs) h.1)
      | inr e ↦ rw (e, if◌then◌else◌) h.1
    ]),
  )

  reap_all-InRoom : (cs : Room) (h : Hub) → InRoom h.rooms → InRoom (reap_all cs h).rooms
  unfolding reap_all reap
  reap_all-InRoom [] h i = i
  reap_all-InRoom (c ∷ cs) h i =
      reap_all-InRoom cs (reap c h) (drop_connection-InRoom c.project_id c.id h.rooms i)

  if_any-InRoom :
      (cs : Room) (sent again : Hub)
      → InRoom sent.rooms
      → InRoom again.rooms
      → InRoom (if_any cs sent again).rooms
  if_any-InRoom [] sent again s a = s
  if_any-InRoom (c ∷ cs) sent again s a = a

  pub sent-InRoom :
      (pid : ℕ) (m : Message) (x : Option ℕ) (h : Hub)
      → InRoom h.rooms
      → InRoom (reap_all (dead pid x h) (send_all m (targets pid x h) h)).rooms
  sent-InRoom pid m x h i =
      reap_all-InRoom (dead pid x h) _ (rw (rooms-send_all m (targets pid x h) h) i)

  pub deliver_local-InRoom :
      (n at pid : ℕ) (m : Message) (x : Option ℕ) (h : Hub)
      → InRoom h.rooms
      → InRoom (deliver_local n at pid m x h).rooms
  unfolding deliver_local
  deliver_local-InRoom zero at pid m x h i = i
  deliver_local-InRoom (suc n) at pid m x h i =
      if_any-InRoom (dead pid x h) _ _ (sent-InRoom pid m x h i)
        (rw rooms-publish (deliver_local-InRoom n at pid _ none _ (sent-InRoom pid m x h i)))

  pub broadcast-InRoom :
      (at pid : ℕ) (m : Message) (x : Option ℕ) (b : Bool) (h : Hub)
      → InRoom h.rooms
      → InRoom (broadcast at pid m x b h).rooms
  unfolding broadcast
  broadcast-InRoom at pid m x true h i = deliver_local-InRoom rounds at pid m x h i
  broadcast-InRoom at pid m x false h i =
      rw rooms-publish (deliver_local-InRoom rounds at pid m x h i)

  announce_departure-InRoom :
      (at : ℕ) (c : Connection) (h : Hub)
      → InRoom h.rooms
      → InRoom (announce_departure at c h).rooms
  unfolding announce_departure
  announce_departure-InRoom at c h i =
      let told = broadcast at c.project_id (member_left (describe c) at) (some c.id) false h in
      broadcast-InRoom at c.project_id (presence (presence_snapshot c.project_id told) at)
        (some c.id) false told
        (broadcast-InRoom at c.project_id (member_left (describe c) at) (some c.id) false h i)

  pub leave-InRoom :
      (at : ℕ) (c : Connection) (h : Hub) → InRoom h.rooms → InRoom (leave at c h).rooms
  unfolding leave detach
  leave-InRoom at c h i = announce_departure-InRoom at c (detach c h) (
      drop_connection-InRoom c.project_id c.id (forget_presence c h).rooms
        (rw rooms-forget_presence i))

-- In its own room a departure leaves only sockets with another id.
pub leave-All :
    (P Q : Connection → Type 0) (at : ℕ) (c : Connection) (h : Hub)
    → ((d : Connection) → P d → (d.id == c.id) ≡ false → Q d)
    → IsDict h.rooms
    → All P (room_of c.project_id h.rooms)
    → IsDict (leave at c h).rooms × All Q (room_of c.project_id (leave at c h).rooms)
unfolding leave detach
leave-All P Q at c h k i a = announce_departure-InRoom Q c.project_id at c (detach c h) (
    rw rooms-forget_presence (
      IsDict-drop_connection c.project_id c.id h.rooms i,
      rw
          (
            room_of-drop_connection c.project_id c.project_id c.id h.rooms i,
            beq_refl c.project_id,
            if◌then◌else◌,
          )
          (delete_where-All_of P Q (λ d. d.id == c.id) (room_of c.project_id h.rooms) k a),
    ))
