-- ===== src/Collab/Hub.antt =====
-- app/modules/collab/hub.py: `CollabHub` of one worker. Redis is a flag (`get_redis()` answers or
-- does not), a hash of presence entries, and a log of what this worker published; a websocket is a
-- log of what it was sent, and an id in `gone` once sending to it fails.
pub mod Shrink
pub mod Eviction
pub mod Presence
pub mod Delivery
pub mod Audience
use prompt_studio_backend.Prelude.{
  ℕ, zero, suc, ◌+◌, String, Bool, true, false, not, ◌&&◌, Option, none, some, List, [], ◌∷◌, ◌++◌,
  map, if◌then◌else◌, ◌!=◌, ◌==◌, nat_eq, holds, length, select_where, count_where, delete_where,
  any_where,
}
use prompt_studio_backend.Collab.Rooms.{
  Connection, Room, Rooms, room_of, add_connection, drop_connection,
}
use prompt_studio_backend.Core.Json.{Json, Fields}
use prompt_studio_backend.Core.Roles.{ProjectRole}

-- `_describe(connection)`
pub record Description : Type 0 where
  pub user_id : ℕ
  pub email : String
  pub name : String
  pub accent_color : String
  pub role : ProjectRole
  pub connection_id : ℕ

-- A row of `_collapse`: the first entry of a person, with a count of their tabs.
pub record Person : Type 0 where
  pub entry : Description
  pub connections : ℕ

-- A relayed cursor or selection, its identity attached by the server.
pub record Pointer : Type 0 where
  pub user_id : ℕ
  pub connection_id : ℕ
  pub accent_color : String
  pub name : String
  pub payload : Option Json

-- The greeting of a socket: who it is, the document, and the roster.
pub record Hello : Type 0 where
  pub connection_id : ℕ
  pub you : Description
  pub can_edit : Bool
  pub doc : Fields
  pub doc_version : ℕ
  pub members : List Person

pub data Message : Type 0 where
  hello : Hello → Message
  member_joined member_left : Description → ℕ → Message
  presence : List Person → ℕ → Message
  cursor selection : Pointer → Message
  doc_updated : Fields → ℕ → ℕ → ℕ → Message
  doc_ack : ℕ → Message
  doc_conflict : String → Fields → ℕ → Option Json → Message
  pong : ℕ → Message
  error : String → Message

-- What one worker publishes for the others.
pub data BusMessage : Type 0 where
  relay : ℕ → Message → Option ℕ → BusMessage
  revoke : ℕ → ℕ → BusMessage

pub record PresenceEntry : Type 0 where
  pub project_id : ℕ
  pub connection_id : ℕ
  pub description : Description

pub record Hub : Type 0 where
  pub rooms : Rooms
  pub redis : Bool
  pub presence_hash : List PresenceEntry
  pub bus : List BusMessage
  pub gone : List ℕ
  pub delivered : List (ℕ × Message)
  pub closed : List (ℕ × ℕ)

abbrev pub ws_access_revoked : ℕ
ws_access_revoked = 4403

pub describe : Connection → Description
describe c = record {
  user_id = c.user_id;
  email = c.email;
  name = c.name;
  accent_color = c.accent_color;
  role = c.role;
  connection_id = c.id;
}

-- One step of the loop of `_collapse` over its dict of people.
pub count_person : Description → List Person → List Person
count_person d [] = record { entry = d; connections = 1 } ∷ []
count_person d (p ∷ people) =
    if p.entry.user_id == d.user_id
    then record p { connections = p.connections + 1 } ∷ people
    else p ∷ count_person d people

collapse_onto : List Person → List Description → List Person
collapse_onto people [] = people
collapse_onto people (d ∷ entries) = collapse_onto (count_person d people) entries

pub collapse : List Description → List Person
collapse entries = collapse_onto [] entries

-- `presence`: who is in this room on this worker
local_presence : ℕ → Hub → List Person
local_presence pid h = collapse (map describe (room_of pid h.rooms))

pub presence_snapshot : ℕ → Hub → List Person
presence_snapshot pid h =
    if h.redis
    then collapse (
        map (λ (e : PresenceEntry). e.description)
          (select_where (λ e. e.project_id == pid) h.presence_hash))
    else local_presence pid h

-- `client.hset(key, connection.id, …)`
pub record_presence : Connection → Hub → Hub
record_presence c h =
    if h.redis
    then record h {
      presence_hash =
          record { project_id = c.project_id; connection_id = c.id; description = describe c }
          ∷ delete_where (λ e. e.project_id == c.project_id && e.connection_id == c.id)
              h.presence_hash;
    }
    else h

-- `client.hdel(key, connection.id)`
pub forget_presence : Connection → Hub → Hub
forget_presence c h =
    if h.redis
    then record h {
      presence_hash =
          delete_where (λ e. e.project_id == c.project_id && e.connection_id == c.id)
            h.presence_hash;
    }
    else h

pub publish : ℕ → Message → Option ℕ → Hub → Hub
publish pid m exclude h =
    if h.redis then record h { bus = h.bus ++ relay pid m exclude ∷ [] } else h

pub publish_control : ℕ → ℕ → Hub → Hub
publish_control pid uid h = if h.redis then record h { bus = h.bus ++ revoke pid uid ∷ [] } else h

-- `connection.send(message)` fails
abbrev pub is_gone : Hub → Connection → Bool
is_gone h c = any_where (λ g. g == c.id) h.gone

-- The loop of `_deliver_local` that sends: a socket that is gone gets nothing.
pub send_all : Message → Room → Hub → Hub
send_all m [] h = h
send_all m (c ∷ cs) h =
    send_all m cs
      (if is_gone h c then h else record h { delivered = h.delivered ++ (c.id, m) ∷ [] })

-- A dead socket is taken out without a departure notice.
reap : Connection → Hub → Hub
reap c h = record (forget_presence c h) { rooms = drop_connection c.project_id c.id h.rooms }

pub reap_all : List Connection → Hub → Hub
reap_all [] h = h
reap_all (c ∷ cs) h = reap_all cs (reap c h)

-- Who a message goes to, and which of them turn out to be gone.
abbrev pub targets : ℕ → Option ℕ → Hub → Room
targets pid exclude h = select_where (λ c. not (holds exclude c.id)) (room_of pid h.rooms)

abbrev pub dead : ℕ → Option ℕ → Hub → Room
dead pid exclude h = select_where (is_gone h) (targets pid exclude h)

-- `if dead:` chooses between the hub as it stands and the hub after another round.
abbrev if_any : Room → Hub → Hub → Hub
if_any [] sent again = sent
if_any (c ∷ cs) sent again = again

-- `_deliver_local`, which broadcasts the roster again after reaping; the fuel bounds these rounds.
pub deliver_local : ℕ → ℕ → ℕ → Message → Option ℕ → Hub → Hub
deliver_local zero at pid m exclude h = h
deliver_local (suc rounds) at pid m exclude h =
    let sent = reap_all (dead pid exclude h) (send_all m (targets pid exclude h) h) in
    let roster = presence (presence_snapshot pid sent) at in
    if_any (dead pid exclude h) sent
      (publish pid roster none (deliver_local rounds at pid roster none sent))

-- Sending, reaping those addressed, and reaping the sender it had left out.
abbrev pub rounds : ℕ
rounds = 3

pub broadcast : ℕ → ℕ → Message → Option ℕ → Bool → Hub → Hub
broadcast at pid m exclude local_only h =
    let sent = deliver_local rounds at pid m exclude h in
    if local_only then sent else publish pid m exclude sent

pub join : ℕ → Connection → Hub → List Person × Hub
join at c h =
    let entered = record_presence c (record h { rooms = add_connection c h.rooms }) in
    let announced =
      broadcast at c.project_id (member_joined (describe c) at) (some c.id) false entered in
    let members = presence_snapshot c.project_id announced in
    (members, broadcast at c.project_id (presence members at) (some c.id) false announced)

-- The first half of `leave`: the socket's presence entry, then its place in the room.
detach : Connection → Hub → Hub
detach c h = record (forget_presence c h) {
  rooms = drop_connection c.project_id c.id (forget_presence c h).rooms;
}

-- The second half: who left, and then who is here.
announce_departure : ℕ → Connection → Hub → Hub
announce_departure at c h =
    let told = broadcast at c.project_id (member_left (describe c) at) (some c.id) false h in
    broadcast at c.project_id (presence (presence_snapshot c.project_id told) at) (some c.id) false
      told

pub leave : ℕ → Connection → Hub → Hub
leave at c h = announce_departure at c (detach c h)

-- One round of the loop of `disconnect_user`; another person's socket is passed over.
close_socket : ℕ → ℕ → Connection → Hub → Hub
close_socket at uid c h =
    if c.user_id != uid
    then h
    else let left = leave at c h in
      record left { closed = left.closed ++ (c.id, ws_access_revoked) ∷ [] }

-- The loop, over the sockets that were in the room when it began.
pub close_sockets : ℕ → ℕ → Room → Hub → Hub
close_sockets at uid [] h = h
close_sockets at uid (c ∷ cs) h = close_sockets at uid cs (close_socket at uid c h)

pub disconnect_user : ℕ → ℕ → ℕ → Bool → Hub → ℕ × Hub
disconnect_user at pid uid local_only h =
    let room = room_of pid h.rooms in
    let closed = close_sockets at uid room h in
    (
      count_where (λ c. c.user_id == uid) room,
      if local_only then closed else publish_control pid uid closed,
    )

-- One message of another worker, as `_listen` replays it.
pub replay : ℕ → BusMessage → Hub → Hub
replay at (relay pid m exclude) h = deliver_local rounds at pid m exclude h
replay at (revoke pid uid) h = (disconnect_user at pid uid true h).1

pub room_size : ℕ → Hub → ℕ
room_size pid h = length (room_of pid h.rooms)
