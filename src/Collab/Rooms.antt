-- ===== src/Collab/Rooms.antt =====
-- app/modules/collab/hub.py: `Connection`, and `_rooms`, a dict of projects to a dict of
-- connection ids to connections, both in insertion order.
pub mod Laws
use prompt_studio_backend.Prelude.{
  ℕ, String, List, [], ◌∷◌, if◌then◌else◌, ◌==◌, nat_eq, delete_where,
}
use prompt_studio_backend.Core.Roles.{ProjectRole}

pub record Connection : Type 0 where
  pub id : ℕ
  pub user_id : ℕ
  pub email : String
  pub name : String
  pub accent_color : String
  pub role : ProjectRole
  pub project_id : ℕ

abbrev pub Room : Type 0
Room = List Connection

abbrev pub Rooms : Type 0
Rooms = List (ℕ × Room)

-- `self._rooms.get(project_id, {})`
unfoldable pub room_of : ℕ → Rooms → Room
room_of pid [] = []
room_of pid ((k, room) ∷ rest) = if k == pid then room else room_of pid rest

-- `room[connection.id] = connection`: a new key goes to the end.
pub put_connection : Connection → Room → Room
put_connection c [] = c ∷ []
put_connection c (d ∷ room) = if d.id == c.id then c ∷ room else d ∷ put_connection c room

-- `room = self._rooms.setdefault(project_id, {}); room[connection.id] = connection`
pub add_connection : Connection → Rooms → Rooms
unfolding put_connection
add_connection c [] = (c.project_id, c ∷ []) ∷ []
add_connection c ((k, room) ∷ rest) =
    if k == c.project_id
    then (k, put_connection c room) ∷ rest
    else (k, room) ∷ add_connection c rest

-- An emptied room is dropped from the dict.
keep_room : ℕ → Room → Rooms → Rooms
keep_room k [] rest = rest
keep_room k (c ∷ room) rest = (k, c ∷ room) ∷ rest

-- `room.pop(connection.id, None); if not room: self._rooms.pop(project_id, None)`
pub drop_connection : ℕ → ℕ → Rooms → Rooms
unfolding keep_room
drop_connection pid cid [] = []
drop_connection pid cid ((k, room) ∷ rest) =
    if k == pid
    then keep_room k (delete_where (λ c. c.id == cid) room) rest
    else (k, room) ∷ drop_connection pid cid rest
