-- ===== src/Collab/Rooms/Laws.antt =====
-- What the room dict holds after a socket joins or leaves.
use prompt_studio_backend.Prelude.{
  ℕ, ◌≡◌, refl, ◌≢◌, inl, inr, [], ◌∷◌, arith, if◌then◌else◌, ◌==◌, nat_eq, Bool-cases,
  delete_where,
}
use prompt_studio_backend.Collab.Rooms.{
  Connection, Room, Rooms, room_of, put_connection, add_connection, keep_room, drop_connection,
}

-- Every project has one room: the keys of the dict differ.
abbrev pub IsFresh : ℕ → Rooms → Type 0
IsFresh pid [] = Unit {0}
IsFresh pid ((k, room) ∷ rest) = (k ≢ pid) × IsFresh pid rest

-- A dict's keys differ, and no room in it is empty.
abbrev pub IsDict : Rooms → Type 0
IsDict [] = Unit {0}
IsDict ((k, room) ∷ rest) = (room ≢ []) × IsFresh k rest × IsDict rest

pub room_of-IsFresh : (pid : ℕ) (rs : Rooms) → IsFresh pid rs → room_of pid rs ≡ []
unfolding room_of
room_of-IsFresh pid [] h = refl
room_of-IsFresh pid ((k, room) ∷ rest) h = ground (arith, room_of-IsFresh pid rest h.1)

room_of-keep_room :
    (p k : ℕ) (room : Room) (rest : Rooms)
    → IsFresh k rest
    → room_of p (keep_room k room rest) ≡ (if p == k then room else room_of p rest)
unfolding room_of keep_room
room_of-keep_room p k [] rest h = ground (arith, room_of-IsFresh k rest h)
room_of-keep_room p k (c ∷ room) rest h = ground arith

-- Leaving takes the socket out of its own room and touches no other.
pub room_of-drop_connection :
    (p pid cid : ℕ) (rs : Rooms)
    → IsDict rs
    → room_of p (drop_connection pid cid rs)
      ≡ (if p == pid then delete_where (λ c. c.id == cid) (room_of pid rs) else room_of p rs)
unfolding room_of drop_connection delete_where
room_of-drop_connection p pid cid [] h = ground arith
room_of-drop_connection p pid cid ((k, room) ∷ rest) h = ground (
  arith,
  room_of-keep_room p k (delete_where (λ c. c.id == cid) room) rest h.1,
  room_of-drop_connection p pid cid rest h.2,
)

IsFresh-keep_room :
    (q k : ℕ) (room : Room) (rest : Rooms)
    → k ≢ q
    → IsFresh q rest
    → IsFresh q (keep_room k room rest)
unfolding keep_room
IsFresh-keep_room q k [] rest n h = h
IsFresh-keep_room q k (c ∷ room) rest n h = (n, h)

IsFresh-drop_connection :
    (q pid cid : ℕ) (rs : Rooms) → IsFresh q rs → IsFresh q (drop_connection pid cid rs)
unfolding drop_connection
IsFresh-drop_connection q pid cid [] h = tt
IsFresh-drop_connection q pid cid ((k, room) ∷ rest) h = elim (Bool-cases (k == pid)) [
  | inl e ↦ rw (e, if◌then◌else◌) (IsFresh-keep_room q k _ rest h.0 h.1)
  | inr e ↦ rw (e, if◌then◌else◌) (h.0, IsFresh-drop_connection q pid cid rest h.1)
]

IsDict-keep_room :
    (k : ℕ) (room : Room) (rest : Rooms)
    → IsFresh k rest
    → IsDict rest
    → IsDict (keep_room k room rest)
unfolding keep_room
IsDict-keep_room k [] rest f h = h
IsDict-keep_room k (c ∷ room) rest f h = ((λ e. cc), f, h)

pub IsDict-drop_connection :
    (pid cid : ℕ) (rs : Rooms) → IsDict rs → IsDict (drop_connection pid cid rs)
unfolding drop_connection
IsDict-drop_connection pid cid [] h = tt
IsDict-drop_connection pid cid ((k, room) ∷ rest) h = elim (Bool-cases (k == pid)) [
  | inl e ↦ rw (e, if◌then◌else◌) (IsDict-keep_room k _ rest h.1 h.2)
  | inr e ↦
      rw (e, if◌then◌else◌)
        (h.0, IsFresh-drop_connection k pid cid rest h.1, IsDict-drop_connection pid cid rest h.2)
]

put_connection-ne-nil : (c : Connection) (room : Room) → put_connection c room ≢ []
unfolding put_connection
put_connection-ne-nil c [] e = cc
put_connection-ne-nil c (d ∷ room) e = ground arith

IsFresh-add_connection :
    (q : ℕ) (c : Connection) (rs : Rooms)
    → c.project_id ≢ q
    → IsFresh q rs
    → IsFresh q (add_connection c rs)
unfolding add_connection
IsFresh-add_connection q c [] n h = (n, tt)
IsFresh-add_connection q c ((k, room) ∷ rest) n h = elim (Bool-cases (k == c.project_id)) [
  | inl e ↦ rw (e, if◌then◌else◌) (h.0, h.1)
  | inr e ↦ rw (e, if◌then◌else◌) (h.0, IsFresh-add_connection q c rest n h.1)
]

pub IsDict-add_connection : (c : Connection) (rs : Rooms) → IsDict rs → IsDict (add_connection c rs)
unfolding add_connection
IsDict-add_connection c [] h = ((λ e. cc), tt, tt)
IsDict-add_connection c ((k, room) ∷ rest) h = elim (Bool-cases (k == c.project_id)) [
  | inl e ↦ rw (e, if◌then◌else◌) (put_connection-ne-nil c room, h.1, h.2)
  | inr e ↦
      rw (e, if◌then◌else◌)
        (h.0, IsFresh-add_connection k c rest (ground arith) h.1, IsDict-add_connection c rest h.2)
]

-- Joining puts the socket into its own room and touches no other.
pub room_of-add_connection :
    (p : ℕ) (c : Connection) (rs : Rooms)
    → room_of p (add_connection c rs)
      ≡ (if p == c.project_id then put_connection c (room_of p rs) else room_of p rs)
unfolding room_of add_connection put_connection
room_of-add_connection p c [] = ground arith
room_of-add_connection p c ((k, room) ∷ rest) = ground (arith, room_of-add_connection p c rest)
