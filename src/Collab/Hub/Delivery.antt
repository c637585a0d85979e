-- ===== src/Collab/Hub/Delivery.antt =====
-- The rounds of a delivery (`_deliver_local` of app/modules/collab/hub.py). The source runs them
-- without a bound.
use prompt_studio_backend.Prelude.{
  ℕ, zero, suc, ◌≤◌, ◌≡◌, refl, sym, ap, ◌∙◌, true, false, not, ◌||◌, Option, none, List, [], ◌∷◌,
  arith, if◌then◌else◌, ◌==◌, nat_beq_iff, nat_eq, holds, beq_refl, select_where, any_where, All,
  delete_where-All_of, All-map, select_where-All, select_where-all, select_where-nothing,
  All-selected,
}
use prompt_studio_backend.Collab.Hub.{
  Message, presence, Hub, presence_snapshot, forget_presence, publish, is_gone, send_all, reap,
  reap_all, targets, dead, if_any, deliver_local, rounds,
}
use prompt_studio_backend.Collab.Hub.Eviction.{IsPlaced}
use prompt_studio_backend.Collab.Hub.Shrink.{rooms-send_all, sent-InRoom}
use prompt_studio_backend.Collab.Rooms.{Connection, Room, Rooms, room_of, drop_connection}
use prompt_studio_backend.Collab.Rooms.Laws.{
  IsDict, room_of-drop_connection, IsDict-drop_connection,
}

gone-send_all : (m : Message) (cs : Room) (h : Hub) → (send_all m cs h).gone ≡ h.gone
unfolding send_all
gone-send_all m [] h = refl
gone-send_all m (c ∷ cs) h = gone-send_all m cs _ ∙ ground arith

gone-forget_presence : (c : Connection) (h : Hub) → (forget_presence c h).gone ≡ h.gone
unfolding forget_presence
gone-forget_presence c h = ground arith

gone-reap_all : (cs : Room) (h : Hub) → (reap_all cs h).gone ≡ h.gone
unfolding reap_all reap
gone-reap_all [] h = refl
gone-reap_all (c ∷ cs) h = gone-reap_all cs (reap c h) ∙ gone-forget_presence c h

-- A socket that answers, or that is still to be reaped.
abbrev Waiting : List ℕ → Room → Connection → Type 0
Waiting gone cs d =
    (not (any_where (λ g. g == d.id) gone) || any_where (λ c. c.id == d.id) cs) ≡ true

Waiting-tail :
    (gone : List ℕ) (c : Connection) (cs : Room) (d : Connection)
    → Waiting gone (c ∷ cs) d
    → (d.id == c.id) ≡ false
    → Waiting gone cs d
unfolding any_where
Waiting-tail gone c cs d k n = ground (arith, nat_beq_iff d.id c.id)

reap-Waiting :
    (gone : List ℕ) (pid : ℕ) (c : Connection) (cs : Room) (rs : Rooms)
    → c.project_id ≡ pid
    → IsDict rs
    → All (Waiting gone (c ∷ cs)) (room_of pid rs)
    → All (Waiting gone cs) (room_of pid (drop_connection c.project_id c.id rs))
reap-Waiting gone pid c cs rs here dict h =
    rw
      (
        room_of-drop_connection pid c.project_id c.id rs dict,
        (nat_beq_iff pid c.project_id).1 (sym here),
        if◌then◌else◌,
        here,
      )
      (delete_where-All_of (Waiting gone (c ∷ cs)) (Waiting gone cs) (λ d. d.id == c.id)
        (room_of pid rs) (λ d k n. Waiting-tail gone c cs d k n) h)

reap_all-Waiting :
    (gone : List ℕ) (pid : ℕ) (cs : Room) (h : Hub)
    → All (IsPlaced pid) cs
    → IsDict h.rooms
    → All (Waiting gone cs) (room_of pid h.rooms)
    → All (Waiting gone []) (room_of pid (reap_all cs h).rooms)
unfolding reap_all reap
reap_all-Waiting gone pid [] h placed dict a = a
reap_all-Waiting gone pid (c ∷ cs) h placed dict a =
    reap_all-Waiting gone pid cs (reap c h) placed.1
      (IsDict-drop_connection c.project_id c.id h.rooms dict)
      (reap-Waiting gone pid c cs h.rooms placed.0 dict a)

-- Nobody is left out when nobody is excluded.
targets-none : (pid : ℕ) (h : Hub) → targets pid none h ≡ room_of pid h.rooms
targets-none pid h = select_where-all (λ c. not (holds none c.id)) (room_of pid h.rooms) (λ c. refl)

-- A round of sending and reaping.
abbrev pub round : ℕ → Message → Option ℕ → Hub → Hub
round pid m x h = reap_all (dead pid x h) (send_all m (targets pid x h) h)

gone-round : (pid : ℕ) (m : Message) (x : Option ℕ) (h : Hub) → (round pid m x h).gone ≡ h.gone
gone-round pid m x h =
    gone-reap_all (dead pid x h) (send_all m (targets pid x h) h)
    ∙ gone-send_all m (targets pid x h) h

round-Waiting :
    (pid : ℕ) (m : Message) (h : Hub)
    → All (IsPlaced pid) (room_of pid h.rooms)
    → IsDict h.rooms
    → All (Waiting h.gone []) (room_of pid (round pid m none h).rooms)
round-Waiting pid m h placed dict =
    reap_all-Waiting h.gone pid (dead pid none h) (send_all m (targets pid none h) h)
      (select_where-All (IsPlaced pid) (is_gone h) (targets pid none h)
        (rw (targets-none pid h) placed))
      (rw (rooms-send_all m (targets pid none h) h) dict)
      (rw (rooms-send_all m (targets pid none h) h, targets-none pid h)
        (All-selected (is_gone h) (λ c d. c.id == d.id) (room_of pid h.rooms) (λ c. beq_refl c.id)))

-- After a round that leaves nobody out, everybody in the room answers.
dead-round :
    (pid : ℕ) (m : Message) (h : Hub)
    → All (IsPlaced pid) (room_of pid h.rooms)
    → IsDict h.rooms
    → dead pid none (round pid m none h) ≡ []
unfolding any_where
dead-round pid m h placed dict =
    ap (select_where (is_gone (round pid m none h))) (targets-none pid (round pid m none h))
    ∙ select_where-nothing (is_gone (round pid m none h)) (room_of pid (round pid m none h).rooms) (
        rw (gone-round pid m none h) (
          All-map _ _ (room_of pid (round pid m none h).rooms) (λ d k. ground arith)
            (round-Waiting pid m h placed dict)))

if_any-nil : (cs : Room) (sent a b : Hub) → cs ≡ [] → if_any cs sent a ≡ if_any cs sent b
if_any-nil [] sent a b e = refl
if_any-nil (c ∷ cs) sent a b e = cc

-- Where everybody answers, one round is all.
deliver_local-alive :
    (n at pid : ℕ) (m : Message) (x : Option ℕ) (h : Hub)
    → dead pid x h ≡ []
    → deliver_local (suc n) at pid m x h ≡ deliver_local 1 at pid m x h
unfolding deliver_local
deliver_local-alive n at pid m x h e = if_any-nil (dead pid x h) (round pid m x h) _ _ e

-- Where nobody is left out, two rounds are all.
deliver_local-open :
    (n at pid : ℕ) (m : Message) (h : Hub)
    → All (IsPlaced pid) (room_of pid h.rooms)
    → IsDict h.rooms
    → deliver_local (suc (suc n)) at pid m none h ≡ deliver_local 2 at pid m none h
unfolding deliver_local
deliver_local-open n at pid m h placed dict =
    let sent = round pid m none h in
    let roster = presence (presence_snapshot pid sent) at in
    ap (λ after. if_any (dead pid none h) sent (publish pid roster none after))
      (deliver_local-alive n at pid roster none sent (dead-round pid m h placed dict))

-- `_deliver_local` comes to an end by itself, whoever turns out to be gone: allowed any number of
-- rounds from three on, it does what it does in three. The rooms form a dict, and the room's
-- sockets are on this project.
pub deliver_local_settles :
    (n at pid : ℕ) (m : Message) (x : Option ℕ) (h : Hub)
    → IsDict h.rooms
    → All (IsPlaced pid) (room_of pid h.rooms)
    → rounds ≤ n
    → deliver_local n at pid m x h ≡ deliver_local rounds at pid m x h
unfolding deliver_local
deliver_local_settles zero at pid m x h dict placed le = absurd (omega arith)
deliver_local_settles (suc zero) at pid m x h dict placed le = absurd (omega arith)
deliver_local_settles (suc (suc zero)) at pid m x h dict placed le = absurd (omega arith)
deliver_local_settles (suc (suc (suc n))) at pid m x h dict placed le =
    let sent = round pid m x h in
    let roster = presence (presence_snapshot pid sent) at in
    let kept = sent-InRoom (IsPlaced pid) pid pid m x h (dict, placed) in
    ap (λ after. if_any (dead pid x h) sent (publish pid roster none after))
      (deliver_local-open n at pid roster sent kept.1 kept.0)
