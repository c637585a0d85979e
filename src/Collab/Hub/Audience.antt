-- ===== src/Collab/Hub/Audience.antt =====
-- Who a broadcast reaches (app/modules/collab/hub.py).
use prompt_studio_backend.Prelude.{
  ℕ, zero, suc, ◌≡◌, refl, ap, ◌∙◌, ◌≢◌, inl, inr, Bool, true, false, not, Option, none, [], ◌∷◌,
  ◌++◌, arith, if◌then◌else◌, ◌==◌, nat_eq, holds, Bool-cases, count_where, All, select_where-All,
  count_where-append,
}
use prompt_studio_backend.Collab.Hub.{
  Message, presence, Hub, presence_snapshot, forget_presence, publish, is_gone, send_all, reap,
  reap_all, targets, dead, if_any, deliver_local, rounds, broadcast,
}
use prompt_studio_backend.Collab.Hub.Delivery.{round}
use prompt_studio_backend.Collab.Hub.Shrink.{sent-InRoom}
use prompt_studio_backend.Collab.Rooms.{Connection, Room, room_of}
use prompt_studio_backend.Collab.Rooms.Laws.{IsDict}

-- The messages that one socket was sent.
abbrev pub received : ℕ → Hub → ℕ
received cid h = count_where (λ d. d.0 == cid) h.delivered

received-send_all :
    (cid : ℕ) (m : Message) (cs : Room) (h : Hub)
    → All (λ c. c.id ≢ cid) cs
    → received cid (send_all m cs h) ≡ received cid h
unfolding send_all count_where
received-send_all cid m [] h other = refl
received-send_all cid m (c ∷ cs) h other =
    received-send_all cid m cs _ other.1 ∙ elim (Bool-cases (is_gone h c)) [
      | inl e ↦ rw (e, if◌then◌else◌) refl
      | inr e ↦ rw (e, if◌then◌else◌) (one-more other.0)
    ]
  where
    one-more :
        c.id ≢ cid
        → count_where (λ (d : ℕ × Message). d.0 == cid) (h.delivered ++ (c.id, m) ∷ [])
          ≡ count_where (λ (d : ℕ × Message). d.0 == cid) h.delivered
    one-more n =
        count_where-append (λ (d : ℕ × Message). d.0 == cid) h.delivered ((c.id, m) ∷ [])
        ∙ ground arith

delivered-forget_presence :
    (c : Connection) (h : Hub) → (forget_presence c h).delivered ≡ h.delivered
unfolding forget_presence
delivered-forget_presence c h = ground arith

delivered-reap_all : (cs : Room) (h : Hub) → (reap_all cs h).delivered ≡ h.delivered
unfolding reap_all reap
delivered-reap_all [] h = refl
delivered-reap_all (c ∷ cs) h = delivered-reap_all cs (reap c h) ∙ delivered-forget_presence c h

delivered-publish :
    (pid : ℕ) (m : Message) (x : Option ℕ) (h : Hub) → (publish pid m x h).delivered ≡ h.delivered
unfolding publish
delivered-publish pid m x h = ground arith

received-round :
    (cid pid : ℕ) (m : Message) (x : Option ℕ) (h : Hub)
    → All (λ c. c.id ≢ cid) (room_of pid h.rooms)
    → received cid (round pid m x h) ≡ received cid h
received-round cid pid m x h other =
    ap (count_where (λ (d : ℕ × Message). d.0 == cid))
      (delivered-reap_all (dead pid x h) (send_all m (targets pid x h) h))
    ∙ received-send_all cid m (targets pid x h) h
        (select_where-All (λ c. c.id ≢ cid) (λ c. not (holds x c.id)) (room_of pid h.rooms) other)

received-if_any :
    (cid : ℕ) (cs : Room) (sent again : Hub) {k : ℕ}
    → received cid sent ≡ k
    → received cid again ≡ k
    → received cid (if_any cs sent again) ≡ k
received-if_any cid [] sent again s a = s
received-if_any cid (c ∷ cs) sent again s a = a

received-deliver_local :
    (cid n at pid : ℕ) (m : Message) (x : Option ℕ) (h : Hub)
    → IsDict h.rooms
    → All (λ c. c.id ≢ cid) (room_of pid h.rooms)
    → received cid (deliver_local n at pid m x h) ≡ received cid h
unfolding deliver_local
received-deliver_local cid zero at pid m x h dict other = refl
received-deliver_local cid (suc n) at pid m x h dict other =
    let sent = round pid m x h in
    let roster = presence (presence_snapshot pid sent) at in
    let kept = sent-InRoom (λ c. c.id ≢ cid) pid pid m x h (dict, other) in
    let first = received-round cid pid m x h other in
    received-if_any cid (dead pid x h) sent _ first (
      ap (count_where (λ (d : ℕ × Message). d.0 == cid))
        (delivered-publish pid roster none (deliver_local n at pid roster none sent))
      ∙ received-deliver_local cid n at pid roster none sent kept.0 kept.1
      ∙ first)

-- A broadcast on a project sends nothing, not even the rosters that follow when sockets turn out to
-- be gone, to a socket that is not in the project's room. The rooms form a dict.
pub broadcast_reaches_room_only :
    (cid at pid : ℕ) (m : Message) (x : Option ℕ) (local_only : Bool) (h : Hub)
    → IsDict h.rooms
    → All (λ c. c.id ≢ cid) (room_of pid h.rooms)
    → received cid (broadcast at pid m x local_only h) ≡ received cid h
unfolding broadcast
broadcast_reaches_room_only cid at pid m x true h dict other =
    received-deliver_local cid rounds at pid m x h dict other
broadcast_reaches_room_only cid at pid m x false h dict other =
    ap (count_where (λ (d : ℕ × Message). d.0 == cid))
      (delivered-publish pid m x (deliver_local rounds at pid m x h))
    ∙ received-deliver_local cid rounds at pid m x h dict other
