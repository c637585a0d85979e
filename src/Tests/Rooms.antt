-- ===== src/Tests/Rooms.antt =====
-- The sample room: two tabs of the editor and one of the owner.
use prompt_studio_backend.Prelude.{
  ◌≤◌, ◌≡◌, refl, ◌≢◌, false, none, some, [], ◌∷◌, arith, ◌==◌, nat_eq, count_where, All,
}
use prompt_studio_backend.Collab.Hub.{
  Message, Hub, describe, collapse, deliver_local, rounds, broadcast, disconnect_user,
}
use prompt_studio_backend.Collab.Hub.Audience.{received, broadcast_reaches_room_only}
use prompt_studio_backend.Collab.Hub.Delivery.{deliver_local_settles}
use prompt_studio_backend.Collab.Hub.Eviction.{disconnect_user_evicts}
use prompt_studio_backend.Collab.Hub.Presence.{tabs, rows_of, collapse_counts_tabs}
use prompt_studio_backend.Collab.Rooms.{room_of}
use prompt_studio_backend.Tests.Samples.{owner_tab, editor_tab, other_tab, some_hub}

disconnect_user_evicts_example :
    All (λ c. c.user_id ≢ 2) (room_of 10 (disconnect_user 7 10 2 false some_hub).1.rooms)
unfolding room_of
disconnect_user_evicts_example =
    disconnect_user_evicts 7 10 2 false some_hub ((λ e. cc), tt, tt) (refl, (refl, (refl, tt)))

three_tabs_counted :
    (rows_of 2 (collapse (describe owner_tab ∷ describe editor_tab ∷ describe other_tab ∷ [])) ≤ 1)
    × (tabs 2 (collapse (describe owner_tab ∷ describe editor_tab ∷ describe other_tab ∷ []))
        ≡ count_where
            (λ d. d.user_id == 2)
            (describe owner_tab ∷ describe editor_tab ∷ describe other_tab ∷ []))
three_tabs_counted =
    collapse_counts_tabs 2 (describe owner_tab ∷ describe editor_tab ∷ describe other_tab ∷ [])

-- Two sockets of the room have gone, one of them the sender's own.
abbrev broken_hub : Hub
broken_hub = record some_hub { gone = 40 ∷ 42 ∷ [] }

deliver_local_settles_example :
    deliver_local 9 7 10 (Message.pong 7) (some 40) broken_hub
    ≡ deliver_local rounds 7 10 (Message.pong 7) (some 40) broken_hub
unfolding room_of
deliver_local_settles_example =
    deliver_local_settles 9 7 10 (Message.pong 7) (some 40) broken_hub (λ e. cc, tt, tt)
      (refl, (refl, (refl, tt))) (omega arith)

broadcast_reaches_room_only_example :
    received 43 (broadcast 7 10 (Message.pong 7) none false broken_hub) ≡ received 43 broken_hub
unfolding room_of
broadcast_reaches_room_only_example =
    broadcast_reaches_room_only 43 7 10 (Message.pong 7) none false broken_hub (λ e. cc, tt, tt)
      (λ e. omega arith, (λ e. omega arith, (λ e. omega arith, tt)))
