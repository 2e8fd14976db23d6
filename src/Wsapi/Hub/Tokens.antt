-- ===== src/Wsapi/Hub/Tokens.antt =====
-- No call of the hub but register and unregister touches the sessions by token.
use noitu.Prelude.{◌≡◌, refl, ◌∙◌, ◌&&◌, Option, Text, contains, length, leb, if_split, opt_split}
use noitu.Wsapi.Room.{Session}
use noitu.Wsapi.Room.Loop.{RoomInput}
use noitu.Wsapi.Hub.{
  Hub, HubView, HubError, Opened, failed, opened, unused_code, new_registered_room, send_room,
  seat_first, join_room, seat_pair, next_waiter, quick_match, queued,
}

pub new_registered_room_sessions :
    (v : HubView) (h : Hub) → (new_registered_room v h).0.sessions ≡ h.sessions
unfolding new_registered_room
new_registered_room_sessions v h =
    let Same : Hub × Opened → Type 0 = λ (a : Hub × Opened). a.0.sessions ≡ h.sessions in
    if_split Same h.draining (λ x. refl)
      λ x.
        if_split Same (leb h.max_rooms (length h.rooms)) (λ f. refl)
          λ r. opt_split Same (unused_code h.rooms v.draws) (λ n. refl) (λ code n. refl)

pub send_room_sessions :
    (v : HubView) (code : Text) (i : RoomInput) (h : Hub)
    → (send_room v code i h).sessions ≡ h.sessions
unfolding send_room
send_room_sessions v code i h =
    if_split (λ (a : Hub). a.sessions ≡ h.sessions) (v.takes code) (λ t. refl) (λ t. refl)

pub seat_first_sessions :
    (v : HubView) (i : RoomInput) (a : Hub × Opened) → (seat_first v i a).0.sessions ≡ a.0.sessions
unfolding seat_first
seat_first_sessions v i (h, failed e) = refl
seat_first_sessions v i (h, opened code) = send_room_sessions v code i h

pub join_room_sessions :
    (v : HubView) (code : Text) (s : Session) (h : Hub)
    → (join_room v code s h).0.sessions ≡ h.sessions
unfolding join_room
join_room_sessions v code s h =
    if_split (λ (a : Hub × Option HubError). a.0.sessions ≡ h.sessions)
      (contains h.rooms code && v.takes code) (λ t. send_room_sessions v code _ h) (λ t. refl)

seat_pair_sessions :
    (v : HubView) (w s : Session) (a : Hub × Opened) → (seat_pair v w s a).0.sessions ≡ a.0.sessions
unfolding seat_pair
seat_pair_sessions v w s (h, failed e) = refl
seat_pair_sessions v w s (h, opened code) =
    send_room_sessions v code _ _ ∙ send_room_sessions v code _ _

pub quick_match_sessions :
    (v : HubView) (s : Session) (h : Hub) → (quick_match v s h).0.sessions ≡ h.sessions
unfolding quick_match
quick_match_sessions v s h =
    let Same : Hub × Option HubError → Type 0 =
      λ (a : Hub × Option HubError). a.0.sessions ≡ h.sessions in
    if_split Same h.draining (λ x. refl)
      λ x.
        if_split Same (queued s h.waiting) (λ q. refl)
          λ q.
            opt_split Same (next_waiter v.gone h.waiting) (λ n. refl)
              (λ p found. seat_pair_sessions v p.0 s _ ∙ new_registered_room_sessions v _)
