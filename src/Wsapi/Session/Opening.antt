-- ===== src/Wsapi/Session/Opening.antt =====
-- What the hub's calls that open or join a room add to its log.
use mathlib.Core.Path.{subst}
use noitu.Prelude.{
  ap, Bool-cases, inl, inr, ◌≡◌, refl, Bool, true, false, ◌&&◌, List, [], ◌∷◌, ◌++◌, Option, none,
  some, Text, contains, length, leb, if_split, opt_split, arith,
}
use noitu.Wsapi.Message.{ServerMessage, quick_match_status_msg}
use noitu.Wsapi.Room.{Session}
use noitu.Wsapi.Room.Loop.{RoomInput, create, join}
use noitu.Wsapi.Hub.{
  Hub, HubView, HubError, err_room_not_found, err_no_room_code, err_server_full, err_draining,
  err_already_queued, HubEffect, Opened, failed, opened, tell, open_room, to_room, unused_code,
  new_registered_room, send_room, seat_first, join_room, seat_pair, next_waiter, quick_match,
  queued, room_create_error,
}
use noitu.Wsapi.Session.{Binding}
use noitu.Wsapi.Session.Answers.{
  Moves, is_match_news, own_effect, own_input, Adds, Speaks, Adds-none, Adds-both, Speaks-one,
  Speaks-then, Speaks-tell, eq_refl,
}

pub send_room_sent :
    (v : HubView) (code : Text) (i : RoomInput) (h : Hub)
    → v.takes code ≡ true
    → h.log ++ to_room code i ∷ [] ≡ (send_room v code i h).log
unfolding send_room
send_room_sent v code i h t = ground arith

-- A room opened, or no room and a log that may have grown.
abbrev pub Opens : List Session → Session → Binding → List HubEffect → Hub × Opened → Type 0
Opens ws s b l (h, failed e) = Adds (some ws) s b l h.log
Opens ws s b l (h, opened code) = Speaks (some ws) s b l h.log

-- A call of the hub that went well, or one that its caller answers for.
abbrev pub Settles : Moves → Session → Binding → List HubEffect → Hub × Option HubError → Type 0
Settles mm s b l (h, none) = Speaks mm s b l h.log
Settles mm s b l (h, some e) = Adds mm s b l h.log

pub new_registered_room-Opens :
    (ws : List Session) (s : Session) (b : Binding) (v : HubView) (h : Hub)
    → Opens ws s b h.log (new_registered_room v h)
unfolding new_registered_room
new_registered_room-Opens ws s b v h =
    if_split (Opens ws s b h.log) h.draining (λ x. Adds-none (some ws) s b h.log)
      λ x.
        if_split (Opens ws s b h.log) (leb h.max_rooms (length h.rooms))
          (λ f. Adds-none (some ws) s b h.log)
          λ room.
            opt_split (Opens ws s b h.log) (unused_code h.rooms v.draws)
              (λ n. Adds-none (some ws) s b h.log)
              (λ code fresh. Speaks-one (some ws) s b h.log (open_room code) refl)

pub send_room-Adds :
    (ws : List Session) (s : Session) (b : Binding) (v : HubView) (code : Text) (i : RoomInput)
    (h : Hub)
    → own_input (some ws) s b code i ≡ true
    → Adds (some ws) s b h.log (send_room v code i h).log
unfolding send_room
send_room-Adds ws s b v code i h mine =
    if_split (λ (a : Hub). Adds (some ws) s b h.log a.log) (v.takes code)
      (λ t. (Speaks-one (some ws) s b h.log (to_room code i) mine).adds)
      (λ t. Adds-none (some ws) s b h.log)

pub seat_first-Settles :
    (ws : List Session) (s : Session) (b : Binding) (v : HubView) (i : RoomInput)
    (l : List HubEffect) (a : Hub × Opened)
    → ((code : Text) → own_input (some ws) s b code i ≡ true)
    → Opens ws s b l a
    → Settles (some ws) s b l (seat_first v i a)
unfolding seat_first
seat_first-Settles ws s b v i l (h, failed e) mine x = x
seat_first-Settles ws s b v i l (h, opened code) mine x =
    Speaks-then (some ws) s b x (send_room-Adds ws s b v code i h (mine code))

pub join_room-Settles :
    (ws : List Session) (s : Session) (b : Binding) (v : HubView) (code : Text) (h : Hub)
    → Settles (some ws) s b h.log (join_room v code s h)
unfolding join_room send_room
join_room-Settles ws s b v code h =
    if_split (Settles (some ws) s b h.log) (contains h.rooms code && v.takes code)
      (λ t.
        subst (Speaks (some ws) s b h.log) (send_room_sent v code (join s) h (ground arith))
          (Speaks-one (some ws) s b h.log (to_room code (join s)) (eq_refl s)))
      (λ t. Adds-none (some ws) s b h.log)

create_error_news : (e : HubError) → is_match_news (room_create_error e) ≡ true
unfolding room_create_error
create_error_news err_server_full = refl
create_error_news err_draining = refl
create_error_news err_room_not_found = refl
create_error_news err_no_room_code = refl
create_error_news err_already_queued = refl

-- What a waiter of a quick match may be told.
news_of :
    (ws : List Session) (s : Session) (b : Binding) (waiter : Session) (m : ServerMessage)
    → queued waiter ws ≡ true
    → is_match_news m ≡ true
    → own_effect (some ws) s b (tell waiter m) ≡ true
news_of ws s b waiter m waits news = ground arith

queued-next_waiter :
    (gone : Session → Bool) (ws : List Session) (p : Session × List Session)
    → next_waiter gone ws ≡ some p
    → queued p.0 ws ≡ true
unfolding next_waiter queued
queued-next_waiter gone [] p h = absurd (ground arith)
queued-next_waiter gone (w ∷ ws) p h = elim (Bool-cases (gone w)) [
  | inl y ↦ ground (arith, queued-next_waiter gone ws p)
  | inr n ↦
      let it : (w, ws) ≡ p = ground arith in
      let same_one : w ≡ p.0 = ap (λ (q : Session × List Session). q.0) it in
      ground (arith, eq_refl w)
]

pub seat_pair-Settles :
    (ws : List Session) (s : Session) (b : Binding) (v : HubView) (waiter : Session)
    (l : List HubEffect) (a : Hub × Opened)
    → queued waiter ws ≡ true
    → Opens ws s b l a
    → Settles (some ws) s b l (seat_pair v waiter s a)
unfolding seat_pair
seat_pair-Settles ws s b v waiter l (h, failed e) waits x =
    Adds-both (some ws) s b x
      (Speaks-one (some ws) s b h.log (tell waiter (room_create_error e))
        (news_of ws s b waiter (room_create_error e) waits (create_error_news e))).adds
seat_pair-Settles ws s b v waiter l (h, opened code) waits x =
    let told = quick_match_status_msg false in
    let both : Adds (some ws) s b h.log (h.log ++ tell waiter told ∷ tell s told ∷ []) = record {
      added = tell waiter told ∷ tell s told ∷ [];
      log_is = refl;
      own = (news_of ws s b waiter told waits refl, (rw (eq_refl s) refl, tt));
    } in
    Speaks-then (some ws) s b x (
      Adds-both (some ws) s b both (
        Adds-both (some ws) s b
          (send_room-Adds ws s b v code (create waiter true) _ (ground (arith, waits)))
          (send_room-Adds ws s b v code (join s) _ (eq_refl s))))

pub quick_match-Settles :
    (s : Session) (b : Binding) (v : HubView) (h : Hub)
    → Settles (some h.waiting) s b h.log (quick_match v s h)
unfolding quick_match
quick_match-Settles s b v h =
    if_split (Settles (some h.waiting) s b h.log) h.draining
      (λ x. Adds-none (some h.waiting) s b h.log)
      λ x.
        if_split (Settles (some h.waiting) s b h.log) (queued s h.waiting)
          (λ q. Adds-none (some h.waiting) s b h.log)
          λ q.
            opt_split (Settles (some h.waiting) s b h.log) (next_waiter v.gone h.waiting)
              (λ n. Speaks-tell (some h.waiting) s b h.log (quick_match_status_msg true))
              (λ p found.
                seat_pair-Settles h.waiting s b v p.0 h.log _
                  (queued-next_waiter v.gone h.waiting p found)
                  (new_registered_room-Opens h.waiting s b v (record h { waiting = p.1 })))
