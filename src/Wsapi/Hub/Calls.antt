-- ===== src/Wsapi/Hub/Calls.antt =====
-- What every call of the hub keeps: the limit on rooms, the codes and the queue.
use mathlib.Core.Path.{subst}
use noitu.Prelude.{
  ℕ, ◌≤◌, ◌≡◌, refl, sym, ◌∙◌, true, false, ◌&&◌, List, [], ◌∷◌, Option, Text, contains, length,
  leb, if_split, opt_split, arith,
}
use noitu.Wsapi.Room.{Session}
use noitu.Wsapi.Room.Loop.{RoomInput, create, start_bot, join}
use noitu.Wsapi.Hub.{
  Hub, HubView, HubCall, HubError, err_draining, Opened, failed, opened, new_hub, register,
  unregister, queued, next_waiter, cancel_quick_match, unused_from, unused_code,
  new_registered_room, send_room, seat_first, start_bot_room, create_room, join_room, seat_pair,
  quick_match, start_draining, evict, shutdown, call, calls, code_attempts, call_register,
  call_unregister, call_evict, call_bot, call_create, call_quick_match, call_cancel, call_join,
  call_drain, call_shutdown,
}
use noitu.Wsapi.Hub.Queue.{
  once_each, codes_differ, once_each-drop_waiter, codes_differ-drop_code, length-drop_code,
  unused_from_new, once_each-next_waiter, queued-drop_waiter, contains-drop_code,
}

-- Rooms within the limit, codes and waiters that differ.
pub record IsHub (h : Hub) : Type 0 where
  pub limited : length h.rooms ≤ h.max_rooms
  pub codes_once : codes_differ h.rooms ≡ true
  pub waits_once : once_each h.waiting ≡ true

new_registered_room-IsHub : (v : HubView) (h : Hub) → IsHub h → IsHub (new_registered_room v h).0
unfolding new_registered_room unused_code
new_registered_room-IsHub v h k =
    let Good : Hub × Opened → Type 0 = λ (a : Hub × Opened). IsHub a.0 in
    if_split Good h.draining (λ x. k)
      λ x.
        if_split Good (leb h.max_rooms (length h.rooms)) (λ f. k)
          λ room.
            opt_split Good (unused_from code_attempts h.rooms v.draws) (λ n. k)
              λ code fresh. record {
                limited = ground arith;
                codes_once =
                    ground (
                      arith,
                      unused_from_new code_attempts h.rooms v.draws code fresh,
                      k.codes_once,
                    );
                waits_once = k.waits_once;
              }

send_room-IsHub :
    (v : HubView) (code : Text) (i : RoomInput) (h : Hub) → IsHub h → IsHub (send_room v code i h)
unfolding send_room
send_room-IsHub v code i h k =
    if_split IsHub (v.takes code)
      (λ t. record { limited = k.limited; codes_once = k.codes_once; waits_once = k.waits_once })
      (λ t. k)

seat_first-IsHub :
    (v : HubView) (i : RoomInput) (a : Hub × Opened) → IsHub a.0 → IsHub (seat_first v i a).0
unfolding seat_first
seat_first-IsHub v i (h, failed e) k = k
seat_first-IsHub v i (h, opened code) k = send_room-IsHub v code i h k

seat_pair-IsHub :
    (v : HubView) (waiter s : Session) (a : Hub × Opened)
    → IsHub a.0
    → IsHub (seat_pair v waiter s a).0
unfolding seat_pair
seat_pair-IsHub v waiter s (h, failed e) k = record {
  limited = k.limited;
  codes_once = k.codes_once;
  waits_once = k.waits_once;
}
seat_pair-IsHub v waiter s (h, opened code) k = send_room-IsHub v code (join s) _ (
    send_room-IsHub v code (create waiter true) _
      (record { limited = k.limited; codes_once = k.codes_once; waits_once = k.waits_once }))

quick_match-IsHub : (v : HubView) (s : Session) (h : Hub) → IsHub h → IsHub (quick_match v s h).0
unfolding quick_match queued
quick_match-IsHub v s h k =
    let Good : Hub × Option HubError → Type 0 = λ (a : Hub × Option HubError). IsHub a.0 in
    if_split Good h.draining (λ x. k)
      λ x.
        if_split Good (queued s h.waiting) (λ q. k)
          λ q.
            opt_split Good (next_waiter v.gone h.waiting)
              (λ n. record { limited = k.limited; codes_once = k.codes_once; waits_once = refl })
              (λ p found. seat_pair-IsHub v p.0 s _ (
                new_registered_room-IsHub v (record h { waiting = p.1 })
                  (record {
                    limited = k.limited;
                    codes_once = k.codes_once;
                    waits_once = once_each-next_waiter v.gone h.waiting p.0 p.1 found k.waits_once;
                  })))

call-IsHub : (v : HubView) (c : HubCall) (h : Hub) → IsHub h → IsHub (call v c h)
unfolding call register unregister evict start_bot_room create_room join_room cancel_quick_match
    start_draining shutdown
call-IsHub v (call_register s token) h k = record {
  limited = k.limited;
  codes_once = k.codes_once;
  waits_once = k.waits_once;
}
call-IsHub v (call_unregister token) h k = record {
  limited = k.limited;
  codes_once = k.codes_once;
  waits_once = k.waits_once;
}
call-IsHub v (call_evict code) h k = record {
  limited = ground (arith, length-drop_code code h.rooms, k.limited);
  codes_once = codes_differ-drop_code code h.rooms k.codes_once;
  waits_once = k.waits_once;
}
call-IsHub v (call_bot s level) h k =
    seat_first-IsHub v _ (new_registered_room v h) (new_registered_room-IsHub v h k)
call-IsHub v (call_create s) h k =
    seat_first-IsHub v _ (new_registered_room v h) (new_registered_room-IsHub v h k)
call-IsHub v (call_quick_match s) h k = quick_match-IsHub v s h k
call-IsHub v (call_cancel s) h k = record {
  limited = k.limited;
  codes_once = k.codes_once;
  waits_once = once_each-drop_waiter s h.waiting k.waits_once;
}
call-IsHub v (call_join code s) h k =
    if_split (λ (a : Hub × Option HubError). IsHub a.0) (contains h.rooms code && v.takes code)
      (λ t. send_room-IsHub v code (join s) h k) (λ t. k)
call-IsHub v call_drain h k = record {
  limited = k.limited;
  codes_once = k.codes_once;
  waits_once = k.waits_once;
}
call-IsHub v call_shutdown h k = record {
  limited = k.limited;
  codes_once = k.codes_once;
  waits_once = refl;
}

calls_keep : (cs : List (HubView × HubCall)) (h : Hub) → IsHub h → IsHub (calls cs h)
unfolding calls
calls_keep [] h k = k
calls_keep ((v, c) ∷ cs) h k = calls_keep cs (call v c h) (call-IsHub v c h k)

-- After any calls, a hub has at most as many rooms as its limit, no room code twice, and no
-- session waiting twice for a quick match.
pub calls-IsHub :
    (cs : List (HubView × HubCall)) (max_rooms : ℕ) → IsHub (calls cs (new_hub max_rooms))
unfolding new_hub
calls-IsHub cs max_rooms =
    calls_keep cs (new_hub max_rooms)
      (record { limited = omega arith; codes_once = refl; waits_once = refl })

-- Nothing opens in a hub that drains.
pub record IsShut (h k : Hub) : Type 0 where
  pub shut : k.draining ≡ true
  pub no_new : (code : Text) → contains h.rooms code ≡ false → contains k.rooms code ≡ false
  pub no_wait : (s : Session) → queued s h.waiting ≡ false → queued s k.waiting ≡ false

IsShut-kept :
    (h k : Hub)
    → h.draining ≡ true
    → k.draining ≡ h.draining
    → k.rooms ≡ h.rooms
    → k.waiting ≡ h.waiting
    → IsShut h k
IsShut-kept h k d same_drain same_rooms same_waiting = record {
  shut = same_drain ∙ d;
  no_new = λ code free. rw same_rooms free;
  no_wait = λ s out. rw same_waiting out;
}

send_room-IsShut :
    (v : HubView) (code : Text) (i : RoomInput) (h : Hub)
    → h.draining ≡ true
    → IsShut h (send_room v code i h)
unfolding send_room
send_room-IsShut v code i h d =
    if_split (IsShut h) (v.takes code) (λ t. IsShut-kept h _ d refl refl refl)
      (λ t. IsShut-kept h h d refl refl refl)

new_registered_room_shut :
    (v : HubView) (h : Hub) → h.draining ≡ true → new_registered_room v h ≡ (h, failed err_draining)
unfolding new_registered_room
new_registered_room_shut v h d = ground arith

seat_first-IsShut :
    (v : HubView) (i : RoomInput) (h : Hub)
    → h.draining ≡ true
    → IsShut h (seat_first v i (new_registered_room v h)).0
unfolding seat_first
seat_first-IsShut v i h d =
    subst (λ (a : Hub × Opened). IsShut h (seat_first v i a).0)
      (sym (new_registered_room_shut v h d)) (IsShut-kept h h d refl refl refl)

call-IsShut : (v : HubView) (c : HubCall) (h : Hub) → h.draining ≡ true → IsShut h (call v c h)
unfolding call register unregister evict start_bot_room create_room join_room cancel_quick_match
    start_draining shutdown seat_first quick_match queued
call-IsShut v (call_register s token) h d = IsShut-kept h _ d refl refl refl
call-IsShut v (call_unregister token) h d = IsShut-kept h _ d refl refl refl
call-IsShut v (call_evict code) h d = record {
  shut = d;
  no_new = λ other free. contains-drop_code code other h.rooms free;
  no_wait = λ s out. out;
}
call-IsShut v (call_bot s level) h d = seat_first-IsShut v (start_bot s level) h d
call-IsShut v (call_create s) h d = seat_first-IsShut v (create s false) h d
call-IsShut v (call_quick_match s) h d =
    if_split (λ (a : Hub × Option HubError). IsShut h a.0) h.draining
      (λ x. IsShut-kept h h d refl refl refl) (λ x. ground arith)
call-IsShut v (call_cancel s) h d = record {
  shut = d;
  no_new = λ code free. free;
  no_wait = λ w out. queued-drop_waiter s w h.waiting out;
}
call-IsShut v (call_join code s) h d =
    if_split (λ (a : Hub × Option HubError). IsShut h a.0) (contains h.rooms code && v.takes code)
      (λ t. send_room-IsShut v code (join s) h d) (λ t. IsShut-kept h h d refl refl refl)
call-IsShut v call_drain h d = record {
  shut = refl;
  no_new = λ code free. free;
  no_wait = λ s out. out;
}
call-IsShut v call_shutdown h d = record {
  shut = d;
  no_new = λ code free. free;
  no_wait = λ s out. refl;
}

-- A hub that drains keeps draining: whatever calls follow, no room is registered that was not
-- before, and nobody waits for a quick match who did not before.
pub calls-IsShut :
    (cs : List (HubView × HubCall)) (h : Hub) → h.draining ≡ true → IsShut h (calls cs h)
unfolding calls
calls-IsShut [] h d = IsShut-kept h h d refl refl refl
calls-IsShut ((v, c) ∷ cs) h d =
    let first = call-IsShut v c h d in
    let after = calls-IsShut cs (call v c h) first.shut in
    record {
      shut = after.shut;
      no_new = λ code free. after.no_new code (first.no_new code free);
      no_wait = λ s out. after.no_wait s (first.no_wait s out);
    }
