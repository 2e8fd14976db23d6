-- ===== src/Wsapi/Hub.antt =====
-- server/internal/wsapi/hub.go: the registries of rooms and sessions, and the queue of a quick
-- match. A room is named by its code; a call of a room or of a session is appended to the log.
pub mod Codes
pub mod Queue
pub mod Calls
pub mod Tokens
mod Tests
use noitu.Prelude.{
  ℕ, zero, suc, ◌+◌, ◌-◌, ◌%◌, Bool, true, false, not, ◌&&◌, ◌||◌, List, [], ◌∷◌, ◌++◌, Option,
  none, some, Text, same, codes, contains, length, leb, ltb, ◌==◌, get_or, if◌then◌else◌, lookup,
  insert, null,
}
use noitu.Bot.{Difficulty}
use noitu.Wsapi.Message.{
  ServerMessage, ErrCode, error_msg, quick_match_status_msg, server_full, server_restarting,
  room_start_failed, already_queued, room_not_found,
}
use noitu.Wsapi.Room.{Session}
use noitu.Wsapi.Room.Loop.{RoomInput, create, start_bot, join}

abbrev pub room_code_alphabet : Text
room_code_alphabet = codes "23456789ABCDEFGHJKMNPQRSTUVWXYZ"

abbrev pub room_code_len : ℕ
room_code_len = 6

abbrev pub code_attempts : ℕ
code_attempts = 10

abbrev pub default_max_rooms : ℕ
default_max_rooms = 1000

pub data HubError : Type 0 where
  err_room_not_found err_no_room_code err_server_full err_draining err_already_queued : HubError

-- What the hub does outside itself.
pub data HubEffect : Type 0 where
  tell : Session → ServerMessage → HubEffect
  open_room : Text → HubEffect
  to_room : Text → RoomInput → HubEffect
  cancel_room : Text → HubEffect

pub record Hub : Type 0 where
  pub max_rooms : ℕ
  pub rooms : List Text
  -- By resume token.
  pub sessions : List (Text × Session)
  pub waiting : List Session
  pub draining : Bool
  pub log : List HubEffect

-- What a call finds outside the hub: the codes that `randomCode` draws next, whose connection has
-- ended, and which rooms take a message.
pub record HubView : Type 0 where
  pub draws : List Text
  pub gone : Session → Bool
  pub takes : Text → Bool

-- A room that was opened, or why none was.
pub data Opened : Type 0 where
  failed : HubError → Opened
  opened : Text → Opened

unfoldable pub new_hub : ℕ → Hub
new_hub max_rooms = record {
  max_rooms = if leb max_rooms 0 then default_max_rooms else max_rooms;
  rooms = [];
  sessions = [];
  waiting = [];
  draining = false;
  log = [];
}

unfoldable pub register : Session → Text → Hub → Hub
register s token h = record h { sessions = insert token s h.sessions }

-- `delete` of a key.
unfoldable pub drop_token : Text → List (Text × Session) → List (Text × Session)
drop_token token [] = []
drop_token token ((k, s) ∷ rest) =
    let kept = drop_token token rest in if same k token then kept else (k, s) ∷ kept

unfoldable pub unregister : Text → Hub → Hub
unregister token h = record h { sessions = drop_token token h.sessions }

unfoldable pub resumable_session : Text → Hub → Option Session
resumable_session token h = if null token then none else lookup token h.sessions

-- Whether a session waits.
unfoldable pub queued : Session → List Session → Bool
queued s [] = false
queued s (w ∷ ws) = w == s || queued s ws

-- The loop that skips the waiters whose connection has ended.
unfoldable pub next_waiter : (Session → Bool) → List Session → Option (Session × List Session)
next_waiter gone [] = none
next_waiter gone (w ∷ ws) = if gone w then next_waiter gone ws else some (w, ws)

unfoldable pub drop_waiter : Session → List Session → List Session
drop_waiter s [] = []
drop_waiter s (w ∷ ws) = if w == s then ws else w ∷ drop_waiter s ws

unfoldable pub cancel_quick_match : Session → Hub → Hub
cancel_quick_match s h = record h { waiting = drop_waiter s h.waiting }

-- The loop of `unusedCodeLocked`, for so many attempts.
unfoldable pub unused_from : ℕ → List Text → List Text → Option Text
unused_from zero rooms draws = none
unused_from (suc n) rooms [] = none
unused_from (suc n) rooms (code ∷ draws) =
    if contains rooms code then unused_from n rooms draws else some code

unfoldable pub unused_code : List Text → List Text → Option Text
unused_code rooms draws = unused_from code_attempts rooms draws

unfoldable pub new_registered_room : HubView → Hub → Hub × Opened
new_registered_room v h =
    let registered : Hub × Opened = elim (unused_code h.rooms v.draws) [
      | none ↦ (h, failed err_no_room_code)
      | some code ↦
          (record h { rooms = code ∷ h.rooms; log = h.log ++ open_room code ∷ [] }, opened code)
    ] in
    if h.draining
    then (h, failed err_draining)
    else if leb h.max_rooms (length h.rooms)
    then (h, failed err_server_full)
    else registered

-- `r.send`, which a room may refuse.
unfoldable pub send_room : HubView → Text → RoomInput → Hub → Hub
send_room v code i h = if v.takes code then record h { log = h.log ++ to_room code i ∷ [] } else h

-- `roomCreateError`.
unfoldable pub room_create_error : HubError → ServerMessage
room_create_error err_server_full = error_msg server_full
room_create_error err_draining = error_msg server_restarting
room_create_error err_room_not_found = error_msg room_start_failed
room_create_error err_no_room_code = error_msg room_start_failed
room_create_error err_already_queued = error_msg room_start_failed

-- `none` is no error.
unfoldable pub seat_first : HubView → RoomInput → Hub × Opened → Hub × Option HubError
seat_first v i (h, failed e) = (h, some e)
seat_first v i (h, opened code) = (send_room v code i h, none)

unfoldable pub start_bot_room : HubView → Session → Difficulty → Hub → Hub × Option HubError
start_bot_room v s level h = seat_first v (start_bot s level) (new_registered_room v h)

unfoldable pub create_room : HubView → Session → Hub → Hub × Option HubError
create_room v s h = seat_first v (create s false) (new_registered_room v h)

unfoldable pub join_room : HubView → Text → Session → Hub → Hub × Option HubError
join_room v code s h =
    if contains h.rooms code && v.takes code
    then (send_room v code (join s) h, none)
    else (h, some err_room_not_found)

-- What `quickMatch` does with the room for a pair.
unfoldable pub seat_pair : HubView → Session → Session → Hub × Opened → Hub × Option HubError
seat_pair v waiter s (h, failed e) =
    (record h { log = h.log ++ tell waiter (room_create_error e) ∷ [] }, some e)
seat_pair v waiter s (h, opened code) =
    let told : Hub = record h {
      log =
          h.log
          ++ tell waiter (quick_match_status_msg false)
            ∷ tell s (quick_match_status_msg false)
            ∷ [];
    } in
    (send_room v code (join s) (send_room v code (create waiter true) told), none)

unfoldable pub quick_match : HubView → Session → Hub → Hub × Option HubError
quick_match v s h =
    let paired : Hub × Option HubError = elim (next_waiter v.gone h.waiting) [
      | none ↦ (
        record h { waiting = s ∷ []; log = h.log ++ tell s (quick_match_status_msg true) ∷ [] },
        none,
      )
      | some (waiter, rest) ↦
          seat_pair v waiter s (new_registered_room v (record h { waiting = rest }))
    ] in
    if h.draining
    then (h, some err_draining)
    else if queued s h.waiting
    then (h, some err_already_queued)
    else paired

unfoldable pub start_draining : Hub → Hub
start_draining h = record h { draining = true }

unfoldable pub drop_code : Text → List Text → List Text
drop_code code [] = []
drop_code code (c ∷ rest) = let kept = drop_code code rest in if same c code then kept else c ∷ kept

unfoldable pub evict : Text → Hub → Hub
evict code h = record h { rooms = drop_code code h.rooms }

unfoldable pub tell_all : ServerMessage → List (Text × Session) → List HubEffect
tell_all m [] = []
tell_all m ((token, s) ∷ rest) = tell s m ∷ tell_all m rest

unfoldable pub cancel_all : List Text → List HubEffect
cancel_all [] = []
cancel_all (code ∷ rest) = cancel_room code ∷ cancel_all rest

unfoldable pub shutdown : Hub → Hub
shutdown h = record h {
  waiting = [];
  log = h.log ++ (tell_all (error_msg server_restarting) h.sessions ++ cancel_all h.rooms);
}

-- The calls of a hub.
pub data HubCall : Type 0 where
  call_register : Session → Text → HubCall
  call_unregister call_evict : Text → HubCall
  call_bot : Session → Difficulty → HubCall
  call_create call_quick_match call_cancel : Session → HubCall
  call_join : Text → Session → HubCall
  call_drain call_shutdown : HubCall

unfoldable pub call : HubView → HubCall → Hub → Hub
call v (call_register s token) h = register s token h
call v (call_unregister token) h = unregister token h
call v (call_evict code) h = evict code h
call v (call_bot s level) h = (start_bot_room v s level h).0
call v (call_create s) h = (create_room v s h).0
call v (call_quick_match s) h = (quick_match v s h).0
call v (call_cancel s) h = cancel_quick_match s h
call v (call_join code s) h = (join_room v code s h).0
call v call_drain h = start_draining h
call v call_shutdown h = shutdown h

unfoldable pub calls : List (HubView × HubCall) → Hub → Hub
calls [] h = h
calls ((v, c) ∷ cs) h = calls cs (call v c h)
