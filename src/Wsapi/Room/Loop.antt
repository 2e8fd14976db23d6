-- ===== src/Wsapi/Room/Loop.antt =====
-- server/internal/wsapi/room.go, room_inputs.go and room_game.go: the inputs of a room, what each
-- does, and what the loop does after each. An input carries its surroundings.
use noitu.Prelude.{
  ℕ, Bool, true, false, not, ◌&&◌, ◌||◌, List, [], ◌∷◌, Option, none, some, Text, codes, set,
  if◌then◌else◌,
}
use noitu.Vietnamese.{Unicode}
use noitu.Game.State.{PlayerId}
use noitu.Bot.{Difficulty}
use noitu.Wsapi.Nickname.{Tables}
use noitu.Wsapi.Message.{
  game_start_failed, room_idle_closed, room_start_failed, room_not_found, session_not_resumable,
  not_in_a_game, not_in_a_room,
}
use noitu.Wsapi.Room.{
  Session, Seat, Room, RoomDictionary, Surroundings, refuse, take_seat, bot_player, occupied,
  broadcast_error, stop_counting_live,
}
use noitu.Wsapi.Room.Chat.{handle_chat}
use noitu.Wsapi.Room.Say.{broadcast_room_state}
use noitu.Wsapi.Room.Play.{begin_game, handle_resign, handle_claim_dead_end, handle_turn_timer}
use noitu.Wsapi.Room.Words.{handle_submit, handle_report_word, handle_bot_move}
use noitu.Wsapi.Room.Lobby.{LobbyAction, handle_create, handle_join, handle_lobby}
use noitu.Wsapi.Room.Presence.{
  handle_disconnect, handle_grace_expiry, handle_resume, flush_resume_replays, detach_all,
}

-- The messages of `room.inputs` and the three timers.
pub data RoomInput : Type 0 where
  create : Session → Bool → RoomInput
  start_bot : Session → Difficulty → RoomInput
  join : Session → RoomInput
  submit_word : Session → PlayerId → Text → ℕ → RoomInput
  bot_move : Option Text → ℕ → RoomInput
  lobby : Session → PlayerId → LobbyAction → RoomInput
  say : Session → PlayerId → Text → RoomInput
  give_up : Session → PlayerId → RoomInput
  claim_dead_end : Session → PlayerId → RoomInput
  report_word : Session → Text → RoomInput
  disconnect : Session → PlayerId → RoomInput
  resume : Session → PlayerId → Option Session → RoomInput
  turn_timer grace_timer idle_timer : RoomInput

-- The seat of the bot.
unfoldable pub bot_seat : Seat
bot_seat = record {
  id = bot_player;
  nickname = codes "Máy";
  sess = none;
  ready = false;
  chat_from = 0;
  wins = 0;
  grace_until = none;
  held_for = none;
  missed_result = none;
}

module _ (d : RoomDictionary) (u : Unicode) (t : Tables) where
  -- A seed that makes a strategy is never missing, so `bot.New` succeeds.
  unfoldable pub handle_start_bot : Surroundings → Session → Difficulty → Room → Room
  handle_start_bot w sess level r =
      let chosen : Room = record r { strategy = some level } in
      let seated = take_seat 0 (w.nickname sess) sess chosen in
      let ready : Room = record seated {
        seats = set seated.seats 1 (some bot_seat);
        owner = codes "p1";
      } in
      let begun : Room = elim (begin_game d w ready) [
        | none ↦ let told = refuse sess game_start_failed ready in record told { cancelled = true }
        | some begun ↦ begun
      ] in
      if w.gone sess then record ready { cancelled = true } else begun

  -- The arm of the select that an input takes.
  unfoldable pub handle : Surroundings → RoomInput → Room → Room
  handle w (create sess auto_start) r = handle_create w sess auto_start r
  handle w (start_bot sess level) r = handle_start_bot w sess level r
  handle w (join sess) r = handle_join d w sess r
  handle w (submit_word sess p word turn_seq) r = handle_submit d u t w sess p word turn_seq r
  handle w (bot_move choice turn_seq) r = handle_bot_move d u w choice turn_seq r
  handle w (lobby sess p action) r = handle_lobby d w sess p action r
  handle w (say sess p text) r = handle_chat t w sess p text r
  handle w (give_up sess p) r = handle_resign d w sess p r
  handle w (claim_dead_end sess p) r = handle_claim_dead_end d w sess p r
  handle w (report_word sess word) r = handle_report_word d sess word r
  handle w (disconnect sess p) r = handle_disconnect w sess p r
  handle w (resume sess p prior) r = handle_resume d w sess p prior r
  handle w turn_timer r = handle_turn_timer d w r
  handle w grace_timer r = handle_grace_expiry d w r
  handle w idle_timer r =
      let told = broadcast_error room_idle_closed r in record told { cancelled = true }

  -- The one broadcast of an input.
  unfoldable pub show_lobby : Room → Room
  show_lobby r = elim r.strategy [
    | some level ↦ r
    | none ↦
        if r.lobby_changed
        then flush_resume_replays (broadcast_room_state (record r { lobby_changed = false }))
        else r
  ]

  -- Whether a game of this room is over.
  unfoldable pub game_is_over : Room → Bool
  game_is_over r = elim r.engine [ none ↦ false | some e ↦ e.over ]

  unfoldable pub is_bot_room : Room → Bool
  is_bot_room r = elim r.strategy [ none ↦ false | some level ↦ true ]

  -- Whether the loop returns after an input.
  unfoldable pub is_done : Room → Bool
  is_done r = (is_bot_room r && game_is_over r) || not (occupied r)

  -- Whether the loop returns at once: the arm of the idle timer.
  unfoldable pub is_idle : RoomInput → Bool
  is_idle idle_timer = true
  is_idle _ = false

  -- One round of the loop. A room that is cancelled may still take an input that waits, as long as
  -- its loop has not returned.
  unfoldable pub round : Surroundings × RoomInput → Room → Room
  round (w, i) r =
      let handled = handle w i r in
      let shown = if is_idle i then handled else show_lobby handled in
      let next : Room =
        if is_idle i || is_done shown
        then record shown { cancelled = true; returned = true }
        else shown in
      if r.returned
      then r
      else if r.cancelled && w.sees_cancel
      then record r { returned = true }
      else next

  unfoldable pub rounds : List (Surroundings × RoomInput) → Room → Room
  rounds [] r = r
  rounds (i ∷ is) r = rounds is (round i r)

  -- The deferred calls of `run`, and what each input that is still queued is answered.
  unfoldable pub leave_room : Room → Room
  leave_room r = stop_counting_live (detach_all r)

  unfoldable pub refuse_input : RoomInput → Room → Room
  refuse_input (create sess auto_start) r = refuse sess room_start_failed r
  refuse_input (start_bot sess level) r = refuse sess room_start_failed r
  refuse_input (join sess) r = refuse sess room_not_found r
  refuse_input (resume sess p prior) r = refuse sess session_not_resumable r
  refuse_input (submit_word sess p word turn_seq) r = refuse sess not_in_a_game r
  refuse_input (give_up sess p) r = refuse sess not_in_a_game r
  refuse_input (claim_dead_end sess p) r = refuse sess not_in_a_game r
  refuse_input (lobby sess p action) r = refuse sess not_in_a_room r
  refuse_input (say sess p text) r = refuse sess not_in_a_room r
  refuse_input (report_word sess word) r = refuse sess not_in_a_room r
  refuse_input (bot_move choice turn_seq) r = r
  refuse_input (disconnect sess p) r = r
  refuse_input turn_timer r = r
  refuse_input grace_timer r = r
  refuse_input idle_timer r = r

  unfoldable pub refuse_pending : List RoomInput → Room → Room
  refuse_pending [] r = r
  refuse_pending (i ∷ is) r = refuse_pending is (refuse_input i r)
