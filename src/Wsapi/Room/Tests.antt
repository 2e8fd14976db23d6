-- ===== src/Wsapi/Room/Tests.antt =====
-- A room of two players, by evaluation.
use noitu.Vietnamese.{join as join_texts}
use noitu.Prelude.{
  Bool, Option, ℕ, ◌≡◌, refl, true, false, List, [], ◌∷◌, ◌++◌, if◌then◌else◌, none, some, Text,
  codes, same, contains, lookup, lookup_or, arith,
}
use noitu.Game.Engine.{has_legal_move}
use noitu.Game.Submit.{new, opened, has_duplicate, started}
use noitu.Game.Tests.{ascii, small, p1, p2, game0, new_starts}
use noitu.Wsapi.Nickname.{Tables, distinguish, distinguish_from, candidate, suffix, digits}
use noitu.Wsapi.Room.{
  Room, RoomDictionary, Surroundings, new_room, Seat, seat_of, seat_in, occupies, is_session,
  take_seat, fresh_seat, refuse, emit, free_seat, free_from, held, occupied, seated_count,
  count_held, in_lobby, recipients, all_connected, connected_seats, is_connected, broadcast, sends,
  next_seq,
}
use noitu.Wsapi.Room.Chat.{history_frames}
use noitu.Wsapi.Room.Lobby.{
  ready_action, start_action, handle_create, handle_join, seat_joiner, is_recipient, names_of,
  distinct_name, handle_lobby, lobby_action, handle_ready, handle_start, update_seat, vacate,
}
use noitu.Wsapi.Room.Say.{guests_ready, ready_but, broadcast_room_state, can_start}
use noitu.Wsapi.Room.Play.{
  begin_game, start_engine, open_game, held_ids, rotate, clear_seats, maybe_schedule_bot, drop_ids,
}
use noitu.Wsapi.Room.Presence.{flush_resume_replays, replayed, handle_resume, handle_disconnect}
use noitu.Game.Engine.Invariant.{IsValid}
use noitu.Game.Run.Chain.{IsChain}
use noitu.Wsapi.Room.Games.Refines.{IsPlayed, rounds-IsPlayed, rounds_correct}
use noitu.Wsapi.Room.Loop.{
  say, RoomInput, create, join, lobby, rounds, round, handle, show_lobby, is_done, is_idle,
  is_bot_room, game_is_over,
}
use noitu.Wsapi.Room.Games.Talk.{IsTalk, rounds-IsTalk}
use noitu.Wsapi.Room.Pair.{pair_begins}
use noitu.Wsapi.Room.Guards.{start_when_can_start, started_room, obstacle}
use noitu.Wsapi.Room.Vacate.{IsVacated, vacate-IsVacated}
use noitu.Wsapi.Room.Windows.{taken_up, handle_resume-handle_disconnect}

abbrev d : RoomDictionary
d = record { base = small; meanings = λ w. []; near_miss = λ w. none }

abbrev plain : Tables
plain = record {
  nfc = λ s. s;
  is_control = λ c. false;
  is_format = λ c. false;
  is_print = λ c. true;
  is_mark = λ c. false;
}

abbrev now : Surroundings
now = record {
  now = 1000;
  gone = λ sess. false;
  draining = false;
  sees_cancel = true;
  opening = some (codes "a b");
  lead = λ n. 0;
  nickname = λ sess. codes "an";
}

abbrev to_agree : List (Surroundings × RoomInput)
to_agree = (now, create 1 false) ∷ (now, join 2) ∷ (now, lobby 2 p2 (ready_action true)) ∷ []

abbrev to_start : List (Surroundings × RoomInput)
to_start = to_agree ++ (now, lobby 1 p1 start_action) ∷ []

abbrev empty : Room
empty = new_room (codes "x") 100 500

abbrev agreed : Room
agreed = rounds d ascii plain to_agree empty

abbrev playing : Room
playing = rounds d ascii plain to_start empty

playing_game : playing.engine ≡ some game0
unfolding rounds round new_room is_done is_bot_room is_idle show_lobby handle handle_create seat_of
    seat_in take_seat same fresh_seat emit flush_resume_replays broadcast_room_state broadcast
    handle_join free_seat free_from held occupied seated_count count_held in_lobby is_recipient
    recipients is_session seat_joiner names_of distinct_name distinguish distinguish_from
    all_connected connected_seats is_connected handle_lobby occupies lobby_action handle_ready
    update_seat handle_start guests_ready ready_but begin_game start_engine held_ids rotate drop_ids
    clear_seats open_game next_seq maybe_schedule_bot replayed contains game_is_over new opened
    lookup lookup_or has_duplicate has_legal_move small refuse candidate suffix digits
    history_frames sends
playing_game = refl

rounds-IsPlayed_example : IsPlayed d ascii game0
rounds-IsPlayed_example =
    rounds-IsPlayed d ascii plain (codes "x") 100 500 to_start game0 playing_game

rounds_correct_example : (opening : Text) × IsValid game0 × IsChain small opening game0
rounds_correct_example =
    rounds_correct d ascii plain (codes "x") 100 500 to_start game0 playing_game

owner_there : occupies agreed 1 agreed.owner ≡ true
unfolding rounds round new_room is_done is_bot_room is_idle show_lobby handle handle_create seat_of
    seat_in take_seat same fresh_seat emit flush_resume_replays broadcast_room_state broadcast
    handle_join free_seat free_from held occupied seated_count count_held in_lobby is_recipient
    recipients is_session seat_joiner names_of distinct_name distinguish distinguish_from
    all_connected connected_seats is_connected handle_lobby occupies lobby_action handle_ready
    update_seat handle_start guests_ready ready_but begin_game start_engine held_ids rotate drop_ids
    clear_seats open_game next_seq maybe_schedule_bot replayed contains game_is_over new opened
    lookup lookup_or has_duplicate has_legal_move small refuse candidate suffix digits
    history_frames sends
owner_there = refl

start_when_can_start_example :
    handle d ascii plain now (lobby 1 agreed.owner start_action) agreed
    ≡ (if can_start agreed then started_room d now agreed else refuse 1 (obstacle agreed) agreed)
start_when_can_start_example = start_when_can_start d ascii plain now agreed 1 owner_there refl

abbrev first : Seat
first = fresh_seat 0 (codes "an") 1 0

vacate-IsVacated_example : IsVacated first agreed (vacate first agreed)
vacate-IsVacated_example = vacate-IsVacated first agreed

-- The room of one player who waits for another.
abbrev alone : Room
alone = rounds d ascii plain ((now, create 1 false) ∷ []) empty

first_here : seat_of alone p1 ≡ some first
unfolding rounds round new_room is_done is_bot_room is_idle show_lobby handle handle_create seat_of
    seat_in take_seat same fresh_seat emit flush_resume_replays broadcast_room_state broadcast
    handle_join free_seat free_from held occupied seated_count count_held in_lobby is_recipient
    recipients is_session seat_joiner names_of distinct_name distinguish distinguish_from
    all_connected connected_seats is_connected handle_lobby occupies lobby_action handle_ready
    update_seat handle_start guests_ready ready_but begin_game start_engine held_ids rotate drop_ids
    clear_seats open_game next_seq maybe_schedule_bot replayed contains game_is_over new opened
    lookup lookup_or has_duplicate has_legal_move small refuse candidate suffix digits
    history_frames sends
first_here = refl

first_connected : first.sess ≡ some 1
unfolding fresh_seat
first_connected = refl

handle_resume-handle_disconnect_example :
    (before : List (Option Seat)) × (after : List (Option Seat)) × (alone.seats
      ≡ before ++ some first ∷ after)
    × ((handle_resume d now 7 p1 (some 1) (handle_disconnect now 1 p1 alone)).seats
        ≡ before ++ some (taken_up 7 first) ∷ after)
handle_resume-handle_disconnect_example =
    handle_resume-handle_disconnect d now now 1 p1 alone first first_here first_connected 7 refl

abbrev to_talk : List (Surroundings × RoomInput)
to_talk = to_agree ++ (now, say 1 p1 (codes "hi")) ∷ []

rounds-IsTalk_example :
    IsTalk
      (rounds d ascii plain to_talk (new_room (codes "x") 100 500)).chat
      (rounds d ascii plain to_talk (new_room (codes "x") 100 500)).chat_seq
rounds-IsTalk_example = rounds-IsTalk d ascii plain (codes "x") 100 500 to_talk

abbrev talking : Room
talking = rounds d ascii plain to_talk empty

abbrev RoomFacts : Type 0
RoomFacts = Bool × Option ℕ × Option Seat

pair_starts : new small (rotate 0 (p1 ∷ p2 ∷ [])) (codes "a b") 100 1000 ≡ started game0
unfolding rotate drop_ids
pair_starts = new_starts

pair_begins_example :
    (rounds d ascii plain
      ((now, create 1 true) ∷ (now, join 2) ∷ [])
      (new_room (codes "x") 100 500)).engine
    ≡ some game0
pair_begins_example =
    pair_begins d ascii plain now now 1 2 (codes "x") 100 500 (codes "a b") game0 refl refl
      (λ is. omega (arith, is)) refl refl pair_starts
