-- ===== src/Wsapi/Room/Games/Rounds.antt =====
-- Every round of a room keeps what the engine keeps: its games are runs of the engine.
use noitu.Prelude.{
  ◌&&◌, ◌||◌, ℕ, refl, not, List, [], ◌∷◌, Option, Text, if_split, opt_split, null, ◌+◌,
}
use noitu.Vietnamese.{Unicode}
use noitu.Game.State.{PlayerId}
use noitu.Wsapi.Nickname.{Tables, sanitize_text}
use noitu.Wsapi.Room.{
  max_chat_runes, max_chat_marks, occupies, Session, Seat, Room, RoomDictionary, Surroundings, emit,
  refuse, broadcast, take_seat, seat_of, is_session, broadcast_error, ChatEntry,
}
use noitu.Bot.{Difficulty}
use noitu.Wsapi.Room.Words.{handle_report_word}
use noitu.Wsapi.Room.Play.{mark_of, apply_eliminations}
use noitu.Wsapi.Room.Games.{IsClosed, Keeps, begun-Keeps, apply_eliminations-Keeps, View}
use noitu.Wsapi.Room.Games.Moves.{
  handle_resign-Keeps, handle_claim_dead_end-Keeps, handle_turn_timer-Keeps, handle_submit-Keeps,
  handle_bot_move-Keeps,
}
use noitu.Wsapi.Room.Chat.{handle_chat, speak, add_line}
use noitu.Wsapi.Room.Say.{broadcast_room_state}
use noitu.Wsapi.Room.Lobby.{hold_seat, eliminate_absent}
use noitu.Wsapi.Room.Presence.{
  drop_seat, handle_disconnect, expired_seats, resumable, flush_resume_replays, eliminate_all,
  handle_grace_expiry, show_position, accept_resume, handle_resume,
}
use noitu.Wsapi.Room.Loop.{
  RoomInput, create, start_bot, join, submit_word, bot_move, lobby, say, give_up, claim_dead_end,
  report_word, disconnect, resume, turn_timer, grace_timer, idle_timer, handle_start_bot, handle,
  show_lobby, is_idle, round, rounds,
}
use noitu.Wsapi.Room.Games.Seats.{
  vacate_all-Keeps, handle_create-Keeps, handle_join-Keeps, eliminate_absent-Keeps,
  handle_lobby-Keeps,
}

-- The entry of a line.
abbrev line_of : Room → Seat → Text → ℕ → ChatEntry
line_of r s text now = record {
  seq = r.chat_seq + 1;
  author = s.id;
  name = s.nickname;
  text = text;
  at = now;
}

module _ (d : RoomDictionary) (u : Unicode) (t : Tables) (P : View → Type 0)
    (c : IsClosed d u P) where
  handle_chat-Keeps :
      (w : Surroundings) (sess : Session) (p : PlayerId) (text : Text) (r : Room)
      → Keeps P r
      → Keeps P (handle_chat t w sess p text r)
  unfolding handle_chat speak add_line refuse
  handle_chat-Keeps w sess p text r h =
      let said = sanitize_text t text max_chat_runes max_chat_marks in
      if_split (Keeps P) (not (occupies r sess p)) (λ o. h)
        λ o.
          opt_split (Keeps P) r.strategy
            (λ n.
              if_split (Keeps P) (null said) (λ b. h)
                (λ b.
                  opt_split (Keeps P) (seat_of r p) (λ n. h)
                    (λ s n. c.at_line (line_of r s said w.now) r.engine r.chat r.chat_seq refl h)))
            (λ level n. h)

  handle_disconnect-Keeps :
      (w : Surroundings) (sess : Session) (p : PlayerId) (r : Room)
      → Keeps P r
      → Keeps P (handle_disconnect w sess p r)
  unfolding handle_disconnect drop_seat hold_seat
  handle_disconnect-Keeps w sess p r h =
      opt_split (Keeps P) (seat_of r p) (λ n. h)
        (λ s n. if_split (Keeps P) (is_session s.sess sess) (λ o. h) (λ o. h))

  eliminate_all-Keeps :
      (now : ℕ) (gone : List Seat) (r : Room) → Keeps P r → Keeps P (eliminate_all d now gone r)
  unfolding eliminate_all
  eliminate_all-Keeps now [] r h = h
  eliminate_all-Keeps now (s ∷ gone) r h =
      eliminate_all-Keeps now gone (eliminate_absent d now s.id r)
        (eliminate_absent-Keeps d u P c now s.id r h)

  handle_grace_expiry-Keeps :
      (w : Surroundings) (r : Room) → Keeps P r → Keeps P (handle_grace_expiry d w r)
  unfolding handle_grace_expiry
  handle_grace_expiry-Keeps w r h =
      let gone = expired_seats w.now r.seats in
      let absent = eliminate_all d w.now gone r in
      let out = apply_eliminations d (mark_of r.engine) absent in
      if_split (Keeps P) (null gone) (λ n. h)
        (λ n. vacate_all-Keeps d u P c gone out (
          apply_eliminations-Keeps d u P c (mark_of r.engine) absent
            (eliminate_all-Keeps w.now gone r h)))

  show_position-Keeps :
      (sess : Session) (s : Seat) (r : Room) → Keeps P r → Keeps P (show_position d sess s r)
  unfolding show_position emit
  show_position-Keeps sess s r h =
      opt_split (Keeps P) r.engine (λ n. opt_split (Keeps P) s.missed_result (λ m. h) (λ m q. h))
        (λ e n.
          if_split (Keeps P) e.over (λ o. opt_split (Keeps P) s.missed_result (λ m. h) (λ m q. h))
            (λ o. h))

  handle_resume-Keeps :
      (w : Surroundings) (sess : Session) (p : PlayerId) (prior : Option Session) (r : Room)
      → Keeps P r
      → Keeps P (handle_resume d w sess p prior r)
  unfolding handle_resume accept_resume refuse hold_seat
  handle_resume-Keeps w sess p prior r h =
      opt_split (Keeps P) (seat_of r p) (λ n. h)
        λ s n.
          if_split (Keeps P) (resumable s prior)
            (λ o. if_split (Keeps P) (w.gone sess) (λ g. h) (λ g. show_position-Keeps sess _ _ h))
            (λ o. h)

  handle_start_bot-Keeps :
      (w : Surroundings) (sess : Session) (level : Difficulty) (r : Room)
      → Keeps P r
      → Keeps P (handle_start_bot d u t w sess level r)
  unfolding handle_start_bot take_seat refuse
  handle_start_bot-Keeps w sess level r h =
      if_split (Keeps P) (w.gone sess) (λ g. h) (λ g. begun-Keeps d u P c w _ _ h h)

  handle-Keeps :
      (w : Surroundings) (i : RoomInput) (r : Room) → Keeps P r → Keeps P (handle d u t w i r)
  unfolding handle handle_report_word emit broadcast_error broadcast
  handle-Keeps w (create sess auto_start) r h = handle_create-Keeps d u P c w sess auto_start r h
  handle-Keeps w (start_bot sess level) r h = handle_start_bot-Keeps w sess level r h
  handle-Keeps w (join sess) r h = handle_join-Keeps d u P c w sess r h
  handle-Keeps w (submit_word sess p raw turn_seq) r h =
      handle_submit-Keeps d u P c t w sess p raw turn_seq r h
  handle-Keeps w (bot_move choice turn_seq) r h =
      handle_bot_move-Keeps d u P c w choice turn_seq r h
  handle-Keeps w (lobby sess p action) r h = handle_lobby-Keeps d u P c w sess p action r h
  handle-Keeps w (say sess p text) r h = handle_chat-Keeps w sess p text r h
  handle-Keeps w (give_up sess p) r h = handle_resign-Keeps d u P c w sess p r h
  handle-Keeps w (claim_dead_end sess p) r h = handle_claim_dead_end-Keeps d u P c w sess p r h
  handle-Keeps w (report_word sess reported) r h = h
  handle-Keeps w (disconnect sess p) r h = handle_disconnect-Keeps w sess p r h
  handle-Keeps w (resume sess p prior) r h = handle_resume-Keeps w sess p prior r h
  handle-Keeps w turn_timer r h = handle_turn_timer-Keeps d u P c w r h
  handle-Keeps w grace_timer r h = handle_grace_expiry-Keeps w r h
  handle-Keeps w idle_timer r h = h

  show_lobby-Keeps : (r : Room) → Keeps P r → Keeps P (show_lobby d u t r)
  unfolding show_lobby flush_resume_replays broadcast_room_state broadcast
  show_lobby-Keeps r h =
      opt_split (Keeps P) r.strategy (λ n. if_split (Keeps P) r.lobby_changed (λ o. h) (λ o. h))
        (λ level n. h)

  round-Keeps : (i : Surroundings × RoomInput) (r : Room) → Keeps P r → Keeps P (round d u t i r)
  unfolding round
  round-Keeps (w, i) r h =
      let handled = handle d u t w i r in
      let after =
        if_split (Keeps P) (is_idle d u t i) (λ x. handle-Keeps w i r h)
          (λ x. show_lobby-Keeps handled (handle-Keeps w i r h)) in
      if_split (Keeps P) r.returned (λ o. h)
        λ o.
          if_split (Keeps P) (r.cancelled && w.sees_cancel) (λ c. h)
            (λ c. if_split (Keeps P) (is_idle d u t i || _) (λ x. after) (λ x. after))

  -- Every round keeps the property.
  pub rounds-Keeps :
      (is : List (Surroundings × RoomInput)) (r : Room) → Keeps P r → Keeps P (rounds d u t is r)
  unfolding rounds
  rounds-Keeps [] r h = h
  rounds-Keeps (i ∷ is) r h = rounds-Keeps is (round d u t i r) (round-Keeps i r h)
