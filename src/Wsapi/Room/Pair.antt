-- ===== src/Wsapi/Room/Pair.antt =====
-- A pair from the queue: the room that a quick match opens begins its game by itself.
use noitu.Prelude.{
  ◌&&◌, ℕ, ◌≡◌, ◌≢◌, refl, ◌∙◌, true, false, [], ◌∷◌, none, some, Text, same, codes, ◌==◌, contains,
  if_split, opt_split, arith, length,
}
use noitu.Vietnamese.{Unicode}
use noitu.Game.Engine.{Engine}
use noitu.Game.Submit.{started, new}
use noitu.Wsapi.Nickname.{Tables}
use noitu.Wsapi.Room.Lobby.{
  auto_begin, handle_create, handle_join, seat_joiner, is_recipient, names_of,
}
use noitu.Wsapi.Room.{
  Session, Room, RoomDictionary, Surroundings, new_room, seat_of, seat_in, is_session, take_seat,
  fresh_seat, emit, free_seat, free_from, held, occupied, seated_count, count_held, in_lobby,
  recipients, all_connected, connected_seats, is_connected, broadcast, next_seq,
}
use noitu.Wsapi.Room.Play.{
  begin_game, start_engine, open_game, held_ids, rotate, clear_seats, maybe_schedule_bot, drop_ids,
}
use noitu.Wsapi.Room.Presence.{flush_resume_replays, replayed}
use noitu.Wsapi.Room.Say.{broadcast_room_state}
use noitu.Wsapi.Room.Loop.{
  create, join, rounds, round, handle, show_lobby, is_done, is_idle, is_bot_room, game_is_over,
}

apart : (a b : Session) → a ≢ b → (a == b) ≡ false
apart a b differ = ground (arith, differ)

-- A room of one connected player that starts by itself.
record IsWaiting (turn_limit : ℕ) (name : Text) (a : Session) (r : Room) : Type 0 where
  open_still : r.cancelled ≡ false
  running : r.returned ≡ false
  idle : r.engine ≡ none
  people : r.strategy ≡ none
  by_itself : r.auto_start ≡ true
  clock : r.turn_limit ≡ turn_limit
  seated : r.seats ≡ some (fresh_seat 0 name a 0) ∷ none ∷ none ∷ none ∷ []

module _ (d : RoomDictionary) (u : Unicode) (t : Tables) where
  engine-show_lobby : (r : Room) → (show_lobby d u t r).engine ≡ r.engine
  unfolding show_lobby flush_resume_replays broadcast_room_state broadcast
  engine-show_lobby r =
      let Same : Room → Type 0 = λ (q : Room). q.engine ≡ r.engine in
      opt_split Same r.strategy (λ n. if_split Same r.lobby_changed (λ o. refl) (λ o. refl))
        (λ level n. refl)

  engine-round :
      (w : Surroundings) (sess : Session) (r : Room)
      → r.cancelled ≡ false
      → r.returned ≡ false
      → (round d u t (w, join sess) r).engine ≡ (handle d u t w (join sess) r).engine
  unfolding round is_idle
  engine-round w sess r on runs =
      let handled = handle d u t w (join sess) r in
      let Same : Room → Type 0 = λ (q : Room). q.engine ≡ handled.engine in
      if_split Same r.returned (λ x. ground arith)
        (λ x.
          if_split Same (r.cancelled && w.sees_cancel) (λ y. ground arith)
            λ c.
              if_split Same (is_done d u t (show_lobby d u t handled))
                (λ y. engine-show_lobby handled) (λ y. engine-show_lobby handled))

  create-IsWaiting :
      (w : Surroundings) (a : Session) (code : Text) (turn_limit grace_for : ℕ)
      → w.gone a ≡ false
      → IsWaiting turn_limit
          (w.nickname a)
          a
          (round d u t (w, create a true) (new_room code turn_limit grace_for))
  unfolding rounds round new_room is_done is_bot_room is_idle show_lobby handle handle_create
      seat_of seat_in take_seat same fresh_seat emit flush_resume_replays broadcast_room_state
      broadcast handle_join free_seat free_from held occupied seated_count count_held in_lobby
      is_recipient recipients is_session seat_joiner names_of all_connected connected_seats
      is_connected begin_game start_engine held_ids rotate drop_ids clear_seats open_game next_seq
      maybe_schedule_bot replayed game_is_over auto_begin contains
  create-IsWaiting w a code turn_limit grace_for here = rw here (record {
    open_still = refl;
    running = refl;
    idle = refl;
    people = refl;
    by_itself = refl;
    clock = refl;
    seated = refl;
  })

  engine-maybe_schedule_bot :
      (e : Engine) (r : Room) → r.strategy ≡ none → (maybe_schedule_bot d e r).engine ≡ r.engine
  unfolding maybe_schedule_bot
  engine-maybe_schedule_bot e r people = rw people refl

  auto_begin_starts :
      (w : Surroundings) (r : Room) (opening : Text) (e : Engine)
      → w.draining ≡ false
      → w.opening ≡ some opening
      → r.strategy ≡ none
      → new d.base
          (rotate (w.lead (length (held_ids r.seats))) (held_ids r.seats))
          opening
          r.turn_limit
          w.now
        ≡ started e
      → (auto_begin d w r).engine ≡ some e
  unfolding auto_begin begin_game start_engine open_game broadcast broadcast_room_state next_seq
  auto_begin_starts w r opening e on draws people starts =
      rw on (rw draws (rw people (rw starts (engine-maybe_schedule_bot e _ people))))

  join_starts :
      (w : Surroundings) (a b : Session) (name : Text) (turn_limit : ℕ) (r : Room) (opening : Text)
      (e : Engine)
      → IsWaiting turn_limit name a r
      → w.gone b ≡ false
      → a ≢ b
      → w.draining ≡ false
      → w.opening ≡ some opening
      → new d.base (rotate (w.lead 2) (codes "p1" ∷ codes "p2" ∷ [])) opening turn_limit w.now
        ≡ started e
      → (handle_join d w b r).engine ≡ some e
  unfolding handle_join free_seat free_from held occupied seated_count count_held in_lobby
      recipients is_recipient is_session fresh_seat seat_joiner take_seat all_connected
      connected_seats is_connected emit seat_of seat_in same held_ids
  join_starts w a b name turn_limit r opening e k here differ on draws starts = rw k.seated (
      rw k.idle (
        rw (apart a b differ) (
          rw here (
            rw k.by_itself
              (auto_begin_starts w _ opening e on draws k.people (rw k.clock starts))))))

  -- In a new room, a live connection that opens it for a quick match and another live one that
  -- joins it have a game: where the server does not drain, an opening word is drawn and New
  -- starts on it with the two seats in turn order, the room holds that game right after the join.
  pub pair_begins :
      (first second : Surroundings) (a b : Session) (code : Text) (turn_limit grace_for : ℕ)
      (opening : Text) (e : Engine)
      → first.gone a ≡ false
      → second.gone b ≡ false
      → a ≢ b
      → second.draining ≡ false
      → second.opening ≡ some opening
      → new d.base
          (rotate (second.lead 2) (codes "p1" ∷ codes "p2" ∷ []))
          opening
          turn_limit
          second.now
        ≡ started e
      → (rounds d u t
          ((first, create a true) ∷ (second, join b) ∷ [])
          (new_room code turn_limit grace_for)).engine
        ≡ some e
  unfolding rounds handle
  pair_begins first second a b code turn_limit grace_for opening e a_here b_here differ on draws
        starts =
      let waits = create-IsWaiting first a code turn_limit grace_for a_here in
      engine-round second b _ waits.open_still waits.running
      ∙ join_starts second a b (first.nickname a) turn_limit _ opening e waits b_here differ on
          draws starts
