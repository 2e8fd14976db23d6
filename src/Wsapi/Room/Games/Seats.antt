-- ===== src/Wsapi/Room/Games/Seats.antt =====
-- Seating, the lobby and leaving keep what the engine and the conversation keep.
use mathlib.Core.Path.{subst, sym}
use noitu.Prelude.{
  ℕ, ◌≡◌, refl, Bool, not, ◌&&◌, ◌||◌, List, [], ◌∷◌, same, if_split, opt_split, ltb, get_or, codes,
}
use noitu.Vietnamese.{Unicode}
use noitu.Game.State.{PlayerId}
use noitu.Wsapi.Room.{
  occupies, Session, Seat, Room, RoomDictionary, Surroundings, emit, refuse, broadcast, take_seat,
  free_seat, occupied, in_lobby, recipients, seated_count, all_connected, min_players, seat_of,
  seat_ids, broadcast_error,
}
use noitu.Wsapi.Room.Play.{mark_of}
use noitu.Wsapi.Room.Games.{
  IsClosed, Keeps, begun-Keeps, apply_eliminations-Keeps, With-engine, View, view,
}
use noitu.Wsapi.Room.Games.Moves.{resign-step}
use noitu.Wsapi.Room.Say.{broadcast_room_state, guests_ready}
use noitu.Wsapi.Room.Lobby.{
  LobbyAction, ready_action, start_action, kick_action, leave_action, is_leave, hold_seat, vacate,
  promote, has_author, handle_create, auto_begin, seat_joiner, handle_join, is_recipient,
  handle_ready, handle_start, kick, handle_kick, absent_from, eliminate_absent, handle_leave,
  lobby_action, handle_lobby, scrub,
}
use noitu.Wsapi.Room.Presence.{vacate_all}
use noitu.Game.Engine.{is_alive}

view-vacate : (s : Seat) (r : Room) → view (vacate s r) ≡ (r.engine, scrub s.id r.chat, r.chat_seq)
unfolding vacate promote emit
view-vacate s r =
    let Left : Room → Type 0 = λ (q : Room). view q ≡ (r.engine, scrub s.id r.chat, r.chat_seq) in
    if_split Left (same r.owner s.id)
      (λ o. if_split Left (has_author s.id r.chat) (λ a. refl) (λ a. refl))
      (λ o. if_split Left (has_author s.id r.chat) (λ a. refl) (λ a. refl))

module _ (d : RoomDictionary) (u : Unicode) (P : View → Type 0) (c : IsClosed d u P) where
  pub vacate-Keeps : (s : Seat) (r : Room) → Keeps P r → Keeps P (vacate s r)
  vacate-Keeps s r h =
      subst P (sym (view-vacate s r)) (c.at_scrub s.id r.engine r.chat r.chat_seq h)

  pub vacate_all-Keeps : (gone : List Seat) (r : Room) → Keeps P r → Keeps P (vacate_all gone r)
  unfolding vacate_all
  vacate_all-Keeps [] r h = h
  vacate_all-Keeps (s ∷ gone) r h = vacate_all-Keeps gone (vacate s r) (vacate-Keeps s r h)

  pub handle_create-Keeps :
      (w : Surroundings) (sess : Session) (auto_start : Bool) (r : Room)
      → Keeps P r
      → Keeps P (handle_create w sess auto_start r)
  unfolding handle_create take_seat hold_seat emit
  handle_create-Keeps w sess auto_start r h =
      if_split (Keeps P) (w.gone sess) (λ g. h)
        λ g. opt_split (Keeps P) (seat_of _ (codes "p1")) (λ n. h) (λ s n. h)

  pub auto_begin-Keeps : (w : Surroundings) (r : Room) → Keeps P r → Keeps P (auto_begin d w r)
  unfolding auto_begin broadcast_error broadcast broadcast_room_state
  auto_begin-Keeps w r h =
      if_split (Keeps P) w.draining (λ g. h) (λ g. begun-Keeps d u P c w _ _ h h)

  pub seat_joiner-Keeps :
      (w : Surroundings) (sess : Session) (auto_start : Bool) (i : ℕ) (p : PlayerId) (r : Room)
      → Keeps P r
      → Keeps P (seat_joiner d w sess auto_start i p r)
  unfolding seat_joiner take_seat hold_seat emit
  seat_joiner-Keeps w sess auto_start i p r h =
      if_split (Keeps P) (w.gone sess) (λ g. h)
        λ g.
          if_split (Keeps P) (auto_start && _)
            (λ b. auto_begin-Keeps w _ (opt_split (Keeps P) (seat_of _ p) (λ n. h) (λ s n. h)))
            (λ b. opt_split (Keeps P) (seat_of _ p) (λ n. h) (λ s n. h))

  pub handle_join-Keeps :
      (w : Surroundings) (sess : Session) (r : Room) → Keeps P r → Keeps P (handle_join d w sess r)
  unfolding handle_join refuse
  handle_join-Keeps w sess r h =
      opt_split (Keeps P) (free_seat _) (λ n. h)
        λ i n.
          if_split (Keeps P) (not (occupied _)) (λ o. h)
            λ o.
              if_split (Keeps P) (not (in_lobby _)) (λ o. h)
                λ o.
                  if_split (Keeps P) (is_recipient sess (recipients r.seats)) (λ o. h)
                    (λ o. seat_joiner-Keeps w sess r.auto_start i (get_or seat_ids i []) _ h)

  pub handle_start-Keeps :
      (w : Surroundings) (sess : Session) (p : PlayerId) (r : Room)
      → Keeps P r
      → Keeps P (handle_start d w sess p r)
  unfolding handle_start refuse broadcast_error broadcast
  handle_start-Keeps w sess p r h =
      if_split (Keeps P) (not (same p r.owner)) (λ o. h)
        λ o.
          if_split (Keeps P) w.draining (λ o. h)
            λ o.
              if_split (Keeps P) (ltb (seated_count r) min_players) (λ o. h)
                λ o.
                  if_split (Keeps P) (not (all_connected r)) (λ o. h)
                    λ o.
                      if_split (Keeps P) (not (guests_ready r)) (λ o. h)
                        (λ o. begun-Keeps d u P c w r _ h h)

  pub handle_kick-Keeps :
      (sess : Session) (p target : PlayerId) (r : Room)
      → Keeps P r
      → Keeps P (handle_kick d sess p target r)
  unfolding handle_kick kick refuse emit
  handle_kick-Keeps sess p target r h =
      if_split (Keeps P) (not (same p r.owner)) (λ o. h)
        λ o.
          opt_split (Keeps P) (seat_of r target) (λ n. h)
            λ s n.
              if_split (Keeps P) (same s.id p) (λ o. h)
                λ o. if_split (Keeps P) s.ready (λ o. h) (λ o. vacate-Keeps s r h)

  pub eliminate_absent-Keeps :
      (now : ℕ) (p : PlayerId) (r : Room) → Keeps P r → Keeps P (eliminate_absent d now p r)
  unfolding eliminate_absent absent_from
  eliminate_absent-Keeps now p r h =
      opt_split (Keeps P) r.engine (λ n. h)
        λ e n.
          if_split (Keeps P) (e.over || not (is_alive e p)) (λ o. h)
            (λ o. resign-step d u P c r e p now (With-engine d u P c r e h n))

  pub handle_leave-Keeps :
      (w : Surroundings) (sess : Session) (mine : Seat) (r : Room)
      → Keeps P r
      → Keeps P (handle_leave d w sess mine r)
  unfolding handle_leave refuse
  handle_leave-Keeps w sess mine r h =
      if_split (Keeps P) (in_lobby r)
        (λ o. if_split (Keeps P) mine.ready (λ o. h) (λ o. vacate-Keeps mine r h))
        (λ o. vacate-Keeps mine _ (
          apply_eliminations-Keeps d u P c (mark_of r.engine) _
            (eliminate_absent-Keeps w.now mine.id r h)))

  pub lobby_action-Keeps :
      (w : Surroundings) (sess : Session) (p : PlayerId) (action : LobbyAction) (mine : Seat)
      (r : Room)
      → Keeps P r
      → Keeps P (lobby_action d w sess p action mine r)
  unfolding lobby_action handle_ready refuse
  lobby_action-Keeps w sess p (ready_action ready) mine r h =
      if_split (Keeps P) (same p r.owner) (λ o. h) (λ o. h)
  lobby_action-Keeps w sess p start_action mine r h = handle_start-Keeps w sess p r h
  lobby_action-Keeps w sess p (kick_action target) mine r h = handle_kick-Keeps sess p target r h
  lobby_action-Keeps w sess p leave_action mine r h = handle_leave-Keeps w sess mine r h

  pub handle_lobby-Keeps :
      (w : Surroundings) (sess : Session) (p : PlayerId) (action : LobbyAction) (r : Room)
      → Keeps P r
      → Keeps P (handle_lobby d w sess p action r)
  unfolding handle_lobby refuse
  handle_lobby-Keeps w sess p action r h =
      if_split (Keeps P) (not (occupies r sess p)) (λ o. h)
        λ o.
          opt_split (Keeps P) r.strategy
            (λ n.
              if_split (Keeps P) (not (in_lobby r) && not (is_leave action)) (λ b. h)
                (λ b.
                  opt_split (Keeps P) (seat_of r p) (λ n. h)
                    (λ mine n. lobby_action-Keeps w sess p action mine r h)))
            (λ level n. h)
