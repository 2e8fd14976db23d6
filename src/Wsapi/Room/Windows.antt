-- ===== src/Wsapi/Room/Windows.antt =====
-- Reconnect windows: a dropped seat that is resumed, and the windows that run out.
use noitu.Prelude.{
  ◌+◌, ◌≡◌, ◌≢◌, refl, ◌∙◌, ap, false, List, [], ◌∷◌, Option, none, some, same_iff, Bool-cases, inl,
  inr, same, ◌++◌, if_split, opt_split, arith, ◌==◌, if◌then◌else◌,
}
use noitu.Game.State.{PlayerId}
use noitu.Wsapi.Room.{
  Session, Seat, Room, RoomDictionary, Surroundings, emit, refuse, seat_in, seat_of, is_session,
}
use noitu.Wsapi.Message.{session_not_resumable}
use noitu.Wsapi.Room.Lobby.{update_seat, waiting_seat, hold_seat}
use noitu.Wsapi.Room.Presence.{
  drop_seat, handle_disconnect, reconnected, resumable, same_session, is_away, show_position,
  accept_resume, handle_resume,
}

-- A change that leaves the ids of seats alone.
abbrev KeepsId : (Seat → Seat) → Type 0
KeepsId f = (s : Seat) → (f s).id ≡ s.id

module _ (p : PlayerId) where
  seat_in-update_seat :
      (f : Seat → Seat) (seats : List (Option Seat)) (s : Seat)
      → KeepsId f
      → seat_in seats p ≡ some s
      → seat_in (update_seat p f seats) p ≡ some (f s)
  unfolding seat_in update_seat
  seat_in-update_seat f [] s k h = ground arith
  seat_in-update_seat f (none ∷ seats) s k h = seat_in-update_seat f seats s k h
  seat_in-update_seat f (some x ∷ seats) s k h =
      ground (arith, seat_in-update_seat f seats s k, k x)

  update_seat-update_seat :
      (f g : Seat → Seat) (seats : List (Option Seat))
      → KeepsId f
      → update_seat p g (update_seat p f seats) ≡ update_seat p (λ s. g (f s)) seats
  unfolding update_seat
  update_seat-update_seat f g [] k = refl
  update_seat-update_seat f g (none ∷ seats) k =
      ap (λ x. none ∷ x) (update_seat-update_seat f g seats k)
  update_seat-update_seat f g (some x ∷ seats) k =
      ground (arith, update_seat-update_seat f g seats k, k x)

  id-seat_in : (seats : List (Option Seat)) (s : Seat) → seat_in seats p ≡ some s → s.id ≡ p
  unfolding seat_in
  id-seat_in [] s h = ground arith
  id-seat_in (none ∷ seats) s h = id-seat_in seats s h
  id-seat_in (some x ∷ seats) s h = ground (arith, id-seat_in seats s, same_iff x.id p)

  -- The seats before and after the one of a player, which alone a change at it changes.
  abbrev AroundSeat : List (Option Seat) → Seat → Type 0
  AroundSeat seats seat =
      (before : List (Option Seat)) × (after : List (Option Seat)) × (seats
        ≡ before ++ some seat ∷ after)
      × ((f : Seat → Seat) → update_seat p f seats ≡ before ++ some (f seat) ∷ after)

  around_seat :
      (seats : List (Option Seat)) (seat : Seat)
      → seat_in seats p ≡ some seat
      → AroundSeat seats seat
  unfolding seat_in update_seat
  around_seat [] seat h = absurd (ground arith)
  around_seat (none ∷ seats) seat h =
      let (before, after, is, changed) = around_seat seats seat h in
      (none ∷ before, after, ap (λ l. none ∷ l) is, λ f. ap (λ l. none ∷ l) (changed f))
  around_seat (some x ∷ seats) seat h = elim (Bool-cases (same x.id p)) [
    | inl y ↦
        let it : x ≡ seat = ground arith in
        ([], seats, ap (λ (z : Seat). some z ∷ seats) it, λ f. rw (y, it) refl)
    | inr n ↦
        let (before, after, is, changed) = around_seat seats seat (ground arith) in
        (
          some x ∷ before,
          after,
          ap (λ l. some x ∷ l) is,
          λ f. rw n (ap (λ l. some x ∷ l) (changed f)),
        )
  ]

-- The seat as it was, with another connection in it and no open window.
abbrev pub taken_up : Session → Seat → Seat
taken_up fresh seat = record {
  id = seat.id;
  nickname = seat.nickname;
  sess = some fresh;
  ready = seat.ready;
  chat_from = seat.chat_from;
  wins = seat.wins;
  grace_until = none;
  held_for = none;
  missed_result = seat.missed_result;
}

module _ (d : RoomDictionary) where
  seats-show_position :
      (sess : Session) (s : Seat) (r : Room) → (show_position d sess s r).seats ≡ r.seats
  unfolding show_position emit
  seats-show_position sess s r =
      let Same : Room → Type 0 = λ (q : Room). q.seats ≡ r.seats in
      opt_split Same r.engine (λ n. opt_split Same s.missed_result (λ m. refl) (λ m q. refl))
        (λ e n.
          if_split Same e.over (λ o. opt_split Same s.missed_result (λ m. refl) (λ m q. refl))
            (λ o. refl))

  -- A seat that a connection has just dropped out of.
  waiting_for :
      (w : Surroundings) (sess : Session) (p : PlayerId) (r : Room) (s : Seat)
      → seat_of r p ≡ some s
      → s.sess ≡ some sess
      → handle_disconnect w sess p r ≡ hold_seat w p r
  unfolding handle_disconnect drop_seat is_session
  waiting_for w sess p r s here mine = ground arith

  resumed :
      (w : Surroundings) (fresh : Session) (p : PlayerId) (prior : Option Session) (r : Room)
      (s : Seat)
      → seat_of r p ≡ some s
      → handle_resume d w fresh p prior r ≡ (
          if resumable s prior
          then accept_resume d w fresh prior s r
          else refuse fresh session_not_resumable r)
  unfolding handle_resume
  resumed w fresh p prior r s here = ground arith

  seats-accept_resume :
      (w : Surroundings) (fresh : Session) (prior : Option Session) (s : Seat) (r : Room)
      → w.gone fresh ≡ false
      → (accept_resume d w fresh prior s r).seats ≡ update_seat s.id (reconnected fresh) r.seats
  unfolding accept_resume
  seats-accept_resume w fresh prior s r alive =
      rw alive (seats-show_position fresh (reconnected fresh s) _)

  module _ (w later : Surroundings) (sess : Session) (p : PlayerId) (r : Room) (s : Seat)
      (here : seat_of r p ≡ some s) (mine : s.sess ≡ some sess) where
    abbrev away : Seat
    away = waiting_seat (w.now + r.grace_for) s

    away_seat : seat_of (hold_seat w p r) p ≡ some away
    unfolding hold_seat seat_of waiting_seat
    away_seat =
        seat_in-update_seat p (waiting_seat (w.now + r.grace_for)) r.seats s (λ x. refl) here

    resumable_by : (prior : Session) → resumable away (some prior) ≡ (sess == prior)
    unfolding resumable waiting_seat is_away same_session
    resumable_by prior = ground arith

    seats_twice :
        (fresh : Session)
        → update_seat away.id (reconnected fresh) (hold_seat w p r).seats
          ≡ update_seat p (reconnected fresh) r.seats
    unfolding hold_seat waiting_seat reconnected seat_in seat_of
    seats_twice fresh = rw (id-seat_in p r.seats s here) (
        update_seat-update_seat p (waiting_seat (w.now + r.grace_for)) (reconnected fresh) r.seats
          (λ x. refl))

    seats_resumed :
        (fresh : Session)
        → later.gone fresh ≡ false
        → (handle_resume d later fresh p (some sess) (handle_disconnect w sess p r)).seats
          ≡ update_seat p (reconnected fresh) r.seats
    seats_resumed fresh alive = rw (waiting_for w sess p r s here mine) (
        rw (resumed later fresh p (some sess) (hold_seat w p r) away away_seat) (
          rw (resumable_by sess) (
            if_split (λ (q : Room). q.seats ≡ update_seat p (reconnected fresh) r.seats)
              (sess == sess)
              (λ same.
                seats-accept_resume later fresh (some sess) away (hold_seat w p r) alive
                ∙ seats_twice fresh)
              (λ other. ground arith))))

    -- Where a connection drops out of its seat and its player resumes it with another live
    -- connection, the seats before and after that one are as they were, and so is that seat but
    -- for the connection in it and the window, which is closed: its id, nickname, readiness,
    -- first line of chat, wins and missed result stay.
    pub handle_resume-handle_disconnect :
        (fresh : Session)
        → later.gone fresh ≡ false
        → (before : List (Option Seat)) × (after : List (Option Seat)) × (r.seats
            ≡ before ++ some s ∷ after)
          × ((handle_resume d later fresh p (some sess) (handle_disconnect w sess p r)).seats
              ≡ before ++ some (taken_up fresh s) ∷ after)
    unfolding reconnected seat_of
    handle_resume-handle_disconnect fresh alive =
        let (before, after, is, changed) = around_seat p r.seats s here in
        (before, after, is, seats_resumed fresh alive ∙ changed (reconnected fresh))

    -- A seat that waits for the connection that dropped out of it is not given to a resume of
    -- another connection, which is refused.
    pub handle_resume_stranger :
        (fresh prior : Session)
        → sess ≢ prior
        → handle_resume d later fresh p (some prior) (handle_disconnect w sess p r)
          ≡ refuse fresh session_not_resumable (hold_seat w p r)
    handle_resume_stranger fresh prior other = rw (waiting_for w sess p r s here mine) (
        rw (resumed later fresh p (some prior) (hold_seat w p r) away away_seat)
          (rw (resumable_by prior) (ground arith)))
