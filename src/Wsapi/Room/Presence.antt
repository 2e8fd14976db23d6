-- ===== src/Wsapi/Room/Presence.antt =====
-- server/internal/wsapi/room_presence.go: reconnect windows and resumes.
use noitu.Prelude.{
  ℕ, Bool, true, false, not, ◌&&◌, ◌||◌, List, [], ◌∷◌, ◌++◌, Option, none, some, leb, contains,
  ltb, ◌==◌, null, if◌then◌else◌,
}
use noitu.Game.State.{PlayerId}
use noitu.Game.Engine.{Engine, last_move}
use noitu.Wsapi.Message.{session_not_resumable}
use noitu.Wsapi.Room.{
  Session, Seat, Room, RoomDictionary, Surroundings, Effect, send, attach, release, dequeue, close,
  unregister, emit, refuse, seat_of, is_session, recipients,
}
use noitu.Wsapi.Room.Chat.{history_frames}
use noitu.Wsapi.Room.Say.{game_started_for, turn_update_for}
use noitu.Wsapi.Room.Play.{mark_of, apply_eliminations}
use noitu.Wsapi.Room.Lobby.{update_seat, hold_seat, vacate, eliminate_absent}

-- A notice from the connection that sits here; another is stale.
unfoldable pub drop_seat : Surroundings → Session → PlayerId → Seat → Room → Room
drop_seat w sess p s r = if is_session s.sess sess then hold_seat w p r else r

unfoldable pub handle_disconnect : Surroundings → Session → PlayerId → Room → Room
handle_disconnect w sess p r = elim (seat_of r p) [ none ↦ r | some s ↦ drop_seat w sess p s r ]

-- The open window of a seat.
unfoldable pub window : Seat → Option ℕ
window s = elim s.sess [ some sess ↦ none | none ↦ s.grace_until ]

-- The earlier of two windows.
unfoldable pub earlier : Option ℕ → Option ℕ → Option ℕ
earlier none o = o
earlier (some a) none = some a
earlier (some a) (some b) = if ltb b a then some b else some a

-- The loop of `nextGraceExpiry`, from the earliest window so far.
unfoldable pub next_expiry : Option ℕ → List (Option Seat) → Option ℕ
next_expiry next [] = next
next_expiry next (none ∷ seats) = next_expiry next seats
next_expiry next (some s ∷ seats) = next_expiry (earlier next (window s)) seats

unfoldable pub next_grace_expiry : Room → Option ℕ
next_grace_expiry r = next_expiry none r.seats

unfoldable pub has_expired : ℕ → Seat → Bool
has_expired now s = elim (window s) [ none ↦ false | some until ↦ leb until now ]

unfoldable pub expired_seats : ℕ → List (Option Seat) → List Seat
expired_seats now [] = []
expired_seats now (none ∷ seats) = expired_seats now seats
expired_seats now (some s ∷ seats) =
    let rest = expired_seats now seats in if has_expired now s then s ∷ rest else rest

unfoldable pub vacate_all : List Seat → Room → Room
vacate_all [] r = r
vacate_all (s ∷ gone) r = vacate_all gone (vacate s r)

-- `==` of two pointers to connections.
unfoldable pub same_session : Option Session → Option Session → Bool
same_session none none = true
same_session none (some b) = false
same_session (some a) none = false
same_session (some a) (some b) = a == b

unfoldable pub is_away : Option Session → Bool
is_away none = true
is_away (some sess) = false

-- Whether the connection that is being replaced may still be resumed into a seat.
unfoldable pub resumable : Seat → Option Session → Bool
resumable s prior = same_session s.sess prior || (is_away s.sess && same_session s.held_for prior)

unfoldable pub retire_frames : Option Session → List Effect
retire_frames none = []
retire_frames (some prior) = unregister prior ∷ close prior ∷ []

unfoldable pub reconnected : Session → Seat → Seat
reconnected sess s = record s { sess = some sess; held_for = none; grace_until = none }

-- The results that resumed seats are owed, in the order of the seats.
unfoldable pub replay_frames : List PlayerId → List (Option Seat) → List Effect
replay_frames ps [] = []
replay_frames ps (none ∷ seats) = replay_frames ps seats
replay_frames ps (some s ∷ seats) =
    let rest = replay_frames ps seats in
    let sent : List Effect = elim s.sess [
      | none ↦ rest
      | some sess ↦ elim s.missed_result [ none ↦ rest | some m ↦ send sess m ∷ rest ]
    ] in
    if contains ps s.id then sent else rest

unfoldable pub replayed : List PlayerId → List (Option Seat) → List (Option Seat)
replayed ps [] = []
replayed ps (none ∷ seats) = none ∷ replayed ps seats
replayed ps (some s ∷ seats) =
    let rest = replayed ps seats in
    if contains ps s.id && not (is_away s.sess)
    then some (record s { missed_result = none }) ∷ rest
    else some s ∷ rest

unfoldable pub flush_resume_replays : Room → Room
flush_resume_replays r = record r {
  seats = replayed r.resume_replays r.seats;
  log = r.log ++ replay_frames r.resume_replays r.seats;
  resume_replays = [];
}

unfoldable pub release_all : List (Seat × Session) → List Effect
release_all [] = []
release_all ((s, sess) ∷ rest) = release sess ∷ release_all rest

unfoldable pub detach_all : Room → Room
detach_all r = emit (release_all (recipients r.seats)) r

module _ (d : RoomDictionary) where
  unfoldable pub eliminate_all : ℕ → List Seat → Room → Room
  eliminate_all now [] r = r
  eliminate_all now (s ∷ gone) r = eliminate_all now gone (eliminate_absent d now s.id r)

  unfoldable pub handle_grace_expiry : Surroundings → Room → Room
  handle_grace_expiry w r =
      let gone = expired_seats w.now r.seats in
      let out = apply_eliminations d (mark_of r.engine) (eliminate_all w.now gone r) in
      if null gone then r else record (vacate_all gone out) { lobby_changed = true }

  -- What a resumed player is shown of a running game.
  unfoldable pub position_frames : Room → Engine → Session → Seat → List Effect
  position_frames r e sess s =
      let shown = send sess (game_started_for d r e s) in
      elim (last_move e.history) [
        | none ↦ shown ∷ []
        | some m ↦ shown ∷ send sess (turn_update_for d r e (some m) s) ∷ []
      ]

  unfoldable pub show_position : Session → Seat → Room → Room
  show_position sess s r =
      let told = emit (history_frames r s) r in
      let lobby : Room = elim s.missed_result [
        | none ↦ told
        | some m ↦ record told { resume_replays = told.resume_replays ++ s.id ∷ [] }
      ] in
      elim r.engine [
        | none ↦ lobby
        | some e ↦ if e.over then lobby else emit (position_frames told e sess s) told
      ]

  unfoldable pub accept_resume : Surroundings → Session → Option Session → Seat → Room → Room
  accept_resume w sess prior s r =
      let bound : Room = record r {
        seats = update_seat s.id (reconnected sess) r.seats;
        lobby_changed = true;
        log = r.log ++ attach sess s.id ∷ dequeue sess ∷ retire_frames prior;
      } in
      if w.gone sess then hold_seat w s.id bound else show_position sess (reconnected sess s) bound

  unfoldable pub handle_resume : Surroundings → Session → PlayerId → Option Session → Room → Room
  handle_resume w sess p prior r = elim (seat_of r p) [
    | none ↦ refuse sess session_not_resumable r
    | some s ↦
        if resumable s prior
        then accept_resume w sess prior s r
        else refuse sess session_not_resumable r
  ]
