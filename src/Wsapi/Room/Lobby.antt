-- ===== src/Wsapi/Room/Lobby.antt =====
-- server/internal/wsapi/room_lobby.go: seating, and the lobby between games.
use noitu.Prelude.{
  ℕ, ◌+◌, Bool, true, false, not, ◌&&◌, ◌||◌, List, [], ◌∷◌, ◌++◌, Option, none, some, Text, same,
  codes, get_or, leb, ltb, if◌then◌else◌,
}
use noitu.Game.State.{PlayerId}
use noitu.Game.Engine.{Engine, is_alive, resign}
use noitu.Wsapi.Nickname.{distinguish}
use noitu.Wsapi.Message.{
  wire_opponent_left, error_msg, room_full, game_in_progress, cannot_join_own_room,
  server_restarting, game_start_failed, not_your_seat, not_in_a_room, owner_needs_no_ready,
  not_the_owner, need_more_players, player_offline, not_everyone_ready, no_one_to_kick,
  cannot_kick_self, player_is_ready, kicked, must_unready_first,
}
use noitu.Wsapi.Room.{
  Session, Seat, ChatEntry, Room, RoomDictionary, Surroundings, Effect, send, release, emit, refuse,
  seat_of, is_session, occupies, in_lobby, occupied, free_seat, seated_count, all_connected,
  recipients, broadcast_error, take_seat, seat_ids, min_players,
}
use noitu.Wsapi.Room.Chat.{history_frames}
use noitu.Wsapi.Room.Say.{guests_ready, broadcast_room_state}
use noitu.Wsapi.Room.Play.{mark_of, begin_game, apply_eliminations}

-- `lobbyAction`, with the value that a readiness sets and the seat that a kick names.
pub data LobbyAction : Type 0 where
  ready_action : Bool → LobbyAction
  start_action leave_action : LobbyAction
  kick_action : PlayerId → LobbyAction

unfoldable pub is_leave : LobbyAction → Bool
is_leave leave_action = true
is_leave (ready_action ready) = false
is_leave start_action = false
is_leave (kick_action target) = false

-- A change of the seat of a player.
unfoldable pub update_seat : PlayerId → (Seat → Seat) → List (Option Seat) → List (Option Seat)
update_seat p f [] = []
update_seat p f (none ∷ seats) = none ∷ update_seat p f seats
update_seat p f (some s ∷ seats) =
    if same s.id p then some (f s) ∷ seats else some s ∷ update_seat p f seats

-- `holdSeat` on the seat of a player.
unfoldable pub waiting_seat : ℕ → Seat → Seat
waiting_seat until s = record s { held_for = s.sess; sess = none; grace_until = some until }

unfoldable pub hold_seat : Surroundings → PlayerId → Room → Room
hold_seat w p r = record r {
  seats = update_seat p (waiting_seat (w.now + r.grace_for)) r.seats;
  lobby_changed = true;
}

-- The loop that frees a seat.
unfoldable pub clear_seat : PlayerId → List (Option Seat) → List (Option Seat)
clear_seat p [] = []
clear_seat p (none ∷ seats) = none ∷ clear_seat p seats
clear_seat p (some s ∷ seats) = (if same s.id p then none else some s) ∷ clear_seat p seats

-- The loop that takes a name off the conversation.
unfoldable pub scrub : PlayerId → List ChatEntry → List ChatEntry
scrub p [] = []
scrub p (e ∷ es) = (if same e.author p then record e { author = []; name = [] } else e) ∷ scrub p es

unfoldable pub has_author : PlayerId → List ChatEntry → Bool
has_author p [] = false
has_author p (e ∷ es) = same e.author p || has_author p es

unfoldable pub all_histories : Room → List (Option Seat) → List Effect
all_histories r [] = []
all_histories r (none ∷ seats) = all_histories r seats
all_histories r (some s ∷ seats) = history_frames r s ++ all_histories r seats

-- The first seat held, and its seats with that one unready.
unfoldable pub first_held : List (Option Seat) → PlayerId
first_held [] = []
first_held (none ∷ seats) = first_held seats
first_held (some s ∷ seats) = s.id

unfoldable pub unready_first : List (Option Seat) → List (Option Seat)
unready_first [] = []
unready_first (none ∷ seats) = none ∷ unready_first seats
unready_first (some s ∷ seats) = some (record s { ready = false }) ∷ seats

unfoldable pub promote : Room → Room
promote r = record r { owner = first_held r.seats; seats = unready_first r.seats }

unfoldable pub release_frames : Option Session → List Effect
release_frames none = []
release_frames (some sess) = release sess ∷ []

unfoldable pub vacate : Seat → Room → Room
vacate s r =
    let freed : Room = record r {
      seats = clear_seat s.id r.seats;
      chat = scrub s.id r.chat;
      log = r.log ++ release_frames s.sess;
    } in
    let told =
      if has_author s.id r.chat then emit (all_histories freed freed.seats) freed else freed in
    if same r.owner s.id then promote told else told

-- The nicknames of the room.
unfoldable pub names_of : List (Option Seat) → List Text
names_of [] = []
names_of (none ∷ seats) = names_of seats
names_of (some s ∷ seats) = s.nickname ∷ names_of seats

-- `distinguish` always finds a name here.
unfoldable pub distinct_name : Text → List Text → Text
distinct_name name taken = elim (distinguish name taken) [ none ↦ name | some w ↦ w ]

-- Whether a connection is among the recipients.
unfoldable pub is_recipient : Session → List (Seat × Session) → Bool
is_recipient sess [] = false
is_recipient sess ((s, other) ∷ rest) = is_session (some other) sess || is_recipient sess rest

unfoldable pub handle_create : Surroundings → Session → Bool → Room → Room
handle_create w sess auto_start r =
    let seated = take_seat 0 (w.nickname sess) sess r in
    let owned : Room = record seated {
      owner = codes "p1";
      auto_start = auto_start;
      lobby_changed = true;
    } in
    if w.gone sess then hold_seat w (codes "p1") owned else elim (seat_of owned (codes "p1")) [
      | none ↦ owned
      | some s ↦ emit (history_frames owned s) owned
    ]

module _ (d : RoomDictionary) where
  -- The own start of a room that a quick match opened.
  unfoldable pub auto_begin : Surroundings → Room → Room
  auto_begin w r =
      let shown = broadcast_room_state (record r { lobby_changed = false }) in
      if w.draining then broadcast_error server_restarting r else elim (begin_game d w shown) [
        | none ↦ broadcast_error game_start_failed shown
        | some begun ↦ begun
      ]

  -- `handleJoin` once the place is known to be free.
  unfoldable pub seat_joiner : Surroundings → Session → Bool → ℕ → PlayerId → Room → Room
  seat_joiner w sess auto_start i p r =
      let seated = take_seat i (distinct_name (w.nickname sess) (names_of r.seats)) sess r in
      let shown : Room = record seated { lobby_changed = true } in
      let told : Room = elim (seat_of shown p) [
        | none ↦ shown
        | some s ↦ emit (history_frames shown s) shown
      ] in
      if w.gone sess
      then hold_seat w p shown
      else if auto_start && (leb min_players (seated_count told) && all_connected told)
      then auto_begin w told
      else told

  unfoldable pub handle_join : Surroundings → Session → Room → Room
  handle_join w sess r =
      let quiet : Room = record r { auto_start = false } in
      elim (free_seat quiet) [
        | none ↦ refuse sess room_full quiet
        | some i ↦
            if not (occupied quiet)
            then refuse sess room_full quiet
            else if not (in_lobby quiet)
            then refuse sess game_in_progress quiet
            else if is_recipient sess (recipients quiet.seats)
            then refuse sess cannot_join_own_room quiet
            else seat_joiner w sess r.auto_start i (get_or seat_ids i []) quiet
      ]

  unfoldable pub handle_ready : Session → PlayerId → Bool → Room → Room
  handle_ready sess p ready r =
      if same p r.owner then refuse sess owner_needs_no_ready r else record r {
        seats = update_seat p (λ s. record s { ready = ready }) r.seats;
        lobby_changed = true;
      }

  unfoldable pub handle_start : Surroundings → Session → PlayerId → Room → Room
  handle_start w sess p r =
      let begun : Room = elim (begin_game d w r) [
        | none ↦ broadcast_error game_start_failed r
        | some begun ↦ begun
      ] in
      if not (same p r.owner)
      then refuse sess not_the_owner r
      else if w.draining
      then refuse sess server_restarting r
      else if ltb (seated_count r) min_players
      then refuse sess need_more_players r
      else if not (all_connected r)
      then refuse sess player_offline r
      else if not (guests_ready r)
      then refuse sess not_everyone_ready r
      else begun

  -- What a kicked connection is told.
  unfoldable pub kick_frames : Option Session → List Effect
  kick_frames none = []
  kick_frames (some sess) = send sess (error_msg kicked) ∷ []

  unfoldable pub kick : Session → PlayerId → Seat → Room → Room
  kick sess p target r =
      if same target.id p
      then refuse sess cannot_kick_self r
      else if target.ready
      then refuse sess player_is_ready r
      else let out = emit (kick_frames target.sess) (vacate target r) in
        record out { lobby_changed = true }

  unfoldable pub handle_kick : Session → PlayerId → PlayerId → Room → Room
  handle_kick sess p target r =
      let kicked_out : Room = elim (seat_of r target) [
        | none ↦ refuse sess no_one_to_kick r
        | some s ↦ kick sess p s r
      ] in
      if not (same p r.owner) then refuse sess not_the_owner r else kicked_out

  -- `eliminateAbsent` where there is a game.
  unfoldable pub absent_from : ℕ → PlayerId → Engine → Room → Room
  absent_from now p e r = if e.over || not (is_alive e p) then r else record r {
    out_wire = (p, wire_opponent_left) ∷ r.out_wire;
    engine = some (resign d.base e p now).0;
  }

  unfoldable pub eliminate_absent : ℕ → PlayerId → Room → Room
  eliminate_absent now p r = elim r.engine [ none ↦ r | some e ↦ absent_from now p e r ]

  unfoldable pub handle_leave : Surroundings → Session → Seat → Room → Room
  handle_leave w sess mine r =
      let gone = apply_eliminations d (mark_of r.engine) (eliminate_absent w.now mine.id r) in
      let left : Room = record (vacate mine gone) { lobby_changed = true } in
      if in_lobby r
      then (if mine.ready
          then refuse sess must_unready_first r
          else record (vacate mine r) { lobby_changed = true })
      else left

  unfoldable pub lobby_action : Surroundings → Session → PlayerId → LobbyAction → Seat → Room → Room
  lobby_action w sess p (ready_action ready) mine r = handle_ready sess p ready r
  lobby_action w sess p start_action mine r = handle_start w sess p r
  lobby_action w sess p (kick_action target) mine r = handle_kick sess p target r
  lobby_action w sess p leave_action mine r = handle_leave w sess mine r

  unfoldable pub handle_lobby : Surroundings → Session → PlayerId → LobbyAction → Room → Room
  handle_lobby w sess p action r =
      let acted : Room = elim (seat_of r p) [
        | none ↦ refuse sess not_your_seat r
        | some mine ↦ lobby_action w sess p action mine r
      ] in
      let open_to_all : Room = elim r.strategy [
        | some level ↦ refuse sess not_in_a_room r
        | none ↦
            if not (in_lobby r) && not (is_leave action)
            then refuse sess game_in_progress r
            else acted
      ] in
      if not (occupies r sess p) then refuse sess not_your_seat r else open_to_all
