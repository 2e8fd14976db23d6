-- ===== src/Wsapi/Room.antt =====
-- server/internal/wsapi/room.go: the room, its seats, and what it does outside itself.
-- A connection is a number, and its context's error is asked of the surroundings. What a handler
-- sends, and what it asks of the hub and of connections, is appended to the room's log, in order.
pub mod Chat
mod Tests
pub mod Say
pub mod Play
pub mod Words
pub mod Lobby
pub mod Presence
pub mod Loop
pub mod Games
pub mod Guards
pub mod Vacate
pub mod Windows
pub mod Expiry
pub mod Pair
use noitu.Prelude.{
  ℕ, zero, suc, ◌+◌, ◌%◌, ◌^◌, Bool, true, false, not, ◌&&◌, ◌||◌, List, [], ◌∷◌, ◌++◌, Option,
  none, some, Text, codes, same, get_or, set, ltb, leb, ◌==◌, if◌then◌else◌, length,
}
use noitu.Game.State.{PlayerId, Dictionary}
use noitu.Game.Engine.{Engine}
use noitu.Bot.{Difficulty}
use noitu.Store.{Sense}
use noitu.Wsapi.Message.{ServerMessage, ErrCode, error_msg, WireEnd}

abbrev pub Session : Type 0
Session = ℕ

abbrev pub bot_player : PlayerId
bot_player = codes "bot"

abbrev pub max_players : ℕ
max_players = 4

abbrev pub min_players : ℕ
min_players = 2

-- `seatIDs[i]`.
abbrev pub seat_ids : List PlayerId
seat_ids = codes "p1" ∷ codes "p2" ∷ codes "p3" ∷ codes "p4" ∷ []

abbrev pub max_suggestions : ℕ
max_suggestions = 3

abbrev pub chat_history_limit : ℕ
chat_history_limit = 20

abbrev pub max_chat_runes : ℕ
max_chat_runes = 200

abbrev pub max_word_runes : ℕ
max_word_runes = 64

abbrev pub max_chat_marks : ℕ
max_chat_marks = 2

-- `none` is no connection, no open window and no missed result.
pub record Seat : Type 0 where
  pub id : PlayerId
  pub nickname : Text
  pub sess : Option Session
  pub ready : Bool
  pub chat_from : ℕ
  pub wins : ℕ
  pub grace_until : Option ℕ
  pub held_for : Option Session
  pub missed_result : Option ServerMessage

pub record ChatEntry : Type 0 where
  pub seq : ℕ
  pub author : PlayerId
  pub name : Text
  pub text : Text
  pub at : ℕ

-- What the room does outside itself. `send` and `try_send` differ in what a full outbox costs.
pub data Effect : Type 0 where
  send try_send : Session → ServerMessage → Effect
  attach : Session → PlayerId → Effect
  release dequeue close unregister : Session → Effect
  game_begins game_ends : Effect
  -- The worker of `maybeScheduleBot`, which answers for this turn.
  think : ℕ → Effect

pub record Room : Type 0 where
  pub code : Text
  pub engine : Option Engine
  pub opening : Text
  pub strategy : Option Difficulty
  pub turn_limit : ℕ
  pub grace_for : ℕ
  pub live_counted : Bool
  pub auto_start : Bool
  pub seats : List (Option Seat)
  pub owner : PlayerId
  pub turn_seq : ℕ
  pub out_wire : List (PlayerId × WireEnd)
  pub chat : List ChatEntry
  pub chat_seq : ℕ
  pub lobby_changed : Bool
  -- Seats, by the players in them.
  pub resume_replays : List PlayerId
  pub cancelled : Bool
  -- Whether the loop of `run` has returned.
  pub returned : Bool
  pub log : List Effect

-- What the transport asks of the wordlist beyond the engine's part.
pub record RoomDictionary : Type 0 where
  pub base : Dictionary
  pub meanings : Text → List Sense
  pub near_miss : Text → Option Text

-- What an input finds outside the room: the time, whose connection has ended, the state of the hub,
-- whether a select takes the end of a cancelled room before an input that waits, the opening word
-- that the dictionary draws, who leads, and the names that players ask for.
pub record Surroundings : Type 0 where
  pub now : ℕ
  pub gone : Session → Bool
  pub draining : Bool
  pub sees_cancel : Bool
  pub opening : Option Text
  pub lead : ℕ → ℕ
  pub nickname : Session → Text

abbrev pub empty_seats : List (Option Seat)
empty_seats = none ∷ none ∷ none ∷ none ∷ []

-- `newRoom`.
unfoldable pub new_room : Text → ℕ → ℕ → Room
new_room code turn_limit grace_for = record {
  code = code;
  engine = none;
  opening = [];
  strategy = none;
  turn_limit = turn_limit;
  grace_for = grace_for;
  live_counted = false;
  auto_start = false;
  seats = empty_seats;
  owner = [];
  turn_seq = 0;
  out_wire = [];
  chat = [];
  chat_seq = 0;
  lobby_changed = false;
  resume_replays = [];
  cancelled = false;
  returned = false;
  log = [];
}

unfoldable pub emit : List Effect → Room → Room
emit effects r = record r { log = r.log ++ effects }

-- `sess.send(errorMsg(code))`.
unfoldable pub refuse : Session → ErrCode → Room → Room
refuse sess code r = record r { log = r.log ++ send sess (error_msg code) ∷ [] }

-- `turnSeq++`, a uint32.
unfoldable pub next_seq : Room → Room
next_seq r = record r { turn_seq = (r.turn_seq + 1) % 2 ^ 32 }

unfoldable pub seat_in : List (Option Seat) → PlayerId → Option Seat
seat_in [] p = none
seat_in (none ∷ seats) p = seat_in seats p
seat_in (some s ∷ seats) p = if same s.id p then some s else seat_in seats p

unfoldable pub seat_of : Room → PlayerId → Option Seat
seat_of r p = seat_in r.seats p

-- Whether a connection is this session's.
unfoldable pub is_session : Option Session → Session → Bool
is_session none sess = false
is_session (some s) sess = s == sess

unfoldable pub occupies : Room → Session → PlayerId → Bool
occupies r sess p = elim (seat_of r p) [ none ↦ false | some s ↦ is_session s.sess sess ]

unfoldable pub in_lobby : Room → Bool
in_lobby r = elim r.engine [ none ↦ true | some e ↦ e.over ]

-- Whether a seat is held.
unfoldable pub held : Option Seat → Bool
held none = false
held (some s) = true

unfoldable pub count_held : List (Option Seat) → ℕ
count_held [] = 0
count_held (o ∷ seats) = (if held o then 1 else 0) + count_held seats

unfoldable pub seated_count : Room → ℕ
seated_count r = count_held r.seats

unfoldable pub occupied : Room → Bool
occupied r = ltb 0 (seated_count r)

-- The loop of `freeSeat` from the place `i`; `none` is -1.
unfoldable pub free_from : List (Option Seat) → ℕ → Option ℕ
free_from [] i = none
free_from (o ∷ seats) i = if held o then free_from seats (i + 1) else some i

unfoldable pub free_seat : Room → Option ℕ
free_seat r = free_from r.seats 0

unfoldable pub is_connected : Option Session → Bool
is_connected none = false
is_connected (some s) = true

-- The loop of `allConnected`.
unfoldable pub connected_seats : List (Option Seat) → Bool
connected_seats [] = true
connected_seats (none ∷ seats) = connected_seats seats
connected_seats (some s ∷ seats) = is_connected s.sess && connected_seats seats

unfoldable pub all_connected : Room → Bool
all_connected r = connected_seats r.seats

-- The recipients of anything that the room says, with their connections.
unfoldable pub recipients : List (Option Seat) → List (Seat × Session)
recipients [] = []
recipients (none ∷ seats) = recipients seats
recipients (some s ∷ seats) =
    let rest = recipients seats in elim s.sess [ none ↦ rest | some sess ↦ (s, sess) ∷ rest ]

-- A message to each recipient, made for each.
unfoldable pub sends : (Seat → ServerMessage) → List (Seat × Session) → List Effect
sends f [] = []
sends f ((s, sess) ∷ rest) = send sess (f s) ∷ sends f rest

unfoldable pub broadcast : (Seat → ServerMessage) → Room → Room
broadcast f r = record r { log = r.log ++ sends f (recipients r.seats) }

unfoldable pub broadcast_error : ErrCode → Room → Room
broadcast_error code r = broadcast (λ s. error_msg code) r

-- The seat that `takeSeat` fills.
unfoldable pub fresh_seat : ℕ → Text → Session → ℕ → Seat
fresh_seat i nickname sess chat_seq = record {
  id = get_or seat_ids i [];
  nickname = nickname;
  sess = some sess;
  ready = false;
  chat_from = chat_seq;
  wins = 0;
  grace_until = none;
  held_for = none;
  missed_result = none;
}

unfoldable pub take_seat : ℕ → Text → Session → Room → Room
take_seat i nickname sess r = record r {
  seats = set r.seats i (some (fresh_seat i nickname sess r.chat_seq));
  log = r.log ++ attach sess (get_or seat_ids i []) ∷ dequeue sess ∷ [];
}

unfoldable pub stop_counting_live : Room → Room
stop_counting_live r =
    if r.live_counted then record r { live_counted = false; log = r.log ++ game_ends ∷ [] } else r
