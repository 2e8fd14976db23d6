-- ===== src/Wsapi/Room/Chat.antt =====
-- server/internal/wsapi/room_chat.go: the room's conversation.
use noitu.Prelude.{
  ℕ, zero, suc, ◌+◌, ◌-◌, not, ◌&&◌, List, [], ◌∷◌, ◌++◌, none, some, Text, same, length, null, leb,
  ltb, if◌then◌else◌,
}
use noitu.Game.State.{PlayerId}
use noitu.Wsapi.Nickname.{Tables, sanitize_text}
use noitu.Wsapi.Message.{
  ChatMessage, chat_msg, chat_history_msg, milliseconds, not_your_seat, not_in_a_room,
}
use noitu.Wsapi.Room.{
  Session, Seat, ChatEntry, Room, Effect, send, try_send, Surroundings, emit, refuse, seat_of,
  occupies, recipients, chat_history_limit, max_chat_runes, max_chat_marks,
}

unfoldable pub drop_chat : ℕ → List ChatEntry → List ChatEntry
drop_chat zero es = es
drop_chat (suc n) [] = []
drop_chat (suc n) (e ∷ es) = drop_chat n es

-- The last entries that the room keeps.
unfoldable pub trim_chat : List ChatEntry → List ChatEntry
trim_chat es =
    if ltb chat_history_limit (length es) then drop_chat (length es - chat_history_limit) es else es

-- `chatMessageFor`.
unfoldable pub chat_line : ChatEntry → PlayerId → ChatMessage
chat_line e me = record {
  from_me = not (null e.author) && same e.author me;
  player = e.author;
  author = e.name;
  text = e.text;
  sent_ms = milliseconds e.at;
}

-- The loop of `sendChatHistory`: the lines from after the seat was filled.
unfoldable pub history_for : Seat → List ChatEntry → List ChatMessage
history_for s [] = []
history_for s (e ∷ es) =
    let rest = history_for s es in if leb e.seq s.chat_from then rest else chat_line e s.id ∷ rest

-- What `sendChatHistory` sends to a seat, if anything.
unfoldable pub history_frames : Room → Seat → List Effect
history_frames r s = elim s.sess [
  | none ↦ []
  | some sess ↦ elim r.strategy [
    | none ↦ send sess (chat_history_msg (history_for s r.chat)) ∷ []
    | some d ↦ []
  ]
]

unfoldable pub send_chat_history : Seat → Room → Room
send_chat_history s r = emit (history_frames r s) r

-- The frames of a new line, one for each recipient.
unfoldable pub line_frames : ChatEntry → List (Seat × Session) → List Effect
line_frames e [] = []
line_frames e ((s, sess) ∷ rest) = try_send sess (chat_msg (chat_line e s.id)) ∷ line_frames e rest

-- A line of a seated player.
unfoldable pub add_line : Seat → Text → ℕ → Room → Room
add_line from text now r =
    let entry : ChatEntry = record {
      seq = r.chat_seq + 1;
      author = from.id;
      name = from.nickname;
      text = text;
      at = now;
    } in
    record r {
      chat_seq = r.chat_seq + 1;
      chat = trim_chat (r.chat ++ entry ∷ []);
      log = r.log ++ line_frames entry (recipients r.seats);
    }

-- What `handleChat` does once the speaker is known to be seated here.
unfoldable pub speak : Tables → Surroundings → Session → PlayerId → Text → Room → Room
speak t w sess p raw r =
    let text = sanitize_text t raw max_chat_runes max_chat_marks in
    if null text
    then r
    else elim (seat_of r p) [ none ↦ r | some from ↦ add_line from text w.now r ]

unfoldable pub handle_chat : Tables → Surroundings → Session → PlayerId → Text → Room → Room
handle_chat t w sess p raw r =
    if not (occupies r sess p)
    then refuse sess not_your_seat r
    else elim r.strategy [ some d ↦ refuse sess not_in_a_room r | none ↦ speak t w sess p raw r ]
