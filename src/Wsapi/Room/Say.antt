-- ===== src/Wsapi/Room/Say.antt =====
-- server/internal/wsapi/room_game.go and room_lobby.go: what a position, a result and the lobby look
-- like to one recipient.
use noitu.Prelude.{
  ℕ, Bool, true, false, not, ◌&&◌, ◌||◌, List, [], ◌∷◌, Option, none, some, Text, same, lookup,
  lookup_or, map, leb, if◌then◌else◌,
}
use noitu.Game.State.{PlayerId, Move, Standing}
use noitu.Game.Engine.{Engine, turn, chain_length}
use noitu.Game.Report.{out_reason_of, standings, flags}
use noitu.Wsapi.Message.{
  ServerMessage, game_started_msg, turn_update_msg, player_eliminated_msg, game_over_msg,
  room_state_msg, PlayerScore, PlayerSlot, played_word, u32, milliseconds, WireEnd, wire_end,
  wire_unspecified,
}
use noitu.Wsapi.Room.{
  Seat, Room, RoomDictionary, seat_of, is_connected, in_lobby, seated_count, all_connected,
  bot_player, max_players, min_players, broadcast,
}

-- A row of `scoreRows`.
unfoldable pub score_row : Room → Engine → PlayerId → List (PlayerId × ℕ) → PlayerId → PlayerScore
score_row r e me ranks p = record {
  player = p;
  name = elim (seat_of r p) [ none ↦ [] | some s ↦ s.nickname ];
  is_me = same p me;
  score = u32 (lookup_or 0 p e.scores);
  eliminated = not (lookup_or false p (flags e.players e.alive));
  connected =
      same p bot_player || elim (seat_of r p) [ none ↦ false | some s ↦ is_connected s.sess ];
  rank = u32 (lookup_or 0 p ranks);
}

unfoldable pub score_rows :
    Room → Engine → List PlayerId → PlayerId → List (PlayerId × ℕ) → List PlayerScore
score_rows r e order me ranks = map (λ p. score_row r e me ranks p) order

unfoldable pub game_started_for : RoomDictionary → Room → Engine → Seat → ServerMessage
game_started_for d r e s = game_started_msg (record {
  opening_word = r.opening;
  opening_meanings = d.meanings r.opening;
  syllable = e.current;
  my_turn = same (turn e) s.id;
  deadline_ms = milliseconds e.deadline;
  turn_seq = r.turn_seq;
  turn_limit_ms = u32 (milliseconds r.turn_limit);
  players = score_rows r e e.players s.id [];
  turn_player = turn e;
})

-- `sendTurnUpdate`, with the meanings of `moveMeanings`.
unfoldable pub turn_update_for : RoomDictionary → Room → Engine → Option Move → Seat → ServerMessage
turn_update_for d r e move s = turn_update_msg (record {
  syllable = e.current;
  my_turn = same (turn e) s.id;
  deadline_ms = milliseconds e.deadline;
  turn_seq = r.turn_seq;
  chain_length = u32 (chain_length e);
  players = score_rows r e e.players s.id [];
  turn_player = turn e;
  played = elim move [
    | none ↦ none
    | some m ↦ some (played_word m (same m.player s.id) (d.meanings m.word))
  ];
})

unfoldable pub broadcast_turn : RoomDictionary → Engine → Option Move → Room → Room
broadcast_turn d e move r = broadcast (turn_update_for d r e move) r

unfoldable pub wire_end_reason : Room → Engine → PlayerId → WireEnd
wire_end_reason r e p = elim (lookup p r.out_wire) [
  | none ↦ wire_end (out_reason_of e p)
  | some code ↦ code
]

unfoldable pub eliminated_for : Room → Engine → PlayerId → List Text → Seat → ServerMessage
eliminated_for r e p suggested s = player_eliminated_msg (record {
  player = p;
  name = elim (seat_of r p) [ none ↦ [] | some out ↦ out.nickname ];
  is_me = same s.id p;
  reason = wire_end_reason r e p;
  suggestions = if same s.id p then suggested else [];
})

unfoldable pub broadcast_elimination : Engine → List Text → PlayerId → Room → Room
broadcast_elimination e suggested p r = broadcast (eliminated_for r e p suggested) r

unfoldable pub ranks_of : List Standing → List (PlayerId × ℕ)
ranks_of rows = map (λ (s : Standing). (s.player, s.rank)) rows

-- The reason of the last elimination.
unfoldable pub final_reason : Room → Engine → List PlayerId → WireEnd
final_reason r e [] = wire_unspecified
final_reason r e (p ∷ []) = wire_end_reason r e p
final_reason r e (p ∷ q ∷ ps) = final_reason r e (q ∷ ps)

-- A finished game in the eyes of one seat.
unfoldable pub game_over_for : Room → Engine → Seat → ServerMessage
game_over_for r e s = game_over_msg (record {
  i_won = same e.winner s.id;
  reason = final_reason r e e.out_order;
  chain_length = u32 (chain_length e);
  standings =
      score_rows r e (map (λ (row : Standing). row.player) (standings e)) s.id
        (ranks_of (standings e));
})

-- The loop of `guestsReady`.
unfoldable pub ready_but : PlayerId → List (Option Seat) → Bool
ready_but owner [] = true
ready_but owner (none ∷ seats) = ready_but owner seats
ready_but owner (some s ∷ seats) = (same s.id owner || s.ready) && ready_but owner seats

unfoldable pub guests_ready : Room → Bool
guests_ready r = ready_but r.owner r.seats

unfoldable pub can_start : Room → Bool
can_start r = elim r.strategy [
  | some d ↦ false
  | none ↦ in_lobby r && (leb min_players (seated_count r) && (all_connected r && guests_ready r))
]

-- The loop of `playerSlots`.
unfoldable pub slots_from : Room → PlayerId → List (Option Seat) → List PlayerSlot
slots_from r me [] = []
slots_from r me (none ∷ seats) = slots_from r me seats
slots_from r me (some s ∷ seats) =
    record {
      player = s.id;
      name = s.nickname;
      is_me = same s.id me;
      is_owner = same s.id r.owner;
      ready = s.ready;
      connected = is_connected s.sess;
      wins = s.wins;
    }
    ∷ slots_from r me seats

unfoldable pub room_state_for : Room → Seat → ServerMessage
room_state_for r s = room_state_msg (record {
  room_code = r.code;
  can_start = can_start r;
  players = slots_from r s.id r.seats;
  max_players = max_players;
  min_players = min_players;
  grace_ms = u32 (milliseconds r.grace_for);
})

unfoldable pub broadcast_room_state : Room → Room
broadcast_room_state r = broadcast (room_state_for r) r
