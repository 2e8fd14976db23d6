-- ===== src/Wsapi/Message.antt =====
-- server/internal/wsapi/convert.go, errcodes.go and codec.go: what the server says to a client.
-- A generated message is a record of the fields that the source sets; enums of the wire are data.
use noitu.Prelude.{ℕ, ◌%◌, ◌^◌, ◌/◌, Bool, List, Option, none, some, Text, map}
use noitu.Game.State.{
  PlayerId, RejectReason, reason_none, not_your_turn, too_few_syllables, not_in_dictionary,
  wrong_link, already_used, reason_timeout, game_over, EndReason, end_none, end_timeout,
  end_no_legal_move, end_resigned, PointKind, kind_none, kind_base, kind_chain, kind_syllables,
  kind_speed, kind_rarity, PointPart, Move,
}
use noitu.Bot.{Difficulty, easy, medium, hard}
use noitu.Store.{Sense}

-- `turn_of_another` is `codeNotYourTurn`.
pub data ErrCode : Type 0 where
  cannot_join_own_room cannot_kick_self game_in_progress game_not_started : ErrCode
  game_start_failed kicked must_unready_first need_more_players no_one_to_kick : ErrCode
  not_a_dead_end not_everyone_ready not_in_a_game not_in_a_room not_the_owner : ErrCode
  not_your_seat turn_of_another owner_needs_no_ready player_is_ready player_offline : ErrCode
  room_full room_idle_closed room_not_found room_start_failed : ErrCode
  server_full server_restarting session_not_resumable already_queued : ErrCode
  already_greeted already_in_a_game already_in_a_room bad_frame busy game_already_over : ErrCode
  handshake_required protocol_version_mismatch too_fast too_many_attempts too_many_rooms : ErrCode
  unknown_message unknown_difficulty word_report_limit word_report_refused : ErrCode

pub data WireReject : Type 0 where
  reject_unspecified reject_not_your_turn reject_too_few_syllables : WireReject
  reject_not_in_dictionary reject_wrong_link reject_already_used : WireReject
  reject_timeout reject_game_over : WireReject

pub data WireEnd : Type 0 where
  wire_unspecified wire_timeout wire_no_legal_move wire_resigned wire_opponent_left : WireEnd

pub data WireKind : Type 0 where
  wire_kind_unspecified wire_base wire_chain wire_syllables wire_speed wire_rarity : WireKind

pub data WireDifficulty : Type 0 where
  difficulty_unspecified difficulty_easy difficulty_medium difficulty_hard : WireDifficulty

abbrev pub protocol_version : ℕ
protocol_version = 2

-- `uint32(n)`.
unfoldable pub u32 : ℕ → ℕ
u32 n = n % 2 ^ 32

-- `t.UnixMilli()` of nanoseconds.
unfoldable pub milliseconds : ℕ → ℕ
milliseconds t = t / 1000000

unfoldable pub wire_reject : RejectReason → WireReject
wire_reject reason_none = reject_unspecified
wire_reject not_your_turn = reject_not_your_turn
wire_reject too_few_syllables = reject_too_few_syllables
wire_reject not_in_dictionary = reject_not_in_dictionary
wire_reject wrong_link = reject_wrong_link
wire_reject already_used = reject_already_used
wire_reject reason_timeout = reject_timeout
wire_reject game_over = reject_game_over

unfoldable pub wire_end : EndReason → WireEnd
wire_end end_none = wire_unspecified
wire_end end_timeout = wire_timeout
wire_end end_no_legal_move = wire_no_legal_move
wire_end end_resigned = wire_resigned

unfoldable pub wire_kind : PointKind → WireKind
wire_kind kind_none = wire_kind_unspecified
wire_kind kind_base = wire_base
wire_kind kind_chain = wire_chain
wire_kind kind_syllables = wire_syllables
wire_kind kind_speed = wire_speed
wire_kind kind_rarity = wire_rarity

unfoldable pub difficulty_of : WireDifficulty → Option Difficulty
difficulty_of difficulty_unspecified = none
difficulty_of difficulty_easy = some easy
difficulty_of difficulty_medium = some medium
difficulty_of difficulty_hard = some hard

pub record WirePart : Type 0 where
  pub kind : WireKind
  pub value : ℕ

unfoldable pub wire_parts : List PointPart → List WirePart
wire_parts parts =
    map (λ (p : PointPart). record { kind = wire_kind p.kind; value = u32 p.value }) parts

pub record PlayedWord : Type 0 where
  pub word : Text
  pub typed : Text
  pub by_me : Bool
  pub player : PlayerId
  pub points : ℕ
  pub syllables : ℕ
  pub meanings : List Sense
  pub parts : List WirePart

unfoldable pub played_word : Move → Bool → List Sense → PlayedWord
played_word m by_me meanings = record {
  word = m.word;
  typed = m.typed;
  by_me = by_me;
  player = m.player;
  points = u32 m.points;
  syllables = u32 m.syllables;
  meanings = meanings;
  parts = wire_parts m.parts;
}

-- A row of the players table.
pub record PlayerScore : Type 0 where
  pub player : PlayerId
  pub name : Text
  pub is_me : Bool
  pub score : ℕ
  pub eliminated : Bool
  pub connected : Bool
  pub rank : ℕ

pub record PlayerSlot : Type 0 where
  pub player : PlayerId
  pub name : Text
  pub is_me : Bool
  pub is_owner : Bool
  pub ready : Bool
  pub connected : Bool
  pub wins : ℕ

pub record GameStarted : Type 0 where
  pub opening_word : Text
  pub opening_meanings : List Sense
  pub syllable : Text
  pub my_turn : Bool
  pub deadline_ms : ℕ
  pub turn_seq : ℕ
  pub turn_limit_ms : ℕ
  pub players : List PlayerScore
  pub turn_player : PlayerId

pub record TurnUpdate : Type 0 where
  pub syllable : Text
  pub my_turn : Bool
  pub deadline_ms : ℕ
  pub turn_seq : ℕ
  pub chain_length : ℕ
  pub players : List PlayerScore
  pub turn_player : PlayerId
  pub played : Option PlayedWord

pub record PlayerEliminated : Type 0 where
  pub player : PlayerId
  pub name : Text
  pub is_me : Bool
  pub reason : WireEnd
  pub suggestions : List Text

pub record GameOver : Type 0 where
  pub i_won : Bool
  pub reason : WireEnd
  pub chain_length : ℕ
  pub standings : List PlayerScore

pub record RoomState : Type 0 where
  pub room_code : Text
  pub can_start : Bool
  pub players : List PlayerSlot
  pub max_players : ℕ
  pub min_players : ℕ
  pub grace_ms : ℕ

pub record ChatMessage : Type 0 where
  pub from_me : Bool
  pub player : PlayerId
  pub author : Text
  pub text : Text
  pub sent_ms : ℕ

pub data ServerMessage : Type 0 where
  error_msg : ErrCode → ServerMessage
  game_started_msg : GameStarted → ServerMessage
  turn_update_msg : TurnUpdate → ServerMessage
  player_eliminated_msg : PlayerEliminated → ServerMessage
  game_over_msg : GameOver → ServerMessage
  room_state_msg : RoomState → ServerMessage
  chat_msg : ChatMessage → ServerMessage
  chat_history_msg : List ChatMessage → ServerMessage
  move_rejected_msg : WireReject → Text → ℕ → Text → ServerMessage
  word_reported_msg : Text → ServerMessage
  quick_match_status_msg : Bool → ServerMessage
  -- The session, its resume token, the protocol version and the accepted nickname.
  welcome_msg : Text → Text → ℕ → Text → ServerMessage
  pong_msg : ℕ → ℕ → ServerMessage
