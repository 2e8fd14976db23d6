-- ===== src/Wsapi/Room/Words.antt =====
-- server/internal/wsapi/room_game.go: words that players and the bot submit, and what is answered.
use noitu.Prelude.{
  ℕ, Bool, true, false, not, ◌&&◌, ◌||◌, [], ◌∷◌, Option, none, some, Text, same, contains, ◌==◌,
  if◌then◌else◌,
}
use noitu.Vietnamese.{Unicode, normalize}
use noitu.Game.State.{PlayerId, Move, RejectReason, reason_none, not_in_dictionary}
use noitu.Game.Engine.{Engine, turn, no_move, resign}
use noitu.Game.Submit.{submit}
use noitu.Wsapi.Nickname.{Tables, sanitize_text, max_nickname_marks}
use noitu.Wsapi.Message.{
  move_rejected_msg, reject_not_your_turn, wire_reject, not_your_seat, game_not_started,
  word_reported_msg,
}
use noitu.Wsapi.Room.{
  Session, Room, RoomDictionary, Surroundings, send, emit, refuse, next_seq, occupies, bot_player,
  max_word_runes,
}
use noitu.Wsapi.Room.Say.{broadcast_turn}
use noitu.Wsapi.Room.Play.{maybe_schedule_bot, report_out, after_engine, mark_of}

module _ (d : RoomDictionary) where
  unfoldable pub is_unknown : RejectReason → Bool
  is_unknown not_in_dictionary = true
  is_unknown _ = false

  -- Whether a suggested word can be played now.
  unfoldable pub playable : Engine → Text → Bool
  playable e w = elim (d.base.first_syllable w) [
    | none ↦ false
    | some first ↦ same first e.current && not (contains e.used w)
  ]

  unfoldable pub suggestion_for : Engine → Text → Text
  suggestion_for e normalized = elim (d.near_miss normalized) [
    | none ↦ []
    | some w ↦ if playable e w then w else []
  ]

  unfoldable pub near_miss_for : Unicode → Engine → RejectReason → Text → Text
  near_miss_for u e reason raw =
      let found : Text = elim (normalize u raw) [
        | none ↦ []
        | some (normalized, syllables) ↦ suggestion_for e normalized
      ] in
      if not (is_unknown reason) then [] else found

  -- What `handleSubmit` does with the engine's answer.
  unfoldable pub answer_submit :
      Unicode → Session → Text → Engine → Engine × Move × RejectReason → Room → Room
  answer_submit u sess word e (e', move, reason_none) r =
      let moved = next_seq (record r { engine = some e' }) in
      maybe_schedule_bot d e' (broadcast_turn d e' (some move) moved)
  answer_submit u sess word e (e', move, reason) r =
      let told =
        emit
          (send sess (
              move_rejected_msg (wire_reject reason) word r.turn_seq
                (near_miss_for u e' reason word))
            ∷ [])
          (record r { engine = some e' }) in
      report_out d (mark_of (some e)) e' told

  unfoldable pub submit_turn :
      Unicode → Tables → Surroundings → Session → PlayerId → Text → ℕ → Engine → Room → Room
  submit_turn u t w sess p raw turn_seq e r =
      let word = sanitize_text t raw max_word_runes max_nickname_marks in
      if not (turn_seq == r.turn_seq)
      then emit (send sess (move_rejected_msg reject_not_your_turn raw r.turn_seq []) ∷ []) r
      else answer_submit u sess word e (submit d.base u e p word w.now) r

  unfoldable pub handle_submit :
      Unicode → Tables → Surroundings → Session → PlayerId → Text → ℕ → Room → Room
  handle_submit u t w sess p raw turn_seq r =
      if not (occupies r sess p) then refuse sess not_your_seat r else elim r.engine [
        | none ↦ refuse sess game_not_started r
        | some e ↦ submit_turn u t w sess p raw turn_seq e r
      ]

  -- `handleReportWord`, which only answers.
  unfoldable pub handle_report_word : Session → Text → Room → Room
  handle_report_word sess word r = emit (send sess (word_reported_msg word) ∷ []) r

  unfoldable pub bot_gives_up : Surroundings → Engine → Room → Room
  bot_gives_up w e r =
      let settled = no_move d.base e w.now in
      after_engine d e
        (if settled.1 then settled.0 else (resign d.base settled.0 bot_player w.now).0) r

  -- What `handleBotMove` does with the engine's answer.
  unfoldable pub answer_bot : Surroundings → Engine → Engine × Move × RejectReason → Room → Room
  answer_bot w e (e', move, reason_none) r =
      broadcast_turn d e' (some move) (next_seq (record r { engine = some e' }))
  answer_bot w e (e', move, reason) r = after_engine d e (resign d.base e' bot_player w.now).0 r

  unfoldable pub bot_turn : Unicode → Surroundings → Option Text → ℕ → Engine → Room → Room
  bot_turn u w choice turn_seq e r =
      let played : Room = elim choice [
        | none ↦ bot_gives_up w e r
        | some word ↦ answer_bot w e (submit d.base u e bot_player word w.now) r
      ] in
      if e.over
      then r
      else if not (turn_seq == r.turn_seq) || not (same (turn e) bot_player)
      then r
      else played

  -- `none` is the error that the bot found no move.
  unfoldable pub handle_bot_move : Unicode → Surroundings → Option Text → ℕ → Room → Room
  handle_bot_move u w choice turn_seq r = elim r.engine [
    | none ↦ r
    | some e ↦ bot_turn u w choice turn_seq e r
  ]
