-- ===== src/Game/State.antt =====
-- server/internal/game/state.go: the types of the rules, and the dictionary that they consult.
-- Times are nanoseconds since a fixed instant, and durations nanoseconds.
use noitu.Prelude.{ℕ, Bool, List, Option, Text, codes}

abbrev pub PlayerId : Type 0
PlayerId = Text

-- What the engine asks of a word store. `none` stands for `false`, or for an error.
pub record Dictionary : Type 0 where
  pub resolve : Text → Option Text
  pub first_syllable : Text → Option Text
  pub last_syllable : Text → Option Text
  pub words_starting_with : Text → List Text
  pub out_degree : Text → Option ℕ

pub data RejectReason : Type 0 where
  reason_none not_your_turn too_few_syllables not_in_dictionary : RejectReason
  wrong_link already_used reason_timeout game_over : RejectReason

pub RejectReason-discrete : Discrete RejectReason
RejectReason-discrete = hlevel

pub data PointKind : Type 0 where
  kind_none kind_base kind_chain kind_syllables kind_speed kind_rarity : PointKind

pub record PointPart : Type 0 where
  pub kind : PointKind
  pub value : ℕ

pub data EndReason : Type 0 where
  end_none end_timeout end_no_legal_move end_resigned : EndReason

pub record Move : Type 0 where
  pub player : PlayerId
  pub word : Text
  pub typed : Text
  pub first : Text
  pub last : Text
  pub syllables : ℕ
  pub points : ℕ
  pub parts : List PointPart
  pub at : ℕ

pub record Standing : Type 0 where
  pub player : PlayerId
  pub score : ℕ
  pub rank : ℕ
  pub reason : EndReason

-- A snapshot for the transport layer.
pub record State : Type 0 where
  pub current : Text
  pub turn : PlayerId
  pub deadline : ℕ
  pub scores : List (PlayerId × ℕ)
  pub alive : List (PlayerId × Bool)
  pub eliminated : List PlayerId
  pub chain_length : ℕ
  pub over : Bool
  pub winner : PlayerId
  pub end_reason : EndReason
  pub standings : List Standing

unfoldable pub reject_string : RejectReason → Text
reject_string reason_none = codes "accepted"
reject_string not_your_turn = codes "not your turn"
reject_string too_few_syllables = codes "fewer than two syllables"
reject_string not_in_dictionary = codes "not in dictionary"
reject_string wrong_link = codes "wrong first syllable"
reject_string already_used = codes "already used"
reject_string reason_timeout = codes "turn expired"
reject_string game_over = codes "game already over"

unfoldable pub kind_string : PointKind → Text
kind_string kind_none = codes "none"
kind_string kind_base = codes "base"
kind_string kind_chain = codes "chain"
kind_string kind_syllables = codes "syllables"
kind_string kind_speed = codes "speed"
kind_string kind_rarity = codes "rarity"

unfoldable pub end_string : EndReason → Text
end_string end_none = codes "in play"
end_string end_timeout = codes "timeout"
end_string end_no_legal_move = codes "no legal move"
end_string end_resigned = codes "resigned"
