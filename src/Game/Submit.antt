-- ===== src/Game/Submit.antt =====
-- engine.go: `New` and `Submit`, the two operations that read words.
pub mod Valid
pub mod Rules
pub mod Outcome
pub mod Effect
use noitu.Prelude.{
  ℕ, zero, suc, ◌+◌, ◌-◌, Bool, true, false, not, ◌&&◌, ◌||◌, List, [], ◌∷◌, ◌++◌, Option, none,
  some, Text, same, contains, lookup_or, insert, length, replicate, null, ltb, ◌==◌, if◌then◌else◌,
  map,
}
use noitu.Vietnamese.{Unicode, normalize, has_enough_syllables}
use noitu.Game.State.{
  PlayerId, Dictionary, RejectReason, reason_none, not_your_turn, too_few_syllables,
  not_in_dictionary, wrong_link, already_used, reason_timeout, game_over, end_none, Move,
}
use noitu.Game.Engine.{Engine, turn, is_expired, advance, expire, has_legal_move, points_for, score}

-- The errors of `New`, in the order of its tests. A dictionary is never nil here.
pub data NewError : Type 0 where
  too_few_players bad_turn_limit duplicate_player : NewError
  opening_unknown opening_without_last opening_dead : NewError

pub data Started : Type 0 where
  started : Engine → Started
  refused : NewError → Started

-- The loop of `New` over `seen`.
unfoldable pub has_duplicate : List PlayerId → List PlayerId → Bool
has_duplicate seen [] = false
has_duplicate seen (p ∷ ps) =
    let rest = has_duplicate (p ∷ seen) ps in if contains seen p then true else rest

unfoldable pub zero_scores : List PlayerId → List (PlayerId × ℕ)
zero_scores [] = []
zero_scores (p ∷ ps) = (p, 0) ∷ zero_scores ps

-- The engine that `New` builds from a known opening.
unfoldable pub opened : List PlayerId → Text → Text → ℕ → ℕ → Engine
opened players canonical last turn_limit now = record {
  players = players;
  alive = replicate (length players) true;
  alive_n = length players;
  out_order = [];
  out_reason = [];
  used = canonical ∷ [];
  current = last;
  turn_index = 0;
  turn_limit = turn_limit;
  deadline = now + turn_limit;
  history = [];
  scores = zero_scores players;
  over = false;
  winner = [];
  end_reason = end_none;
}

-- An accepted word: its canonical spelling, its ends and the number of syllables typed.
pub record Legal : Type 0 where
  pub canonical : Text
  pub first : Text
  pub last : Text
  pub count : ℕ

pub data Verdict : Type 0 where
  legal : Legal → Verdict
  reject : RejectReason → Verdict

-- The zero `Move`.
abbrev pub empty_move : Move
empty_move = record {
  player = [];
  word = [];
  typed = [];
  first = [];
  last = [];
  syllables = 0;
  points = 0;
  parts = [];
  at = 0;
}

-- The updates of an accepted word.
unfoldable pub play : Engine → Move → ℕ → Engine
play e m now =
    let moved = advance (record e {
      used = m.word ∷ e.used;
      history = e.history ++ m ∷ [];
      scores = insert m.player (score e m.player + m.points) e.scores;
      current = m.last;
    }) in
    record moved { deadline = now + e.turn_limit }

module _ (dict : Dictionary) where
  unfoldable pub start_with : List PlayerId → Text → ℕ → ℕ → Started
  start_with players canonical turn_limit now = elim (dict.last_syllable canonical) [
    | none ↦ refused opening_without_last
    | some last ↦
        let e = opened players canonical last turn_limit now in
        if has_legal_move dict e then started e else refused opening_dead
  ]

  unfoldable pub new : List PlayerId → Text → ℕ → ℕ → Started
  unfolding start_with
  new players opening turn_limit now =
      let rest : Started = elim (dict.resolve opening) [
        | none ↦ refused opening_unknown
        | some canonical ↦ start_with players canonical turn_limit now
      ] in
      if ltb (length players) 2
      then refused too_few_players
      else if turn_limit == 0
      then refused bad_turn_limit
      else if has_duplicate [] players
      then refused duplicate_player
      else rest

  -- The tests of `Submit` on a canonical word, from `FirstSyllable` to `LastSyllable`.
  unfoldable pub judge_canonical : Engine → Text → ℕ → Verdict
  judge_canonical e canonical count = elim (dict.first_syllable canonical) [
    | none ↦ reject not_in_dictionary
    | some first ↦
        if not (same first e.current)
        then reject wrong_link
        else if contains e.used canonical
        then reject already_used
        else elim (dict.last_syllable canonical) [
          | none ↦ reject not_in_dictionary
          | some last ↦
              legal (record { canonical = canonical; first = first; last = last; count = count })
        ]
  ]

  -- The tests of `Submit` on the word, from `Normalize` on.
  unfoldable pub judge : Unicode → Engine → Text → Verdict
  unfolding judge_canonical
  judge u e raw = elim (normalize u raw) [
    | none ↦ reject too_few_syllables
    | some (normalized, syllables) ↦
        if not (has_enough_syllables syllables)
        then reject too_few_syllables
        else elim (dict.resolve normalized) [
          | none ↦ reject not_in_dictionary
          | some canonical ↦ judge_canonical e canonical (length syllables)
        ]
  ]

  unfoldable pub move_of : Engine → PlayerId → Text → ℕ → Legal → Move
  move_of e p raw now w =
      let (points, parts) = points_for dict e w.count w.first now in
      record {
        player = p;
        word = w.canonical;
        typed = raw;
        first = w.first;
        last = w.last;
        syllables = w.count;
        points = points;
        parts = parts;
        at = now;
      }

  -- What `Submit` returns once its tests on the word are made.
  unfoldable pub answer : Engine → PlayerId → Text → ℕ → Verdict → Engine × Move × RejectReason
  answer e p raw now (reject r) = (e, empty_move, r)
  answer e p raw now (legal w) = let m = move_of e p raw now w in (play e m now, m, reason_none)

  unfoldable pub submit : Unicode → Engine → PlayerId → Text → ℕ → Engine × Move × RejectReason
  submit u e p raw now =
      if e.over
      then (e, empty_move, game_over)
      else if not (same p (turn e))
      then (e, empty_move, not_your_turn)
      else if is_expired e now
      then (expire dict e now, empty_move, reason_timeout)
      else answer e p raw now (judge u e raw)
