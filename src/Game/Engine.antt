-- ===== src/Game/Engine.antt =====
-- server/internal/game/engine.go: the state of one game and its operations. A method that changes
-- the engine returns the new one. The dictionary, which no operation changes, is a parameter.
-- Seats are read by index with a default: Rotation and Invariant show that an index is never out of range.
pub mod Rotation
pub mod Flags
pub mod Invariant
pub mod Clock
use noitu.Prelude.{
  ℕ, zero, suc, ◌+◌, ◌-◌, ◌%◌, Bool, true, false, not, ◌&&◌, ◌||◌, List, [], ◌∷◌, ◌++◌, Option,
  none, some, Text, same, contains, lookup_or, insert, length, get_or, set, take, keep, null,
  replicate, ltb, leb, ◌==◌, if◌then◌else◌, text_leb, map, reverse,
}
use noitu.Prelude.Sorting.{sort}
use noitu.Vietnamese.{Unicode, normalize, has_enough_syllables}
use noitu.Game.State.{
  PlayerId, Dictionary, RejectReason, reason_none, not_your_turn, too_few_syllables,
  not_in_dictionary, wrong_link, already_used, reason_timeout, game_over, EndReason, end_none,
  end_timeout, end_no_legal_move, end_resigned, Move, PointPart, Standing, State,
}
use noitu.Game.Score.{points_of, speed_points, rarity_points}

pub record Engine : Type 0 where
  pub players : List PlayerId
  pub alive : List Bool
  pub alive_n : ℕ
  pub out_order : List PlayerId
  pub out_reason : List (PlayerId × EndReason)
  pub used : List Text
  pub current : Text
  pub turn_index : ℕ
  pub turn_limit : ℕ
  pub deadline : ℕ
  pub history : List Move
  pub scores : List (PlayerId × ℕ)
  pub over : Bool
  pub winner : PlayerId
  pub end_reason : EndReason

unfoldable pub turn : Engine → PlayerId
turn e = get_or e.players e.turn_index []

unfoldable pub chain_length : Engine → ℕ
chain_length e = length e.history + 1

-- `indexOf`, counting from `i`; `none` is -1.
unfoldable pub index_from : List PlayerId → PlayerId → ℕ → Option ℕ
index_from [] p i = none
index_from (q ∷ qs) p i = if same q p then some i else index_from qs p (suc i)

unfoldable pub index_of : Engine → PlayerId → Option ℕ
index_of e p = index_from e.players p 0

unfoldable pub is_alive : Engine → PlayerId → Bool
is_alive e p = elim (index_of e p) [ none ↦ false | some i ↦ get_or e.alive i false ]

unfoldable pub score : Engine → PlayerId → ℕ
score e p = lookup_or 0 p e.scores

unfoldable pub last_move : List Move → Option Move
last_move [] = none
last_move (m ∷ ms) = let rest = last_move ms in if null ms then some m else rest

unfoldable pub is_expired : Engine → ℕ → Bool
is_expired e now = ltb e.deadline now

-- The rounds of `advance`, over the seats' flags and their number.
unfoldable pub advance_from : ℕ → List Bool → ℕ → ℕ → ℕ
advance_from zero alive n i = i
advance_from (suc rounds) alive n i =
    let j = (i + 1) % n in
    let rest = advance_from rounds alive n j in if get_or alive j false then j else rest

unfoldable pub advance : Engine → Engine
advance e = record e {
  turn_index = advance_from (length e.players) e.alive (length e.players) e.turn_index;
}

-- The part of `eliminate` that ends the game.
unfoldable pub crown : Engine → Engine
crown e = if leb e.alive_n 1 then record e { over = true; winner = turn e } else e

-- The table once the seat at `i` is out, before the turn moves on.
unfoldable pub mark_out : Engine → ℕ → PlayerId → EndReason → Engine
mark_out e i p reason = record e {
  alive = set e.alive i false;
  alive_n = e.alive_n - 1;
  out_order = e.out_order ++ p ∷ [];
  out_reason = insert p reason e.out_reason;
  end_reason = reason;
}

-- `eliminate` once the seat is known to be in the game.
unfoldable pub take_out : Engine → ℕ → PlayerId → EndReason → Engine
take_out e i p reason =
    let out = mark_out e i p reason in crown (if e.turn_index == i then advance out else out)

unfoldable pub eliminate : Engine → PlayerId → EndReason → Engine × Bool
eliminate e p reason = elim (index_of e p) [
  | none ↦ (e, false)
  | some i ↦ if get_or e.alive i false then (take_out e i p reason, true) else (e, false)
]

-- `if !e.over { e.deadline = now.Add(e.turnLimit) }`.
unfoldable pub restart_clock : Engine → ℕ → Engine
restart_clock e now = if e.over then e else record e { deadline = now + e.turn_limit }

-- The loop of `HasLegalMove`.
unfoldable pub some_unused : List Text → List Text → Bool
some_unused used [] = false
some_unused used (w ∷ ws) = if contains used w then some_unused used ws else true

module _ (dict : Dictionary) where
  unfoldable pub legal_moves : Engine → List Text
  legal_moves e = keep (λ w. not (contains e.used w)) (dict.words_starting_with e.current)

  unfoldable pub has_legal_move : Engine → Bool
  unfolding some_unused
  has_legal_move e = some_unused e.used (dict.words_starting_with e.current)

  -- `n <= 0` is `n == 0` here.
  unfoldable pub suggestions : Engine → ℕ → List Text
  suggestions e n = if n == 0 then [] else take n (sort text_leb (legal_moves e))

  -- The loop of `settle` on fuel; a round takes one player out.
  unfoldable pub settle_from : ℕ → Engine → Engine
  settle_from zero e = e
  settle_from (suc rounds) e =
      let rest = settle_from rounds (eliminate e (turn e) end_no_legal_move).0 in
      if e.over || has_legal_move e then e else rest

  unfoldable pub settle : Engine → Engine
  unfolding settle_from
  settle e = settle_from e.alive_n e

  unfoldable pub expire : Engine → ℕ → Engine
  unfolding restart_clock
  expire e now =
      let reason = if has_legal_move e then end_timeout else end_no_legal_move in
      restart_clock (settle (eliminate e (turn e) reason).0) now

  unfoldable pub timeout : Engine → ℕ → Engine × Bool
  timeout e now = if e.over || not (is_expired e now) then (e, false) else (expire e now, true)

  unfoldable pub no_move : Engine → ℕ → Engine × Bool
  no_move e now = if e.over || has_legal_move e then (e, false) else (expire e now, true)

  -- What `Resign` does after a successful elimination; `before` was to act.
  unfoldable pub after_resign : Engine → PlayerId → ℕ → Engine
  unfolding restart_clock
  after_resign e before now =
      if not e.over && not (same (turn e) before) then restart_clock (settle e) now else e

  unfoldable pub resign : Engine → PlayerId → ℕ → Engine × Bool
  unfolding after_resign
  resign e p now =
      let (e', done) = eliminate e p end_resigned in
      if e.over
      then (e, false)
      else if done
      then (after_resign e' (turn e) now, true)
      else (e', false)

  unfoldable pub points_for : Engine → ℕ → Text → ℕ → ℕ × List PointPart
  points_for e syllables link now =
      points_of syllables (chain_length e) (speed_points e.deadline e.turn_limit now)
        (rarity_points (dict.out_degree link))
