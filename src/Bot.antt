-- ===== src/Bot.antt =====
-- server/internal/bot: how the computer opponent chooses, and the frozen view of a game that it
-- sees (server/internal/wsapi/bot_board.go). Search.antt has the lookahead of the hard strategy.
-- A random source is the draw that it makes next: `draw n` is what `IntN(n)` returns.
pub mod Search
pub mod Hard
pub mod Choice
pub mod Winning
pub mod Fair
mod Tests
use noitu.Prelude.{
  ℕ, zero, suc, ◌+◌, ◌/◌, ◌<◌, max, Bool, true, false, not, ◌&&◌, List, [], ◌∷◌, Option, none, some,
  Text, same, contains, length, get_or, null, ltb, leb, ◌==◌, if◌then◌else◌,
}
use noitu.Prelude.Sorting.{sort}
use noitu.Game.State.{Dictionary}
use noitu.Game.Engine.{Engine, legal_moves}

pub data Difficulty : Type 0 where
  easy medium hard : Difficulty

-- What a strategy may look at.
pub record Board : Type 0 where
  pub legal_moves : List Text
  pub used : Text → Bool
  pub words_starting_with : Text → List Text
  pub last_syllable : Text → Option Text

-- The view that `freezeBoard` takes of a game.
unfoldable pub freeze_board : Dictionary → Engine → Board
freeze_board dict e = record {
  legal_moves = legal_moves dict e;
  used = λ w. contains e.used w;
  words_starting_with = dict.words_starting_with;
  last_syllable = dict.last_syllable;
}

pub record ScoredMove : Type 0 where
  pub word : Text
  pub hands_over : ℕ

-- The loop of `remainingOutDegree`.
unfoldable pub count_open : (Text → Bool) → Text → List Text → ℕ
count_open used excluding [] = 0
count_open used excluding (w ∷ ws) =
    (if not (same w excluding) && not (used w) then 1 else 0) + count_open used excluding ws

unfoldable pub remaining_out_degree : Board → Text → Text → ℕ
remaining_out_degree b syllable excluding =
    count_open b.used excluding (b.words_starting_with syllable)

unfoldable pub score_moves : Board → List Text → List ScoredMove
score_moves b [] = []
score_moves b (w ∷ ws) =
    let rest = score_moves b ws in
    elim (b.last_syllable w) [
      | none ↦ rest
      | some last ↦ record { word = w; hands_over = remaining_out_degree b last w } ∷ rest
    ]

-- `a.handsOver - b.handsOver` as an order.
unfoldable pub tighter : ScoredMove → ScoredMove → Bool
tighter a b = leb a.hands_over b.hands_over

-- A uniformly drawn item; the list is not empty where it is called.
unfoldable pub pick_text : (ℕ → ℕ) → List Text → Text
pick_text draw ws = get_or ws (draw (length ws)) []

-- `easy.Choose`; `none` is `ErrNoMove`.
unfoldable pub choose_easy : (ℕ → ℕ) → Board → Option Text
choose_easy draw b = if null b.legal_moves then none else some (pick_text draw b.legal_moves)

-- The choice of `medium.Choose` among the scored moves, tightest first. `draw` is below the cut.
unfoldable pub from_quartile : (ℕ → ℕ) → List ScoredMove → Text
from_quartile draw [] = []
from_quartile draw (m ∷ ms) =
    let cut = max (length (m ∷ ms) / 4) 1 in
    if m.hands_over == 0 then m.word else (get_or (m ∷ ms) (draw cut) m).word

-- `medium.Choose`.
unfoldable pub choose_medium : (ℕ → ℕ) → Board → Option Text
choose_medium draw b =
    let scored = score_moves b b.legal_moves in
    if null b.legal_moves
    then none
    else if null scored
    then some (pick_text draw b.legal_moves)
    else some (from_quartile draw (sort tighter scored))
