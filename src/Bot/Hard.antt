-- ===== src/Bot/Hard.antt =====
-- strategy_hard.go: `hard.Choose`.
use noitu.Prelude.{
  ℕ, ◌-◌, Bool, not, List, [], ◌∷◌, Option, none, some, Text, null, leb, ltb, ◌==◌, if◌then◌else◌,
  keep, map, take,
}
use noitu.Prelude.Sorting.{sort}
use noitu.Bot.{Board, ScoredMove, score_moves, tighter, pick_text}
use noitu.Bot.Search.{Float, Search, search_depth, node_cap, branch_cap, mark, unmark, negamax}

unfoldable pub kills : List ScoredMove → List ScoredMove
kills scored = keep (λ m. m.hands_over == 0) scored

unfoldable pub spared : List ScoredMove → List ScoredMove
spared scored = keep (λ m. ltb 0 m.hands_over) scored

-- What is left to search once an available win was declined.
unfoldable pub declined : List ScoredMove → List ScoredMove
declined scored =
    if null (kills scored) then scored else if null (spared scored) then scored else spared scored

module _ (fl : Float) (b : Board) where
  open fl use {F, lt, neg, neg_inf}

  -- The loop over the root moves, in which `best` is empty until a move scored above `alpha`.
  unfoldable pub root : List ScoredMove → Text → F → Search → Text
  root [] best alpha s = best
  root (m ∷ ms) best alpha s =
      let skip = root ms best alpha s in
      let go : Text = elim (b.last_syllable m.word) [
        | none ↦ skip
        | some last ↦
            let (reply, after) =
              negamax fl b (search_depth - 1) last neg_inf (neg alpha) (mark m.word s) in
            let score = neg reply in
            let s' = unmark m.word after in
            let better = lt alpha score in
            root ms (if better then m.word else best) (if better then score else alpha) s'
      ] in
      if leb s.budget 0 then best else go

  -- The move of the search, or the tightest one where nothing was scored.
  unfoldable pub search_move : List ScoredMove → Text
  search_move [] = []
  search_move (m ∷ ms) =
      let best =
        root (take branch_cap (m ∷ ms)) [] neg_inf (record { used = []; budget = node_cap }) in
      if null best then m.word else best

  -- `hard.Choose`; `takes_win` is the outcome of `Float64() < hardKillRate`.
  unfoldable pub choose_hard : (ℕ → ℕ) → Bool → Option Text
  choose_hard draw takes_win =
      let scored = score_moves b b.legal_moves in
      if null b.legal_moves
      then none
      else if null scored
      then some (pick_text draw b.legal_moves)
      else if not (null (kills scored))
      then (if takes_win
          then some (pick_text draw (map (λ m. m.word) (kills scored)))
          else some (search_move (sort tighter (declined scored))))
      else some (search_move (sort tighter (declined scored)))
