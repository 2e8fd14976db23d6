-- ===== src/Bot/Search.antt =====
-- server/internal/bot/strategy_hard.go: the depth-limited negamax of the hard strategy.
-- Scores are floating-point numbers: their type and the operations that the search uses are a
-- parameter. A value is never NaN: it is a bound, a constant less a depth, or a logarithm of 1 + n.
pub mod Restore
use noitu.Prelude.{
  ℕ, zero, suc, ◌+◌, ◌-◌, Bool, true, false, not, ◌&&◌, ◌||◌, List, [], ◌∷◌, Option, none, some,
  Text, same, contains, length, null, leb, ◌==◌, if◌then◌else◌, keep, take,
}
use noitu.Prelude.Sorting.{sort}
use noitu.Bot.{Board, count_open}

pub record Float : Type 1 where
  pub F : Type 0
  pub lt : F → F → Bool
  pub neg : F → F
  pub neg_inf : F
  pub lose_score : F
  -- `loseScore - float64(depth)`.
  pub lose_at : ℕ → F
  -- `math.Log(1 + float64(n))`.
  pub log_replies : ℕ → F

abbrev pub search_depth : ℕ
search_depth = 4

abbrev pub node_cap : ℕ
node_cap = 20000

abbrev pub branch_cap : ℕ
branch_cap = 12

-- The state of one lookahead: the words played in this line, and the nodes left.
pub record Search : Type 0 where
  pub used : List Text
  pub budget : ℕ

pub record Candidate : Type 0 where
  pub word : Text
  pub last : Text
  pub hands_over : ℕ

unfoldable pub spent : Board → Search → Text → Bool
spent b s w = contains s.used w || b.used w

-- `delete(s.used, w)`.
unfoldable pub unmark : Text → Search → Search
unmark w s = record s { used = keep (λ v. not (same v w)) s.used }

unfoldable pub mark : Text → Search → Search
mark w s = record s { used = w ∷ s.used }

-- The loop that annotates the candidates of a node.
unfoldable pub rate : Board → Search → List Text → List Candidate
rate b s [] = []
rate b s (w ∷ ws) =
    let rest = rate b s ws in
    elim (b.last_syllable w) [
      | none ↦ rest
      | some last ↦
          record {
            word = w;
            last = last;
            hands_over = count_open (spent b s) w (b.words_starting_with last);
          }
          ∷ rest
    ]

unfoldable pub tighter_candidate : Candidate → Candidate → Bool
tighter_candidate a b = leb a.hands_over b.hands_over

module _ (fl : Float) (b : Board) where
  open fl use {F, lt, neg, neg_inf, lose_score, lose_at, log_replies}

  -- The loop over the branches of a node: `call` searches the position after a move.
  unfoldable pub branches :
      (Text → F → F → Search → F × Search) → List Candidate → F → F → F → Search → F × Search
  branches call [] best alpha beta s = (best, s)
  branches call (c ∷ cs) best alpha beta s =
      let (reply, after) = call c.last (neg beta) (neg alpha) (mark c.word s) in
      let s' = unmark c.word after in
      let score = neg reply in
      let best' = if lt best score then score else best in
      let alpha' = if lt alpha best' then best' else alpha in
      let rest = branches call cs best' alpha' beta s' in
      if not (lt alpha' beta) then (best', s') else rest

  -- The open words of a node, after its budget was taken.
  unfoldable pub candidates : Text → Search → List Text
  candidates current s = keep (λ w. not (spent b s w)) (b.words_starting_with current)

  unfoldable pub ordered : Search → List Text → List Candidate
  ordered s ws = take branch_cap (sort tighter_candidate (rate b s ws))

  unfoldable pub negamax : ℕ → Text → F → F → Search → F × Search
  negamax zero current alpha beta s =
      let s' = record s { budget = s.budget - 1 } in
      let ws = candidates current s' in
      if leb s.budget 0
      then (alpha, s)
      else if null ws
      then (lose_at 0, s')
      else (log_replies (length ws), s')
  negamax (suc depth) current alpha beta s =
      let s' = record s { budget = s.budget - 1 } in
      let ws = candidates current s' in
      let searched =
        branches (λ last a z t. negamax depth last a z t) (ordered s' ws) lose_score alpha beta
          s' in
      if leb s.budget 0 then (alpha, s) else if null ws then (lose_at (suc depth), s') else searched
