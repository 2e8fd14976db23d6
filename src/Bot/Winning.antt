-- ===== src/Bot/Winning.antt =====
-- When a strategy takes a win, and how tight the choice of the one-move strategy is.
use noitu.Prelude.{
  contains, same_refl, ℕ, zero, suc, ◌+◌, ◌≤◌, ◌<◌, ◌≡◌, refl, ap, true, false, List, [], ◌∷◌, some,
  arith, Text, length, get_or, null, ◌==◌, if◌then◌else◌, if_split, map, All, All-map, All-get_or,
  Bool-cases, Option-cases, ◌⊎◌, ltb, inl, inr, max, ◌/◌,
}
use noitu.Prelude.Sorting.{sort, place, sort-IsSorted, IsSorted, sort-All, length-sort}
use noitu.Bot.Choice.{IsDraw, sort-null, null-words, words-All, pick_text-All}
use noitu.Bot.Search.{Float}
use noitu.Bot.Hard.{kills, choose_hard}
use noitu.Bot.{
  Board, ScoredMove, score_moves, tighter, pick_text, choose_medium, from_quartile,
  remaining_out_degree,
}

tighter_total : (a b : ScoredMove) → tighter a b ≡ false → tighter b a ≡ true
unfolding tighter
tighter_total a b h = ground arith

tighter→le : (a b : ScoredMove) → tighter a b ≡ true → a.hands_over ≤ b.hands_over
unfolding tighter
tighter→le a b h = ground arith

tighter_trans : (a b c : ScoredMove) → tighter a b ≡ true → tighter b c ≡ true → tighter a c ≡ true
unfolding tighter
tighter_trans a b c h k = ground arith

-- How many moves leave fewer than `v` replies.
unfoldable pub count_below : ℕ → List ScoredMove → ℕ
count_below v [] = 0
count_below v (m ∷ ms) = (if ltb m.hands_over v then 1 else 0) + count_below v ms

-- The number of replies of a scored move is that of the board.
abbrev pub IsScored : Board → ScoredMove → Type 0
IsScored b m =
    (last : Text) × (b.last_syllable m.word ≡ some last)
    × (m.hands_over ≡ remaining_out_degree b last m.word)

-- A move of a list of words, scored on the board.
abbrev pub IsMoveOf : Board → List Text → ScoredMove → Type 0
IsMoveOf b ws m = IsScored b m × (contains ws m.word ≡ true)

score_moves-IsMoveOf :
    (b : Board) (all ws : List Text)
    → All (λ w. contains all w ≡ true) ws
    → All (IsMoveOf b all) (score_moves b ws)
unfolding score_moves
score_moves-IsMoveOf b all [] a = tt
score_moves-IsMoveOf b all (w ∷ ws) a = elim (Option-cases (b.last_syllable w)) [
  | inl l ↦ rw (l, All, score_moves) (score_moves-IsMoveOf b all ws a.1)
  | inr (last, l) ↦
      rw (l, All, score_moves) (((last, l, refl), a.0), score_moves-IsMoveOf b all ws a.1)
]

all_contained : (ws : List Text) → All (λ w. contains ws w ≡ true) ws
unfolding contains
all_contained [] = tt
all_contained (w ∷ ws) =
    (ground (arith, same_refl w), All-map ws (λ v h. ground arith) (all_contained ws))

score_moves-IsScored : (b : Board) (ws : List Text) → All (IsScored b) (score_moves b ws)
unfolding score_moves
score_moves-IsScored b [] = tt
score_moves-IsScored b (w ∷ ws) = elim (Option-cases (b.last_syllable w)) [
  | inl l ↦ rw (l, All, score_moves) (score_moves-IsScored b ws)
  | inr (last, l) ↦ rw (l, All, score_moves) ((last, l, refl), score_moves-IsScored b ws)
]

count_below-place :
    (v : ℕ) (m : ScoredMove) (ms : List ScoredMove)
    → count_below v (place tighter m ms) ≡ count_below v (m ∷ ms)
unfolding count_below place
count_below-place v m [] = refl
count_below-place v m (n ∷ ms) = ground (arith, count_below-place v m ms)

count_below-sort :
    (v : ℕ) (ms : List ScoredMove) → count_below v (sort tighter ms) ≡ count_below v ms
unfolding count_below sort
count_below-sort v [] = refl
count_below-sort v (m ∷ ms) =
    ground (arith, count_below-place v m (sort tighter ms), count_below-sort v ms)

count_below-zero :
    (v : ℕ) (ms : List ScoredMove)
    → All (λ (m : ScoredMove). v ≤ m.hands_over) ms
    → count_below v ms ≡ 0
unfolding count_below
count_below-zero v [] a = refl
count_below-zero v (m ∷ ms) a = ground (arith, a.0, count_below-zero v ms a.1)

-- In a sorted list at most `k` moves are tighter than the one at `k`.
count_below-get_or :
    (ms : List ScoredMove) (k : ℕ) (d : ScoredMove)
    → IsSorted tighter ms
    → k < length ms
    → count_below (get_or ms k d).hands_over ms ≤ k
unfolding count_below tighter
count_below-get_or [] k d s h = absurd (omega arith)
count_below-get_or (m ∷ ms) zero d s h =
    ground (arith, count_below-zero m.hands_over ms (All-map ms (λ n q. ground arith) s.0))
count_below-get_or (m ∷ ms) (suc k) d s h = ground (arith, count_below-get_or ms k d s.1)

-- The choice among sorted moves: a quarter of them at most is tighter, none if that is below one
-- move, and it wins at once if one of them does.
from_quartile_tight :
    (draw : ℕ → ℕ) (ms : List ScoredMove)
    → IsDraw draw
    → null ms ≡ false
    → IsSorted tighter ms
    → (P : ScoredMove → Type 0) → All P ms
    → (m : ScoredMove) × (from_quartile draw ms ≡ m.word)
      × P m
      × (count_below m.hands_over ms < max (length ms / 4) 1)
      × ((count_below 1 ms ≡ 0) ⊎ (m.hands_over ≡ 0))
unfolding from_quartile
from_quartile_tight draw [] d h s P a = absurd (cc)
from_quartile_tight draw (m ∷ ms) d h s P a = elim (Bool-cases (m.hands_over == 0)) [
  | inl z ↦ (
    m,
    rw z,
    a.0,
    omega (arith, count_below-get_or (m ∷ ms) 0 m s (omega arith)),
    inr (ground arith),
  )
  | inr z ↦
      let cut = max (length (m ∷ ms) / 4) 1 in
      let positive : 1 ≤ m.hands_over = ground arith in
      let within : draw cut < length (m ∷ ms) = omega (arith, d cut) in
      (
        get_or (m ∷ ms) (draw cut) m,
        rw z,
        All-get_or P (m ∷ ms) (draw cut) m within a,
        omega (arith, d cut, count_below-get_or (m ∷ ms) (draw cut) m s within),
        inl (
            count_below-zero 1 (m ∷ ms)
              (positive, All-map ms (λ n q. omega (arith, tighter→le m n q)) s.0)),
      )
]

null-score_moves : (b : Board) (ws : List Text) → null (score_moves b ws) ≡ false → null ws ≡ false
unfolding score_moves
null-score_moves b [] h = h
null-score_moves b (w ∷ ws) h = refl

choose_medium_of :
    (b : Board) (draw : ℕ → ℕ)
    → null (score_moves b b.legal_moves) ≡ false
    → (w : Text) → from_quartile draw (sort tighter (score_moves b b.legal_moves)) ≡ w
    → choose_medium draw b ≡ some w
unfolding choose_medium
choose_medium_of b draw z w is =
    let some_left = null-score_moves b b.legal_moves z in
    if_split (λ o. o ≡ some w) (null b.legal_moves) (λ n. absurd (cc))
      λ n.
        if_split (λ o. o ≡ some w) (null (score_moves b b.legal_moves)) (λ k. absurd (cc))
          λ k. ap some is

-- What an instant win says of the board.
abbrev IsWin : Board → Text → Type 0
IsWin b w = (last : Text) × (b.last_syllable w ≡ some last) × (remaining_out_degree b last w ≡ 0)

kills-IsWin :
    (b : Board) (ms : List ScoredMove)
    → All (IsScored b) ms
    → All (λ (m : ScoredMove). IsWin b m.word) (kills ms)
unfolding kills
kills-IsWin b [] a = tt
kills-IsWin b (m ∷ ms) a = elim (Bool-cases (m.hands_over == 0)) [
  | inl z ↦ let (last, l, n) = a.0 in rw z ((last, l, ground arith), kills-IsWin b ms a.1)
  | inr z ↦ rw z (kills-IsWin b ms a.1)
]

null-kills : (ms : List ScoredMove) → 0 < count_below 1 ms → null (kills ms) ≡ false
unfolding kills count_below
null-kills [] h = absurd (omega arith)
null-kills (m ∷ ms) h = ground (arith, null-kills ms)

null-count_below : (ms : List ScoredMove) → 0 < count_below 1 ms → null ms ≡ false
unfolding count_below
null-count_below [] h = absurd (omega arith)
null-count_below (m ∷ ms) h = refl

module _ (b : Board) (draw : ℕ → ℕ) (d : IsDraw draw) where
  -- With draws in range and a scored move, the medium strategy plays a legal move of the board
  -- that has a last syllable, scored by the replies that it leaves: fewer than max(n / 4, 1) of
  -- the n scored moves are tighter, and it leaves no reply unless every scored move leaves one.
  pub choose_medium_tight :
      null (score_moves b b.legal_moves) ≡ false
      → (m : ScoredMove) × (choose_medium draw b ≡ some m.word)
        × IsMoveOf b b.legal_moves m
        × (count_below m.hands_over (score_moves b b.legal_moves)
            < max (length (score_moves b b.legal_moves) / 4) 1)
        × ((count_below 1 (score_moves b b.legal_moves) ≡ 0) ⊎ (m.hands_over ≡ 0))
  choose_medium_tight z =
      let scored = score_moves b b.legal_moves in
      let (m, is, h, few, win) =
        from_quartile_tight draw (sort tighter scored) d (sort-null scored z)
          (sort-IsSorted tighter tighter_total tighter_trans scored) (IsMoveOf b b.legal_moves)
          (sort-All tighter (IsMoveOf b b.legal_moves) scored
            (score_moves-IsMoveOf b b.legal_moves b.legal_moves (all_contained b.legal_moves))) in
      (
        m,
        medium_choice m is,
        h,
        rw (← count_below-sort m.hands_over scored, ← length-sort tighter scored) few,
        rw (← count_below-sort 1 scored) win,
      )
    where
      medium_choice :
          (m : ScoredMove)
          → from_quartile draw (sort tighter (score_moves b b.legal_moves)) ≡ m.word
          → choose_medium draw b ≡ some m.word
      medium_choice m is = choose_medium_of b draw z m.word is

  -- With draws in range and a scored move that leaves no reply, the hard strategy that takes its
  -- wins plays a word that leaves no reply.
  pub choose_hard_wins :
      (fl : Float)
      → 0 < count_below 1 (score_moves b b.legal_moves)
      → (w last : Text) × (choose_hard fl b draw true ≡ some w)
        × (b.last_syllable w ≡ some last)
        × (remaining_out_degree b last w ≡ 0)
  unfolding choose_hard
  choose_hard_wins fl h =
      let scored = score_moves b b.legal_moves in
      let wins = map (λ (m : ScoredMove). m.word) (kills scored) in
      let z = null-count_below scored h in
      let k = null-kills scored h in
      let some_left = null-score_moves b b.legal_moves z in
      let (last, l, n) = pick_text-All (IsWin b) draw wins d (null-words (kills scored) k) (
        words-All (IsWin b) (kills scored)
          (kills-IsWin b scored (score_moves-IsScored b b.legal_moves))) in
      (pick_text draw wins, last, rw (some_left, z, k) refl, l, n)
