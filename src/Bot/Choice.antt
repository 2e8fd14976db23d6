-- ===== src/Bot/Choice.antt =====
-- What the strategies choose: a legal move whenever there is one.
use noitu.Prelude.{
  ℕ, ◌<◌, ◌≡◌, refl, Bool, true, false, not, List, [], ◌∷◌, Option, none, some, arith, Text,
  same_refl, contains, length, get_or, null, ltb, leb, ◌==◌, if_split, map, take, All, All-keep,
  All-take, All-map, All-get_or, Bool-cases, Option-cases, inl, inr, max, ◌/◌, ◌⊎◌,
}
use noitu.Prelude.Sorting.{sort, sort-All, length-sort}
use noitu.Bot.{
  Board, ScoredMove, score_moves, tighter, pick_text, choose_easy, choose_medium, from_quartile,
}
use noitu.Bot.Search.{Float, Search, branch_cap, node_cap}
use noitu.Bot.Hard.{kills, spared, declined, root, search_move, choose_hard}

abbrev pub IsLegal : Board → Text → Type 0
IsLegal b w = contains b.legal_moves w ≡ true

-- A choice is a legal move, and there is one exactly where there are legal moves.
abbrev pub Answers : Board → Option Text → Type 0
Answers b none = b.legal_moves ≡ []
Answers b (some w) = IsLegal b w

-- `IntN(n)` is below `n` where `n` is positive.
abbrev pub IsDraw : (ℕ → ℕ) → Type 0
IsDraw draw = (n : ℕ) → 0 < n → draw n < n

contains-All : (ws : List Text) → All (λ w. contains ws w ≡ true) ws
unfolding contains
contains-All [] = tt
contains-All (w ∷ ws) =
    (ground (arith, same_refl w), All-map ws (λ v h. ground arith) (contains-All ws))

null→nil : (ws : List Text) → null ws ≡ true → ws ≡ []
null→nil [] h = refl
null→nil (w ∷ ws) h = absurd (cc)

pub pick_text-All :
    (P : Text → Type 0) (draw : ℕ → ℕ) (ws : List Text)
    → IsDraw draw
    → null ws ≡ false
    → All P ws
    → P (pick_text draw ws)
unfolding pick_text
pick_text-All P draw [] d h a = absurd (cc)
pick_text-All P draw (w ∷ ws) d h a =
    All-get_or P (w ∷ ws) (draw (length (w ∷ ws))) [] (d (length (w ∷ ws)) (omega arith)) a

-- The scored moves are moves.
score_moves-All :
    (b : Board) (P : Text → Type 0) (ws : List Text)
    → All P ws
    → All (λ (m : ScoredMove). P m.word) (score_moves b ws)
unfolding score_moves
score_moves-All b P [] a = tt
score_moves-All b P (w ∷ ws) a = elim (Option-cases (b.last_syllable w)) [
  | inl l ↦ rw (l, All, score_moves) (score_moves-All b P ws a.1)
  | inr (last, l) ↦ rw (l, All, score_moves) (a.0, score_moves-All b P ws a.1)
]

kills-All : (P : ScoredMove → Type 0) (ms : List ScoredMove) → All P ms → All P (kills ms)
unfolding kills
kills-All P ms a = All-keep P (λ m. m.hands_over == 0) ms a

spared-All : (P : ScoredMove → Type 0) (ms : List ScoredMove) → All P ms → All P (spared ms)
unfolding spared
spared-All P ms a = All-keep P (λ m. ltb 0 m.hands_over) ms a

pub words-All :
    (P : Text → Type 0) (ms : List ScoredMove)
    → All (λ (m : ScoredMove). P m.word) ms
    → All P (map (λ (m : ScoredMove). m.word) ms)
words-All P [] a = tt
words-All P (m ∷ ms) a = (a.0, words-All P ms a.1)

pub null-words :
    (ms : List ScoredMove) → null ms ≡ false → null (map (λ (m : ScoredMove). m.word) ms) ≡ false
null-words [] h = h
null-words (m ∷ ms) h = refl

pub sort-null : (ms : List ScoredMove) → null ms ≡ false → null (sort tighter ms) ≡ false
sort-null ms h = from_length (sort tighter ms) ms (length-sort tighter ms) h
  where
    from_length :
        (xs ys : List ScoredMove) → length xs ≡ length ys → null ys ≡ false → null xs ≡ false
    from_length [] [] e h = h
    from_length [] (y ∷ ys) e h = absurd (omega arith)
    from_length (x ∷ xs) ys e h = refl

module _ (b : Board) (draw : ℕ → ℕ) (d : IsDraw draw) where
  picked : null b.legal_moves ≡ false → IsLegal b (pick_text draw b.legal_moves)
  picked h = pick_text-All (IsLegal b) draw b.legal_moves d h (contains-All b.legal_moves)

  scored-All : All (λ (m : ScoredMove). IsLegal b m.word) (score_moves b b.legal_moves)
  scored-All = score_moves-All b (IsLegal b) b.legal_moves (contains-All b.legal_moves)

  -- With draws in range, the easy strategy chooses a legal move, and none only where there is
  -- none.
  pub choose_easy-Answers : Answers b (choose_easy draw b)
  unfolding choose_easy
  choose_easy-Answers = if_split (Answers b) (null b.legal_moves) (null→nil b.legal_moves) picked

  from_quartile-All :
      (P : ScoredMove → Type 0) (ms : List ScoredMove)
      → null ms ≡ false
      → All P ms
      → (m : ScoredMove) × (from_quartile draw ms ≡ m.word) × P m
  unfolding from_quartile
  from_quartile-All P [] h a = absurd (cc)
  from_quartile-All P (m ∷ ms) h a = elim (Bool-cases (m.hands_over == 0)) [
    | inl z ↦ (m, rw z, a.0)
    | inr z ↦
        let cut = max (length (m ∷ ms) / 4) 1 in
        (
          get_or (m ∷ ms) (draw cut) m,
          rw z,
          All-get_or P (m ∷ ms) (draw cut) m (omega (arith, d cut)) a,
        )
  ]

  -- With draws in range, the medium strategy chooses a legal move, and none only where there is
  -- none.
  pub choose_medium-Answers : Answers b (choose_medium draw b)
  unfolding choose_medium
  choose_medium-Answers =
      if_split (Answers b) (null b.legal_moves) (null→nil b.legal_moves) λ some_left.
        if_split (Answers b) (null (score_moves b b.legal_moves)) (λ z. picked some_left)
          λ z.
            let sorted = sort tighter (score_moves b b.legal_moves) in
            let (m, is, h) =
              from_quartile-All (λ m. IsLegal b m.word) sorted (sort-null _ z)
                (sort-All tighter _ (score_moves b b.legal_moves) scored-All) in
            rw is h

  module _ (fl : Float) where
    root-All :
        (P : Text → Type 0) (ms : List ScoredMove) (best : Text) (alpha : fl.F) (s : Search)
        → P best
        → All (λ (m : ScoredMove). P m.word) ms
        → P (root fl b ms best alpha s)
    unfolding root
    root-All P [] best alpha s h a = h
    root-All P (m ∷ ms) best alpha s h a =
        if_split P (leb s.budget 0) (λ z. h)
          λ z. elim (Option-cases (b.last_syllable m.word)) [
            | inl l ↦ rw l (root-All P ms best alpha s h a.1)
            | inr (last, l) ↦
                rw l (root-All P ms _ _ _ (if_split P _ (λ better. a.0) (λ worse. h)) a.1)
          ]

    search_move-All :
        (P : Text → Type 0) (ms : List ScoredMove)
        → null ms ≡ false
        → All (λ (m : ScoredMove). P m.word) ms
        → P (search_move fl b ms)
    unfolding search_move
    search_move-All P [] h a = absurd (cc)
    search_move-All P (m ∷ ms) h a =
        let best =
          root fl b (take branch_cap (m ∷ ms)) [] fl.neg_inf
            (record { used = []; budget = node_cap }) in
        let known : (null best ≡ true) ⊎ P best =
          root-All (λ w. (null w ≡ true) ⊎ P w) (take branch_cap (m ∷ ms)) [] _ _ (inl refl)
            (All-take _ branch_cap (m ∷ ms) (All-map (m ∷ ms) (λ n p. inr p) a)) in
        if_split P (null best) (λ z. a.0) (λ z. elim known [ inl n ↦ absurd (cc) | inr p ↦ p ])

    declined-All :
        (P : ScoredMove → Type 0) (ms : List ScoredMove)
        → null ms ≡ false
        → All P ms
        → All P (declined ms) × (null (declined ms) ≡ false)
    unfolding declined
    declined-All P ms h a =
        if_split Kept (null (kills ms)) (λ z. (a, h))
          λ z. if_split Kept (null (spared ms)) (λ n. (a, h)) λ n. (spared-All P ms a, n)
      where
        Kept : List ScoredMove → Type 0
        Kept l = All P l × (null l ≡ false)

    searched :
        null (score_moves b b.legal_moves) ≡ false
        → IsLegal b (search_move fl b (sort tighter (declined (score_moves b b.legal_moves))))
    searched z =
        let scored = score_moves b b.legal_moves in
        let (kept, some_left) = declined-All (λ m. IsLegal b m.word) scored z scored-All in
        search_move-All (IsLegal b) (sort tighter (declined scored))
          (sort-null (declined scored) some_left) (sort-All tighter _ (declined scored) kept)

    -- With draws in range, the hard strategy chooses a legal move, whether it takes a win at once
    -- or not, and none only where there is none.
    pub choose_hard-Answers : (takes_win : Bool) → Answers b (choose_hard fl b draw takes_win)
    unfolding choose_hard
    choose_hard-Answers takes_win =
        let scored = score_moves b b.legal_moves in
        let wins = map (λ (m : ScoredMove). m.word) (kills scored) in
        if_split (Answers b) (null b.legal_moves) (null→nil b.legal_moves) λ some_left.
          if_split (Answers b) (null scored) (λ z. picked some_left)
            λ z.
              if_split (Answers b) (not (null (kills scored)))
                (λ k.
                  if_split (Answers b) takes_win
                    (λ t.
                      pick_text-All (IsLegal b) draw wins d
                        (null-words (kills scored) (ground arith))
                        (words-All (IsLegal b) (kills scored) (kills-All _ scored scored-All)))
                    (λ t. searched z))
                (λ k. searched z)
