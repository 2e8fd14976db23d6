-- ===== src/Bot/Tests.antt =====
-- The strategies on the board of a small game.
use noitu.Prelude.{
  none, ℕ, ◌≡◌, ◌≤◌, ◌<◌, ◌⊎◌, ◌-◌, ◌+◌, ◌/◌, refl, true, false, [], some, max, arith, Text, codes,
  same, same_iff, contains, null, length, ltb, lookup, lookup_or, All, if_split,
}
use noitu.Vietnamese.{fields, normalize, split_fields, push_field, join, is_space}
use noitu.Game.State.{reason_none, Move}
use noitu.Game.Engine.{turn, has_legal_move, legal_moves}
use noitu.Game.Submit.{submit, play, opened}
use noitu.Game.Submit.Outcome.{MayAct}
use noitu.Game.Tests.{ascii, small, ends, p1, game0, b_d}
use noitu.Bot.{
  Board, freeze_board, ScoredMove, score_moves, count_open, remaining_out_degree, choose_medium,
}
use noitu.Bot.Search.{Float}
use noitu.Bot.Hard.{choose_hard}
use noitu.Bot.Choice.{IsLegal}
use noitu.Bot.Winning.{count_below, IsMoveOf, choose_medium_tight, choose_hard_wins}
use noitu.Bot.Fair.{IsIndex, bot_move_accepted, win_leaves_none}

-- Scores with a thousand for zero.
abbrev shifted : Float
shifted = record {
  F = ℕ;
  lt = ltb;
  neg = λ x. 2000 - x;
  neg_inf = 0;
  lose_score = 100;
  lose_at = λ d. 100 - d;
  log_replies = λ n. 1000 + n;
}

abbrev first_of : ℕ → ℕ
first_of n = 0

abbrev board : Board
board = freeze_board small game0

scored_some : null (score_moves board board.legal_moves) ≡ false
unfolding freeze_board score_moves legal_moves lookup_or same contains small opened lookup
scored_some = refl

choose_medium_tight_example :
    (m : ScoredMove) × (choose_medium first_of board ≡ some m.word)
    × IsMoveOf board board.legal_moves m
    × (count_below m.hands_over (score_moves board board.legal_moves)
        < max (length (score_moves board board.legal_moves) / 4) 1)
    × ((count_below 1 (score_moves board board.legal_moves) ≡ 0) ⊎ (m.hands_over ≡ 0))
choose_medium_tight_example = choose_medium_tight board first_of (λ n h. h) scored_some

one_win : count_below 1 (score_moves board board.legal_moves) ≡ 1
unfolding freeze_board score_moves legal_moves lookup_or same contains small opened lookup
    count_below remaining_out_degree count_open
one_win = refl

choose_hard_wins_example :
    (w last : Text) × (choose_hard shifted board first_of true ≡ some w)
    × (board.last_syllable w ≡ some last)
    × (remaining_out_degree board last w ≡ 0)
choose_hard_wins_example =
    choose_hard_wins board first_of (λ n h. h) shifted (rw one_win (omega arith))

abbrev last_of : Text → Text
unfolding lookup
last_of w = elim (lookup w ends) [ none ↦ [] | some (f, l) ↦ l ]

-- What `small` lists under a syllable.
abbrev IsListed : Text → Text → Type 0
IsListed s w =
    (normalize ascii w ≡ some (w, fields w))
    × (2 ≤ length (fields w))
    × (small.resolve w ≡ some w)
    × (small.first_syllable w ≡ some s)
    × (small.last_syllable w ≡ some (last_of w))

small-IsListed : (s : Text) → All (IsListed s) (small.words_starting_with s)
unfolding small lookup lookup_or last_of same normalize fields split_fields push_field is_space join
small-IsListed s =
    if_split (All (IsListed s)) (same (codes "a") s)
      (λ h. rw (← (same_iff (codes "a") s).0 h) ((refl, omega arith, refl, refl, refl), tt))
      λ h.
        if_split (All (IsListed s)) (same (codes "b") s)
          (λ k.
            rw (← (same_iff (codes "b") s).0 k)
              ((refl, omega arith, refl, refl, refl), ((refl, omega arith, refl, refl, refl), tt)))
          λ k.
            if_split (All (IsListed s)) (same (codes "c") s)
              (λ l. rw (← (same_iff (codes "c") s).0 l) ((refl, omega arith, refl, refl, refl), tt))
              (λ l. tt)

small-IsIndex : IsIndex small ascii
small-IsIndex = record { last_of = last_of; syllables_of = fields; listed = small-IsListed }

b_d-IsLegal : IsLegal board b_d
unfolding freeze_board legal_moves lookup_or same contains small opened
b_d-IsLegal = refl

b_d-MayAct : MayAct small ascii game0 p1 b_d 1010
unfolding turn opened
b_d-MayAct = record { playing = refl; on_turn = refl; in_time = omega arith }

bot_move_accepted_example :
    ((submit small ascii game0 p1 b_d 1010).2 ≡ reason_none)
    × ((submit small ascii game0 p1 b_d 1010).1.word ≡ b_d)
bot_move_accepted_example =
    bot_move_accepted small ascii small-IsIndex game0 p1 b_d 1010 b_d-IsLegal b_d-MayAct

abbrev winning : Move
winning = record {
  player = p1;
  typed = b_d;
  word = b_d;
  first = codes "b";
  last = codes "d";
  syllables = 2;
  points = 10;
  parts = [];
  at = 1010;
}

win_leaves_none_example : has_legal_move small (play game0 winning 1010) ≡ false
unfolding remaining_out_degree freeze_board small lookup_or same count_open
win_leaves_none_example = win_leaves_none small game0 winning 1010 refl
