-- ===== src/Game/Tests/Words.antt =====
-- Words that are accepted, refused and late.
use noitu.Prelude.{◌≡◌, refl, List, [], ◌∷◌, some, arith, Text, codes, same, contains, lookup}
use noitu.Vietnamese.{normalize, fields, split_fields, push_field, join, is_space}
use noitu.Game.State.{reason_none, not_your_turn}
use noitu.Game.Engine.{turn}
use noitu.Game.Engine.Invariant.{IsValid}
use noitu.Game.Submit.{Legal, move_of, play, submit, opened}
use noitu.Game.Submit.Rules.{IsWord}
use noitu.Game.Submit.Outcome.{MayAct, Explains, submit-Explains, submit_accepts}
use noitu.Game.Submit.Effect.{IsPlayed, IsFair, submit_effect}
use noitu.Game.Run.{Input, word, clock, leave, run}
use noitu.Game.Run.Chain.{IsChain, game_correct}
use noitu.Game.Tests.{ascii, small, p1, p2, game0, new_starts, game0-IsValid, b_c}

abbrev inputs : List Input
inputs = word p1 b_c 1010 ∷ word p2 (codes "c b") 1020 ∷ clock 1030 ∷ leave p1 1040 ∷ []

game_correct_example :
    (canonical : Text) × (small.resolve (codes "a b") ≡ some canonical)
    × IsValid (run small ascii game0 inputs)
    × IsChain small canonical (run small ascii game0 inputs)
game_correct_example =
    game_correct small ascii (p1 ∷ p2 ∷ []) (codes "a b") 100 1000 inputs new_starts

abbrev legal_b_c : Legal
legal_b_c = record { canonical = b_c; first = codes "b"; last = codes "c"; count = 2 }

b_c-MayAct : MayAct small ascii game0 p1 b_c 1010
unfolding turn opened
b_c-MayAct = record { playing = refl; on_turn = refl; in_time = omega arith }

b_c-IsWord : IsWord small ascii game0 b_c legal_b_c
unfolding normalize fields split_fields push_field join is_space contains lookup same small opened
b_c-IsWord = record {
  normalized = b_c;
  syllables = codes "b" ∷ codes "c" ∷ [];
  normalizes = refl;
  enough = omega arith;
  counted = refl;
  resolves = refl;
  starts = refl;
  links = refl;
  fresh = refl;
  ends = refl;
}

submit_accepts_example : submit small ascii game0 p1 b_c 1010 ≡ (
  play game0 (move_of small game0 p1 b_c 1010 legal_b_c) 1010,
  move_of small game0 p1 b_c 1010 legal_b_c,
  reason_none,
)
submit_accepts_example =
    submit_accepts small ascii game0 p1 b_c 1010 legal_b_c b_c-MayAct b_c-IsWord

b_c_accepted : (submit small ascii game0 p1 b_c 1010).2 ≡ reason_none
b_c_accepted =
    rw (submit_accepts small ascii game0 p1 b_c 1010 legal_b_c b_c-MayAct b_c-IsWord) refl

submit_effect_example :
    IsFair small game0 p1 b_c (submit small ascii game0 p1 b_c 1010).1
    × IsPlayed game0
        (submit small ascii game0 p1 b_c 1010).1
        1010
        (submit small ascii game0 p1 b_c 1010).0
submit_effect_example = submit_effect small ascii game0 p1 b_c 1010 game0-IsValid b_c_accepted

submit-Explains_example :
    Explains small ascii game0 p1 b_c 1010 (submit small ascii game0 p1 b_c 1010).2
submit-Explains_example = submit-Explains small ascii game0 p1 b_c 1010

out_of_turn : (submit small ascii game0 p2 b_c 1010).2 ≡ not_your_turn
unfolding submit turn same opened
out_of_turn = refl
