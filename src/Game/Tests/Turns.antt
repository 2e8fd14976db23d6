-- ===== src/Game/Tests/Turns.antt =====
-- Turns that run out, players who leave, and the table at the end.
use noitu.Prelude.{
  ◌≡◌, ◌≢◌, ◌⊎◌, ◌+◌, refl, true, false, [], ◌∷◌, reverse, length, arith, Text, codes, same,
  same_iff, contains, lookup_or,
}
use noitu.Game.Engine.{
  Engine, turn, expire, resign, has_legal_move, some_unused, advance, eliminate, take_out, mark_out,
  crown, index_of, index_from, advance_from, after_resign,
}
use noitu.Game.Engine.Invariant.{IsValid}
use noitu.Game.Engine.Clock.{resign-IsValid}
use noitu.Game.Submit.{opened}
use noitu.Game.Submit.Valid.{opened-IsValid}
use noitu.Game.Report.{standings}
use noitu.Game.Report.Table.{names, RankedFrom, standings_correct}
use noitu.Game.Run.Ending.{expire_hands_over, ticks, ticks_end}
use noitu.Game.Tests.{small, p1, p2, game0, game0-IsValid}

abbrev p3 : Text
p3 = codes "p3"

-- Three players in front of a syllable that starts no word.
abbrev stuck0 : Engine
stuck0 = opened (p1 ∷ p2 ∷ p3 ∷ []) (codes "b d") (codes "d") 100 1000

stuck0-IsValid : IsValid stuck0
unfolding contains same
stuck0-IsValid =
    opened-IsValid (p1 ∷ p2 ∷ p3 ∷ []) (codes "b d") (codes "d") 100 1000 (omega arith)
      (refl, (refl, (refl, tt)))

stuck0_dead : has_legal_move small stuck0 ≡ false
unfolding has_legal_move some_unused lookup_or same small opened
stuck0_dead = refl

expire_hands_over_example :
    ((expire small game0 1200).over ≡ true)
    ⊎ ((has_legal_move small (expire small game0 1200) ≡ true)
        × ((expire small game0 1200).deadline ≡ 1200 + 100))
unfolding opened
expire_hands_over_example = expire_hands_over small game0 1200 game0-IsValid refl

ticks_end_example : (ticks small 1 game0).over ≡ true
unfolding opened
ticks_end_example = ticks_end small 1 game0 game0-IsValid (omega arith)

abbrev ended : Engine
ended = (resign small game0 p1 1010).0

ended-IsValid : IsValid ended
ended-IsValid = resign-IsValid small game0 p1 1010 game0-IsValid

ended_over : ended.over ≡ true
unfolding resign eliminate index_of index_from take_out crown mark_out after_resign advance
    advance_from same turn opened
ended_over = refl

ended_named : ended.winner ≡ p2
unfolding resign eliminate index_of index_from take_out crown mark_out after_resign advance
    advance_from same turn opened
ended_named = refl

p2_is_named : ended.winner ≢ []
p2_is_named h = absurd (cc (h, ended_named))

standings_correct_example :
    (names (standings ended) ≡ ended.winner ∷ reverse ended.out_order)
    × RankedFrom 1 (standings ended)
    × (length (standings ended) ≡ length ended.players)
standings_correct_example = standings_correct ended ended-IsValid ended_over p2_is_named

ended_players : ended.players ≡ p1 ∷ p2 ∷ []
unfolding resign eliminate index_of index_from take_out crown mark_out after_resign advance
    advance_from same turn opened
ended_players = refl

p2_waits : p2 ≢ turn game0
unfolding turn opened same
p2_waits h = absurd (cc ((same_iff p2 p1).1 h))
