-- ===== src/Game/Score.antt =====
-- The points of engine.go: `pointsFor` and its terms.
-- `int` and `int64` hold every value here: a word scores 40 points at most in the first two terms
-- and 25 in the last two, and 10 * turnLimit is below 2^63 for a turn limit of 29 years.
pub mod Cap
pub mod Rarity
use noitu.Prelude.{
  ℕ, zero, suc, ◌+◌, ◌-◌, ◌*◌, ◌/◌, min, max, Bool, Option, none, some, List, [], ◌∷◌, reverse, ltb,
  leb, ◌==◌, if◌then◌else◌, keep,
}
use noitu.Vietnamese.{min_syllables}
use noitu.Game.State.{
  PointKind, PointPart, kind_base, kind_chain, kind_syllables, kind_speed, kind_rarity,
}

abbrev pub base_points : ℕ
base_points = 10

abbrev pub chain_bonus : ℕ
chain_bonus = 2

abbrev pub chain_bonus_words : ℕ
chain_bonus_words = 15

abbrev pub syllable_bonus : ℕ
syllable_bonus = 5

abbrev pub speed_bonus : ℕ
speed_bonus = 10

abbrev pub rarity_bonus : ℕ
rarity_bonus = 15

abbrev pub rarity_halving_penalty : ℕ
rarity_halving_penalty = 3

abbrev pub max_points_per_word : ℕ
max_points_per_word = 100

unfoldable pub sum_parts : List PointPart → ℕ
sum_parts [] = 0
sum_parts (p ∷ ps) = p.value + sum_parts ps

-- `bits.Len` of a number below 2^fuel.
unfoldable pub bit_len_from : ℕ → ℕ → ℕ
bit_len_from zero n = 0
bit_len_from (suc f) n = let rest = bit_len_from f (n / 2) in if n == 0 then 0 else suc rest

-- `bits.Len` of a 64-bit word.
unfoldable pub bit_len : ℕ → ℕ
bit_len n = bit_len_from 64 n

unfoldable pub speed_points : ℕ → ℕ → ℕ → ℕ
speed_points deadline turn_limit now =
    let remaining = deadline - now in
    if leb deadline now
    then 0
    else speed_bonus * (if ltb turn_limit remaining then turn_limit else remaining) / turn_limit

-- The terms after `OutDegree` answered; `max(_, 0)` is the subtraction that stops at 0.
unfoldable pub rarity_points : Option ℕ → ℕ
rarity_points none = 0
rarity_points (some options) =
    if ltb options 1
    then 0
    else let halvings = bit_len options - 1 in rarity_bonus - rarity_halving_penalty * halvings

-- The loop that trims the parts, last one first: the list is given in that order.
unfoldable pub trim : List PointPart → ℕ → List PointPart
trim [] overflow = []
trim (p ∷ ps) overflow =
    let cut = min p.value overflow in
    let rest = trim ps (overflow - cut) in
    if ltb 0 overflow then record p { value = p.value - cut } ∷ rest else p ∷ ps

unfoldable pub contributes : PointPart → Bool
contributes p = ltb 0 p.value

-- The five terms before the cap. A submitted word has two syllables at least.
unfoldable pub point_terms : ℕ → ℕ → ℕ → ℕ → List PointPart
point_terms syllables chain_length speed rarity =
    record { kind = kind_base; value = base_points }
    ∷ record { kind = kind_chain; value = chain_bonus * min chain_length chain_bonus_words }
    ∷ record { kind = kind_syllables; value = syllable_bonus * (syllables - min_syllables) }
    ∷ record { kind = kind_speed; value = speed }
    ∷ record { kind = kind_rarity; value = rarity }
    ∷ []

unfoldable pub cap_parts : List PointPart → List PointPart
cap_parts parts =
    let overflow = sum_parts parts - max_points_per_word in
    keep contributes (reverse (trim (reverse parts) overflow))

unfoldable pub points_of : ℕ → ℕ → ℕ → ℕ → ℕ × List PointPart
points_of syllables chain_length speed rarity =
    let parts = cap_parts (point_terms syllables chain_length speed rarity) in
    (sum_parts parts, parts)
