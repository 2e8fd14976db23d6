-- ===== src/Game/Score/Cap.antt =====
-- The parts of a word's points: what the cap takes and from which of them.
use noitu.Prelude.{
  ℕ, ◌+◌, ◌-◌, ◌*◌, ◌≤◌, ◌<◌, min, ◌≡◌, refl, ◌∙◌, ap, true, List, [], ◌∷◌, ◌++◌, reverse, arith,
  keep, ltb, All, Bool-cases, inl, inr,
}
use mathlib.Core.List.{reverse-append}
use noitu.Game.State.{PointPart, kind_base, kind_chain, kind_syllables, kind_speed, kind_rarity}
use noitu.Vietnamese.{min_syllables}
use noitu.Game.Score.{
  sum_parts, trim, contributes, point_terms, cap_parts, points_of, base_points, chain_bonus,
  chain_bonus_words, syllable_bonus,
}

sum_parts-append : (ps qs : List PointPart) → sum_parts (ps ++ qs) ≡ sum_parts ps + sum_parts qs
unfolding sum_parts
sum_parts-append [] qs = omega arith
sum_parts-append (p ∷ ps) qs = omega (arith, sum_parts-append ps qs)

sum_parts-reverse : (ps : List PointPart) → sum_parts (reverse ps) ≡ sum_parts ps
unfolding sum_parts
sum_parts-reverse [] = refl
sum_parts-reverse (p ∷ ps) =
    ap sum_parts (reverse-append (p ∷ []) ps)
    ∙ omega (arith, sum_parts-append (reverse ps) (p ∷ []), sum_parts-reverse ps)

sum_parts-trim : (ps : List PointPart) (o : ℕ) → sum_parts (trim ps o) ≡ sum_parts ps - o
unfolding sum_parts trim
sum_parts-trim [] o = omega arith
sum_parts-trim (p ∷ ps) o = ground (arith, sum_parts-trim ps (o - min p.value o))

sum_parts-keep : (ps : List PointPart) → sum_parts (keep contributes ps) ≡ sum_parts ps
unfolding sum_parts contributes
sum_parts-keep [] = refl
sum_parts-keep (p ∷ ps) = ground (arith, sum_parts-keep ps)

keep-contributes : (ps : List PointPart) → All (λ p. 0 < p.value) (keep contributes ps)
unfolding contributes
keep-contributes [] = tt
keep-contributes (p ∷ ps) = elim (Bool-cases (ltb 0 p.value)) [
  | inl e ↦ rw e (ground arith, keep-contributes ps)
  | inr e ↦ rw e (keep-contributes ps)
]

-- A word scores the sum of its five terms, or 100 points if they come to more.
pub points_of-min :
    (n c s r : ℕ) → (points_of n c s r).0 ≡ min (sum_parts (point_terms n c s r)) 100
unfolding points_of cap_parts
points_of-min n c s r =
    let terms = point_terms n c s r in
    let o = sum_parts terms - 100 in
    omega (
      arith,
      sum_parts-keep (reverse (trim (reverse terms) o)),
      sum_parts-reverse (trim (reverse terms) o),
      sum_parts-trim (reverse terms) o,
      sum_parts-reverse terms,
    )

-- The reported parts of a score add up to it, and each of them is positive.
pub points_of-parts :
    (n c s r : ℕ)
    → (sum_parts (points_of n c s r).1 ≡ (points_of n c s r).0)
      × All (λ p. 0 < p.value) (points_of n c s r).1
unfolding points_of cap_parts
points_of-parts n c s r = (
  refl,
  keep-contributes
      (reverse (trim (reverse (point_terms n c s r)) (sum_parts (point_terms n c s r) - 100))),
)

trim-zero : (ps : List PointPart) → trim ps 0 ≡ ps
unfolding trim
trim-zero [] = refl
trim-zero (p ∷ ps) = refl

-- Parts that hold the whole overflow shield the ones behind them.
trim-append :
    (ps qs : List PointPart) (o : ℕ) → o ≤ sum_parts ps → trim (ps ++ qs) o ≡ trim ps o ++ qs
unfolding trim sum_parts
trim-append [] qs o h = let z : o ≡ 0 = omega arith in rw z (trim-zero qs)
trim-append (p ∷ ps) qs o h =
    let ih = trim-append ps qs (o - min p.value o) (omega arith) in ground (arith, ih)

-- The first two terms, base and chain, in the order of the trimming loop.
abbrev shielded : ℕ → List PointPart
shielded c =
    record { kind = kind_chain; value = chain_bonus * min c chain_bonus_words }
    ∷ record { kind = kind_base; value = base_points }
    ∷ []

-- Where the chain is not empty, the cap leaves the base and chain terms whole: they are the first
-- two parts of every score, whatever the other terms are.
pub points_of-base_chain :
    (n c s r : ℕ)
    → 0 < c
    → (rest : List PointPart) × ((points_of n c s r).1
        ≡ record { kind = kind_base; value = base_points }
          ∷ record { kind = kind_chain; value = chain_bonus * min c chain_bonus_words }
          ∷ rest)
unfolding points_of cap_parts point_terms sum_parts contributes
points_of-base_chain n c s r pos =
    let open_terms : List PointPart =
      record { kind = kind_rarity; value = r }
      ∷ record { kind = kind_speed; value = s }
      ∷ record { kind = kind_syllables; value = syllable_bonus * (n - min_syllables) }
      ∷ [] in
    let o = sum_parts (point_terms n c s r) - 100 in
    let split = trim-append open_terms (shielded c) o (omega arith) in
    let turned = reverse-append (trim open_terms o) (shielded c) in
    let paid : ltb 0 (chain_bonus * min c chain_bonus_words) ≡ true = ground arith in
    (keep contributes (reverse (trim open_terms o)), rw (split, turned, paid) refl)
