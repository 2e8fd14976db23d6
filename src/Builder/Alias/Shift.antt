-- ===== src/Builder/Alias/Shift.antt =====
-- The tone shift is its own inverse, and moves nothing but the tone.
use mathlib.Core.Path.{subst}
use noitu.Prelude.{
  ℕ, ◌+◌, ◌≤◌, ◌≡◌, refl, sym, ap, ◌∙◌, Bool, true, false, ◌||◌, List, [], ◌∷◌, Option, none, some,
  length, length-map, map, arith, Bool-cases, Option-cases, inl, inr,
}
use noitu.Builder.Alias.{
  Cluster, first_mark, tone, tone_marks, has_rune, is_found, has_letter_mark, drop_rune, without,
  with_mark, is_passed_over, shift_pair, after_cluster, put_pair, shift_from,
}

abbrev pub base_of : Cluster → ℕ
base_of c = c.base

-- How many marks the last two clusters carry.
abbrev pub end_marks : List Cluster → ℕ
end_marks [] = 0
end_marks (c ∷ []) = length c.mods
end_marks (c ∷ (d ∷ [])) = length c.mods + length d.mods
end_marks (c ∷ (d ∷ (e ∷ es))) = end_marks (d ∷ (e ∷ es))

-- The clusters `ds` are those of `cs` with the tone moved, and moving it again gives `cs`.
pub record IsShifted (before : Option ℕ) (cs ds : List Cluster) : Type 0 where
  pub back : shift_from before ds ≡ some cs
  pub bases : map base_of ds ≡ map base_of cs

shift_from_long :
    (before : Option ℕ) (a b c : Cluster) (rest : List Cluster)
    → shift_from before (a ∷ (b ∷ (c ∷ rest)))
      ≡ after_cluster a (shift_from (some a.base) (b ∷ (c ∷ rest)))
unfolding shift_from is_passed_over
shift_from_long before a b c rest = ground arith

-- A pair with one mark, its tone, and that tone moved.
pub record IsPair (a b : Cluster) (pair : Cluster × Cluster) : Type 0 where
  pub back : shift_pair pair.0 pair.1 ≡ some (a, b)
  pub same_first : pair.0.base ≡ a.base
  pub same_second : pair.1.base ≡ b.base
  pub no_letter :
      (has_letter_mark pair.0 || has_letter_mark pair.1) ≡ (has_letter_mark a || has_letter_mark b)

shift_first :
    (x y m : ℕ)
    → has_rune tone_marks m ≡ true
    → shift_pair (record { base = x; mods = m ∷ [] }) (record { base = y; mods = [] })
      ≡ some (record { base = x; mods = [] }, record { base = y; mods = m ∷ [] })
unfolding shift_pair tone first_mark without with_mark drop_rune
shift_first x y m t = ground arith

shift_second :
    (x y n : ℕ)
    → has_rune tone_marks n ≡ true
    → shift_pair (record { base = x; mods = [] }) (record { base = y; mods = n ∷ [] })
      ≡ some (record { base = x; mods = n ∷ [] }, record { base = y; mods = [] })
unfolding shift_pair tone first_mark without with_mark drop_rune
shift_second x y n t = ground arith

no_shift :
    (x y : ℕ) (ms ns : List ℕ)
    → first_mark tone_marks ms ≡ none
    → first_mark tone_marks ns ≡ none
    → shift_pair (record { base = x; mods = ms }) (record { base = y; mods = ns }) ≡ none
unfolding shift_pair tone
no_shift x y ms ns no_first no_second = ground arith

no_tone : (m : ℕ) → has_rune tone_marks m ≡ false → first_mark tone_marks (m ∷ []) ≡ none
unfolding first_mark
no_tone m t = rw t refl

or_false : (b : Bool) → (b || false) ≡ b
or_false true = refl
or_false false = refl

or_pair : Cluster × Cluster → Option (Cluster × Cluster) → Cluster × Cluster
or_pair d none = d
or_pair d (some pair) = pair

-- The two ends of a shift, for a pair known by its equation.
IsPair-known :
    (a b c d : Cluster) (pair : Cluster × Cluster)
    → shift_pair a b ≡ some pair
    → shift_pair a b ≡ some (c, d)
    → IsPair a b (c, d)
    → IsPair a b pair
unfolding or_pair
IsPair-known a b c d pair is known good =
    subst (IsPair a b) (ap (or_pair (c, d)) (sym known ∙ is)) good

shift_pair-IsPair_of :
    (x y : ℕ) (ms ns : List ℕ) (pair : Cluster × Cluster)
    → length ms + length ns ≤ 1
    → shift_pair (record { base = x; mods = ms }) (record { base = y; mods = ns }) ≡ some pair
    → IsPair (record { base = x; mods = ms }) (record { base = y; mods = ns }) pair
unfolding has_letter_mark is_found first_mark
shift_pair-IsPair_of x y [] [] pair le is = absurd (ground (arith, no_shift x y [] [] refl refl))
shift_pair-IsPair_of x y (m ∷ []) [] pair le is = elim (Bool-cases (has_rune tone_marks m)) [
  | inl t ↦ IsPair-known _ _ _ _ pair is (shift_first x y m t) (record {
    back = shift_second x y m t;
    same_first = refl;
    same_second = refl;
    no_letter = sym (or_false _);
  })
  | inr t ↦ absurd (ground (arith, no_shift x y (m ∷ []) [] (no_tone m t) refl))
]
shift_pair-IsPair_of x y [] (n ∷ []) pair le is = elim (Bool-cases (has_rune tone_marks n)) [
  | inl t ↦ IsPair-known _ _ _ _ pair is (shift_second x y n t) (record {
    back = shift_first x y n t;
    same_first = refl;
    same_second = refl;
    no_letter = or_false _;
  })
  | inr t ↦ absurd (ground (arith, no_shift x y [] (n ∷ []) refl (no_tone n t)))
]
shift_pair-IsPair_of x y (m ∷ ms) (n ∷ ns) pair le is = absurd (omega arith)
shift_pair-IsPair_of x y (m ∷ (o ∷ ms)) [] pair le is = absurd (omega arith)
shift_pair-IsPair_of x y [] (m ∷ (o ∷ ms)) pair le is = absurd (omega arith)

shift_pair-IsPair :
    (a b : Cluster) (pair : Cluster × Cluster)
    → length a.mods + length b.mods ≤ 1
    → shift_pair a b ≡ some pair
    → IsPair a b pair
shift_pair-IsPair a b pair le is = shift_pair-IsPair_of a.base b.base a.mods b.mods pair le is

-- A tone is moved in the last pair only.
shift_from_two :
    (before : Option ℕ) (a b : Cluster) (ds : List Cluster)
    → shift_from before (a ∷ (b ∷ [])) ≡ some ds
    → (pair : Cluster × Cluster) × (shift_pair a b ≡ some pair)
      × (ds ≡ put_pair [] pair)
      × (is_passed_over before a b [] ≡ false)
unfolding shift_from after_cluster
shift_from_two before a b ds is = elim (Bool-cases (is_passed_over before a b [])) [
  | inl over ↦ absurd (ground arith)
  | inr on ↦ elim (Option-cases (shift_pair a b)) [
    | inl n ↦ absurd (ground arith)
    | inr (pair, found) ↦ (pair, found, ground arith, on)
  ]
]

put_back :
    (before : Option ℕ) (a b c d : Cluster)
    → is_passed_over before a b [] ≡ false
    → IsPair a b (c, d)
    → shift_from before (c ∷ (d ∷ [])) ≡ some (a ∷ (b ∷ []))
unfolding shift_from is_passed_over put_pair
put_back before a b c d on pair =
    let base_first = pair.same_first in
    let base_second = pair.same_second in
    let letters = pair.no_letter in let back = pair.back in ground arith

-- The clusters after one that the shift leaves alone, and their number.
shift_from_later :
    (before : Option ℕ) (a b c : Cluster) (rest ds : List Cluster)
    → shift_from before (a ∷ (b ∷ (c ∷ rest))) ≡ some ds
    → (es : List Cluster) × (shift_from (some a.base) (b ∷ (c ∷ rest)) ≡ some es) × (ds ≡ a ∷ es)
unfolding after_cluster
shift_from_later before a b c rest ds is =
    elim (Option-cases (shift_from (some a.base) (b ∷ (c ∷ rest)))) [
      | inl n ↦ absurd (ground (arith, shift_from_long before a b c rest))
      | inr (es, found) ↦ (es, found, ground (arith, shift_from_long before a b c rest))
    ]

put_front :
    (before : Option ℕ) (a : Cluster) (cs es : List Cluster)
    → 2 ≤ length es
    → shift_from (some a.base) es ≡ some cs
    → shift_from before (a ∷ es) ≡ some (a ∷ cs)
unfolding after_cluster
put_front before a cs [] le is = absurd (omega arith)
put_front before a cs (x ∷ []) le is = absurd (omega arith)
put_front before a cs (x ∷ (y ∷ es)) le is =
    shift_from_long before a x y es ∙ ap (after_cluster a) is

-- Where the last two clusters carry at most one mark, a tone shift keeps the base letters, and
-- shifting again gives the clusters as they were.
pub shift_from-IsShifted :
    (cs : List Cluster) (before : Option ℕ) (ds : List Cluster)
    → end_marks cs ≤ 1
    → shift_from before cs ≡ some ds
    → IsShifted before cs ds
unfolding shift_from put_pair
shift_from-IsShifted [] before ds le is = absurd (ground arith)
shift_from-IsShifted (a ∷ []) before ds le is = absurd (ground arith)
shift_from-IsShifted (a ∷ (b ∷ [])) before ds le is =
    let (pair, found, ends, on) = shift_from_two before a b ds is in
    let known = shift_pair-IsPair a b pair le found in
    subst (IsShifted before (a ∷ (b ∷ []))) (sym ends) (record {
      back = put_back before a b pair.0 pair.1 on known;
      bases = rw known.same_first (rw known.same_second refl);
    })
shift_from-IsShifted (a ∷ (b ∷ (c ∷ rest))) before ds le is =
    let (es, found, ends) = shift_from_later before a b c rest ds is in
    let later = shift_from-IsShifted (b ∷ (c ∷ rest)) (some a.base) es le found in
    subst (IsShifted before (a ∷ (b ∷ (c ∷ rest)))) (sym ends) (record {
      back =
          put_front before a _ es
            (omega (arith, length-map base_of es, length-map base_of rest, ap length later.bases))
            later.back;
      bases = ap (λ bs. a.base ∷ bs) later.bases;
    })
