-- ===== src/Store/Openings.antt =====
-- The opening word that a game starts on leaves enough words to answer it.
use noitu.Prelude.{
  ℕ, zero, suc, ◌+◌, ◌-◌, ◌/◌, ◌≤◌, ◌<◌, ◌≡◌, ◌⊎◌, refl, Bool, true, false, none, some, arith,
  length, get_or, ltb, ◌==◌, if◌then◌else◌, if_split, inl, inr,
}
use noitu.Store.{Store, no_opener, search_from, pick_opening_word}

-- Where the search stops: below it the test failed, and there it holds, unless that is the top.
record Boundary (f : ℕ → Bool) (top r : ℕ) : Type 0 where
  inside : r ≤ top
  below : (r ≡ 0) ⊎ (f (r - 1) ≡ false)
  above : (r ≡ top) ⊎ (f r ≡ true)

search_from-Boundary :
    (fuel : ℕ) (f : ℕ → Bool) (top i j : ℕ)
    → i ≤ j
    → j ≤ top
    → j ≤ i + fuel
    → (i ≡ 0) ⊎ (f (i - 1) ≡ false)
    → (j ≡ top) ⊎ (f j ≡ true)
    → Boundary f top (search_from fuel f i j)
unfolding search_from
search_from-Boundary zero f top i j h t few b a =
    let met : j ≡ i = omega arith in
    record { inside = omega arith; below = b; above = rw (← met) a }
search_from-Boundary (suc fuel) f top i j h t few b a =
    if_split (Boundary f top) (ltb i j)
      (λ on.
        if_split (Boundary f top) (f ((i + j) / 2))
          (λ holds.
            search_from-Boundary fuel f top i ((i + j) / 2) (omega arith) (omega arith)
              (ground arith) b (inr holds))
          (λ fails.
            search_from-Boundary fuel f top ((i + j) / 2 + 1) j (ground arith) t (omega arith)
              (inr (after ((i + j) / 2) fails)) a))
      (λ done.
        let met : j ≡ i = ground arith in
        record { inside = omega arith; below = b; above = rw (← met) a })
  where
    after : (k : ℕ) → f k ≡ false → f (k + 1 - 1) ≡ false
    after k fails = let same_as : k + 1 - 1 ≡ k = omega arith in rw same_as fails

-- The openers stand with the most answered syllables first.
abbrev pub IsDescending : Store → Type 0
IsDescending s =
    (i k : ℕ)
    → i ≤ k
    → k < length s.openers
    → (get_or s.openers k no_opener).last_out_degree
      ≤ (get_or s.openers i no_opener).last_out_degree

-- With the openers ordered by the answers to their last syllable, most first, draws in range, and
-- a first opener with the wanted number of answers, an opening word is picked: it is one of the
-- openers, and its last syllable has at least the wanted number of answers.
pub pick_opening_word_answered :
    (s : Store) (min_out_degree : ℕ) (draw : ℕ → ℕ)
    → IsDescending s
    → ((n : ℕ) → 0 < n → draw n < n)
    → 0 < length s.openers
    → min_out_degree ≤ (get_or s.openers 0 no_opener).last_out_degree
    → (i : ℕ) × (i < length s.openers)
      × (pick_opening_word s min_out_degree draw ≡ some (get_or s.openers i no_opener).word)
      × (min_out_degree ≤ (get_or s.openers i no_opener).last_out_degree)
unfolding pick_opening_word
pick_opening_word_answered s min_out_degree draw down d some_left enough =
    picked (search_from (length s.openers) short 0 (length s.openers)) (
      search_from-Boundary (length s.openers) short (length s.openers) 0 (length s.openers)
        (omega arith) (omega arith) (omega arith) (inl refl) (inl refl))
  where
    short : ℕ → Bool
    short i = ltb (get_or s.openers i no_opener).last_out_degree min_out_degree

    picked :
        (n : ℕ)
        → Boundary short (length s.openers) n
        → (i : ℕ) × (i < length s.openers)
          × ((if n == 0 then none else some (get_or s.openers (draw n) no_opener).word)
              ≡ some (get_or s.openers i no_opener).word)
          × (min_out_degree ≤ (get_or s.openers i no_opener).last_out_degree)
    picked zero b = elim b.above [
      | inl none_left ↦ absurd (omega (arith, none_left))
      | inr holds ↦ absurd (ground arith)
    ]
    picked (suc n) b = elim b.below [
      | inl z ↦ absurd (omega (arith, z))
      | inr above ↦
          let lt = d (suc n) (omega arith) in
          let same_as : suc n - 1 ≡ n = omega arith in
          let least : min_out_degree ≤ (get_or s.openers n no_opener).last_out_degree =
            ground arith in
          (
            draw (suc n),
            omega (arith, lt, b.inside),
            ground arith,
            omega
                (arith, least, down (draw (suc n)) n (omega (arith, lt)) (omega (arith, b.inside))),
          )
    ]
