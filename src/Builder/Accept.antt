-- ===== src/Builder/Accept.antt =====
-- server/cmd/build-dictionary/filter.go: accept and usesVietnameseAlphabet. The Unicode tables and
-- the decomposition NFD are parameters.
use mathlib.Core.Path.{subst}
use noitu.Prelude.{
  ℕ, ◌≤◌, ◌≡◌, refl, Bool, true, false, not, ◌&&◌, ◌||◌, List, [], ◌∷◌, Option, none, some, Text,
  codes, length, leb, ◌==◌, if◌then◌else◌, if_split, opt_split, arith, ◌⊎◌, inl, inr, sym,
}
use noitu.Vietnamese.{Unicode, normalize, has_enough_syllables}
use noitu.Builder.Syllable.{is_vietnamese_syllable}

pub record Letters : Type 0 where
  pub nfd : Text → Text
  pub is_digit : ℕ → Bool
  pub is_punct : ℕ → Bool
  pub is_symbol : ℕ → Bool
  pub is_letter : ℕ → Bool
  -- `unicode.Mn`.
  pub is_mark : ℕ → Bool

pub data Rejection : Type 0 where
  reject_empty reject_too_short reject_digit reject_punct : Rejection
  reject_non_vietnam reject_not_vietnamese : Rejection

pub data Accepted : Type 0 where
  accepted : Text → List Text → Accepted
  rejected : Rejection → Accepted

abbrev pub vietnamese_base_letters : Text
vietnamese_base_letters = codes "abcdeghiklmnopqrstuvxyđ"

-- `strings.ContainsRune`.
unfoldable pub contains_rune : Text → ℕ → Bool
contains_rune [] r = false
contains_rune (c ∷ cs) r = c == r || contains_rune cs r

module _ (l : Letters) where
  -- The loop of `usesVietnameseAlphabet`, with `sawLetter`.
  unfoldable pub letters_only : Bool → Text → Bool
  letters_only saw [] = saw
  letters_only saw (r ∷ rs) =
      let skip = letters_only saw rs in
      let next = letters_only true rs in
      if l.is_mark r || r == 32
      then skip
      else if not (contains_rune vietnamese_base_letters r)
      then false
      else next

  unfoldable pub uses_vietnamese_alphabet : Text → Bool
  uses_vietnamese_alphabet word = letters_only false (l.nfd word)

  -- The loop over the runes of the word.
  unfoldable pub bad_rune : Text → Option Rejection
  bad_rune [] = none
  bad_rune (r ∷ rs) =
      let later = bad_rune rs in
      if r == 32
      then later
      else if l.is_digit r
      then some reject_digit
      else if l.is_punct r || l.is_symbol r
      then some reject_punct
      else if not (l.is_letter r)
      then some reject_punct
      else later

  unfoldable pub all_syllables : List Text → Bool
  all_syllables [] = true
  all_syllables (s ∷ ss) =
      let rest = all_syllables ss in if is_vietnamese_syllable l.nfd s then rest else false

  -- `accept` once the entry is normalized.
  unfoldable pub accept_word : Text → List Text → Accepted
  accept_word word syllables =
      let spelled : Accepted =
        if not (uses_vietnamese_alphabet word)
        then rejected reject_non_vietnam
        else if all_syllables syllables
        then accepted word syllables
        else rejected reject_non_vietnam in
      let read : Accepted = elim (bad_rune word) [
        | none ↦ spelled
        | some reason ↦ rejected reason
      ] in
      if not (has_enough_syllables syllables) then rejected reject_too_short else read

  unfoldable pub accept : Unicode → Text → Accepted
  accept u raw = elim (normalize u raw) [
    | none ↦ rejected reject_empty
    | some (word, syllables) ↦ accept_word word syllables
  ]

  -- Whether a rune may stand in a word.
  abbrev pub is_word_rune : ℕ → Bool
  is_word_rune r =
      r == 32 || (l.is_letter r && not (l.is_digit r || (l.is_punct r || l.is_symbol r)))

  abbrev pub word_runes : Text → Bool
  word_runes [] = true
  word_runes (r ∷ rs) = is_word_rune r && word_runes rs

  abbrev pub has_digit : Text → Bool
  has_digit [] = false
  has_digit (r ∷ rs) = (l.is_digit r && not (r == 32)) || has_digit rs

  -- What an answer to a normalized entry says of it.
  abbrev pub Says : Text → List Text → Accepted → Type 0
  Says word syllables (accepted w ss) =
      (2 ≤ length syllables)
      × (word_runes word ≡ true)
      × (uses_vietnamese_alphabet word ≡ true)
      × (all_syllables syllables ≡ true)
      × (w ≡ word)
      × (ss ≡ syllables)
  Says word syllables (rejected reject_empty) = ⊥
  Says word syllables (rejected reject_too_short) = length syllables ≤ 1
  Says word syllables (rejected reject_digit) = has_digit word ≡ true
  Says word syllables (rejected reject_punct) = word_runes word ≡ false
  Says word syllables (rejected reject_non_vietnam) =
      (uses_vietnamese_alphabet word && all_syllables syllables) ≡ false
  Says word syllables (rejected reject_not_vietnamese) = ⊥

  -- What an answer says of a raw entry.
  abbrev pub Tells : Unicode → Text → Accepted → Type 0
  Tells u raw answer =
      ((answer ≡ rejected reject_empty) × (normalize u raw ≡ none))
      ⊎ ((n : Text × List Text) × (normalize u raw ≡ some n) × Says n.0 n.1 answer)

  bad_rune-clean : (word : Text) → bad_rune word ≡ none → word_runes word ≡ true
  unfolding bad_rune
  bad_rune-clean [] h = refl
  bad_rune-clean (r ∷ rs) h = ground (arith, bad_rune-clean rs)

  bad_rune_digit : (word : Text) → bad_rune word ≡ some reject_digit → has_digit word ≡ true
  unfolding bad_rune
  bad_rune_digit [] h = ground arith
  bad_rune_digit (r ∷ rs) h = ground (arith, bad_rune_digit rs)

  bad_rune_punct : (word : Text) → bad_rune word ≡ some reject_punct → word_runes word ≡ false
  unfolding bad_rune
  bad_rune_punct [] h = ground arith
  bad_rune_punct (r ∷ rs) h = ground (arith, bad_rune_punct rs)

  bad_rune_kind :
      (word : Text) (why : Rejection)
      → bad_rune word ≡ some why
      → (why ≡ reject_digit) ⊎ (why ≡ reject_punct)
  unfolding bad_rune
  bad_rune_kind [] why h = ground arith
  bad_rune_kind (r ∷ rs) why h = ground (arith, bad_rune_kind rs why)

  bad_rune-Says :
      (word : Text) (syllables : List Text) (why : Rejection)
      → bad_rune word ≡ some why
      → Says word syllables (rejected why)
  bad_rune-Says word syllables why h = elim (bad_rune_kind word why h) [
    | inl is ↦
        subst (λ (x : Rejection). Says word syllables (rejected x)) (sym is)
          (bad_rune_digit word (subst (λ (x : Rejection). bad_rune word ≡ some x) is h))
    | inr is ↦
        subst (λ (x : Rejection). Says word syllables (rejected x)) (sym is)
          (bad_rune_punct word (subst (λ (x : Rejection). bad_rune word ≡ some x) is h))
  ]

  accept_word-Says :
      (word : Text) (syllables : List Text) → Says word syllables (accept_word word syllables)
  unfolding accept_word has_enough_syllables
  accept_word-Says word syllables =
      if_split (Says word syllables) (not (leb 2 (length syllables))) (λ few. ground arith)
        λ enough.
          opt_split (Says word syllables) (bad_rune word)
            (λ clean.
              if_split (Says word syllables) (not (uses_vietnamese_alphabet word))
                (λ foreign. ground arith)
                λ native.
                  if_split (Says word syllables) (all_syllables syllables)
                    (λ shaped.
                      (ground arith, bad_rune-clean word clean, ground arith, shaped, refl, refl))
                    (λ odd. ground arith))
            (λ why bad. bad_rune-Says word syllables why bad)

  -- What accept answers tells what held: the entry did not normalize, or its normal form was
  -- accepted as it is, with two syllables or more, of word runes only, in the alphabet and all of
  -- Vietnamese shape; or it had one syllable at most, or a digit, or a rune that is no word rune,
  -- or a letter outside the alphabet or a syllable of another shape.
  pub accept-Tells : (u : Unicode) (raw : Text) → Tells u raw (accept u raw)
  unfolding accept
  accept-Tells u raw =
      opt_split (Tells u raw) (normalize u raw) (λ n. inl (refl, n))
        (λ n is. inr (n, is, accept_word-Says n.0 n.1))
