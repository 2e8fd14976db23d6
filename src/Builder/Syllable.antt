-- ===== src/Builder/Syllable.antt =====
-- server/cmd/build-dictionary/syllable.go: what a Vietnamese syllable is made of. The source sorts
-- its tables by length at init; only what they contain is asked here.
use mathlib.Core.Path.{subst}
use noitu.Prelude.{
  ℕ, ◌≡◌, refl, Bool, true, false, ◌&&◌, ◌||◌, List, [], ◌∷◌, ◌++◌, Option, none, some, Text, codes,
  contains, same, same_iff, same_refl, leb, ◌==◌, null, if◌then◌else◌, opt_split, sym, arith,
  Option-cases, Bool-cases, inl, inr,
}

abbrev pub vietnamese_onsets : List Text
vietnamese_onsets =
    codes "ngh"
    ∷ codes "ng"
    ∷ codes "nh"
    ∷ codes "ch"
    ∷ codes "gh"
    ∷ codes "gi"
    ∷ codes "kh"
    ∷ codes "ph"
    ∷ codes "qu"
    ∷ codes "th"
    ∷ codes "tr"
    ∷ codes "b"
    ∷ codes "c"
    ∷ codes "d"
    ∷ codes "đ"
    ∷ codes "g"
    ∷ codes "h"
    ∷ codes "k"
    ∷ codes "l"
    ∷ codes "m"
    ∷ codes "n"
    ∷ codes "p"
    ∷ codes "r"
    ∷ codes "s"
    ∷ codes "t"
    ∷ codes "v"
    ∷ codes "x"
    ∷ []

abbrev pub vietnamese_codas : List Text
vietnamese_codas =
    codes "ng"
    ∷ codes "nh"
    ∷ codes "ch"
    ∷ codes "c"
    ∷ codes "m"
    ∷ codes "n"
    ∷ codes "p"
    ∷ codes "t"
    ∷ codes "i"
    ∷ codes "o"
    ∷ codes "u"
    ∷ codes "y"
    ∷ []

abbrev pub vietnamese_nuclei : List Text
vietnamese_nuclei =
    codes "uye"
    ∷ codes "uya"
    ∷ codes "uyu"
    ∷ codes "oai"
    ∷ codes "oay"
    ∷ codes "uoi"
    ∷ codes "uou"
    ∷ codes "ieu"
    ∷ codes "yeu"
    ∷ codes "uai"
    ∷ codes "uay"
    ∷ codes "ai"
    ∷ codes "ao"
    ∷ codes "au"
    ∷ codes "ay"
    ∷ codes "eo"
    ∷ codes "eu"
    ∷ codes "ia"
    ∷ codes "ie"
    ∷ codes "iu"
    ∷ codes "oa"
    ∷ codes "oe"
    ∷ codes "oi"
    ∷ codes "oo"
    ∷ codes "ua"
    ∷ codes "ue"
    ∷ codes "ui"
    ∷ codes "uo"
    ∷ codes "uu"
    ∷ codes "uy"
    ∷ codes "ya"
    ∷ codes "ye"
    ∷ codes "yu"
    ∷ codes "a"
    ∷ codes "e"
    ∷ codes "i"
    ∷ codes "o"
    ∷ codes "u"
    ∷ codes "y"
    ∷ []

unfoldable pub is_combining_mark : ℕ → Bool
is_combining_mark r = leb 768 r && leb r 879

-- The runes of a decomposed text that `stripDiacritics` keeps.
unfoldable pub drop_marks : Text → Text
drop_marks [] = []
drop_marks (r ∷ rs) = let kept = drop_marks rs in if is_combining_mark r then kept else r ∷ kept

-- `strings.HasPrefix` and the slice after the prefix.
unfoldable pub after_prefix : Text → Text → Option Text
after_prefix [] rest = some rest
after_prefix (c ∷ cs) [] = none
after_prefix (c ∷ cs) (r ∷ rs) = let tail = after_prefix cs rs in if c == r then tail else none

-- The loop over the nuclei.
unfoldable pub rhymes_with : List Text → Text → Bool
rhymes_with [] rest = false
rhymes_with (nucleus ∷ more) rest =
    let later = rhymes_with more rest in
    elim (after_prefix nucleus rest) [
      | none ↦ later
      | some tail ↦ null tail || (contains vietnamese_codas tail || later)
    ]

unfoldable pub parses_as_rhyme : Text → Bool
parses_as_rhyme rest = if null rest then false else rhymes_with vietnamese_nuclei rest

-- The loop over the onsets.
unfoldable pub begins_with : List Text → Text → Bool
begins_with [] base = false
begins_with (onset ∷ more) base =
    let later = begins_with more base in
    elim (after_prefix onset base) [ none ↦ later | some rest ↦ parses_as_rhyme rest || later ]

-- The text is decomposed before its marks are dropped.
unfoldable pub is_vietnamese_syllable : (Text → Text) → Text → Bool
is_vietnamese_syllable nfd syllable =
    let base = drop_marks (nfd syllable) in
    if null base then false else begins_with ([] ∷ vietnamese_onsets) base

pub after_prefix-append : (p rest tail : Text) → after_prefix p rest ≡ some tail → rest ≡ p ++ tail
unfolding after_prefix
after_prefix-append [] rest tail h = ground arith
after_prefix-append (c ∷ cs) [] tail h = ground arith
after_prefix-append (c ∷ cs) (r ∷ rs) tail h = ground (arith, after_prefix-append cs rs tail)

pub after_prefix_found : (p tail : Text) → after_prefix p (p ++ tail) ≡ some tail
unfolding after_prefix
after_prefix_found [] tail = refl
after_prefix_found (c ∷ cs) tail = ground (arith, after_prefix_found cs tail)

-- A rest that is one of these nuclei and at most one coda.
pub record IsRhyme (nuclei : List Text) (rest : Text) : Type 0 where
  pub nucleus : Text
  pub coda : Text
  pub listed : contains nuclei nucleus ≡ true
  pub coda_listed : contains ([] ∷ vietnamese_codas) coda ≡ true
  pub splits : rest ≡ nucleus ++ coda

-- A base of one of these onsets and a rhyme.
pub record IsSyllable (onsets : List Text) (base : Text) : Type 0 where
  pub onset : Text
  pub rest : Text
  pub listed : contains onsets onset ≡ true
  pub rhyme : IsRhyme vietnamese_nuclei rest
  pub splits : base ≡ onset ++ rest

IsRhyme-later : (n : Text) (ns : List Text) (rest : Text) → IsRhyme ns rest → IsRhyme (n ∷ ns) rest
unfolding contains
IsRhyme-later n ns rest h = record {
  nucleus = h.nucleus;
  coda = h.coda;
  listed = ground (arith, h.listed);
  coda_listed = h.coda_listed;
  splits = h.splits;
}

IsRhyme-cons :
    (n : Text) (ns : List Text) (rest coda : Text)
    → contains ([] ∷ vietnamese_codas) coda ≡ true
    → after_prefix n rest ≡ some coda
    → IsRhyme (n ∷ ns) rest
unfolding contains
IsRhyme-cons n ns rest coda ends h = record {
  nucleus = n;
  coda = coda;
  listed = ground (arith, same_refl n);
  coda_listed = ends;
  splits = after_prefix-append n rest coda h;
}

coda_of_null :
    (tail : Text)
    → null tail || contains vietnamese_codas tail ≡ true
    → contains ([] ∷ vietnamese_codas) tail ≡ true
unfolding contains same
coda_of_null [] h = refl
coda_of_null (c ∷ tail) h = h

rhymes_with-IsRhyme : (ns : List Text) (rest : Text) → rhymes_with ns rest ≡ true → IsRhyme ns rest
unfolding rhymes_with
rhymes_with-IsRhyme [] rest h = ground arith
rhymes_with-IsRhyme (n ∷ ns) rest h = elim (Option-cases (after_prefix n rest)) [
  | inl away ↦ IsRhyme-later n ns rest (rhymes_with-IsRhyme ns rest (ground arith))
  | inr (tail, met) ↦ elim (Bool-cases (null tail || contains vietnamese_codas tail)) [
    | inl ends ↦ IsRhyme-cons n ns rest tail (coda_of_null tail ends) met
    | inr open_end ↦ IsRhyme-later n ns rest (rhymes_with-IsRhyme ns rest (ground arith))
  ]
]

coda_ends :
    (tail : Text) (later : Bool)
    → contains ([] ∷ vietnamese_codas) tail ≡ true
    → null tail || (contains vietnamese_codas tail || later) ≡ true
unfolding contains same
coda_ends [] later h = refl
coda_ends (c ∷ tail) later h = rw h refl

pub rhymes_with_complete :
    (ns : List Text) (nucleus coda : Text)
    → contains ns nucleus ≡ true
    → contains ([] ∷ vietnamese_codas) coda ≡ true
    → rhymes_with ns (nucleus ++ coda) ≡ true
unfolding rhymes_with contains
rhymes_with_complete [] nucleus coda listed ends = ground arith
rhymes_with_complete (n ∷ ns) nucleus coda listed ends = elim (Bool-cases (same n nucleus)) [
  | inl here ↦
      let met =
        subst (λ (m : Text). after_prefix m (nucleus ++ coda) ≡ some coda)
          (sym ((same_iff n nucleus).0 here)) (after_prefix_found nucleus coda) in
      ground (arith, met, coda_ends coda (rhymes_with ns (nucleus ++ coda)) ends)
  | inr other ↦
      let later = rhymes_with_complete ns nucleus coda (ground arith) ends in
      opt_split (λ (b : Bool). b ≡ true) (after_prefix n (nucleus ++ coda)) (λ away. later)
        (λ tail met. ground (arith, later))
]

IsSyllable-later :
    (o : Text) (os : List Text) (base : Text) → IsSyllable os base → IsSyllable (o ∷ os) base
unfolding contains
IsSyllable-later o os base h = record {
  onset = h.onset;
  rest = h.rest;
  listed = ground (arith, h.listed);
  rhyme = h.rhyme;
  splits = h.splits;
}

begins_with-IsSyllable :
    (os : List Text) (base : Text) → begins_with os base ≡ true → IsSyllable os base
unfolding begins_with parses_as_rhyme contains
begins_with-IsSyllable [] base h = ground arith
begins_with-IsSyllable (o ∷ os) base h = elim (Option-cases (after_prefix o base)) [
  | inl away ↦ IsSyllable-later o os base (begins_with-IsSyllable os base (ground arith))
  | inr (rest, met) ↦
      elim (Bool-cases (if null rest then false else rhymes_with vietnamese_nuclei rest)) [
        | inl rhymes ↦ record {
          onset = o;
          rest = rest;
          listed = ground (arith, same_refl o);
          rhyme = rhymes_with-IsRhyme vietnamese_nuclei rest (ground arith);
          splits = after_prefix-append o base rest met;
        }
        | inr not_here ↦ IsSyllable-later o os base (begins_with-IsSyllable os base (ground arith))
      ]
]

begins_with_complete :
    (os : List Text) (onset rest : Text)
    → contains os onset ≡ true
    → parses_as_rhyme rest ≡ true
    → begins_with os (onset ++ rest) ≡ true
unfolding begins_with contains
begins_with_complete [] onset rest listed rhymes = ground arith
begins_with_complete (o ∷ os) onset rest listed rhymes = elim (Bool-cases (same o onset)) [
  | inl here ↦
      let met =
        subst (λ (m : Text). after_prefix m (onset ++ rest) ≡ some rest)
          (sym ((same_iff o onset).0 here)) (after_prefix_found onset rest) in
      ground (arith, met, rhymes)
  | inr other ↦
      let later = begins_with_complete os onset rest (ground arith) rhymes in
      opt_split (λ (b : Bool). b ≡ true) (after_prefix o (onset ++ rest)) (λ away. later)
        (λ tail met. ground (arith, later))
]

null-append : (a b : Text) → null b ≡ false → null (a ++ b) ≡ false
null-append [] b h = h
null-append (x ∷ a) b h = refl

null_front : (a b : Text) → null a ≡ false → null (a ++ b) ≡ false
null_front [] b h = ground arith
null_front (x ∷ a) b h = refl

-- A listed nucleus has a letter.
null-nucleus : (n : Text) → contains vietnamese_nuclei n ≡ true → null n ≡ false
unfolding contains same
null-nucleus [] h = ground arith
null-nucleus (c ∷ n) h = refl

rhyme_parses :
    (rest : Text)
    → IsRhyme vietnamese_nuclei rest
    → (parses_as_rhyme rest ≡ true) × (null rest ≡ false)
unfolding parses_as_rhyme
rhyme_parses rest h =
    let some_letter =
      subst (λ (x : Text). null x ≡ false) (sym h.splits)
        (null_front h.nucleus h.coda (null-nucleus h.nucleus h.listed)) in
    let parses =
      subst (λ (x : Text). rhymes_with vietnamese_nuclei x ≡ true) (sym h.splits)
        (rhymes_with_complete vietnamese_nuclei h.nucleus h.coda h.listed h.coda_listed) in
    (rw some_letter parses, some_letter)

module _ (nfd : Text → Text) (syllable : Text) where
  -- isVietnameseSyllable answers true exactly where the decomposed syllable without its marks is
  -- an onset of the table or none, then a nucleus of the table, then a coda of the table or none.
  pub is_vietnamese_syllable_iff :
      (is_vietnamese_syllable nfd syllable ≡ true
        → IsSyllable ([] ∷ vietnamese_onsets) (drop_marks (nfd syllable)))
      × (IsSyllable ([] ∷ vietnamese_onsets) (drop_marks (nfd syllable))
          → is_vietnamese_syllable nfd syllable ≡ true)
  unfolding is_vietnamese_syllable
  is_vietnamese_syllable_iff = (
    λ h. begins_with-IsSyllable ([] ∷ vietnamese_onsets) (drop_marks (nfd syllable)) (ground arith),
    λ k.
        let (parses, some_letter) = rhyme_parses k.rest k.rhyme in
        let base = drop_marks (nfd syllable) in
        let begins =
          subst (λ (x : Text). begins_with ([] ∷ vietnamese_onsets) x ≡ true) (sym k.splits)
            (begins_with_complete ([] ∷ vietnamese_onsets) k.onset k.rest k.listed parses) in
        let real =
          subst (λ (x : Text). null x ≡ false) (sym k.splits)
            (null-append k.onset k.rest some_letter) in
        ground (arith, begins, real),
  )
