-- ===== src/Builder/Alias.antt =====
-- server/cmd/build-dictionary/aliases.go: the other spellings of a word. The decomposition and the
-- composition of golang.org/x/text are parameters.
pub mod Clusters
pub mod Shift
pub mod Varied
pub mod Cross
mod Tests
use noitu.Prelude.{
  ℕ, Bool, true, false, not, ◌&&◌, ◌||◌, List, [], ◌∷◌, ◌++◌, Option, none, some, Text, codes, same,
  contains, lookup, null, length, map, leb, ◌==◌, if◌then◌else◌,
}
use noitu.Vietnamese.{join}

pub record Forms : Type 0 where
  pub nfd : Text → Text
  pub nfc : Text → Text

-- The keys of a map from runes to true.
unfoldable pub has_rune : List ℕ → ℕ → Bool
has_rune [] r = false
has_rune (c ∷ cs) r = c == r || has_rune cs r

abbrev pub tone_marks : List ℕ
tone_marks = 0x300 ∷ 0x301 ∷ 0x303 ∷ 0x309 ∷ 0x323 ∷ []

abbrev pub letter_marks : List ℕ
letter_marks = 0x302 ∷ 0x306 ∷ 0x31B ∷ []

pub record Cluster : Type 0 where
  pub base : ℕ
  pub mods : List ℕ

-- The first mark of a set among some marks.
unfoldable pub first_mark : List ℕ → List ℕ → Option ℕ
first_mark marks [] = none
first_mark marks (m ∷ ms) = if has_rune marks m then some m else first_mark marks ms

unfoldable pub tone : Cluster → Option ℕ
tone c = first_mark tone_marks c.mods

unfoldable pub is_found : Option ℕ → Bool
is_found none = false
is_found (some r) = true

unfoldable pub has_letter_mark : Cluster → Bool
has_letter_mark c = is_found (first_mark letter_marks c.mods)

unfoldable pub drop_rune : ℕ → List ℕ → List ℕ
drop_rune r [] = []
drop_rune r (m ∷ ms) = let rest = drop_rune r ms in if m == r then rest else m ∷ rest

unfoldable pub without : ℕ → Cluster → Cluster
without r c = record c { mods = drop_rune r c.mods }

unfoldable pub with_mark : ℕ → Cluster → Cluster
with_mark r c = record c { mods = c.mods ++ r ∷ [] }

unfoldable pub is_combining : ℕ → Bool
is_combining r = has_rune tone_marks r || has_rune letter_marks r

unfoldable pub mark_last : ℕ → List Cluster → List Cluster
mark_last r [] = []
mark_last r (c ∷ []) = with_mark r c ∷ []
mark_last r (c ∷ (d ∷ ds)) = c ∷ mark_last r (d ∷ ds)

-- The body of `decompose`'s loop.
unfoldable pub add_rune : List Cluster → ℕ → List Cluster
add_rune clusters r =
    if is_combining r && not (null clusters)
    then mark_last r clusters
    else clusters ++ record { base = r; mods = [] } ∷ []

unfoldable pub clusters_from : List Cluster → Text → List Cluster
clusters_from clusters [] = clusters
clusters_from clusters (r ∷ rs) = clusters_from (add_rune clusters r) rs

unfoldable pub decompose : Forms → Text → List Cluster
decompose f syllable = clusters_from [] (f.nfd syllable)

-- What `recompose` writes to its builder.
unfoldable pub flatten : List Cluster → Text
flatten [] = []
flatten (c ∷ cs) = c.base ∷ (c.mods ++ flatten cs)

unfoldable pub recompose : Forms → List Cluster → Text
recompose f clusters = f.nfc (flatten clusters)

-- The pairs oa, oe and uy.
unfoldable pub is_shiftable_pair : ℕ → ℕ → Bool
is_shiftable_pair a b = (a == 111 && b == 97) || (a == 111 && b == 101) || (a == 117 && b == 121)

-- The tests that let the loop of `toneShiftVariant` go on to the next pair: the base before the
-- pair, the pair, and what follows it.
unfoldable pub is_passed_over : Option ℕ → Cluster → Cluster → List Cluster → Bool
is_passed_over before first second rest =
    (has_letter_mark first || has_letter_mark second)
    || not (is_shiftable_pair first.base second.base)
    || not (null rest)
    || (first.base == 117 && elim before [ none ↦ false | some b ↦ b == 113 ])

-- The tone of a pair moved to its other vowel.
unfoldable pub shift_pair : Cluster → Cluster → Option (Cluster × Cluster)
shift_pair first second = elim (tone first) [
  | some r ↦ some (without r first, with_mark r second)
  | none ↦ elim (tone second) [ some r ↦ some (with_mark r first, without r second) | none ↦ none ]
]

unfoldable pub after_cluster : Cluster → Option (List Cluster) → Option (List Cluster)
after_cluster c none = none
after_cluster c (some cs) = some (c ∷ cs)

unfoldable pub put_pair : List Cluster → Cluster × Cluster → List Cluster
put_pair rest (first, second) = first ∷ (second ∷ rest)

-- The loop of `toneShiftVariant`.
unfoldable pub shift_from : Option ℕ → List Cluster → Option (List Cluster)
shift_from before [] = none
shift_from before (first ∷ []) = none
shift_from before (first ∷ (second ∷ rest)) =
    let later = after_cluster first (shift_from (some first.base) (second ∷ rest)) in
    if is_passed_over before first second rest
    then later
    else elim (shift_pair first second) [ none ↦ later | some pair ↦ some (put_pair rest pair) ]

unfoldable pub recomposed : Forms → Option (List Cluster) → Option Text
recomposed f none = none
recomposed f (some cs) = some (recompose f cs)

unfoldable pub tone_shift_variant : Forms → Text → Option Text
tone_shift_variant f syllable = recomposed f (shift_from none (decompose f syllable))

abbrev pub iy_onsets : List Text
iy_onsets = codes "h" ∷ codes "k" ∷ codes "l" ∷ codes "m" ∷ codes "t" ∷ codes "qu" ∷ []

abbrev pub iy_pairs : List (Text × Text)
iy_pairs =
    (codes "sĩ", codes "sỹ")
    ∷ (codes "sỹ", codes "sĩ")
    ∷ (codes "vĩ", codes "vỹ")
    ∷ (codes "vỹ", codes "vĩ")
    ∷ []

-- The clusters before the last one, and that one.
unfoldable pub split_last : List Cluster → Option (List Cluster × Cluster)
split_last [] = none
split_last (c ∷ cs) = elim (split_last cs) [
  | none ↦ some ([], c)
  | some (init, last) ↦ some (c ∷ init, last)
]

unfoldable pub swap_iy : ℕ → Option ℕ
swap_iy base = if base == 105 then some 121 else if base == 121 then some 105 else none

-- The bases of the onset; none where one of them carries a letter mark.
unfoldable pub onset_of : List Cluster → Option Text
onset_of [] = some []
onset_of (c ∷ cs) =
    if has_letter_mark c
    then none
    else elim (onset_of cs) [ none ↦ none | some bases ↦ some (c.base ∷ bases) ]

unfoldable pub swap_nucleus : List Cluster → Cluster → ℕ → Option (List Cluster)
swap_nucleus init nucleus swapped = elim (onset_of init) [
  | none ↦ none
  | some onset ↦
      if contains iy_onsets onset
      then some (init ++ record { base = swapped; mods = nucleus.mods } ∷ [])
      else none
]

-- `iyVariant` on the clusters.
unfoldable pub iy_clusters : List Cluster → Option (List Cluster)
iy_clusters clusters = elim (split_last clusters) [
  | none ↦ none
  | some (init, nucleus) ↦
      if null init || has_letter_mark nucleus then none else elim (swap_iy nucleus.base) [
        | none ↦ none
        | some swapped ↦ swap_nucleus init nucleus swapped
      ]
]

unfoldable pub iy_variant : Forms → Text → Option Text
iy_variant f syllable = elim (lookup syllable iy_pairs) [
  | some pair ↦ some pair
  | none ↦ recomposed f (iy_clusters (decompose f syllable))
]

abbrev pub max_variants_per_word : ℕ
max_variants_per_word = 32

unfoldable pub add_spelling : List Text → Option Text → List Text
add_spelling out none = out
add_spelling out (some alt) = if contains out alt then out else out ++ alt ∷ []

unfoldable pub spellings_of : Forms → Text → List Text
spellings_of f syllable =
    add_spelling (add_spelling (syllable ∷ []) (tone_shift_variant f syllable))
      (iy_variant f syllable)

-- `strings.Split(word, " ")`.
unfoldable pub split_spaces : Text → List Text
split_spaces [] = [] ∷ []
split_spaces (c ∷ s) = elim (split_spaces s) [
  | [] ↦ [] ∷ []
  | piece ∷ pieces ↦ if c == 32 then [] ∷ (piece ∷ pieces) else (c ∷ piece) ∷ pieces
]

-- The inner loop over the spellings, up to the cap.
unfoldable pub vary_prefix : List (List Text) → List Text → List Text → List (List Text)
vary_prefix next prefix [] = next
vary_prefix next prefix (s ∷ spellings) =
    let more = vary_prefix (next ++ (prefix ++ s ∷ []) ∷ []) prefix spellings in
    if leb max_variants_per_word (length next) then next else more

-- The loop over the prefixes.
unfoldable pub vary_all : List (List Text) → List (List Text) → List Text → List (List Text)
vary_all next [] spellings = next
vary_all next (prefix ∷ combos) spellings =
    vary_all (vary_prefix next prefix spellings) combos spellings

unfoldable pub combine : Forms → List (List Text) → List Text → List (List Text)
combine f combos [] = combos
combine f combos (syllable ∷ rest) = combine f (vary_all [] combos (spellings_of f syllable)) rest

-- The joined ones that were not seen before.
unfoldable pub unseen : List Text → List (List Text) → List Text
unseen seen [] = []
unseen seen (combo ∷ combos) =
    let joined = join combo in
    let dropped = unseen seen combos in
    let kept = unseen (joined ∷ seen) combos in
    if contains seen joined then dropped else joined ∷ kept

unfoldable pub variants_for : Forms → Text → List Text
variants_for f word = unseen (word ∷ []) (combine f ([] ∷ []) (split_spaces word))
