-- ===== src/Store/Lookups.antt =====
-- What the lookups of a validated store answer, and what loading rows puts into it.
use noitu.Prelude.{
  ℕ, ◌+◌, ◌≡◌, refl, sym, ◌∙◌, ap, true, not, List, [], ◌∷◌, ◌++◌, Option, none, some, arith, Text,
  same, same_iff, lookup, lookup_or, lookup_or-insert, length, ◌==◌, if◌then◌else◌, if_split, keep,
  Option-cases, Bool-cases, inl, inr,
}
use mathlib.Core.List.{append-nil, append_assoc}
use noitu.Store.{
  Store, WordRow, push, load_word, load_words, has_key, degrees_current, aliases_known, validate,
  resolve, first_syllable, last_syllable, words_starting_with, out_degree, Decomposition, matches,
  near_miss, strip_diacritics,
}

-- A text that the words have, with its ends.
abbrev pub IsEntry : Store → Text → Type 0
IsEntry s c =
    (first last : Text) × (first_syllable s c ≡ some first) × (last_syllable s c ≡ some last)

has_key-IsEntry : (s : Store) (c : Text) → has_key c s.words ≡ true → IsEntry s c
unfolding has_key first_syllable last_syllable
has_key-IsEntry s c h = elim (Option-cases (lookup c s.words)) [
  | inl n ↦ absurd (ground arith)
  | inr (info, n) ↦ (info.first, info.last, ground arith, ground arith)
]

known_alias :
    (s : Store) (m : List (Text × Text)) (w c : Text)
    → aliases_known s m ≡ true
    → lookup w m ≡ some c
    → has_key c s.words ≡ true
unfolding aliases_known lookup
known_alias s [] w c h l = absurd (ground arith)
known_alias s ((variant, canonical) ∷ m) w c h l = elim (Bool-cases (same variant w)) [
  | inl e ↦ ground arith
  | inr e ↦ known_alias s m w c (ground arith) (ground arith)
]

current_degree :
    (s : Store) (m : List (Text × ℕ)) (syllable : Text) (n : ℕ)
    → degrees_current s m ≡ true
    → lookup syllable m ≡ some n
    → length (lookup_or [] syllable s.by_first) ≡ n
unfolding degrees_current lookup
current_degree s [] syllable n h l = absurd (ground arith)
current_degree s ((k, d) ∷ m) syllable n h l = elim (Bool-cases (same k syllable)) [
  | inl e ↦ ground (arith, same_iff k syllable)
  | inr e ↦ current_degree s m syllable n (ground arith) (ground arith)
]

-- In a store that validates without an error, what a text resolves to is an entry: it has a first
-- and a last syllable.
pub resolve-IsEntry :
    (s : Store) (declared_words declared_meanings : ℕ) (w c : Text)
    → validate s declared_words declared_meanings ≡ none
    → resolve s w ≡ some c
    → IsEntry s c
unfolding validate resolve
resolve-IsEntry s declared_words declared_meanings w c v h =
    has_key-IsEntry s c (ground (arith, known_alias s s.aliases w c))

-- In a store that validates without an error, the number that OutDegree answers for a syllable is
-- the number of words that WordsStartingWith lists.
pub out_degree-words_starting_with :
    (s : Store) (declared_words declared_meanings : ℕ) (syllable : Text) (n : ℕ)
    → validate s declared_words declared_meanings ≡ none
    → out_degree s syllable ≡ some n
    → length (words_starting_with s syllable) ≡ n
unfolding validate out_degree words_starting_with
out_degree-words_starting_with s declared_words declared_meanings syllable n v h =
    current_degree s s.out_degrees syllable n (ground arith) h

-- The words of the rows that start on a syllable, in their order.
unfoldable pub listed : Text → List WordRow → List Text
listed syllable [] = []
listed syllable (r ∷ rows) =
    if same r.first syllable then r.word ∷ listed syllable rows else listed syllable rows

load_word-listed :
    (r : WordRow) (s : Store) (syllable : Text)
    → words_starting_with (load_word r s) syllable ≡ (
        if same r.first syllable
        then words_starting_with s syllable ++ r.word ∷ []
        else words_starting_with s syllable)
unfolding words_starting_with load_word push
load_word-listed r s syllable = ground (
  arith,
  lookup_or-insert [] (lookup_or [] r.first s.by_first ++ r.word ∷ []) r.first syllable s.by_first,
  same_iff r.first syllable,
)

-- Loading rows appends to the words of a syllable the words of the rows that start on it, in the
-- order of the rows, and nothing else.
pub words_starting_with-load_words :
    (rows : List WordRow) (s : Store) (syllable : Text)
    → words_starting_with (load_words rows s) syllable
      ≡ words_starting_with s syllable ++ listed syllable rows
unfolding load_words listed
words_starting_with-load_words [] s syllable = sym (append-nil (words_starting_with s syllable))
words_starting_with-load_words (r ∷ rows) s syllable =
    let now = words_starting_with s syllable in
    let rest = words_starting_with-load_words rows (load_word r s) syllable in
    rest
    ∙ ap (λ t. t ++ listed syllable rows) (load_word-listed r s syllable)
    ∙ if_split (λ t. t ++ listed syllable rows ≡ now ++ listed syllable (r ∷ rows))
        (same r.first syllable)
        (λ h.
          append_assoc now (r.word ∷ []) (listed syllable rows) ∙ ap (λ t. now ++ t) (rw h refl))
        (λ h. ap (λ t. now ++ t) (rw h refl))

-- The only item of a list.
unfoldable pub only : List Text → Option Text
only [] = none
only (w ∷ []) = some w
only (w ∷ v ∷ ws) = none

matches_count :
    (t : Decomposition) (normalized : Text) (ws : List Text) (match : Text) (count : ℕ)
    → (matches t normalized ws match count).1
      ≡ count + length (keep (λ w. not (same w normalized)) ws)
unfolding matches
matches_count t normalized [] match count = omega arith
matches_count t normalized (w ∷ ws) match count =
    ground (
      arith,
      matches_count t normalized ws match count,
      matches_count t normalized ws w (count + 1),
    )

last_or : Text → List Text → Text
last_or m [] = m
last_or m (w ∷ ws) = last_or w ws

matches_last :
    (t : Decomposition) (normalized : Text) (ws : List Text) (match : Text) (count : ℕ)
    → (matches t normalized ws match count).0
      ≡ last_or match (keep (λ w. not (same w normalized)) ws)
unfolding matches last_or
matches_last t normalized [] match count = refl
matches_last t normalized (w ∷ ws) match count =
    ground
      (arith, matches_last t normalized ws match count, matches_last t normalized ws w (count + 1))

only_of :
    (ws : List Text) (match : Text) (count : ℕ)
    → match ≡ last_or [] ws
    → count ≡ length ws
    → (if not (count == 1) then none else some match) ≡ only ws
unfolding only last_or
only_of [] match count m c = ground arith
only_of (w ∷ []) match count m c = ground arith
only_of (w ∷ v ∷ ws) match count m c = ground arith

-- NearMiss answers the only word but the submitted one in the bucket of its stripped form, and
-- nothing where there are several or none.
pub near_miss-only :
    (t : Decomposition) (s : Store) (normalized : Text)
    → near_miss t s normalized
      ≡ only (
          keep
            (λ w. not (same w normalized))
            (lookup_or [] (strip_diacritics t normalized) s.stripped))
unfolding near_miss
near_miss-only t s normalized =
    let bucket = lookup_or [] (strip_diacritics t normalized) s.stripped in
    only_of (keep (λ w. not (same w normalized)) bucket) (matches t normalized bucket [] 0).0
      (matches t normalized bucket [] 0).1 (matches_last t normalized bucket [] 0)
      (omega (arith, matches_count t normalized bucket [] 0))
