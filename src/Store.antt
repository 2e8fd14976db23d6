-- ===== src/Store.antt =====
-- server/internal/dictionary/store.go: the tables in memory, how the rows of the database fill them,
-- and the lookups. The rows that SQLite hands over and the Unicode tables are parameters.
pub mod Lookups
pub mod Openings
pub mod Served
mod Tests
use noitu.Prelude.{
  ℕ, zero, suc, ◌+◌, ◌/◌, Bool, true, false, not, ◌&&◌, ◌||◌, List, [], ◌∷◌, ◌++◌, Option, none,
  some, Text, same, lookup, lookup_or, insert, length, get_or, null, leb, ltb, ◌==◌, if◌then◌else◌,
  map,
}

pub record WordInfo : Type 0 where
  pub first : Text
  pub last : Text

pub record Sense : Type 0 where
  pub pos : Text
  pub gloss : Text

pub record Opener : Type 0 where
  pub word : Text
  pub last_out_degree : ℕ

pub record Store : Type 0 where
  pub words : List (Text × WordInfo)
  pub aliases : List (Text × Text)
  pub by_first : List (Text × List Text)
  pub out_degrees : List (Text × ℕ)
  pub openers : List Opener
  pub meanings : List (Text × List Sense)
  pub meaning_count : ℕ
  pub stripped : List (Text × List Text)

-- A row of the table of words.
pub record WordRow : Type 0 where
  pub word : Text
  pub first : Text
  pub last : Text

-- `m[k] = append(m[k], v)`.
unfoldable pub push {ℓ} : {V : Type ℓ} → Text → V → List (Text × List V) → List (Text × List V)
push k v m = insert k (lookup_or [] k m ++ v ∷ []) m

unfoldable pub load_syllables : List (Text × ℕ) → Store → Store
load_syllables [] s = s
load_syllables ((syllable, degree) ∷ rows) s =
    load_syllables rows (record s { out_degrees = insert syllable degree s.out_degrees })

unfoldable pub load_word : WordRow → Store → Store
load_word r s =
    let degree = lookup_or 0 r.last s.out_degrees in
    record s {
      words = insert r.word (record { first = r.first; last = r.last }) s.words;
      by_first = push r.first r.word s.by_first;
      openers =
          if ltb 0 degree
          then s.openers ++ record { word = r.word; last_out_degree = degree } ∷ []
          else s.openers;
    }

unfoldable pub load_words : List WordRow → Store → Store
load_words [] s = s
load_words (r ∷ rows) s = load_words rows (load_word r s)

unfoldable pub load_aliases : List (Text × Text) → Store → Store
load_aliases [] s = s
load_aliases ((variant, canonical) ∷ rows) s =
    load_aliases rows (record s { aliases = insert variant canonical s.aliases })

unfoldable pub load_meanings : List (Text × Sense) → Store → Store
load_meanings [] s = s
load_meanings ((word, sense) ∷ rows) s =
    load_meanings rows
      (record s { meanings = push word sense s.meanings; meaning_count = s.meaning_count + 1 })

-- The errors of `validate`, in the order of its tests.
pub data Invalid : Type 0 where
  words_missing no_words meanings_missing stray_meaning stale_degree stray_alias : Invalid

unfoldable pub has_key {ℓ} : {V : Type ℓ} → Text → List (Text × V) → Bool
has_key k m = elim (lookup k m) [ none ↦ false | some v ↦ true ]

-- The loops of `validate`: whether every entry passes.
unfoldable pub meanings_known : Store → List (Text × List Sense) → Bool
meanings_known s [] = true
meanings_known s ((word, senses) ∷ m) = has_key word s.words && meanings_known s m

unfoldable pub degrees_current : Store → List (Text × ℕ) → Bool
degrees_current s [] = true
degrees_current s ((syllable, degree) ∷ m) =
    length (lookup_or [] syllable s.by_first) == degree && degrees_current s m

unfoldable pub aliases_known : Store → List (Text × Text) → Bool
aliases_known s [] = true
aliases_known s ((variant, canonical) ∷ m) = has_key canonical s.words && aliases_known s m

-- `none` is no error.
unfoldable pub validate : Store → ℕ → ℕ → Option Invalid
validate s declared_words declared_meanings =
    if not (length s.words == declared_words)
    then some words_missing
    else if length s.words == 0
    then some no_words
    else if not (s.meaning_count == declared_meanings)
    then some meanings_missing
    else if not (meanings_known s s.meanings)
    then some stray_meaning
    else if not (degrees_current s s.out_degrees)
    then some stale_degree
    else if not (aliases_known s s.aliases)
    then some stray_alias
    else none

unfoldable pub resolve : Store → Text → Option Text
resolve s word = if has_key word s.words then some word else lookup word s.aliases

unfoldable pub first_syllable : Store → Text → Option Text
first_syllable s word = elim (lookup word s.words) [ none ↦ none | some info ↦ some info.first ]

unfoldable pub last_syllable : Store → Text → Option Text
last_syllable s word = elim (lookup word s.words) [ none ↦ none | some info ↦ some info.last ]

unfoldable pub words_starting_with : Store → Text → List Text
words_starting_with s syllable = lookup_or [] syllable s.by_first

-- `none` is `ErrNotFound`.
unfoldable pub out_degree : Store → Text → Option ℕ
out_degree s syllable = lookup syllable s.out_degrees

unfoldable pub meanings_of : Store → Text → List Sense
meanings_of s word = lookup_or [] word s.meanings

-- What stripping diacritics takes from outside the repository.
pub record Decomposition : Type 0 where
  pub nfd : Text → Text
  -- `unicode.Mn`.
  pub is_mark : ℕ → Bool
  pub to_lower : ℕ → ℕ

module _ (t : Decomposition) where
  -- The loop of `stripDiacritics`.
  unfoldable pub strip_runes : Text → Text
  strip_runes [] = []
  strip_runes (c ∷ w) =
      let rest = strip_runes w in
      if t.is_mark c
      then rest
      else if c == 0x111
      then 0x64 ∷ rest
      else if c == 0x110
      then 0x44 ∷ rest
      else c ∷ rest

  unfoldable pub strip_diacritics : Text → Text
  strip_diacritics word = map t.to_lower (strip_runes (t.nfd word))

  unfoldable pub index_stripped : List (Text × WordInfo) → List (Text × List Text)
  index_stripped [] = []
  index_stripped ((word, info) ∷ m) = push (strip_diacritics word) word (index_stripped m)

  unfoldable pub build_stripped_index : Store → Store
  build_stripped_index s = record s { stripped = index_stripped s.words }

  -- The loop of `NearMiss`: the last match and their number.
  unfoldable pub matches : Text → List Text → Text → ℕ → Text × ℕ
  matches normalized [] match count = (match, count)
  matches normalized (w ∷ ws) match count =
      let skipped = matches normalized ws match count in
      let taken = matches normalized ws w (count + 1) in
      if same w normalized then skipped else taken

  unfoldable pub near_miss : Store → Text → Option Text
  near_miss s normalized =
      let (match, count) =
        matches normalized (lookup_or [] (strip_diacritics normalized) s.stripped) [] 0 in
      if not (count == 1) then none else some match

-- `sort.Search(n, f)` from the bounds `i` and `j`, on fuel.
unfoldable pub search_from : ℕ → (ℕ → Bool) → ℕ → ℕ → ℕ
search_from zero f i j = i
search_from (suc fuel) f i j =
    let h = (i + j) / 2 in
    let right = search_from fuel f (h + 1) j in
    let left = search_from fuel f i h in if ltb i j then if f h then left else right else i

abbrev pub no_opener : Opener
no_opener = record { word = []; last_out_degree = 0 }

unfoldable pub pick_opening_word : Store → ℕ → (ℕ → ℕ) → Option Text
pick_opening_word s min_out_degree draw =
    let n =
      search_from (length s.openers)
        (λ i. ltb (get_or s.openers i no_opener).last_out_degree min_out_degree) 0
        (length s.openers) in
    if n == 0 then none else some (get_or s.openers (draw n) no_opener).word
