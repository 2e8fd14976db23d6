-- ===== src/Builder/Wikitext.antt =====
-- server/cmd/build-dictionary/wikitext.go: the functions of package strings that it uses, written
-- out. The delimiters are ASCII, so the runes of a text stand for its bytes.
pub mod Codes
pub mod Headings
pub mod Links
pub mod Templates
pub mod Senses
pub mod Pieces
pub mod Fuel
pub mod Runs
pub mod Lines
pub mod Caps
pub mod Glosses
mod Tests
use noitu.Prelude.{
  ℕ, zero, suc, ◌+◌, ◌-◌, Bool, true, false, not, ◌&&◌, ◌||◌, List, [], ◌∷◌, ◌++◌, Option, none,
  some, Text, codes, null, length, lookup_or, insert, ◌==◌, if◌then◌else◌,
}
use noitu.Builder.Syllable.{after_prefix}

unfoldable pub is_some : {A : Type 0} → Option A → Bool
is_some none = false
is_some (some a) = true

-- `strings.HasPrefix`.
unfoldable pub has_prefix : Text → Text → Bool
has_prefix s prefix = is_some (after_prefix prefix s)

unfoldable pub push_before : ℕ → Option (Text × Text) → Option (Text × Text)
push_before c none = none
push_before c (some (before, after)) = some (c ∷ before, after)

-- What stands before the first occurrence of a text and after it: `strings.Index`, and the slices
-- that the source takes at it.
unfoldable pub cut_at : Text → Text → Option (Text × Text)
cut_at sub [] = none
cut_at sub (c ∷ s) = elim (after_prefix sub (c ∷ s)) [
  | some after ↦ some ([], after)
  | none ↦ push_before c (cut_at sub s)
]

-- `strings.Contains`.
unfoldable pub has_text : Text → Text → Bool
has_text s sub = is_some (cut_at sub s)

-- What stands after the last occurrence of a rune, and before it.
unfoldable pub after_last : ℕ → Text → Option Text
after_last r [] = none
after_last r (c ∷ s) = elim (after_last r s) [
  | some after ↦ some after
  | none ↦ if c == r then some s else none
]

unfoldable pub before_last : ℕ → Text → Option Text
before_last r [] = none
before_last r (c ∷ s) = elim (before_last r s) [
  | some before ↦ some (c ∷ before)
  | none ↦ if c == r then some [] else none
]

-- `strings.ReplaceAll`, with so many runes of the last occurrence still to skip.
unfoldable pub replace_from : ℕ → Text → Text → Text → Text
replace_from skip old new [] = []
replace_from zero old new (c ∷ s) = elim (after_prefix old (c ∷ s)) [
  | none ↦ c ∷ replace_from zero old new s
  | some after ↦ new ++ replace_from (length old - 1) old new s
]
replace_from (suc skip) old new (c ∷ s) = replace_from skip old new s

unfoldable pub replace_all : Text → Text → Text → Text
replace_all old new s = replace_from zero old new s

unfoldable pub has_rune_of : Text → ℕ → Bool
has_rune_of [] r = false
has_rune_of (c ∷ cs) r = c == r || has_rune_of cs r

-- `strings.TrimRight`.
unfoldable pub trim_end : Text → Text → Text
trim_end cutset [] = []
trim_end cutset (c ∷ s) =
    let rest = trim_end cutset s in if null rest && has_rune_of cutset c then [] else c ∷ rest

-- `strings.Split(text, sep)` for a separator of one rune.
unfoldable pub push_first : ℕ → List Text → List Text
push_first c [] = (c ∷ []) ∷ []
push_first c (piece ∷ pieces) = (c ∷ piece) ∷ pieces

unfoldable pub split_on : ℕ → Text → List Text
split_on sep [] = [] ∷ []
split_on sep (c ∷ s) =
    let pieces = split_on sep s in if c == sep then [] ∷ pieces else push_first c pieces

-- `strings.Join`.
unfoldable pub join_with : Text → List Text → Text
join_with sep [] = []
join_with sep (s ∷ []) = s
join_with sep (s ∷ (t ∷ rest)) = s ++ (sep ++ join_with sep (t ∷ rest))

-- `m[key]++`.
unfoldable pub count_up : Text → List (Text × ℕ) → List (Text × ℕ)
count_up key m = insert key (lookup_or 0 key m + 1) m

-- What the scanner takes from outside the repository: the matches of its regular expressions, the
-- named and numbered entities of HTML, and the tables of Unicode.
pub record Scanner : Type 0 where
  -- The codes of `legacyTemplate` in a line, each with the line after the match.
  pub legacy_templates : Text → List (Text × Text)
  -- The level and the text of `headingLine`.
  pub heading_line : Text → Option (ℕ × Text)
  pub section_template : Text → Option Text
  pub headword_template : Text → Option Text
  -- `htmlComment`, `refElement` and `anyTag` replaced by nothing.
  pub drop_comments : Text → Text
  pub drop_refs : Text → Text
  pub drop_tags : Text → Text
  pub unescape : Text → Text
  pub to_lower : ℕ → ℕ
  pub is_control : ℕ → Bool
  pub is_format : ℕ → Bool
  pub is_letter : ℕ → Bool
  pub is_digit : ℕ → Bool
