-- ===== src/Builder/Wikitext/Headings.antt =====
-- server/cmd/build-dictionary/wikitext.go: the Vietnamese section of a page, and its headings.
use noitu.Prelude.{
  ℕ, zero, suc, Bool, true, false, ◌&&◌, ◌||◌, List, [], ◌∷◌, Option, none, some, Text, codes, same,
  contains, lookup, set, ltb, leb, ◌==◌, if◌then◌else◌, map,
}
use noitu.Wsapi.Nickname.{trim_space}
use noitu.Builder.Wikitext.{Scanner, is_some, has_prefix, trim_end, split_on, join_with}
use noitu.Builder.Wikitext.Codes.{pos_label_map, other_section_codes}

abbrev pub new_line : Text
new_line = 10 ∷ []

unfoldable pub is_legacy_heading : Text → Bool
is_legacy_heading code = is_some (lookup code pos_label_map) || contains other_section_codes code

pub data Dialect : Type 0 where
  no_dialect legacy_dialect new_dialect : Dialect

pub record Section : Type 0 where
  pub text : Text
  pub dialect : Dialect
  pub both : Bool
  pub ender : Text

-- `strings.TrimRight(line, "\r ")`.
unfoldable pub chomp : Text → Text
chomp line = trim_end (13 ∷ 32 ∷ []) line

unfoldable pub drop_lines : ℕ → List Text → List Text
drop_lines zero lines = lines
drop_lines (suc n) [] = []
drop_lines (suc n) (line ∷ lines) = drop_lines n lines

-- The rest of the line after the first match of a code.
unfoldable pub after_code : Text → List (Text × Text) → Option Text
after_code code [] = none
after_code code ((c, rest) ∷ more) = if same c code then some rest else after_code code more

-- The first match whose code is no heading.
unfoldable pub first_foreign : List (Text × Text) → Option Text
first_foreign [] = none
first_foreign ((c, rest) ∷ more) = if is_legacy_heading c then first_foreign more else some c

unfoldable pub next_index : Option ℕ → Option ℕ
next_index none = none
next_index (some n) = some (suc n)

unfoldable pub next_found : Option (ℕ × Text) → Option (ℕ × Text)
next_found none = none
next_found (some (n, rest)) = some (suc n, rest)

-- The lines up to the one that ends a section, and what ended it.
unfoldable pub take_section : (Text → Option Text) → List Text → List Text × Option Text
take_section ends [] = ([], none)
take_section ends (line ∷ lines) =
    let (kept, ender) = take_section ends lines in
    elim (ends line) [ some e ↦ ([], some e) | none ↦ (line ∷ kept, ender) ]

unfoldable pub or_empty : Option Text → Text
or_empty none = []
or_empty (some t) = t

-- What a heading means for the label of the definitions under it.
pub data HeadingKind : Type 0 where
  not_heading pos_heading other_heading : HeadingKind

unfoldable pub classify_code : Text → Text × HeadingKind
classify_code code =
    if same code (codes "dfn")
    then (code, not_heading)
    else if contains other_section_codes code
    then (code, other_heading)
    else (code, pos_heading)

-- The last of several headings on one line decides.
unfoldable pub last_heading : Text × HeadingKind → List (Text × Text) → Text × HeadingKind
last_heading found [] = found
last_heading found ((c, rest) ∷ more) = elim (classify_code c).1 [
  | not_heading ↦ last_heading found more
  | pos_heading ↦ last_heading (classify_code c) more
  | other_heading ↦ last_heading (classify_code c) more
]

-- Whether a text is one of the labels.
unfoldable pub has_value : Text → List (Text × Text) → Bool
has_value text [] = false
has_value text ((code, label) ∷ more) = same label text || has_value text more

unfoldable pub is_label_value : Text → Bool
is_label_value text = has_value text pos_label_map

-- The label, and whether the code has one.
unfoldable pub pos_label : Text → Text × Bool
pos_label code = elim (lookup code pos_label_map) [
  | some label ↦ (label, true)
  | none ↦ if is_label_value code then (code, true) else ([], false)
]

module _ (k : Scanner) where
  unfoldable pub is_level_two : Text → Bool
  is_level_two line = elim (k.heading_line line) [ none ↦ false | some (level, text) ↦ level == 2 ]

  -- `headingLine` at level two with a text that `langnameVi` matches.
  unfoldable pub opens_new : Text → Bool
  opens_new line = elim (k.heading_line line) [
    | none ↦ false
    | some (level, text) ↦ level == 2 && same text (codes "{{langname|vi}}")
  ]

  -- The rest of a line that opens the legacy section.
  unfoldable pub opens_legacy : Text → Option Text
  opens_legacy line =
      if has_prefix line (codes "{{-")
      then after_code (codes "vie") (k.legacy_templates line)
      else none

  -- The loop of `vietnameseSection`: `legacyAt` with the line's rest, and `newAt`.
  unfoldable pub legacy_at : List Text → Option (ℕ × Text)
  legacy_at [] = none
  legacy_at (line ∷ lines) =
      let later = next_found (legacy_at lines) in
      elim (opens_legacy (chomp line)) [ some rest ↦ some (zero, rest) | none ↦ later ]

  unfoldable pub new_at : List Text → Option ℕ
  new_at [] = none
  new_at (line ∷ lines) =
      let later = next_index (new_at lines) in if opens_new (chomp line) then some zero else later

  -- What ends a legacy section: a foreign code, or a heading of level two.
  unfoldable pub ends_legacy : Text → Option Text
  ends_legacy raw =
      let line = chomp raw in
      let foreign =
        if has_prefix line (codes "{{-") then first_foreign (k.legacy_templates line) else none in
      elim foreign [ some c ↦ some c | none ↦ if is_level_two line then some [] else none ]

  unfoldable pub ends_new : Text → Option Text
  ends_new raw = if is_level_two (chomp raw) then some [] else none

  unfoldable pub legacy_section : List Text → Text × Text
  legacy_section lines =
      let (kept, ender) = take_section ends_legacy lines in
      (join_with new_line kept, or_empty ender)

  unfoldable pub new_section : List Text → Text
  new_section lines = join_with new_line (take_section ends_new lines).0

  unfoldable pub legacy_part : Bool → List Text → ℕ → Section
  legacy_part both lines at =
      let (text, ender) = legacy_section (drop_lines at lines) in
      record { text = text; dialect = legacy_dialect; both = both; ender = ender }

  unfoldable pub new_part : Bool → List Text → ℕ → Section
  new_part both lines at = record {
    text = new_section (drop_lines (suc at) lines);
    dialect = new_dialect;
    both = both;
    ender = [];
  }

  -- The switch of `vietnameseSection`. The line that opens the legacy section is cut first.
  unfoldable pub choose_section : List Text → Option (ℕ × Text) → Option ℕ → Section
  choose_section lines none none = record {
    text = [];
    dialect = no_dialect;
    both = false;
    ender = [];
  }
  choose_section lines (some (legacy, rest)) none = legacy_part false (set lines legacy rest) legacy
  choose_section lines none (some new) = new_part false lines new
  choose_section lines (some (legacy, rest)) (some new) =
      let marked = set lines legacy rest in
      if ltb legacy new then legacy_part true marked legacy else new_part true marked new

  unfoldable pub vietnamese_section : Text → Section
  vietnamese_section text =
      let lines = split_on 10 text in choose_section lines (legacy_at lines) (new_at lines)

  -- A headword template counts where its code has a label.
  unfoldable pub classify_headword : Text → Text × HeadingKind
  classify_headword line = elim (k.headword_template line) [
    | none ↦ ([], not_heading)
    | some found ↦
        let code = trim_space found in
        if is_some (lookup code pos_label_map) then (code, pos_heading) else ([], not_heading)
  ]

  unfoldable pub classify_section_text : Text → Text × HeadingKind
  classify_section_text text = elim (k.section_template text) [
    | some code ↦ classify_code (trim_space code)
    | none ↦ classify_code (map k.to_lower text)
  ]

  unfoldable pub classify_marked : Text → Text × HeadingKind
  classify_marked line = elim (k.heading_line line) [
    | none ↦ classify_headword line
    | some (level, text) ↦
        if leb 3 level then classify_section_text text else classify_headword line
  ]

  unfoldable pub classify_heading : Text → Text × HeadingKind
  classify_heading raw =
      let line = chomp raw in
      if has_prefix line (codes "{{-")
      then last_heading ([], not_heading) (k.legacy_templates line)
      else classify_marked line
