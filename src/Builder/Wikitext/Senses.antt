-- ===== src/Builder/Wikitext/Senses.antt =====
-- server/cmd/build-dictionary/wikitext.go: a definition line as plain text, and the senses of a
-- section with what the scanner counts.
use noitu.Prelude.{
  ℕ, ◌+◌, Bool, true, false, ◌||◌, List, [], ◌∷◌, ◌++◌, Text, codes, null, length, ltb, ◌==◌,
  if◌then◌else◌, map,
}
use noitu.Vietnamese.{is_space}
use noitu.Wsapi.Nickname.{trim_space}
use noitu.Builder.Wikitext.{Scanner, replace_all, split_on, count_up}
use noitu.Builder.Wikitext.Headings.{
  chomp, pos_heading, other_heading, not_heading, pos_label, classify_heading,
}
use noitu.Builder.Wikitext.Links.{strip_links, is_definition_line, cap_gloss}
use noitu.Builder.Wikitext.Templates.{Counts, strip_templates}

abbrev pub max_senses : ℕ
max_senses = 5

pub record PageSense : Type 0 where
  pub pos : Text
  pub gloss : Text

pub record SectionStats : Type 0 where
  pub pos_seen : Counts
  pub unmapped_pos : Counts
  pub defs_kept : ℕ
  pub defs_empty : ℕ
  pub defs_cut : ℕ
  pub dropped : Counts

unfoldable pub new_section_stats : SectionStats
new_section_stats = record {
  pos_seen = [];
  unmapped_pos = [];
  defs_kept = 0;
  defs_empty = 0;
  defs_cut = 0;
  dropped = [];
}

-- The white space of regular expressions.
unfoldable pub is_blank : ℕ → Bool
is_blank c = c == 9 || c == 10 || c == 12 || c == 13 || c == 32

-- `spaces.ReplaceAllString(s, " ")`, inside a run of white space or not.
unfoldable pub squeeze_from : Bool → Text → Text
squeeze_from inside [] = []
squeeze_from inside (c ∷ s) =
    let in_run = squeeze_from true s in
    let out_of_run = c ∷ squeeze_from false s in
    if is_blank c then (if inside then in_run else 32 ∷ in_run) else out_of_run

-- The space before a sentence's punctuation goes.
unfoldable pub tighten : Text → Text
tighten s = replace_all (codes " )") (codes ")") (
    replace_all (codes " :") (codes ":") (
      replace_all (codes " ;") (codes ";")
        (replace_all (codes " ,") (codes ",") (replace_all (codes " .") (codes ".") s))))

-- What the loop of `definitions` keeps: the senses, the label, and the counts.
pub record Walk : Type 0 where
  pub senses : List PageSense
  pub label : Text
  pub stats : SectionStats

unfoldable pub start_walk : SectionStats → Walk
start_walk stats = record { senses = []; label = []; stats = stats }

-- A part of speech, with its label or without one.
unfoldable pub enter_pos : Text → Walk → Walk
enter_pos code w =
    let (label, mapped) = pos_label code in
    let seen : SectionStats = record w.stats { pos_seen = count_up code w.stats.pos_seen } in
    record w {
      label = label;
      stats =
          if mapped then seen else record seen { unmapped_pos = count_up code seen.unmapped_pos };
    }

-- A definition that was not empty, and whether it was cut.
unfoldable pub keep_sense : Text → Bool → Walk → Walk
keep_sense gloss was_cut w =
    let cut = if was_cut then w.stats.defs_cut + 1 else w.stats.defs_cut in
    record w {
      senses =
          if ltb (length w.senses) max_senses
          then w.senses ++ record { pos = w.label; gloss = gloss } ∷ []
          else w.senses;
      stats = record w.stats { defs_kept = w.stats.defs_kept + 1; defs_cut = cut };
    }

unfoldable pub take_gloss : Text → Walk → Walk
take_gloss gloss w =
    if null gloss
    then record w { stats = record w.stats { defs_empty = w.stats.defs_empty + 1 } }
    else keep_sense (cap_gloss gloss).0 (cap_gloss gloss).1 w

module _ (k : Scanner) where
  -- `strings.Map`: controls and formats go, and every space is a plain one.
  unfoldable pub clean_runes : Text → Text
  clean_runes [] = []
  clean_runes (c ∷ s) =
      let rest = clean_runes s in
      if k.is_control c || k.is_format c then rest else if is_space c then 32 ∷ rest else c ∷ rest

  unfoldable pub has_content : Text → Bool
  has_content [] = false
  has_content (c ∷ s) = (k.is_letter c || k.is_digit c) || has_content s

  -- `stripWikitext` once the templates are rendered.
  unfoldable pub tidy : Text → Text
  tidy s =
      let links = strip_links k.to_lower s in
      let plain = replace_all (codes "''") [] (replace_all (codes "'''") [] links) in
      let clean = clean_runes (k.unescape plain) in
      let tight = tighten (trim_space (squeeze_from false clean)) in
      if has_content tight then tight else []

  unfoldable pub strip_wikitext : Text → Counts → Text × Counts
  strip_wikitext s dropped =
      let (rendered, counted) =
        strip_templates (map k.to_lower) (k.drop_tags (k.drop_refs (k.drop_comments s))) dropped in
      (tidy rendered, counted)

  unfoldable pub read_definition : Text → Walk → Walk
  read_definition [] w = w
  read_definition (hash ∷ line) w =
      let (gloss, counted) = strip_wikitext line w.stats.dropped in
      take_gloss gloss (record w { stats = record w.stats { dropped = counted } })

  -- The body of the loop of `definitions`.
  unfoldable pub read_line : Text → Walk → Walk
  read_line raw w =
      let line = chomp raw in
      let (code, kind) = classify_heading k line in
      elim kind [
        | pos_heading ↦ enter_pos code w
        | other_heading ↦ record w { label = [] }
        | not_heading ↦ if is_definition_line line then read_definition line w else w
      ]

  unfoldable pub read_lines : List Text → Walk → Walk
  read_lines [] w = w
  read_lines (line ∷ lines) w = read_lines lines (read_line line w)

  unfoldable pub definitions : Text → SectionStats → List PageSense × SectionStats
  definitions section stats =
      let w = read_lines (split_on 10 section) (start_walk stats) in (w.senses, w.stats)
