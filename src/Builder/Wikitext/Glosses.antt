-- ===== src/Builder/Wikitext/Glosses.antt =====
-- The senses of a section.
use noitu.Prelude.{
  ℕ, ◌+◌, ◌-◌, ◌≤◌, min, ◌≡◌, refl, Bool, true, false, List, [], ◌∷◌, some, Text, codes, same_refl,
  lookup, null, length, length-append, take, All, All-append, leb, ltb, if_split, arith, ◌⊎◌, inl,
  inr,
}
use noitu.Builder.Wikitext.{Scanner, trim_end, split_on}
use noitu.Builder.Wikitext.Codes.{pos_label_map}
use noitu.Builder.Wikitext.Headings.{
  chomp, HeadingKind, pos_heading, other_heading, not_heading, has_value, is_label_value, pos_label,
  classify_heading,
}
use noitu.Builder.Wikitext.Links.{
  is_definition_line, max_gloss_runes, ellipsis, to_last_space, cap_gloss,
}
use noitu.Builder.Wikitext.Runs.{some_split}
use noitu.Builder.Wikitext.Senses.{
  max_senses, PageSense, SectionStats, Walk, start_walk, enter_pos, keep_sense, take_gloss,
  read_definition, read_line, read_lines, definitions,
}
use noitu.Builder.Wikitext.Caps.{cap_gloss-IsCapped}

null_long : (s : Text) → 1 ≤ length s → null s ≡ false
null_long [] le = absurd (omega arith)
null_long (c ∷ s) le = refl

null-cap_gloss : (s : Text) → null s ≡ false → null (cap_gloss s).0 ≡ false
unfolding cap_gloss
null-cap_gloss s some_text =
    if_split (λ (a : Text × Bool). null a.0 ≡ false) (leb (length s) max_gloss_runes)
      (λ y. some_text)
      (λ n. null_long _ (
        omega (
          arith,
          length-append
              (trim_end (codes " ,;:") (to_last_space (take (max_gloss_runes - length ellipsis) s)))
              ellipsis,
        )))

-- No label, or one of the table's.
abbrev pub IsLabel : Text → Type 0
IsLabel label = (label ≡ []) ⊎ (is_label_value label ≡ true)

lookup-has_value :
    (code label : Text) (m : List (Text × Text))
    → lookup code m ≡ some label
    → has_value label m ≡ true
unfolding lookup has_value
lookup-has_value code label [] is = absurd (ground arith)
lookup-has_value code label ((k, v) ∷ m) is =
    ground (arith, same_refl label, lookup-has_value code label m)

pos_label-IsLabel : (code : Text) → IsLabel (pos_label code).0
unfolding pos_label is_label_value
pos_label-IsLabel code =
    some_split (λ (a : Text × Bool). IsLabel a.0) (lookup code pos_label_map)
      (λ label found. inr (lookup-has_value code label pos_label_map found))
      (λ n.
        if_split (λ (a : Text × Bool). IsLabel a.0) (has_value code pos_label_map) (λ y. inr y)
          (λ z. inl refl))

-- A sense with a text, within the cap.
pub record IsSense (x : PageSense) : Type 0 where
  pub labelled : IsLabel x.pos
  pub some_text : null x.gloss ≡ false
  pub capped : length x.gloss ≤ max_gloss_runes

-- What the loop has so far, from so many definitions kept before it.
pub record IsWalk (before : ℕ) (senses : List PageSense) (label : Text) (kept : ℕ) : Type 0 where
  pub counted : before ≤ kept
  pub as_many : length senses ≡ min max_senses (kept - before)
  pub each : All IsSense senses
  pub labelled : IsLabel label

abbrev Walked : ℕ → Walk → Type 0
Walked before w = IsWalk before w.senses w.label w.stats.defs_kept

kind_split :
    {B : Type 0} (P : B → Type 0) (kind : HeadingKind) {x y z : B}
    → P x
    → P y
    → P z
    → P (elim kind [ pos_heading ↦ x | other_heading ↦ y | not_heading ↦ z ])
kind_split P pos_heading a b c = a
kind_split P other_heading a b c = b
kind_split P not_heading a b c = c

module _ (k : Scanner) (before : ℕ) where
  keep_sense-Walked :
      (gloss : Text) (was_cut : Bool) (w : Walk)
      → null gloss ≡ false
      → length gloss ≤ max_gloss_runes
      → Walked before w
      → Walked before (keep_sense gloss was_cut w)
  unfolding keep_sense
  keep_sense-Walked gloss was_cut w some_text short x =
      let one : PageSense = record { pos = w.label; gloss = gloss } in
      let fine : IsSense one = record {
        labelled = x.labelled;
        some_text = some_text;
        capped = short;
      } in
      let le = x.counted in
      let many = x.as_many in
      if_split (λ (senses : List PageSense). IsWalk before senses w.label (w.stats.defs_kept + 1))
        (ltb (length w.senses) max_senses)
        (λ room. record {
          counted = omega arith;
          as_many = ground (arith, length-append w.senses (one ∷ []));
          each = All-append IsSense w.senses (one ∷ []) x.each (fine, tt);
          labelled = x.labelled;
        })
        (λ full. record {
          counted = omega arith;
          as_many = ground arith;
          each = x.each;
          labelled = x.labelled;
        })

  take_gloss-Walked :
      (gloss : Text) (w : Walk) → Walked before w → Walked before (take_gloss gloss w)
  unfolding take_gloss
  take_gloss-Walked gloss w x =
      if_split (Walked before) (null gloss) (λ e. x)
        (λ n.
          keep_sense-Walked (cap_gloss gloss).0 (cap_gloss gloss).1 w (null-cap_gloss gloss n)
            (cap_gloss-IsCapped gloss).bounded x)

  read_definition-Walked :
      (line : Text) (w : Walk) → Walked before w → Walked before (read_definition k line w)
  unfolding read_definition
  read_definition-Walked [] w x = x
  read_definition-Walked (hash ∷ line) w x = take_gloss-Walked _ _ x

  enter_pos-Walked : (code : Text) (w : Walk) → Walked before w → Walked before (enter_pos code w)
  unfolding enter_pos
  enter_pos-Walked code w x =
      if_split (λ (st : SectionStats). IsWalk before w.senses (pos_label code).0 st.defs_kept)
        (pos_label code).1
        (λ y. record {
          counted = x.counted;
          as_many = x.as_many;
          each = x.each;
          labelled = pos_label-IsLabel code;
        })
        (λ n. record {
          counted = x.counted;
          as_many = x.as_many;
          each = x.each;
          labelled = pos_label-IsLabel code;
        })

  read_line-Walked : (line : Text) (w : Walk) → Walked before w → Walked before (read_line k line w)
  unfolding read_line
  read_line-Walked line w x =
      kind_split (Walked before) (classify_heading k (chomp line)).1
        (enter_pos-Walked (classify_heading k (chomp line)).0 w x)
        (record { counted = x.counted; as_many = x.as_many; each = x.each; labelled = inl refl })
        (if_split (Walked before) (is_definition_line (chomp line))
          (λ y. read_definition-Walked (chomp line) w x) (λ n. x))

  read_lines-Walked :
      (lines : List Text) (w : Walk) → Walked before w → Walked before (read_lines k lines w)
  unfolding read_lines
  read_lines-Walked [] w x = x
  read_lines-Walked (line ∷ lines) w x =
      read_lines-Walked lines (read_line k line w) (read_line-Walked line w x)

-- What the definitions of a section are, from the counts before it.
pub record AreDefinitions (stats : SectionStats) (found : List PageSense × SectionStats)
    : Type 0 where
  pub few : length found.0 ≤ max_senses
  pub as_many : length found.0 ≡ min max_senses (found.1.defs_kept - stats.defs_kept)
  pub each : All IsSense found.0

-- The definitions of a section are as many as were counted as kept, up to five, each a text of at
-- most 200 runes that is not empty, with no label or a label of the table.
pub definitions-AreDefinitions :
    (k : Scanner) (section : Text) (stats : SectionStats)
    → AreDefinitions stats (definitions k section stats)
unfolding definitions start_walk
definitions-AreDefinitions k section stats =
    let walk =
      read_lines-Walked k stats.defs_kept (split_on 10 section) (start_walk stats)
        (record { counted = omega arith; as_many = omega arith; each = tt; labelled = inl refl }) in
    record { few = omega (arith, walk.as_many); as_many = walk.as_many; each = walk.each }
