-- ===== src/Builder/Wikitext/Templates.antt =====
-- server/cmd/build-dictionary/wikitext.go: templates. The text inside one is rendered by the same
-- functions, so they run on fuel: a template and a parameter of it are shorter than the text.
use noitu.Prelude.{
  ℕ, zero, suc, ◌-◌, Bool, true, false, not, ◌&&◌, ◌||◌, List, [], ◌∷◌, ◌++◌, Text, codes, contains,
  null, length, leb, ltb, ◌==◌, if◌then◌else◌, map,
}
use noitu.Wsapi.Nickname.{trim_space}
use noitu.Builder.Wikitext.{has_text, join_with, count_up}

-- What two runes are: an opener, a closer, or text that starts with the first of them.
pub data Brace : Type 0 where
  opens closes plain_text : Brace

unfoldable pub curly : ℕ → ℕ → Brace
curly c d =
    if c == 123 && d == 123 then opens else if c == 125 && d == 125 then closes else plain_text

-- The braces and the brackets that `splitTemplate` counts.
unfoldable pub curly_or_square : ℕ → ℕ → Brace
curly_or_square c d =
    if (c == 123 && d == 123) || (c == 91 && d == 91)
    then opens
    else if (c == 125 && d == 125) || (c == 93 && d == 93)
    then closes
    else plain_text

unfoldable pub push_front : Text → List Text → List Text
push_front s [] = s ∷ []
push_front s (part ∷ parts) = (s ++ part) ∷ parts

-- `splitTemplate` at a depth. An opener and a closer are two runes of the part.
unfoldable pub split_from : ℕ → Text → List Text
split_from depth [] = [] ∷ []
split_from depth (c ∷ []) = if c == 124 && depth == 0 then [] ∷ ([] ∷ []) else (c ∷ []) ∷ []
split_from depth (c ∷ (d ∷ rest)) = elim (curly_or_square c d) [
  | opens ↦ push_front (c ∷ (d ∷ [])) (split_from (suc depth) rest)
  | closes ↦ push_front (c ∷ (d ∷ [])) (split_from (depth - 1) rest)
  | plain_text ↦
      let more = split_from depth (d ∷ rest) in
      if c == 124 && depth == 0 then [] ∷ more else push_front (c ∷ []) more
]

unfoldable pub split_template : Text → List Text
split_template body = split_from 0 body

-- What stands at depth zero: a rune of text, or the body of a template.
pub data Piece : Type 0 where
  rune_piece : ℕ → Piece
  template_piece : Text → Piece

unfoldable pub push_piece : Piece → List Piece × Bool → List Piece × Bool
push_piece p (pieces, unclosed) = (p ∷ pieces, unclosed)

-- The loop of `stripTemplates` at a depth, with the body so far; whether a template was not closed.
unfoldable pub scan_pieces : ℕ → Text → Text → List Piece × Bool
scan_pieces depth body [] = ([], not (depth == 0))
scan_pieces zero body (c ∷ []) = (rune_piece c ∷ [], false)
scan_pieces (suc depth) body (c ∷ []) = ([], true)
scan_pieces zero body (c ∷ (d ∷ rest)) = elim (curly c d) [
  | opens ↦ scan_pieces 1 [] rest
  | closes ↦ scan_pieces zero [] rest
  | plain_text ↦ push_piece (rune_piece c) (scan_pieces zero [] (d ∷ rest))
]
scan_pieces (suc depth) body (c ∷ (d ∷ rest)) = elim (curly c d) [
  | opens ↦ scan_pieces (suc (suc depth)) (body ++ c ∷ (d ∷ [])) rest
  | closes ↦ elim depth [
    | zero ↦ push_piece (template_piece body) (scan_pieces zero [] rest)
    | suc n ↦ scan_pieces (suc n) (body ++ c ∷ (d ∷ [])) rest
  ]
  | plain_text ↦ scan_pieces (suc depth) (body ++ c ∷ []) (d ∷ rest)
]

-- How often each template was dropped.
abbrev pub Counts : Type 0
Counts = List (Text × ℕ)

unfoldable pub is_letter_az : ℕ → Bool
is_letter_az c = leb 97 c && leb c 122

-- The loop of `isLangCode`, after so many letters.
unfoldable pub lang_code_from : ℕ → Text → Bool
lang_code_from letters [] = leb 2 letters && leb letters 3
lang_code_from letters (c ∷ s) =
    let after_letter = lang_code_from (suc letters) s in
    let after_dash = lang_code_from 0 s in
    if is_letter_az c
    then after_letter
    else if c == 45
    then not (ltb letters 2) && after_dash
    else false

unfoldable pub is_lang_code : Text → Bool
is_lang_code p = not (ltb (length p) 2 || ltb 11 (length p)) && lang_code_from 0 p

unfoldable pub drop_lang : List Text → List Text
drop_lang [] = []
drop_lang (p ∷ []) = p ∷ []
drop_lang (p ∷ (q ∷ rest)) = if is_lang_code p then q ∷ rest else p ∷ (q ∷ rest)

unfoldable pub last_param : List Text → Text
last_param [] = []
last_param (p ∷ []) = p
last_param (p ∷ (q ∷ rest)) = last_param (q ∷ rest)

-- "c/Việt Nam" is a typed place.
unfoldable pub untyped : Text → Text
untyped (c ∷ (slash ∷ (d ∷ rest))) =
    if slash == 47 && is_letter_az c then d ∷ rest else c ∷ (slash ∷ (d ∷ rest))
untyped p = p

pub data TemplateKind : Type 0 where
  label_template link_template gloss_template see_template place_template other_template :
      TemplateKind

-- The switch of `renderTemplate`.
unfoldable pub template_kind : Text → TemplateKind
template_kind name =
    if contains
      (codes "label"
        ∷ codes "lb"
        ∷ codes "nhãn"
        ∷ codes "context"
        ∷ codes "term"
        ∷ codes "gloss"
        ∷ codes "qualifier"
        ∷ codes "q"
        ∷ [])
      name
    then label_template
    else if contains (codes "l" ∷ codes "vi-l" ∷ codes "w" ∷ codes "m" ∷ codes "link" ∷ []) name
    then link_template
    else if contains (codes "n-g" ∷ codes "non-gloss" ∷ codes "non-gloss definition" ∷ []) name
    then gloss_template
    else if contains (codes "see-entry" ∷ codes "like-entry" ∷ []) name
    then see_template
    else if contains (codes "place" ∷ []) name
    then place_template
    else other_template

unfoldable pub in_parens : List Text → Text
in_parens params =
    if null params then [] else codes "(" ++ (join_with (codes ", ") params ++ codes ")")

unfoldable pub first_seen : List Text → Text
first_seen [] = []
first_seen (p ∷ rest) = codes "Xem " ++ p

unfoldable pub render_params : Text → List Text → Counts → Text × Counts
render_params name params m = elim (template_kind name) [
  | label_template ↦ (in_parens (drop_lang params), m)
  | link_template ↦ (last_param (drop_lang params), m)
  | gloss_template ↦ (join_with (codes " ") params, m)
  | see_template ↦ (first_seen params, m)
  | place_template ↦ (join_with (codes ", ") (map untyped (drop_lang params)), m)
  | other_template ↦ ([], count_up name m)
]

-- A key=value parameter is a presentation hint.
unfoldable pub is_hint : Text → Bool
is_hint p = has_text p (codes "=") && not (has_text p (codes "[[")) && not (has_text p (codes "{{"))

-- The functions that follow take `stripTemplates` for the texts inside a template.
module _ (strip : Text → Counts → Text × Counts) where
  unfoldable pub read_params : List Text → Counts → List Text × Counts
  read_params [] m = ([], m)
  read_params (p ∷ rest) m =
      let skipped = read_params rest m in
      let read = strip (trim_space p) m in
      let later = read_params rest read.1 in
      if is_hint p then skipped else (trim_space read.0 ∷ later.0, later.1)

  -- The name and the parameters of the parts of a body, which has one part or more.
  unfoldable pub render_parts : (Text → Text) → List Text → Counts → Text × Counts
  render_parts lower [] m = ([], m)
  render_parts lower (part ∷ parts) m =
      let (params, counted) = read_params parts m in
      render_params (lower (trim_space part)) params counted

  unfoldable pub render_template : (Text → Text) → Text → Counts → Text × Counts
  render_template lower body m = render_parts lower (split_template body) m

  unfoldable pub write_pieces : (Text → Text) → List Piece → Counts → Text × Counts
  write_pieces lower [] m = ([], m)
  write_pieces lower (rune_piece c ∷ pieces) m =
      let (s, counted) = write_pieces lower pieces m in (c ∷ s, counted)
  write_pieces lower (template_piece body ∷ pieces) m =
      let rendered = render_template lower body m in
      let later = write_pieces lower pieces rendered.1 in (rendered.0 ++ later.0, later.1)

  unfoldable pub strip_once : (Text → Text) → Text → Counts → Text × Counts
  strip_once lower s m =
      let (pieces, unclosed) = scan_pieces 0 [] s in
      let (out, counted) = write_pieces lower pieces m in
      (out, if unclosed then count_up (codes "(unclosed)") counted else counted)

-- `stripTemplates` on fuel.
unfoldable pub strip_fuel : (Text → Text) → ℕ → Text → Counts → Text × Counts
strip_fuel lower zero s m = ([], m)
strip_fuel lower (suc n) s m = strip_once (strip_fuel lower n) lower s m

unfoldable pub strip_templates : (Text → Text) → Text → Counts → Text × Counts
strip_templates lower s m = strip_fuel lower (suc (length s)) s m
