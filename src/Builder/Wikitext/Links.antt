-- ===== src/Builder/Wikitext/Links.antt =====
-- server/cmd/build-dictionary/wikitext.go: links, the lines that are definitions, and the cap on
-- their length. A loop over links runs on fuel: each takes a part of the text.
use noitu.Prelude.{
  ℕ, zero, suc, ◌-◌, Bool, true, false, not, ◌&&◌, ◌||◌, [], ◌∷◌, ◌++◌, Option, none, some, Text,
  codes, null, length, leb, ◌==◌, if◌then◌else◌, map, take,
}
use noitu.Builder.Wikitext.{has_prefix, cut_at, after_last, before_last, trim_end, has_rune_of}

-- The text before an opener, what stands between it and the next closer, and the rest.
unfoldable pub next_link : Text → Text → Text → Option (Text × (Text × Text))
next_link opener closer s = elim (cut_at opener s) [
  | none ↦ none
  | some (before, from) ↦ elim (cut_at closer from) [
    | none ↦ none
    | some (inner, after) ↦ some (before, (inner, after))
  ]
]

-- One of the two loops, with what it shows of a link.
unfoldable pub strip_loop : Text → Text → (Text → Text) → ℕ → Text → Text
strip_loop opener closer show zero s = s
strip_loop opener closer show (suc n) s = elim (next_link opener closer s) [
  | none ↦ s
  | some (before, (inner, after)) ↦ before ++ (show inner ++ strip_loop opener closer show n after)
]

unfoldable pub after_bar : Text → Text
after_bar inner = elim (after_last 124 inner) [ none ↦ inner | some label ↦ label ]

-- A category link shows nothing.
unfoldable pub show_link : (ℕ → ℕ) → Text → Text
show_link to_lower inner =
    let lower = map to_lower inner in
    if has_prefix lower (codes "thể loại:") || has_prefix lower (codes "category:")
    then []
    else after_bar inner

-- What stands between "[http" and "]".
unfoldable pub show_address : Text → Text
show_address inner = elim (cut_at (32 ∷ []) inner) [ none ↦ [] | some (address, label) ↦ label ]

unfoldable pub strip_links : (ℕ → ℕ) → Text → Text
strip_links to_lower s =
    let inside = strip_loop (codes "[[") (codes "]]") (show_link to_lower) (length s) s in
    strip_loop (codes "[http") (codes "]") show_address (length inside) inside

unfoldable pub is_definition_line : Text → Bool
is_definition_line [] = false
is_definition_line (c ∷ []) = false
is_definition_line (c ∷ (d ∷ rest)) = c == 35 && not (has_rune_of (codes "#:*;") d)

abbrev pub max_gloss_runes : ℕ
max_gloss_runes = 200

abbrev pub ellipsis : Text
ellipsis = codes "…"

-- The text before the last space, where that is not at the start.
unfoldable pub to_last_space : Text → Text
to_last_space head = elim (before_last 32 head) [
  | none ↦ head
  | some before ↦ if null before then head else before
]

-- The definition, and whether it was cut.
unfoldable pub cap_gloss : Text → Text × Bool
cap_gloss s = if leb (length s) max_gloss_runes then (s, false) else (
  trim_end (codes " ,;:") (to_last_space (take (max_gloss_runes - length ellipsis) s)) ++ ellipsis,
  true,
)
