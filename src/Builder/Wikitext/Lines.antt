-- ===== src/Builder/Wikitext/Lines.antt =====
-- A section is a run of lines of its page: none of them ends it, and the one after them does.
use noitu.Prelude.{
  ◌⊎◌, ℕ, suc, ◌≡◌, ◌≢◌, ◌↔◌, true, false, List, [], ◌∷◌, ◌++◌, Option, none, some, Text, codes,
  ltb, set, All, if◌then◌else◌,
}
use noitu.Builder.Wikitext.{Scanner, join_with, has_prefix}
use noitu.Builder.Wikitext.Headings.{
  Dialect, first_foreign, Section, no_dialect, legacy_dialect, new_dialect, is_level_two, chomp,
  drop_lines, ends_legacy, new_line,
}

-- Whether a line ends a section of this dialect, and with what.
abbrev pub Closes : Scanner → Dialect → Text → Text → Type 0
Closes k no_dialect ender line = ender ≢ ender
Closes k legacy_dialect ender line =
    ((has_prefix (chomp line) (codes "{{-") ≡ true)
      × (first_foreign (k.legacy_templates (chomp line)) ≡ some ender))
    ⊎ ((is_level_two k (chomp line) ≡ true) × (ender ≡ []))
Closes k new_dialect ender line = is_level_two k (chomp line) ≡ true

-- The lines of a section: the first ones of those given, up to the first that ends it.
pub record HasLines (k : Scanner) (from : List Text) (s : Section) : Type 0 where
  pub lines : List Text
  pub rest : List Text
  pub from_is : from ≡ lines ++ rest
  pub text_is : s.text ≡ join_with new_line lines
  pub no_heading : All (λ line. is_level_two k (chomp line) ≡ false) lines
  pub until :
      (rest ≡ [])
      ⊎ ((line : Text) × (more : List Text) × (rest ≡ line ∷ more)
          × Closes k s.dialect s.ender line)
  pub no_foreign : s.dialect ≡ legacy_dialect → All (λ line. ends_legacy k line ≡ none) lines

-- Where the section of a page starts.
abbrev pub start_of : List Text → Option (ℕ × Text) → Option ℕ → List Text
start_of page none none = []
start_of page (some (i, rest)) none = drop_lines i (set page i rest)
start_of page none (some j) = drop_lines (suc j) page
start_of page (some (i, rest)) (some j) =
    if ltb i j then drop_lines i (set page i rest) else drop_lines (suc j) (set page i rest)

-- The section of a page whose lines open one here or there.
pub record IsSection (k : Scanner) (page : List Text) (legacy : Option (ℕ × Text)) (new : Option ℕ)
    (s : Section) : Type 0 where
  pub has_lines : HasLines k (start_of page legacy new) s
  pub absent : (s.dialect ≡ no_dialect) ↔ ((legacy ≡ none) × (new ≡ none))
  pub first :
      (i j : ℕ) (rest : Text)
      → legacy ≡ some (i, rest)
      → new ≡ some j
      → s.dialect ≡ (if ltb i j then legacy_dialect else new_dialect)
  pub both_only : s.both ≡ true → (legacy ≢ none) × (new ≢ none)
