-- ===== src/Builder/Wikitext/Runs.antt =====
-- The first lines of some, up to the one that ends a section.
use noitu.Prelude.{◌≡◌, refl, ap, ◌∙◌, List, [], ◌∷◌, ◌++◌, Option, none, some, Text, All, arith}
use noitu.Builder.Wikitext.Headings.{take_section}

-- The lines that are kept, and what follows them.
pub record IsRun (ends : Text → Option Text) (lines : List Text) (found : List Text × Option Text)
    : Type 0 where
  pub rest : List Text
  pub lines_are : lines ≡ found.0 ++ rest
  pub none_ends : All (λ line. ends line ≡ none) found.0
  pub ended :
      (e : Text)
      → found.1 ≡ some e
      → (line : Text) × (more : List Text) × (rest ≡ line ∷ more) × (ends line ≡ some e)
  pub unended : found.1 ≡ none → rest ≡ []

-- The cases of an option, the present one first.
pub some_split :
    {A B : Type 0} (P : B → Type 0) (o : Option A) {x : B} {f : A → B}
    → ((a : A) → o ≡ some a → P (f a))
    → (o ≡ none → P x)
    → P (elim o [ some a ↦ f a | none ↦ x ])
some_split P none h g = g refl
some_split P (some a) h g = h a refl

pub take_section-IsRun :
    (ends : Text → Option Text) (lines : List Text) → IsRun ends lines (take_section ends lines)
unfolding take_section
take_section-IsRun ends [] = record {
  rest = [];
  lines_are = refl;
  none_ends = tt;
  ended = λ e is. absurd (ground arith);
  unended = λ n. refl;
}
take_section-IsRun ends (line ∷ lines) =
    let later = take_section-IsRun ends lines in
    some_split (IsRun ends (line ∷ lines)) (ends line)
      (λ e is. record {
        rest = line ∷ lines;
        lines_are = refl;
        none_ends = tt;
        ended = λ e' same_end. (line, lines, refl, is ∙ same_end);
        unended = λ n. absurd (ground arith);
      })
      (λ n. record {
        rest = later.rest;
        lines_are = ap (λ r. line ∷ r) later.lines_are;
        none_ends = (n, later.none_ends);
        ended = later.ended;
        unended = later.unended;
      })
