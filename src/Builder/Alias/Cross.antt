-- ===== src/Builder/Alias/Cross.antt =====
-- The variants of a word that stays below the cap: every choice of spellings.
use noitu.Prelude.{ℕ, ◌*◌, ◌≤◌, ◌≡◌, List, [], ◌∷◌, ◌++◌, Text, map, length}
use noitu.Builder.Alias.Varied.{IsVaried}
use noitu.Builder.Alias.{Forms, spellings_of, split_spaces, unseen, max_variants_per_word}

-- Every choice of one spelling for each syllable.
abbrev pub cross_one : List (List Text) → List Text → List (List Text)
cross_one [] spellings = []
cross_one (prefix ∷ combos) spellings =
    map (λ s. prefix ++ s ∷ []) spellings ++ cross_one combos spellings

abbrev pub cross : List (List Text) → List (List Text) → List (List Text)
cross combos [] = combos
cross combos (spellings ∷ rest) = cross (cross_one combos spellings) rest

-- How many choices there are, from so many.
abbrev pub choices : ℕ → List (List Text) → ℕ
choices n [] = n
choices n (spellings ∷ rest) = choices (n * length spellings) rest

-- The variants of a word, and all of them where there are few choices.
pub record AreVariants (f : Forms) (word : Text) (variants : List Text) : Type 0 where
  pub varied : IsVaried f word variants
  pub all_choices :
      choices 1 (map (spellings_of f) (split_spaces word)) ≤ max_variants_per_word
      → variants ≡ unseen (word ∷ []) (cross ([] ∷ []) (map (spellings_of f) (split_spaces word)))
