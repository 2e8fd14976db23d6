-- ===== src/Store/Served.antt =====
-- A store that serves the game as its dictionary.
use mathlib.Core.Path.{subst}
use noitu.Prelude.{ℕ, ◌≡◌, none, some, List, Text, inl, inr, arith}
use noitu.Vietnamese.{Unicode, normalize}
use noitu.Game.State.{PlayerId, Dictionary, not_in_dictionary}
use noitu.Game.Engine.{Engine}
use noitu.Game.Submit.{submit}
use noitu.Game.Submit.Rules.{IsUnknown}
use noitu.Game.Submit.Outcome.{Explains, submit-Explains}
use noitu.Store.{
  Store, validate, resolve, first_syllable, last_syllable, words_starting_with, out_degree,
}
use noitu.Store.Lookups.{resolve-IsEntry}

-- The store as the game sees it.
abbrev pub dictionary_of : Store → Dictionary
dictionary_of s = record {
  resolve = resolve s;
  first_syllable = first_syllable s;
  last_syllable = last_syllable s;
  words_starting_with = words_starting_with s;
  out_degree = out_degree s;
}

-- A word whose normalized form the store does not resolve.
abbrev pub IsMissing : Store → Unicode → Text → Type 0
IsMissing s u raw =
    (normalized : Text) × (syllables : List Text) × (normalize u raw ≡ some (normalized, syllables))
    × (resolve s normalized ≡ none)

module _ (s : Store) (declared_words declared_meanings : ℕ) (u : Unicode) (e : Engine)
    (p : PlayerId) (raw : Text) (now : ℕ)
    (valid : validate s declared_words declared_meanings ≡ none) where
  IsUnknown-IsMissing : IsUnknown (dictionary_of s) u e raw → IsMissing s u raw
  IsUnknown-IsMissing (inl (normalized, syllables, is, two, r)) = (normalized, syllables, is, r)
  IsUnknown-IsMissing (inr (inl (canonical, (normalized, syllables, is, two, r), f))) =
      let (first, last, first_is, last_is) =
        resolve-IsEntry s declared_words declared_meanings normalized canonical valid r in
      absurd (ground arith)
  IsUnknown-IsMissing (inr (inr (canonical, (normalized, syllables, is, two, r), l))) =
      let (first, last, first_is, last_is) =
        resolve-IsEntry s declared_words declared_meanings normalized canonical valid r in
      absurd (ground arith)

  -- Over a store that validates without an error, served to the game as its dictionary, Submit
  -- answers that a word is not in the dictionary only where the word has a normalized form that
  -- Resolve does not know: it never fails on the ends of a resolved word.
  pub submit-IsMissing :
      (submit (dictionary_of s) u e p raw now).2 ≡ not_in_dictionary → IsMissing s u raw
  submit-IsMissing refused =
      IsUnknown-IsMissing
        (subst (Explains (dictionary_of s) u e p raw now) refused
          (submit-Explains (dictionary_of s) u e p raw now)).1
