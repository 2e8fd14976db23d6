-- ===== src/Store/Tests.antt =====
-- A store of two words and one alias.
use noitu.Prelude.{
  zero, suc, ◌≡◌, refl, List, [], ◌∷◌, none, some, arith, codes, same, lookup, lookup_or, insert,
  length,
}
use noitu.Store.{
  Store, WordRow, push, load_syllables, load_word, load_words, load_aliases, validate, has_key,
  meanings_known, degrees_current, aliases_known, resolve, words_starting_with, out_degree,
}
use noitu.Store.Lookups.{IsEntry, resolve-IsEntry, out_degree-words_starting_with}
use noitu.Vietnamese.{Unicode, normalize, has_enough_syllables, fields, is_space, join}
use noitu.Game.State.{not_in_dictionary}
use noitu.Game.Engine.{Engine, turn, is_expired}
use noitu.Game.Submit.{opened, submit, answer, judge}
use noitu.Store.Served.{dictionary_of, IsMissing, submit-IsMissing}
use noitu.Store.Openings.{IsDescending}

abbrev empty : Store
empty = record {
  words = [];
  aliases = [];
  by_first = [];
  out_degrees = [];
  openers = [];
  meanings = [];
  meaning_count = 0;
  stripped = [];
}

abbrev rows : List WordRow
rows =
    record { word = codes "a b"; first = codes "a"; last = codes "b" }
    ∷ record { word = codes "b a"; first = codes "b"; last = codes "a" }
    ∷ []

abbrev counted : Store
counted = load_syllables ((codes "a", 1) ∷ (codes "b", 1) ∷ []) empty

abbrev loaded : Store
loaded = load_aliases ((codes "a p", codes "a b") ∷ []) (load_words rows counted)

loaded_valid : validate loaded 2 0 ≡ none
unfolding validate load_syllables load_words load_word load_aliases push insert lookup_or lookup
    same has_key meanings_known degrees_current aliases_known
loaded_valid = refl

alias_resolves : resolve loaded (codes "a p") ≡ some (codes "a b")
unfolding resolve load_syllables load_words load_word load_aliases push insert lookup_or lookup same
    has_key
alias_resolves = refl

resolve-IsEntry_example : IsEntry loaded (codes "a b")
resolve-IsEntry_example =
    resolve-IsEntry loaded 2 0 (codes "a p") (codes "a b") loaded_valid alias_resolves

abbrev in_game : Engine
in_game = opened (codes "p1" ∷ codes "p2" ∷ []) (codes "a b") (codes "b") 100 1000

abbrev ascii : Unicode
ascii = record { nfc = λ s. s; to_lower = λ c. c }

c_d_unknown :
    (submit (dictionary_of loaded) ascii in_game (codes "p1") (codes "c d") 1010).2
    ≡ not_in_dictionary
unfolding submit answer judge is_expired turn resolve load_syllables load_words load_word
    load_aliases push insert lookup_or lookup same has_key opened normalize has_enough_syllables
    fields is_space join
c_d_unknown = refl

submit-IsMissing_example : IsMissing loaded ascii (codes "c d")
submit-IsMissing_example =
    submit-IsMissing loaded 2 0 ascii in_game (codes "p1") (codes "c d") 1010 loaded_valid
      c_d_unknown

degree_of_b : out_degree loaded (codes "b") ≡ some 1
unfolding out_degree load_syllables load_words load_word load_aliases insert lookup same
degree_of_b = refl

out_degree-words_starting_with_example : length (words_starting_with loaded (codes "b")) ≡ 1
out_degree-words_starting_with_example =
    out_degree-words_starting_with loaded 2 0 (codes "b") 1 loaded_valid degree_of_b

-- Openers answered by five and by three words.
abbrev openings : Store
openings = record empty {
  openers =
      record { word = codes "a b"; last_out_degree = 5 }
      ∷ record { word = codes "b a"; last_out_degree = 3 }
      ∷ [];
}

openings-IsDescending : IsDescending openings
openings-IsDescending zero zero h k = omega arith
openings-IsDescending zero (suc zero) h k = omega arith
openings-IsDescending zero (suc (suc n)) h k = omega arith
openings-IsDescending (suc i) zero h k = absurd (omega arith)
openings-IsDescending (suc zero) (suc zero) h k = omega arith
openings-IsDescending (suc (suc i)) (suc zero) h k = absurd (omega arith)
openings-IsDescending (suc i) (suc (suc n)) h k = absurd (omega arith)
