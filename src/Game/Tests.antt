-- ===== src/Game/Tests.antt =====
-- Games over a small dictionary, played by evaluation.
mod Words
mod Turns
use noitu.Prelude.{
  ℕ, ◌+◌, Bool, true, false, List, [], ◌∷◌, Option, none, some, Text, codes, lookup, lookup_or, ◌≡◌,
  refl, length, same, contains,
}
use noitu.Vietnamese.{Unicode}
use noitu.Game.State.{Dictionary}
use noitu.Game.Engine.{Engine, has_legal_move}
use noitu.Game.Submit.{has_duplicate, started, new, opened}
use noitu.Game.Submit.Valid.{new-IsValid}
use noitu.Game.Engine.Invariant.{IsValid}

abbrev pub ascii : Unicode
ascii = record { nfc = λ s. s; to_lower = λ c. c }

abbrev pub ends : List (Text × (Text × Text))
ends =
    (codes "a b", (codes "a", codes "b"))
    ∷ (codes "b c", (codes "b", codes "c"))
    ∷ (codes "b d", (codes "b", codes "d"))
    ∷ (codes "c b", (codes "c", codes "b"))
    ∷ []

abbrev pub next : List (Text × List Text)
next =
    (codes "a", codes "a b" ∷ [])
    ∷ (codes "b", codes "b c" ∷ codes "b d" ∷ [])
    ∷ (codes "c", codes "c b" ∷ [])
    ∷ []

-- Four words over the syllables a, b, c and d.
unfoldable pub small : Dictionary
unfolding lookup lookup_or
small = record {
  resolve = λ w. elim (lookup w ends) [ none ↦ none | some _ ↦ some w ];
  first_syllable = λ w. elim (lookup w ends) [ none ↦ none | some (f, l) ↦ some f ];
  last_syllable = λ w. elim (lookup w ends) [ none ↦ none | some (f, l) ↦ some l ];
  words_starting_with = λ s. lookup_or [] s next;
  out_degree = λ s. elim (lookup s next) [ none ↦ none | some ws ↦ some (length ws) ];
}

abbrev pub p1 : Text
p1 = codes "p1"

abbrev pub p2 : Text
p2 = codes "p2"

abbrev pub game0 : Engine
game0 = opened (p1 ∷ p2 ∷ []) (codes "a b") (codes "b") 100 1000

pub new_starts : new small (p1 ∷ p2 ∷ []) (codes "a b") 100 1000 ≡ started game0
unfolding new opened lookup lookup_or same contains has_duplicate has_legal_move small
new_starts = refl

pub game0-IsValid : IsValid game0
game0-IsValid = new-IsValid small (p1 ∷ p2 ∷ []) (codes "a b") 100 1000 new_starts

abbrev pub b_c : Text
b_c = codes "b c"

abbrev pub b_d : Text
b_d = codes "b d"
