-- ===== src/Wsapi/Nickname/Tests.antt =====
-- Names with plain tables.
use noitu.Prelude.{
  ◌≡◌, ◌≤◌, false, ◌&&◌, [], ◌∷◌, some, arith, All, Text, codes, contains, length, leb, ltb,
}
use noitu.Wsapi.Nickname.{Tables, sanitize_text, distinguish, max_nickname_runes}
use noitu.Wsapi.Nickname.Filter.{IsSafe, sanitize_text-IsSafe}
use noitu.Wsapi.Nickname.Distinguish.{distinguish_new}

-- The controls and the marks of the first blocks.
abbrev tables : Tables
tables = record {
  nfc = λ s. s;
  is_control = λ c. ltb c 32;
  is_format = λ c. leb 0x200B c && leb c 0x200F;
  is_print = λ c. leb 32 c;
  is_mark = λ c. leb 0x300 c && leb c 0x36F;
}

sanitize_text-IsSafe_example :
    (length (sanitize_text tables (codes " a  b ") 20 2) ≤ 20)
    × All (IsSafe tables) (sanitize_text tables (codes " a  b ") 20 2)
sanitize_text-IsSafe_example = sanitize_text-IsSafe tables (codes " a  b ") 20 2

distinguish_new_example :
    (w : Text) × (distinguish (codes "Minh") (codes "Minh" ∷ codes "Minh 2" ∷ []) ≡ some w)
    × (contains (codes "Minh" ∷ codes "Minh 2" ∷ []) w ≡ false)
    × (length w ≤ max_nickname_runes)
distinguish_new_example =
    distinguish_new (codes "Minh") (codes "Minh" ∷ codes "Minh 2" ∷ []) (omega arith) (omega arith)
