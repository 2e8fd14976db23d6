-- ===== src/Vietnamese/Tests.antt =====
-- Normalizing a text of plain letters.
use noitu.Prelude.{◌≡◌, refl, List, [], ◌∷◌, some, Text, codes}
use noitu.Vietnamese.{Unicode, is_space, push_field, split_fields, fields, join, normalize}

abbrev plain : Unicode
plain = record { nfc = λ s. s; to_lower = λ c. c }

abbrev pieces : List Text
pieces = codes "ngu" ∷ codes "phap" ∷ []

padded : normalize plain (codes " ngu  phap ") ≡ some (codes "ngu phap", pieces)
unfolding normalize fields split_fields push_field is_space join
padded = refl
