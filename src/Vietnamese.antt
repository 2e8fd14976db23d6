-- ===== src/Vietnamese.antt =====
-- server/internal/vietnamese/normalize.go: how raw input becomes a word and its syllables.
-- The NFC composition of golang.org/x/text and the case table of the Go runtime are parameters;
-- `strings.Fields` and `strings.Join` are written out.
pub mod Fields
mod Tests
use noitu.Prelude.{
  ℕ, ◌≤◌, Bool, ◌&&◌, ◌||◌, List, [], ◌∷◌, ◌++◌, map, Option, none, some, Text, length, leb, ◌==◌,
  if◌then◌else◌, null,
}

-- What normalization takes from outside the repository.
pub record Unicode : Type 0 where
  pub nfc : Text → Text
  pub to_lower : ℕ → ℕ

-- `unicode.IsSpace`: U+0009 to U+000D, the space, U+0085, U+00A0 and the spaces of planes above.
unfoldable pub is_space : ℕ → Bool
is_space c =
    (leb 9 c && leb c 13)
    || (c == 32 || c == 0x85 || c == 0xA0 || c == 0x1680 || (leb 0x2000 c && leb c 0x200A))
    || (c == 0x2028 || c == 0x2029 || c == 0x202F || c == 0x205F || c == 0x3000)

-- A field in front of the others; an empty one is no field.
unfoldable pub push_field : Text → List Text → List Text
push_field w rest = if null w then rest else w ∷ rest

-- The letters up to the first space, and the fields after them.
unfoldable pub split_fields : Text → Text × List Text
split_fields [] = ([], [])
split_fields (c ∷ s) =
    let (w, rest) = split_fields s in if is_space c then ([], push_field w rest) else (c ∷ w, rest)

-- `strings.Fields`.
unfoldable pub fields : Text → List Text
unfolding split_fields push_field
fields s = let (w, rest) = split_fields s in push_field w rest

-- `strings.Join(ws, " ")`.
unfoldable pub join : List Text → Text
join [] = []
join (w ∷ []) = w
join (w ∷ v ∷ ws) = let rest = join (v ∷ ws) in w ++ 32 ∷ rest

-- `strings.ToLower`.
abbrev pub lower : Unicode → Text → Text
lower u s = map u.to_lower s

abbrev pub min_syllables : ℕ
min_syllables = 2

-- `none` is `ErrEmpty`.
unfoldable pub normalize : Unicode → Text → Option (Text × List Text)
normalize u raw =
    let composed = u.nfc raw in
    let lowered = u.nfc (lower u composed) in
    let syllables = fields lowered in
    if null syllables then none else some (join syllables, syllables)

unfoldable pub has_enough_syllables : List Text → Bool
has_enough_syllables syllables = leb min_syllables (length syllables)
