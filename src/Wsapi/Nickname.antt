-- ===== src/Wsapi/Nickname.antt =====
-- server/internal/wsapi/nickname.go: the filter on names and chat lines, and how two equal names
-- are told apart. The Unicode tables and NFC are parameters.
pub mod Filter
pub mod Decimal
pub mod Distinguish
mod Tests
use noitu.Prelude.{
  ℕ, zero, suc, ◌+◌, ◌-◌, ◌/◌, ◌%◌, Bool, true, false, not, ◌&&◌, ◌||◌, List, [], ◌∷◌, ◌++◌, Option,
  none, some, Text, codes, contains, length, null, leb, ltb, ◌==◌, if◌then◌else◌, take,
}
use noitu.Vietnamese.{is_space, fields, join}

-- What the filter asks of the Unicode tables.
pub record Tables : Type 0 where
  pub nfc : Text → Text
  pub is_control : ℕ → Bool
  -- `unicode.Cf`.
  pub is_format : ℕ → Bool
  pub is_print : ℕ → Bool
  -- `unicode.Mn` or `unicode.Me`.
  pub is_mark : ℕ → Bool

abbrev pub max_nickname_runes : ℕ
max_nickname_runes = 20

abbrev pub max_nickname_marks : ℕ
max_nickname_marks = 2

abbrev pub default_nickname : Text
default_nickname = codes "Người chơi"

unfoldable pub blank_letter : ℕ → Bool
blank_letter c =
    (c == 0x115F || c == 0x1160 || c == 0x17B4 || c == 0x17B5)
    || (c == 0x2800 || c == 0x3164 || c == 0xFFA0)

-- `strings.TrimSpace`, at its two ends.
unfoldable pub trim_left : Text → Text
trim_left [] = []
trim_left (c ∷ s) = let rest = trim_left s in if is_space c then rest else c ∷ s

unfoldable pub trim_right : Text → Text
trim_right [] = []
trim_right (c ∷ s) = let rest = trim_right s in if null rest && is_space c then [] else c ∷ rest

unfoldable pub trim_space : Text → Text
trim_space s = trim_right (trim_left s)

-- The runes of a decimal numeral, on fuel.
unfoldable pub digits : ℕ → ℕ → Text
digits zero n = []
digits (suc fuel) n =
    let front = digits fuel (n / 10) in
    if ltb n 10 then (48 + n) ∷ [] else front ++ (48 + n % 10) ∷ []

-- `fmt.Sprintf(" %d", n)`.
unfoldable pub suffix : ℕ → Text
suffix n = 32 ∷ digits (suc n) n

unfoldable pub candidate : Text → ℕ → Text
candidate name n =
    let end = suffix n in
    let trimmed =
      if ltb max_nickname_runes (length name + length end)
      then trim_space (take (max_nickname_runes - length end) name)
      else name in
    trimmed ++ end

-- The loop of `distinguish` from the number `n`, on fuel.
unfoldable pub distinguish_from : Text → List Text → ℕ → ℕ → Option Text
distinguish_from name taken zero n = none
distinguish_from name taken (suc fuel) n =
    let rest = distinguish_from name taken fuel (suc n) in
    if not (contains taken (candidate name n)) then some (candidate name n) else rest

unfoldable pub distinguish : Text → List Text → Option Text
distinguish name taken =
    if not (contains taken name)
    then some name
    else distinguish_from name taken (suc (length taken)) 2

module _ (t : Tables) where
  -- The runes that a rune is mapped to.
  unfoldable pub map_rune : ℕ → Text
  map_rune c =
      if is_space c
      then 32 ∷ []
      else if t.is_control c || t.is_format c
      then []
      else if blank_letter c
      then []
      else if not (t.is_print c)
      then []
      else c ∷ []

  unfoldable pub map_runes : Text → Text
  map_runes [] = []
  map_runes (c ∷ s) = map_rune c ++ map_runes s

  -- The loop of `capMarks`, `marks` into a cluster.
  unfoldable pub cap_from : ℕ → ℕ → Text → Text
  cap_from max_marks marks [] = []
  cap_from max_marks marks (c ∷ s) =
      let skipped = cap_from max_marks marks s in
      let counted = cap_from max_marks (suc marks) s in
      let based = cap_from max_marks 0 s in
      if t.is_mark c then if leb max_marks marks then skipped else c ∷ counted else c ∷ based

  unfoldable pub cap_marks : Text → ℕ → Text
  cap_marks s max_marks = cap_from max_marks 0 s

  unfoldable pub sanitize_text : Text → ℕ → ℕ → Text
  sanitize_text raw max_runes max_marks =
      let s = join (fields (cap_marks (map_runes (t.nfc raw)) max_marks)) in
      if ltb max_runes (length s) then trim_space (take max_runes s) else s

  -- `denylisted` is a variable of the package.
  unfoldable pub sanitize_nickname : (Text → Bool) → Text → Text
  sanitize_nickname denylisted raw =
      let s = sanitize_text raw max_nickname_runes max_nickname_marks in
      if null s || denylisted s then default_nickname else s
