-- ===== src/Vietnamese/Fields.antt =====
-- Splitting a text at its spaces, joining the pieces, and what `Normalize` makes of a text.
use noitu.Prelude.{
  ◌≤◌, ◌≡◌, refl, false, List, [], ◌∷◌, ◌++◌, Option, none, some, Text, length, null, if◌then◌else◌,
  if_split, All, arith,
}
use noitu.Vietnamese.{Unicode, is_space, push_field, split_fields, fields, join, lower, normalize}

-- No character is a space.
abbrev pub IsSpaceFree : Text → Type 0
IsSpaceFree = All (λ c. is_space c ≡ false)

-- A piece between spaces.
abbrev pub IsField : Text → Type 0
IsField w = (null w ≡ false) × IsSpaceFree w

push_field-All :
    (w : Text) (rest : List Text)
    → IsSpaceFree w
    → All IsField rest
    → All IsField (push_field w rest)
unfolding push_field
push_field-All w rest f a = if_split (All IsField) (null w) (λ e. a) (λ n. ((n, f), a))

split_fields-All : (s : Text) → IsSpaceFree (split_fields s).0 × All IsField (split_fields s).1
unfolding split_fields
split_fields-All [] = (tt, tt)
split_fields-All (c ∷ s) =
    let (f, a) = split_fields-All s in
    if_split (λ (r : Text × List Text). IsSpaceFree r.0 × All IsField r.1) (is_space c)
      (λ sp. (tt, push_field-All (split_fields s).0 (split_fields s).1 f a)) (λ no. ((no, f), a))

pub fields-All : (s : Text) → All IsField (fields s)
unfolding fields
fields-All s =
    let (f, a) = split_fields-All s in push_field-All (split_fields s).0 (split_fields s).1 f a

split_fields-free : (w : Text) → IsSpaceFree w → split_fields w ≡ (w, [])
unfolding split_fields
split_fields-free [] f = refl
split_fields-free (c ∷ w) f = rw (f.0, split_fields-free w f.1) refl

-- A piece in front of a space.
split_fields-append : (w s : Text) → IsSpaceFree w → split_fields (w ++ 32 ∷ s) ≡ (w, fields s)
unfolding split_fields fields is_space
split_fields-append [] s f = refl
split_fields-append (c ∷ w) s f = rw (f.0, split_fields-append w s f.1) refl

push_field-full : (w : Text) (rest : List Text) → null w ≡ false → push_field w rest ≡ w ∷ rest
unfolding push_field
push_field-full w rest n = rw n refl

pub fields-join : (ws : List Text) → All IsField ws → fields (join ws) ≡ ws
unfolding fields join
fields-join [] a = refl
fields-join (w ∷ []) a = rw (split_fields-free w a.0.1) (push_field-full w [] a.0.0)
fields-join (w ∷ v ∷ ws) a =
    rw (split_fields-append w (join (v ∷ ws)) a.0.1, fields-join (v ∷ ws) a.1)
      (push_field-full w (v ∷ ws) a.0.0)

-- What `Normalize` hands back: the syllables are the fields of the text, one at least.
pub record IsNormal (normalized : Text) (syllables : List Text) : Type 0 where
  pub joined : normalized ≡ join syllables
  pub split : fields normalized ≡ syllables
  pub each : All IsField syllables
  pub some_left : 1 ≤ length syllables

join-IsNormal :
    (syllables : List Text)
    → All IsField syllables
    → null syllables ≡ false
    → IsNormal (join syllables) syllables
join-IsNormal [] a n = absurd (ground arith)
join-IsNormal (w ∷ ws) a n = record {
  joined = refl;
  split = fields-join (w ∷ ws) a;
  each = a;
  some_left = omega arith;
}

some-IsNormal :
    (ws : List Text) (normalized : Text) (syllables : List Text)
    → All IsField ws
    → if◌then◌else◌ {A = Option (Text × List Text)} (null ws) none (some (join ws, ws))
      ≡ some (normalized, syllables)
    → IsNormal normalized syllables
some-IsNormal [] normalized syllables a h = absurd (ground arith)
some-IsNormal (w ∷ ws) normalized syllables a h =
    let text : join (w ∷ ws) ≡ normalized = ground arith in
    let list : w ∷ ws ≡ syllables = ground arith in
    rw (← text, ← list) (join-IsNormal (w ∷ ws) a refl)

-- The text that Normalize answers is its syllables joined, splits into them again, and they are
-- one or more, none empty and none with a space.
pub normalize-IsNormal :
    (u : Unicode) (raw normalized : Text) (syllables : List Text)
    → normalize u raw ≡ some (normalized, syllables)
    → IsNormal normalized syllables
unfolding normalize
normalize-IsNormal u raw normalized syllables h =
    let ws = fields (u.nfc (lower u (u.nfc raw))) in
    some-IsNormal ws normalized syllables (fields-All (u.nfc (lower u (u.nfc raw)))) h

IsNormal-again :
    (normalized : Text) (syllables : List Text)
    → IsNormal normalized syllables
    → if◌then◌else◌ {A = Option (Text × List Text)}
        (null syllables)
        none
        (some (join syllables, syllables))
      ≡ some (normalized, syllables)
IsNormal-again normalized [] n = absurd (omega (arith, n.some_left))
IsNormal-again normalized (w ∷ ws) n = rw n.joined refl

-- A text that is its syllables joined, and that NFC and lower case leave alone, is normalized to
-- itself and these syllables.
pub normalize_idempotent :
    (u : Unicode) (normalized : Text) (syllables : List Text)
    → IsNormal normalized syllables
    → u.nfc normalized ≡ normalized
    → lower u normalized ≡ normalized
    → normalize u normalized ≡ some (normalized, syllables)
unfolding normalize
normalize_idempotent u normalized syllables n composed lowered =
    rw (composed, lowered, composed, n.split) (IsNormal-again normalized syllables n)
