-- ===== src/Wsapi/Nickname/Filter.antt =====
-- What a filtered text can hold and how long it is.
use mathlib.Core.Path.{subst}
use noitu.Prelude.{
  ℕ, suc, ◌≤◌, ◌≡◌, refl, ap, true, false, not, ◌&&◌, ◌||◌, List, [], ◌∷◌, arith, Text, length,
  length-take, null, leb, ltb, if◌then◌else◌, if_split, take, All, All-append, All-take, Bool-cases,
  ◌⊎◌, inl, inr,
}
use noitu.Vietnamese.{is_space, push_field, split_fields, fields, join}
use noitu.Wsapi.Nickname.{
  Tables, blank_letter, trim_left, trim_right, trim_space, map_rune, map_runes, cap_from, cap_marks,
  sanitize_text,
}

length-trim_left : (s : Text) → length (trim_left s) ≤ length s
unfolding trim_left
length-trim_left [] = omega arith
length-trim_left (c ∷ s) = ground (arith, length-trim_left s)

length-trim_right : (s : Text) → length (trim_right s) ≤ length s
unfolding trim_right
length-trim_right [] = omega arith
length-trim_right (c ∷ s) = ground (arith, length-trim_right s)

pub length-trim_space : (s : Text) → length (trim_space s) ≤ length s
unfolding trim_space
length-trim_space s = omega (arith, length-trim_left s, length-trim_right (trim_left s))

trim_left-All : (P : ℕ → Type 0) (s : Text) → All P s → All P (trim_left s)
unfolding trim_left
trim_left-All P [] a = tt
trim_left-All P (c ∷ s) a = if_split (All P) (is_space c) (λ sp. trim_left-All P s a.1) (λ no. a)

trim_right-All : (P : ℕ → Type 0) (s : Text) → All P s → All P (trim_right s)
unfolding trim_right
trim_right-All P [] a = tt
trim_right-All P (c ∷ s) a =
    if_split (All P) (null (trim_right s) && is_space c) (λ sp. tt)
      (λ no. (a.0, trim_right-All P s a.1))

pub trim_space-All : (P : ℕ → Type 0) (s : Text) → All P s → All P (trim_space s)
unfolding trim_space
trim_space-All P s a = trim_right-All P (trim_left s) (trim_left-All P s a)

join-All : (P : ℕ → Type 0) (ws : List Text) → P 32 → All (All P) ws → All P (join ws)
unfolding join
join-All P [] sp a = tt
join-All P (w ∷ []) sp a = a.0
join-All P (w ∷ v ∷ ws) sp a =
    All-append P w (32 ∷ join (v ∷ ws)) a.0 (sp, join-All P (v ∷ ws) sp a.1)

push_field-Each :
    (P : ℕ → Type 0) (w : Text) (rest : List Text)
    → All P w
    → All (All P) rest
    → All (All P) (push_field w rest)
unfolding push_field
push_field-Each P w rest p a = if_split (All (All P)) (null w) (λ e. a) (λ n. (p, a))

split_fields-Each :
    (P : ℕ → Type 0) (s : Text)
    → All P s
    → All P (split_fields s).0 × All (All P) (split_fields s).1
unfolding split_fields
split_fields-Each P [] a = (tt, tt)
split_fields-Each P (c ∷ s) a =
    let (p, q) = split_fields-Each P s a.1 in
    if_split (λ (r : Text × List Text). All P r.0 × All (All P) r.1) (is_space c)
      (λ sp. (tt, push_field-Each P (split_fields s).0 (split_fields s).1 p q))
      (λ no. ((a.0, p), q))

fields-Each : (P : ℕ → Type 0) (s : Text) → All P s → All (All P) (fields s)
unfolding fields
fields-Each P s a =
    let (p, q) = split_fields-Each P s a in
    push_field-Each P (split_fields s).0 (split_fields s).1 p q

module _ (t : Tables) where
  -- A plain space, or a printable rune that is no space, no control or format character and no
  -- blank letter.
  abbrev pub IsSafe : ℕ → Type 0
  IsSafe c =
      (c ≡ 32)
      ⊎ ((is_space c ≡ false)
          × (t.is_control c ≡ false)
          × (t.is_format c ≡ false)
          × (blank_letter c ≡ false)
          × (t.is_print c ≡ true))

  map_rune-IsSafe : (c : ℕ) → All IsSafe (map_rune t c)
  unfolding map_rune
  map_rune-IsSafe c =
      if_split (All IsSafe) (is_space c) (λ sp. (inl refl, tt))
        λ no.
          if_split (All IsSafe) (t.is_control c || t.is_format c) (λ h. tt)
            λ seen.
              if_split (All IsSafe) (blank_letter c) (λ h. tt)
                λ full.
                  if_split (All IsSafe) (not (t.is_print c)) (λ h. tt)
                    λ prints. (inr (no, ground arith, ground arith, full, ground arith), tt)

  map_runes-IsSafe : (s : Text) → All IsSafe (map_runes t s)
  unfolding map_runes
  map_runes-IsSafe [] = tt
  map_runes-IsSafe (c ∷ s) =
      All-append IsSafe (map_rune t c) (map_runes t s) (map_rune-IsSafe c) (map_runes-IsSafe s)

  cap_from-All :
      (P : ℕ → Type 0) (max_marks marks : ℕ) (s : Text)
      → All P s
      → All P (cap_from t max_marks marks s)
  unfolding cap_from
  cap_from-All P max_marks marks [] a = tt
  cap_from-All P max_marks marks (c ∷ s) a =
      if_split (All P) (t.is_mark c)
        (λ m.
          if_split (All P) (leb max_marks marks) (λ full. cap_from-All P max_marks marks s a.1)
            (λ room. (a.0, cap_from-All P max_marks (suc marks) s a.1)))
        (λ no. (a.0, cap_from-All P max_marks 0 s a.1))

  -- A filtered text has at most the wanted number of runes, and each is a plain space or a
  -- printable rune that is no space, no control or format character and no blank letter.
  pub sanitize_text-IsSafe :
      (raw : Text) (max_runes max_marks : ℕ)
      → (length (sanitize_text t raw max_runes max_marks) ≤ max_runes)
        × All IsSafe (sanitize_text t raw max_runes max_marks)
  unfolding sanitize_text cap_marks
  sanitize_text-IsSafe raw max_runes max_marks =
      let capped = cap_from t max_marks 0 (map_runes t (t.nfc raw)) in
      let s = join (fields capped) in
      let safe : All IsSafe s = join-All IsSafe (fields capped) (inl refl) (
        fields-Each IsSafe capped (
          cap_from-All IsSafe max_marks 0 (map_runes t (t.nfc raw))
            (map_runes-IsSafe (t.nfc raw)))) in
      if_split (λ r. (length r ≤ max_runes) × All IsSafe r) (ltb max_runes (length s))
        (λ long. (
          omega (arith, length-trim_space (take max_runes s), length-take max_runes s),
          trim_space-All IsSafe (take max_runes s) (All-take IsSafe max_runes s safe),
        ))
        (λ short. (ground arith, safe))

  -- No more than `max_marks` marks follow one another, `marks` of them before the text.
  abbrev pub IsCapped : ℕ → ℕ → Text → Type 0
  IsCapped max_marks marks [] = marks ≤ max_marks
  IsCapped max_marks marks (c ∷ s) =
      (marks ≤ max_marks) × IsCapped max_marks (if t.is_mark c then suc marks else 0) s

  cap_from-IsCapped :
      (max_marks marks : ℕ) (s : Text)
      → marks ≤ max_marks
      → IsCapped max_marks marks (cap_from t max_marks marks s)
  unfolding cap_from
  cap_from-IsCapped max_marks marks [] h = h
  cap_from-IsCapped max_marks marks (c ∷ s) h = elim (Bool-cases (t.is_mark c)) [
    | inl m ↦ rw m (
        if_split (IsCapped max_marks marks) (leb max_marks marks)
          (λ full. cap_from-IsCapped max_marks marks s h)
          (λ room. (h, rw m (cap_from-IsCapped max_marks (suc marks) s (ground arith)))))
    | inr m ↦ rw m (h, rw m (cap_from-IsCapped max_marks 0 s (omega arith)))
  ]

  IsCapped-le : (max_marks marks : ℕ) (s : Text) → IsCapped max_marks marks s → marks ≤ max_marks
  IsCapped-le max_marks marks [] h = h
  IsCapped-le max_marks marks (c ∷ s) h = h.0

  -- A text within the cap is left alone.
  cap_from-same :
      (max_marks marks : ℕ) (s : Text)
      → IsCapped max_marks marks s
      → cap_from t max_marks marks s ≡ s
  unfolding cap_from
  cap_from-same max_marks marks [] h = refl
  cap_from-same max_marks marks (c ∷ s) h =
      if_split (λ r. r ≡ c ∷ s) (t.is_mark c)
        (λ m.
          let next : IsCapped max_marks (suc marks) s =
            subst (λ q. IsCapped max_marks (if q then suc marks else 0) s) m h.1 in
          if_split (λ r. r ≡ c ∷ s) (leb max_marks marks)
            (λ full. absurd (ground (arith, IsCapped-le max_marks (suc marks) s next)))
            (λ room. ap (λ r. c ∷ r) (cap_from-same max_marks (suc marks) s next)))
        (λ no.
          let next : IsCapped max_marks 0 s =
            subst (λ q. IsCapped max_marks (if q then suc marks else 0) s) no h.1 in
          ap (λ r. c ∷ r) (cap_from-same max_marks 0 s next))

  -- In a text with capped marks no more than the wanted number of marks follow one another, and
  -- capping it again changes nothing.
  pub cap_marks-IsCapped :
      (s : Text) (max_marks : ℕ)
      → IsCapped max_marks 0 (cap_marks t s max_marks)
        × (cap_marks t (cap_marks t s max_marks) max_marks ≡ cap_marks t s max_marks)
  unfolding cap_marks
  cap_marks-IsCapped s max_marks =
      let capped = cap_from-IsCapped max_marks 0 s (omega arith) in
      (capped, cap_from-same max_marks 0 (cap_from t max_marks 0 s) capped)
