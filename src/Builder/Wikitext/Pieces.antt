-- ===== src/Builder/Wikitext/Pieces.antt =====
-- The parts of a template's body, put together again, and the shape of a language code.
use noitu.Prelude.{
  ℕ, suc, ◌+◌, ◌-◌, ◌≡◌, refl, sym, ap, ◌∙◌, Bool, true, false, ◌&&◌, List, [], ◌∷◌, ◌++◌,
  append_nil, append_assoc, Text, null, length, leb, ◌==◌, if_split, arith, Bool-cases, inl, inr,
}
use noitu.Builder.Wikitext.{join_with, split_on, push_first}
use noitu.Builder.Wikitext.Templates.{
  Brace, opens, closes, plain_text, curly_or_square, push_front, split_from, split_template,
  is_letter_az, lang_code_from, is_lang_code,
}

pub brace_split :
    {X : Type 0} (P : X → Type 0) (b : Brace) {x y z : X}
    → (b ≡ opens → P x)
    → (b ≡ closes → P y)
    → (b ≡ plain_text → P z)
    → P (elim b [ opens ↦ x | closes ↦ y | plain_text ↦ z ])
brace_split P opens f g h = f refl
brace_split P closes f g h = g refl
brace_split P plain_text f g h = h refl

abbrev pub bar : Text
bar = 124 ∷ []

join-push_front :
    (s : Text) (parts : List Text) → join_with bar (push_front s parts) ≡ s ++ join_with bar parts
unfolding join_with push_front
join-push_front s [] = sym (append_nil s)
join-push_front s (p ∷ []) = refl
join-push_front s (p ∷ (q ∷ rest)) = append_assoc s p _

null-push_front : (s : Text) (parts : List Text) → null (push_front s parts) ≡ false
unfolding push_front
null-push_front s [] = refl
null-push_front s (p ∷ parts) = refl

null-split_from : (depth : ℕ) (s : Text) → null (split_from depth s) ≡ false
unfolding split_from
null-split_from depth [] = refl
null-split_from depth (c ∷ []) =
    if_split (λ (r : List Text). null r ≡ false) (c == 124 && depth == 0) (λ y. refl) (λ n. refl)
null-split_from depth (c ∷ (d ∷ rest)) =
    brace_split (λ (r : List Text). null r ≡ false) (curly_or_square c d) (λ o. null-push_front _ _)
      (λ e. null-push_front _ _)
      (λ t.
        if_split (λ (r : List Text). null r ≡ false) (c == 124 && depth == 0) (λ y. refl)
          (λ n. null-push_front _ _))

join-bar :
    (parts : List Text)
    → null parts ≡ false
    → join_with bar ([] ∷ parts) ≡ 124 ∷ join_with bar parts
unfolding join_with
join-bar [] h = absurd (ground arith)
join-bar (p ∷ parts) h = refl

join-split_from : (depth : ℕ) (s : Text) → join_with bar (split_from depth s) ≡ s
unfolding split_from join_with
join-split_from depth [] = refl
join-split_from depth (c ∷ []) =
    if_split (λ (r : List Text). join_with bar r ≡ c ∷ []) (c == 124 && depth == 0)
      (λ y. ground arith) (λ n. refl)
join-split_from depth (c ∷ (d ∷ rest)) =
    let Good : List Text → Type 0 = λ (r : List Text). join_with bar r ≡ c ∷ (d ∷ rest) in
    brace_split Good (curly_or_square c d)
      (λ o.
        join-push_front (c ∷ (d ∷ [])) _ ∙ ap (λ r. c ∷ (d ∷ r)) (join-split_from (suc depth) rest))
      (λ e.
        join-push_front (c ∷ (d ∷ [])) _ ∙ ap (λ r. c ∷ (d ∷ r)) (join-split_from (depth - 1) rest))
      (λ t.
        let more = split_from depth (d ∷ rest) in
        if_split Good (c == 124 && depth == 0)
          (λ y.
            join-bar more (null-split_from depth (d ∷ rest))
            ∙ ap (λ r. 124 ∷ r) (join-split_from depth (d ∷ rest))
            ∙ ap (λ x. x ∷ (d ∷ rest)) (ground arith))
          (λ n. join-push_front (c ∷ []) more ∙ ap (λ r. c ∷ r) (join-split_from depth (d ∷ rest))))

-- The parts of a body, joined by bars, are the body.
pub join-split_template : (body : Text) → join_with bar (split_template body) ≡ body
unfolding split_template
join-split_template body = join-split_from 0 body

abbrev pub az_only : Text → Bool
az_only [] = true
az_only (c ∷ s) = is_letter_az c && az_only s

-- Groups of letters: two or three in the last one, two or more in each before it. The first one
-- counts so many letters more.
abbrev pub code_groups : ℕ → List Text → Bool
code_groups n [] = false
code_groups n (g ∷ []) = az_only g && (leb 2 (n + length g) && leb (n + length g) 3)
code_groups n (g ∷ (h ∷ rest)) = az_only g && (leb 2 (n + length g) && code_groups 0 (h ∷ rest))

code_groups-letter :
    (n c : ℕ) (groups : List Text)
    → null groups ≡ false
    → is_letter_az c ≡ true
    → code_groups n (push_first c groups) ≡ code_groups (suc n) groups
unfolding push_first
code_groups-letter n c [] h l = absurd (ground arith)
code_groups-letter n c (g ∷ []) h l = ground arith
code_groups-letter n c (g ∷ (i ∷ rest)) h l = ground arith

code_groups-other :
    (n c : ℕ) (groups : List Text)
    → is_letter_az c ≡ false
    → code_groups n (push_first c groups) ≡ false
unfolding push_first
code_groups-other n c [] l = ground arith
code_groups-other n c (g ∷ []) l = ground arith
code_groups-other n c (g ∷ (i ∷ rest)) l = ground arith

null-push_first : (c : ℕ) (pieces : List Text) → null (push_first c pieces) ≡ false
unfolding push_first
null-push_first c [] = refl
null-push_first c (p ∷ pieces) = refl

null-split_on : (s : Text) → null (split_on 45 s) ≡ false
unfolding split_on push_first
null-split_on [] = refl
null-split_on (c ∷ s) =
    if_split (λ (r : List Text). null r ≡ false) (c == 45) (λ y. refl)
      (λ n. null-push_first c (split_on 45 s))

code_groups-dash :
    (n : ℕ) (groups : List Text)
    → null groups ≡ false
    → code_groups n ([] ∷ groups) ≡ (leb 2 n && code_groups 0 groups)
code_groups-dash n [] h = absurd (ground arith)
code_groups-dash n (g ∷ rest) h = ground arith

lang_code_from-groups : (n : ℕ) (s : Text) → lang_code_from n s ≡ code_groups n (split_on 45 s)
unfolding lang_code_from split_on is_letter_az
lang_code_from-groups n [] = ground arith
lang_code_from-groups n (c ∷ s) =
    let rest = split_on 45 s in
    let some_rest = null-split_on s in
    elim (Bool-cases (is_letter_az c)) [
      | inl l ↦
          ground (arith, code_groups-letter n c rest some_rest l, lang_code_from-groups (suc n) s)
      | inr l ↦ ground (
        arith,
        code_groups-other n c rest l,
        code_groups-dash n rest some_rest,
        lang_code_from-groups 0 s,
      )
    ]

-- A language code is two to eleven runes in groups of letters joined by dashes.
pub is_lang_code-groups :
    (p : Text)
    → is_lang_code p ≡ (leb 2 (length p) && (leb (length p) 11 && code_groups 0 (split_on 45 p)))
unfolding is_lang_code
is_lang_code-groups p = ground (arith, lang_code_from-groups 0 p)
