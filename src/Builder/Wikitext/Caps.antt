-- ===== src/Builder/Wikitext/Caps.antt =====
-- The cap on a definition.
use mathlib.Core.Path.{subst}
use noitu.Prelude.{
  ℕ, zero, suc, ◌-◌, ◌≤◌, ◌<◌, ◌≡◌, refl, sym, ap, ◌∙◌, Bool, true, false, ◌&&◌, [], ◌∷◌, ◌++◌,
  append_nil, append_assoc, some, Text, codes, null, length, length-append, length-take, take, leb,
  ◌==◌, if_split, opt_split, arith, Bool-cases, Option-cases, inl, inr,
}
use noitu.Builder.Wikitext.{trim_end, has_rune_of, before_last}
use noitu.Builder.Wikitext.Links.{max_gloss_runes, ellipsis, to_last_space, cap_gloss}

-- A text and more of it.
abbrev pub Starts : Text → Text → Type 0
Starts front s = (rest : Text) × (s ≡ front ++ rest)

Starts-all : (s : Text) → Starts s s
Starts-all s = ([], sym (append_nil s))

Starts-both : (a b c : Text) → Starts a b → Starts b c → Starts a c
Starts-both a b c (r, x) (q, y) = (r ++ q, y ∙ ap (λ z. z ++ q) x ∙ append_assoc a r q)

Starts-push : (x : ℕ) (a b : Text) → Starts a b → Starts (x ∷ a) (x ∷ b)
Starts-push x a b (r, is) = (r, ap (λ s. x ∷ s) is)

trim_end-Starts : (cutset s : Text) → Starts (trim_end cutset s) s
unfolding trim_end
trim_end-Starts cutset [] = ([], refl)
trim_end-Starts cutset (c ∷ s) =
    if_split (λ (r : Text). Starts r (c ∷ s)) (null (trim_end cutset s) && has_rune_of cutset c)
      (λ y. (c ∷ s, refl)) (λ n. Starts-push c _ s (trim_end-Starts cutset s))

before_last-Starts : (r : ℕ) (s b : Text) → before_last r s ≡ some b → Starts b s
unfolding before_last
before_last-Starts r [] b is = absurd (ground arith)
before_last-Starts r (c ∷ s) b is = elim (Option-cases (before_last r s)) [
  | inr (before, found) ↦
      let one : c ∷ before ≡ b = ground arith in
      subst (λ (x : Text). Starts x (c ∷ s)) one
        (Starts-push c before s (before_last-Starts r s before found))
  | inl n ↦ elim (Bool-cases (c == r)) [
    | inl y ↦
        let empty : [] ≡ b = ground arith in
        subst (λ (x : Text). Starts x (c ∷ s)) empty (c ∷ s, refl)
    | inr z ↦ absurd (ground arith)
  ]
]

to_last_space-Starts : (s : Text) → Starts (to_last_space s) s
unfolding to_last_space
to_last_space-Starts s =
    opt_split (λ (r : Text). Starts r s) (before_last 32 s) (λ n. Starts-all s)
      (λ b found.
        if_split (λ (r : Text). Starts r s) (null b) (λ y. Starts-all s)
          (λ n. before_last-Starts 32 s b found))

take-Starts : (n : ℕ) (s : Text) → Starts (take n s) s
take-Starts zero s = (s, refl)
take-Starts (suc n) [] = ([], refl)
take-Starts (suc n) (c ∷ s) = Starts-push c _ s (take-Starts n s)

length-Starts : (a b : Text) → Starts a b → length a ≤ length b
length-Starts a b (r, is) = omega (arith, ap length is, length-append a r)

-- What is kept of a definition.
pub record IsCapped (s : Text) (a : Text × Bool) : Type 0 where
  pub bounded : length a.0 ≤ max_gloss_runes
  pub whole : length s ≤ max_gloss_runes → a ≡ (s, false)
  pub cut :
      max_gloss_runes < length s
      → (a.1 ≡ true) × (front : Text) × (a.0 ≡ front ++ ellipsis) × Starts front s

-- A definition is within the cap: as it was, or a front of it with an ellipsis.
pub cap_gloss-IsCapped : (s : Text) → IsCapped s (cap_gloss s)
unfolding cap_gloss
cap_gloss-IsCapped s =
    if_split (IsCapped s) (leb (length s) max_gloss_runes)
      (λ y. record {
        bounded = ground arith;
        whole = λ le. refl;
        cut = λ lt. absurd (ground arith);
      })
      (λ n.
        let head = take (max_gloss_runes - length ellipsis) s in
        let front = trim_end (codes " ,;:") (to_last_space head) in
        let begins =
          Starts-both front (to_last_space head) head
            (trim_end-Starts (codes " ,;:") (to_last_space head)) (to_last_space-Starts head) in
        let short = length-Starts front head begins in
        record {
          bounded = omega (arith, length-append front ellipsis, short, length-take 199 s);
          whole = λ le. absurd (ground arith);
          cut = λ lt. (refl, front, refl, Starts-both front head s begins (take-Starts 199 s));
        })
