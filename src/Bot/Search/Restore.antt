-- ===== src/Bot/Search/Restore.antt =====
-- The lookahead makes and unmakes moves on one set: it hands the set back as it was, within its
-- budget of nodes.
use noitu.Prelude.{
  ℕ, zero, suc, ◌-◌, ◌≤◌, ◌≡◌, refl, ◌∙◌, false, not, List, [], ◌∷◌, arith, Text, same, same_refl,
  contains, null, leb, if◌then◌else◌, if_split, keep, All, All-take, Bool-cases, Option-cases, inl,
  inr,
}
use noitu.Prelude.Sorting.{sort, sort-All}
use noitu.Bot.{Board}
use noitu.Bot.Search.{
  Float, Search, Candidate, spent, mark, unmark, rate, tighter_candidate, branches, candidates,
  ordered, negamax, branch_cap,
}

keep-fresh :
    (w : Text) (ws : List Text) → contains ws w ≡ false → keep (λ v. not (same v w)) ws ≡ ws
unfolding contains
keep-fresh w [] h = refl
keep-fresh w (v ∷ ws) h = ground (arith, keep-fresh w ws)

-- Taking back a word that was not played in this line restores the line.
pub unmark-mark : (w : Text) (s : Search) → contains s.used w ≡ false → unmark w (mark w s) ≡ s
unfolding unmark mark
unmark-mark w s h = ground (arith, same_refl w, keep-fresh w s.used)

-- The line is the one before, and no more nodes are left.
pub record Kept (s t : Search) : Type 0 where
  pub used : t.used ≡ s.used
  pub budget : t.budget ≤ s.budget

rate-All :
    (b : Board) (s : Search) (P : Text → Type 0) (ws : List Text)
    → All P ws
    → All (λ (c : Candidate). P c.word) (rate b s ws)
unfolding rate
rate-All b s P [] a = tt
rate-All b s P (w ∷ ws) a = elim (Option-cases (b.last_syllable w)) [
  | inl l ↦ rw (l, All, rate) (rate-All b s P ws a.1)
  | inr (last, l) ↦ rw (l, All, rate) (a.0, rate-All b s P ws a.1)
]

module _ (fl : Float) (b : Board) where
  open fl use {F}

  candidates-fresh :
      (s : Search) (ws : List Text)
      → All (λ w. contains s.used w ≡ false) (keep (λ w. not (spent b s w)) ws)
  unfolding spent
  candidates-fresh s [] = tt
  candidates-fresh s (w ∷ ws) = elim (Bool-cases (spent b s w)) [
    | inl c ↦ rw c (candidates-fresh s ws)
    | inr c ↦ rw c (ground arith, candidates-fresh s ws)
  ]

  -- One move made, searched and unmade.
  after-Kept :
      (w : Text) (s t : Search)
      → contains s.used w ≡ false
      → Kept (mark w s) t
      → Kept s (unmark w t)
  unfolding mark unmark
  after-Kept w s t h k = record {
    used = rw k.used (ground (arith, same_refl w, keep-fresh w s.used h));
    budget = k.budget;
  }

  Kept-trans : (s t r : Search) → Kept s t → Kept t r → Kept s r
  Kept-trans s t r k l = record {
    used = l.used ∙ k.used;
    budget = omega (arith, k.budget, l.budget);
  }

  ordered-fresh :
      (s : Search) (ws : List Text)
      → All (λ w. contains s.used w ≡ false) ws
      → All (λ (c : Candidate). contains s.used c.word ≡ false) (ordered fl b s ws)
  unfolding ordered
  ordered-fresh s ws a = All-take _ branch_cap (sort tighter_candidate (rate b s ws)) (
      sort-All tighter_candidate _ (rate b s ws)
        (rate-All b s (λ w. contains s.used w ≡ false) ws a))

  branches-Kept :
      (call : Text → F → F → Search → F × Search) (cs : List Candidate) (best alpha beta : F)
      (s : Search)
      → ((last : Text) (a z : F) (t : Search) → Kept t (call last a z t).1)
      → All (λ (c : Candidate). contains s.used c.word ≡ false) cs
      → Kept s (branches fl b call cs best alpha beta s).1
  unfolding branches
  branches-Kept call [] best alpha beta s k a = record { used = refl; budget = omega arith }
  branches-Kept call (c ∷ cs) best alpha beta s k a =
      let after = (call c.last (fl.neg beta) (fl.neg alpha) (mark c.word s)).1 in
      let s' = unmark c.word after in
      let kept : Kept s s' =
        after-Kept c.word s after a.0 (k c.last (fl.neg beta) (fl.neg alpha) (mark c.word s)) in
      let still : All (λ (d : Candidate). contains s'.used d.word ≡ false) cs = rw kept.used a.1 in
      let score = fl.neg (call c.last (fl.neg beta) (fl.neg alpha) (mark c.word s)).0 in
      let best' = if fl.lt best score then score else best in
      let alpha' = if fl.lt alpha best' then best' else alpha in
      if_split (λ (r : F × Search). Kept s r.1) (not (fl.lt alpha' beta)) (λ cut. kept)
        (λ on.
          Kept-trans s s' (branches fl b call cs best' alpha' beta s').1 kept
            (branches-Kept call cs best' alpha' beta s' k still))

  -- A node pays one unit and leaves the line alone.
  paid-Kept : (s : Search) → Kept s (record s { budget = s.budget - 1 })
  paid-Kept s = record { used = refl; budget = omega arith }

  candidates_unspent :
      (current : Text) (s : Search)
      → All (λ w. contains s.used w ≡ false) (candidates fl b current s)
  unfolding candidates
  candidates_unspent current s = candidates-fresh s (b.words_starting_with current)

  -- The search hands back the set of words of its line as it was given, with no more nodes left
  -- in the budget than before.
  pub negamax-Kept :
      (depth : ℕ) (current : Text) (alpha beta : F) (s : Search)
      → Kept s (negamax fl b depth current alpha beta s).1
  unfolding negamax
  negamax-Kept zero current alpha beta s =
      if_split (λ (r : F × Search). Kept s r.1) (leb s.budget 0)
        (λ out. record { used = refl; budget = omega arith })
        λ on. if_split (λ (r : F × Search). Kept s r.1) _ (λ n. paid-Kept s) (λ n. paid-Kept s)
  negamax-Kept (suc depth) current alpha beta s =
      let s' : Search = record s { budget = s.budget - 1 } in
      let call : Text → F → F → Search → F × Search = λ last a z t. negamax fl b depth last a z t in
      let cs = ordered fl b s' (candidates fl b current s') in
      if_split (λ (r : F × Search). Kept s r.1) (leb s.budget 0)
        (λ out. record { used = refl; budget = omega arith })
        λ on.
          if_split (λ (r : F × Search). Kept s r.1) (null (candidates fl b current s'))
            (λ n. paid-Kept s)
            λ n.
              Kept-trans s s' (branches fl b call cs fl.lose_score alpha beta s').1 (paid-Kept s) (
                branches-Kept call cs fl.lose_score alpha beta s'
                  (λ last a z t. negamax-Kept depth last a z t)
                  (ordered-fresh s' (candidates fl b current s') (candidates_unspent current s')))
