-- ===== src/Game/Run/Leaving.antt =====
-- Resignations, finished games, and what a losing player is shown.
use noitu.Prelude.{
  ℕ, zero, suc, ◌-◌, leb, ◌≡◌, ◌≢◌, refl, Bool, true, false, not, ◌&&◌, List, [], ◌∷◌, arith, Text,
  same, same_iff, contains, length, length-take, take, min, keep, All, All-take, text_leb,
  text_leb_total, text_leb_trans, if◌then◌else◌, if_split, Bool-cases, inl, inr, ◌==◌,
}
use mathlib.Core.List.{Perm}
use noitu.Prelude.Sorting.{sort, IsSorted, sort-perm, sort-All, sort-IsSorted, length-sort}
use noitu.Vietnamese.{Unicode}
use noitu.Game.State.{PlayerId, Dictionary, end_resigned}
use noitu.Game.Engine.{
  Engine, turn, take_out, mark_out, crown, timeout, no_move, resign, after_resign, legal_moves,
  suggestions,
}
use noitu.Game.Engine.Invariant.{IsValid, eliminate_cases}
use noitu.Game.Submit.{submit}
use noitu.Game.Run.{Input, word, clock, stuck, leave, step, run}

module _ (dict : Dictionary) (u : Unicode) where
  step_over : (e : Engine) (i : Input) → e.over ≡ true → step dict u e i ≡ e
  unfolding step submit timeout no_move resign
  step_over e (word p raw now) o = ground arith
  step_over e (clock now) o = ground arith
  step_over e (stuck now) o = ground arith
  step_over e (leave p now) o = ground arith

  -- A finished game is not changed by any further inputs.
  pub run_over : (is : List Input) (e : Engine) → e.over ≡ true → run dict u e is ≡ e
  unfolding run
  run_over [] e o = refl
  run_over (i ∷ is) e o = rw (step_over e i o, run) (run_over is e o)

-- The turn and the clock of one engine are those of another.
record SameTurn (e e' : Engine) : Type 0 where
  turn_index : e'.turn_index ≡ e.turn_index
  deadline : e'.deadline ≡ e.deadline
  current : e'.current ≡ e.current
  to_act : turn e' ≡ turn e

take_out-SameTurn :
    (e : Engine) (i : ℕ) (p : PlayerId)
    → (e.turn_index == i) ≡ false
    → SameTurn e (take_out e i p end_resigned)
unfolding take_out crown mark_out turn
take_out-SameTurn e i p off = rw off (
    if_split (SameTurn e) (leb (e.alive_n - 1) 1)
      (λ o. record { turn_index = refl; deadline = refl; current = refl; to_act = refl })
      (λ o. record { turn_index = refl; deadline = refl; current = refl; to_act = refl }))

module _ (dict : Dictionary) where
  after_resign-SameTurn :
      (e t : Engine) (now : ℕ) → SameTurn e t → SameTurn e (after_resign dict t (turn e) now)
  unfolding after_resign
  after_resign-SameTurn e t now s =
      if_split (SameTurn e) (not t.over && not (same (turn t) (turn e)))
        (λ moved. absurd (ground (arith, s.to_act, same_iff (turn t) (turn e)))) (λ still. s)

  -- In a valid game that is on, a player who resigns out of turn moves neither the turn, nor the
  -- deadline, nor the syllable to answer.
  pub resign_behind :
      (e : Engine) (p : PlayerId) (now : ℕ)
      → IsValid e
      → e.over ≡ false
      → p ≢ turn e
      → ((resign dict e p now).0.turn_index ≡ e.turn_index)
        × ((resign dict e p now).0.deadline ≡ e.deadline)
        × ((resign dict e p now).0.current ≡ e.current)
  unfolding resign turn
  resign_behind e p now v playing off = let r = resigned in (r.turn_index, r.deadline, r.current)
    where
      resigned : SameTurn e (resign dict e p now).0
      resigned = elim (eliminate_cases e p end_resigned v) [
        | inl (i, here, named, same_as) ↦
            let other : (e.turn_index == i) ≡ false = ground arith in
            rw same_as (
              if_split (λ (r : Engine × Bool). SameTurn e r.0) e.over (λ o. absurd (cc))
                (λ o. after_resign-SameTurn e _ now (take_out-SameTurn e i p other)))
        | inr same_as ↦ rw same_as (
            if_split (λ (r : Engine × Bool). SameTurn e r.0) e.over (λ o. absurd (cc))
              (λ o. record { turn_index = refl; deadline = refl; current = refl; to_act = refl }))
      ]

  unused-All :
      (e : Engine) (ws : List Text)
      → All (λ w. contains e.used w ≡ false) (keep (λ w. not (contains e.used w)) ws)
  unused-All e [] = tt
  unused-All e (w ∷ ws) = elim (Bool-cases (contains e.used w)) [
    | inl c ↦ rw c (unused-All e ws)
    | inr c ↦ rw c (c, unused-All e ws)
  ]

  -- Suggestions are the first n of some ordering of all the legal moves by the order of texts, so
  -- n of them or all if there are fewer, and none was played before.
  pub suggestions_correct :
      (e : Engine) (n : ℕ)
      → ((ordered : List Text) × Perm ordered (legal_moves dict e)
          × IsSorted text_leb ordered
          × (suggestions dict e n ≡ take n ordered))
        × (length (suggestions dict e n) ≡ min n (length (legal_moves dict e)))
        × All (λ w. contains e.used w ≡ false) (suggestions dict e n)
  unfolding suggestions
  suggestions_correct e n =
      let ms = legal_moves dict e in
      let shown : (if n == 0 then [] else take n (sort text_leb ms)) ≡ take n (sort text_leb ms) =
        shown_take n (sort text_leb ms) in
      (
        (
          sort text_leb ms,
          sort-perm text_leb ms,
          sort-IsSorted text_leb text_leb_total text_leb_trans ms,
          shown,
        ),
        rw shown (omega (arith, length-take n (sort text_leb ms), length-sort text_leb ms)),
        rw shown (All-take _ n _ (sort-All text_leb _ ms unused)),
      )
    where
      shown_take : (k : ℕ) (ws : List Text) → (if k == 0 then [] else take k ws) ≡ take k ws
      shown_take zero ws = refl
      shown_take (suc k) ws = ground arith

      unused : All (λ w. contains e.used w ≡ false) (legal_moves dict e)
      unused = unfold legal_moves in unused-All e (dict.words_starting_with e.current)
